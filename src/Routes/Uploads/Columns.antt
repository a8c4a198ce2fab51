-- ===== src/Routes/Uploads/Columns.antt =====
-- The columns of an upload, from the form of app/routes/integrations.py to the connector of
-- app/integrations/csv_connector.py and the files of integrations/marg_hook/nexus_marg_sync.py.
use nexus_inventory_platform.Base.{ℕ, some, String, List, ◌∷◌, map, ◌≡◌, refl}
use nexus_inventory_platform.Dates.{DateTime}
use nexus_inventory_platform.Values.{Runtime, Result, Row, Mapping, lookup}
use nexus_inventory_platform.Connector.{
  Config, fetch_products, fetch_transactions, fetch_batches, default_product_mapping,
  default_transaction_mapping, default_batch_mapping,
}
use nexus_inventory_platform.Marg.{product_headers, batch_headers, transaction_headers}
use nexus_inventory_platform.Sync.Loop.{
  Job, process_products, process_transactions, process_batches,
}
use nexus_inventory_platform.Sync.Process.{Sessions}
use nexus_inventory_platform.Routes.Uploads.{
  EntityType, products, transactions, batches, entity_value, Form, default_form,
  csv_mapping_from_form,
}
use nexus_inventory_platform.Routes.Uploads.Status.{download_template}

-- Each field of an entity is read from the column that the form names for it.
abbrev pub Reads : EntityType → Form → Mapping → Type 0
Reads products form m =
    (lookup "sku_code" m ≡ some form.product_sku_code_column)
    × (lookup "name" m ≡ some form.product_name_column)
    × (lookup "category" m ≡ some form.product_category_column)
    × (lookup "unit_of_measure" m ≡ some form.product_unit_of_measure_column)
    × (lookup "unit_cost_paise" m ≡ some form.product_unit_cost_column)
    × (lookup "selling_price_paise" m ≡ some form.product_selling_price_column)
Reads transactions form m =
    (lookup "sku_code" m ≡ some form.transaction_sku_code_column)
    × (lookup "location_name" m ≡ some form.transaction_location_column)
    × (lookup "transaction_type" m ≡ some form.transaction_type_column)
    × (lookup "quantity" m ≡ some form.transaction_quantity_column)
    × (lookup "unit_cost_paise" m ≡ some form.transaction_unit_cost_column)
    × (lookup "reference_no" m ≡ some form.transaction_reference_column)
    × (lookup "transaction_date" m ≡ some form.transaction_date_column)
Reads batches form m =
    (lookup "sku_code" m ≡ some form.batch_sku_code_column)
    × (lookup "batch_no" m ≡ some form.batch_no_column)
    × (lookup "manufactured_date" m ≡ some form.batch_manufactured_date_column)
    × (lookup "expiry_date" m ≡ some form.batch_expiry_date_column)
    × (lookup "quantity" m ≡ some form.batch_quantity_column)
    × (lookup "location_name" m ≡ some form.batch_location_column)

-- The loop of an entity, over what the connector fetches of it.
abbrev pub entity_loop :
    {S : Type 0}
    → Runtime
    → Sessions S
    → ℕ
    → DateTime
    → EntityType
    → Config
    → Result (List Row)
    → Job S
    → Result (Unit {0}) × Job S
entity_loop py sessions t now products config rows =
    process_products py sessions.database t (fetch_products py config rows)
entity_loop py sessions t now transactions config rows =
    process_transactions py sessions.database t (fetch_transactions py now config rows)
entity_loop py sessions t now batches config rows =
    process_batches py sessions.database t (fetch_batches py config rows)

-- The connector's own mapping of each entity, and the header of the file that the Marg hook writes.
abbrev connector_default : EntityType → Mapping
connector_default products = default_product_mapping
connector_default transactions = default_transaction_mapping
connector_default batches = default_batch_mapping

abbrev marg_headers : EntityType → List String
marg_headers products = product_headers
marg_headers transactions = transaction_headers
marg_headers batches = batch_headers

-- For each entity, a form left at its defaults gives the connector's own default mapping, and the columns
-- that this reads are those of the Marg hook's files, in their order.
default_form_columns :
    (e : EntityType)
    → (csv_mapping_from_form (entity_value e) default_form ≡ connector_default e)
      × (map (λ (x : String × String). x.1) (connector_default e) ≡ marg_headers e)
unfolding csv_mapping_from_form entity_value
default_form_columns products = (refl, refl)
default_form_columns transactions = (refl, refl)
default_form_columns batches = (refl, refl)

-- The header of the template is that of the products.
test_template : (rest : List (List String)) × (download_template ≡ product_headers ∷ rest)
test_template = (_, refl)
