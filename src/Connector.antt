-- ===== src/Connector.antt =====
-- app/integrations/csv_connector.py: `CSVConnector` over the rows that pandas reads from the file,
-- with missing cells dropped.
pub mod Convert
pub mod Registry
pub mod Files
use nexus_inventory_platform.Base.{
  ℕ, String, List, [], ◌∷◌, Option, none, some, Bool, str_eq, if◌then◌else◌, not, pos,
}
use nexus_inventory_platform.Text.{strip}
use nexus_inventory_platform.Dates.{DateTime}
use nexus_inventory_platform.Models.{
  TransactionType, NormalizedProduct, NormalizedTransaction, NormalizedBatch,
}
use nexus_inventory_platform.Values.{
  Runtime, Result, ok, raised, Raised, Value, Row, Mapping, ◌>>=◌, lookup, get, get_or, insert, str,
  truthy,
}
use Convert.{to_paise, to_int, to_transaction_type, to_date, to_datetime, apply_mapping}

abbrev pub default_product_mapping : Mapping
default_product_mapping =
    ("sku_code", "SKU Code")
    ∷ ("name", "Product Name")
    ∷ ("category", "Category")
    ∷ ("unit_of_measure", "UOM")
    ∷ ("unit_cost_paise", "Unit Cost")
    ∷ ("selling_price_paise", "Selling Price")
    ∷ []

abbrev pub default_transaction_mapping : Mapping
default_transaction_mapping =
    ("sku_code", "SKU Code")
    ∷ ("location_name", "Location")
    ∷ ("transaction_type", "Transaction Type")
    ∷ ("quantity", "Quantity")
    ∷ ("unit_cost_paise", "Unit Cost")
    ∷ ("reference_no", "Reference No")
    ∷ ("transaction_date", "Transaction Date")
    ∷ []

abbrev pub default_batch_mapping : Mapping
default_batch_mapping =
    ("sku_code", "SKU Code")
    ∷ ("batch_no", "Batch No")
    ∷ ("manufactured_date", "MFD")
    ∷ ("expiry_date", "EXP")
    ∷ ("quantity", "Quantity")
    ∷ ("location_name", "Location")
    ∷ []

-- d.setdefault(k, v)
set_default : String → Value → Row → Row
unfolding lookup insert
set_default k v row = elim (lookup k row) [ none ↦ insert k v row | some w ↦ row ]

-- What `sync.py` passes to the connector.
pub record Config : Type 0 where
  pub file_path : String
  pub mappings : List (String × Mapping)
  pub entity_type : String

unfoldable pub mapping_for : String → Mapping → Config → Mapping
unfolding lookup
mapping_for k d c = elim (lookup k c.mappings) [ none ↦ d | some m ↦ m ]

-- What an `async for` over a generator sees: the records in order, and the exception that ended it.
pub data Stream {ℓ} (A : Type ℓ) : Type ℓ where
  done : Stream A
  failing : Raised → Stream A
  yields : A → Stream A → Stream A

-- A generator that maps each row; an exception ends it.
unfoldable pub stream {ℓ} : {A : Type ℓ} → (Row → Result A) → List Row → Stream A
stream f [] = done
stream f (row ∷ rows) =
    let rest = stream f rows in elim (f row) [ ok a ↦ yields a rest | raised e ↦ failing e ]

module _ (py : Runtime) where
  unfoldable pub product_defaults : Row → Row
  unfolding set_default
  product_defaults mapped = set_default "selling_price_paise" (Value.int (pos 0)) (
      set_default "unit_cost_paise" (Value.int (pos 0)) (
        set_default "unit_of_measure" (Value.text "pcs")
          (set_default "name" (Value.text "") (set_default "sku_code" (Value.text "") mapped))))

  -- str(v).strip() if v else None
  unfoldable pub optional_text : Value → Option String
  unfolding truthy str strip
  optional_text v = if truthy py v then some (strip (str py v)) else none

  unfoldable pub map_to_product : Row → Mapping → Result NormalizedProduct
  unfolding product_defaults optional_text apply_mapping to_paise get str
  map_to_product row mapping = do
    let mapped = product_defaults (apply_mapping py row mapping)
    cost ← to_paise py (get "unit_cost_paise" mapped)
    price ← to_paise py (get "selling_price_paise" mapped)
    ok (record {
      sku_code = strip (str py (get "sku_code" mapped));
      name = strip (str py (get "name" mapped));
      category = optional_text (get "category" mapped);
      unit_of_measure = strip (str py (get "unit_of_measure" mapped));
      unit_cost_paise = cost;
      selling_price_paise = price;
      industry_attributes = [];
    })

  -- `now` is the instant that `datetime.now(UTC)` returns.
  unfoldable pub map_to_transaction : DateTime → Row → Mapping → Result NormalizedTransaction
  unfolding optional_text apply_mapping to_paise to_int to_transaction_type to_datetime get get_or
      str
  map_to_transaction now row mapping = do
    let mapped = apply_mapping py row mapping
    quantity ← to_int py (get_or "quantity" mapped (Value.int (pos 0)))
    cost ← to_paise py (get_or "unit_cost_paise" mapped (Value.int (pos 0)))
    ok (record {
      sku_code = strip (str py (get_or "sku_code" mapped (Value.text "")));
      location_name = strip (str py (get_or "location_name" mapped (Value.text "")));
      transaction_type =
          to_transaction_type py
            (get_or "transaction_type" mapped (Value.member TransactionType.in_));
      quantity = quantity;
      unit_cost_paise = cost;
      reference_no = optional_text (get "reference_no" mapped);
      transaction_date = to_datetime py now (get "transaction_date" mapped);
    })

  unfoldable pub map_to_batch : Row → Mapping → Result NormalizedBatch
  unfolding optional_text apply_mapping to_int to_date get get_or str
  map_to_batch row mapping = do
    let mapped = apply_mapping py row mapping
    quantity ← to_int py (get_or "quantity" mapped (Value.int (pos 0)))
    ok (record {
      sku_code = strip (str py (get_or "sku_code" mapped (Value.text "")));
      batch_no = strip (str py (get_or "batch_no" mapped (Value.text "")));
      manufactured_date = to_date py (get "manufactured_date" mapped);
      expiry_date = to_date py (get "expiry_date" mapped);
      quantity = quantity;
      location_name = optional_text (get "location_name" mapped);
    })

  -- `read` is what pandas makes of the file: its rows without the missing cells, or an exception.
  unfoldable pub fetch_products : Config → Result (List Row) → Stream NormalizedProduct
  unfolding mapping_for map_to_product stream
  fetch_products c read = if not (str_eq c.entity_type "products") then done else elim read [
    | raised e ↦ failing e
    | ok rows ↦
        stream (λ row. map_to_product row (mapping_for "products" default_product_mapping c)) rows
  ]

  unfoldable pub fetch_transactions :
      DateTime → Config → Result (List Row) → Stream NormalizedTransaction
  unfolding mapping_for map_to_transaction stream
  fetch_transactions now c read =
      if not (str_eq c.entity_type "transactions") then done else elim read [
        | raised e ↦ failing e
        | ok rows ↦
            stream
              (λ row.
                map_to_transaction now row
                  (mapping_for "transactions" default_transaction_mapping c))
              rows
      ]

  unfoldable pub fetch_batches : Config → Result (List Row) → Stream NormalizedBatch
  unfolding mapping_for map_to_batch stream
  fetch_batches c read = if not (str_eq c.entity_type "batches") then done else elim read [
    | raised e ↦ failing e
    | ok rows ↦
        stream (λ row. map_to_batch row (mapping_for "batches" default_batch_mapping c)) rows
  ]
