-- ===== src/Sync/Rows.antt =====
-- app/services/sync.py: the rows that the sync loops hand to `DataNormalizer`, and what it makes of them.
pub mod Screened
pub mod Fetched
use nexus_inventory_platform.Base.{String, Option, none, some, List, [], ◌∷◌}
use nexus_inventory_platform.Dates.{Date}
use nexus_inventory_platform.Models.{NormalizedProduct, NormalizedTransaction, NormalizedBatch}
use nexus_inventory_platform.Values.{Value, Row}

abbrev pub text_or_null : Option String → Value
text_or_null none = Value.null
text_or_null (some s) = Value.text s

abbrev pub date_or_null : Option Date → Value
date_or_null none = Value.null
date_or_null (some d) = Value.date d

unfoldable pub product_row : NormalizedProduct → Row
product_row np =
    ("sku_code", Value.text np.sku_code)
    ∷ ("name", Value.text np.name)
    ∷ ("category", text_or_null np.category)
    ∷ ("unit_of_measure", Value.text np.unit_of_measure)
    ∷ ("unit_cost_paise", Value.int np.unit_cost_paise)
    ∷ ("selling_price_paise", Value.int np.selling_price_paise)
    ∷ ("industry_attributes", Value.dict np.industry_attributes)
    ∷ []

unfoldable pub transaction_row : NormalizedTransaction → Row
transaction_row txn =
    ("sku_code", Value.text txn.sku_code)
    ∷ ("location_name", Value.text txn.location_name)
    ∷ ("transaction_type", Value.member txn.transaction_type)
    ∷ ("quantity", Value.int txn.quantity)
    ∷ ("unit_cost_paise", Value.int txn.unit_cost_paise)
    ∷ ("reference_no", text_or_null txn.reference_no)
    ∷ ("transaction_date", Value.datetime txn.transaction_date)
    ∷ []

unfoldable pub batch_row : NormalizedBatch → Row
batch_row batch =
    ("sku_code", Value.text batch.sku_code)
    ∷ ("batch_no", Value.text batch.batch_no)
    ∷ ("manufactured_date", date_or_null batch.manufactured_date)
    ∷ ("expiry_date", date_or_null batch.expiry_date)
    ∷ ("quantity", Value.int batch.quantity)
    ∷ ("location_name", text_or_null batch.location_name)
    ∷ []
