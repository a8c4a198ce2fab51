-- ===== src/Sync/Rows/Screened.antt =====
-- A record whose texts are stripped comes back from `DataNormalizer` as it went in, but for blank
-- fields, or is refused for a missing field.
use nexus_inventory_platform.Base.{
  String, Option, none, some, [], ◌≡◌, refl, Bool-cases, inl, inr, str_eq, if◌then◌else◌, arith,
}
use nexus_inventory_platform.Text.{strip, lower}
use nexus_inventory_platform.Models.{
  NormalizedProduct, NormalizedTransaction, NormalizedBatch, TransactionType, transaction_type,
  transaction_type_value,
}
use nexus_inventory_platform.Values.{
  Runtime, Result, ok, raised, normalization_error, missing_field, Row, Value, get, str,
}
use nexus_inventory_platform.Normalizer.Rows.{
  normalize_product, normalize_transaction, normalize_batch, optional_text, or_else,
}
use nexus_inventory_platform.Sync.Rows.{text_or_null, product_row, transaction_row, batch_row}

abbrev pub IsStripped : String → Type 0
IsStripped s = strip s ≡ s

abbrev pub IsStripped? : Option String → Type 0
IsStripped? none = Unit
IsStripped? (some s) = strip s ≡ s

abbrev pub missing {ℓ} : {A : Type ℓ} → String → Result A
missing k = raised (normalization_error (missing_field k))

-- An empty text counts as no text.
abbrev pub present : Option String → Option String
present none = none
present (some s) = if str_eq s "" then none else some s

abbrev pub screened_product : NormalizedProduct → Result NormalizedProduct
screened_product p =
    if str_eq p.sku_code ""
    then missing "sku_code"
    else if str_eq p.name ""
    then missing "name"
    else ok (record p {
      category = present p.category;
      unit_of_measure = if str_eq p.unit_of_measure "" then "pcs" else p.unit_of_measure;
    })

abbrev pub screened_transaction : NormalizedTransaction → Result NormalizedTransaction
screened_transaction t =
    if str_eq t.sku_code ""
    then missing "sku_code"
    else if str_eq t.location_name ""
    then missing "location_name"
    else ok (record t { reference_no = present t.reference_no })

abbrev pub screened_batch : NormalizedBatch → Result NormalizedBatch
screened_batch b =
    if str_eq b.sku_code ""
    then missing "sku_code"
    else if str_eq b.batch_no ""
    then missing "batch_no"
    else ok (record b { location_name = present b.location_name })

strip-pcs : strip "pcs" ≡ "pcs"
unfolding strip
strip-pcs = refl

member_text :
    (t : TransactionType) → transaction_type (lower (strip (transaction_type_value t))) ≡ some t
unfolding strip lower transaction_type_value transaction_type
member_text TransactionType.in_ = refl
member_text TransactionType.out = refl
member_text TransactionType.transfer = refl
member_text TransactionType.return_ = refl
member_text TransactionType.adjustment = refl

module _ (py : Runtime) where
  optional-present :
      (k : String) (row : Row) (o : Option String)
      → get k row ≡ text_or_null o
      → IsStripped? o
      → optional_text py k row ≡ present o
  unfolding optional_text
  optional-present k row none e h = rw e
  optional-present k row (some s) e h = rw e (ground (arith, h))

  unit-or_else :
      (u : String)
      → IsStripped u
      → strip (str py (or_else py (Value.text u) (Value.text "pcs")))
        ≡ (if str_eq u "" then "pcs" else u)
  unfolding or_else str
  unit-or_else u h = elim (Bool-cases (str_eq u "")) [ inl e ↦ rw e strip-pcs | inr e ↦ rw e h ]

  -- A product whose SKU, name, category and unit are stripped comes back from the normalizer unchanged,
  -- but for a blank category (absent) and a blank unit ("pcs"); a blank SKU or name is refused.
  pub normalize-product_row :
      (p : NormalizedProduct)
      → IsStripped p.sku_code
      → IsStripped p.name
      → IsStripped? p.category
      → IsStripped p.unit_of_measure
      → normalize_product py (product_row p) [] ≡ screened_product p
  unfolding normalize_product product_row
  normalize-product_row p s n c u = ground (
    arith,
    optional-present "category" (product_row p) p.category refl c,
    s,
    n,
    unit-or_else p.unit_of_measure u,
  )

  -- A transaction whose SKU, location and reference are stripped comes back unchanged, its type, numbers
  -- and date included, but for a blank reference (absent); a blank SKU or location is refused.
  pub normalize-transaction_row :
      (t : NormalizedTransaction)
      → IsStripped t.sku_code
      → IsStripped t.location_name
      → IsStripped? t.reference_no
      → normalize_transaction py (transaction_row t) [] ≡ screened_transaction t
  unfolding normalize_transaction transaction_row
  normalize-transaction_row t s l r = ground (
    arith,
    optional-present "reference_no" (transaction_row t) t.reference_no refl r,
    s,
    l,
    member_text t.transaction_type,
  )

  -- A batch whose SKU, number and location are stripped comes back unchanged, its dates included, but
  -- for a blank location (absent); a blank SKU or number is refused.
  pub normalize-batch_row :
      (b : NormalizedBatch)
      → IsStripped b.sku_code
      → IsStripped b.batch_no
      → IsStripped? b.location_name
      → normalize_batch py (batch_row b) [] ≡ screened_batch b
  unfolding normalize_batch batch_row
  normalize-batch_row b s n l =
      ground (arith, optional-present "location_name" (batch_row b) b.location_name refl l, s, n)
