-- ===== src/Sync/Rows/Fetched.antt =====
-- The connector of app/integrations/csv_connector.py and the normalizer together: what the one yields is
-- stripped, so the other takes each record as it is.
use nexus_inventory_platform.Base.{
  List, [], ◌∷◌, Bool, true, false, if◌then◌else◌, ◌≡◌, refl, Bool-cases, inl, inr, subst, pos,
}
use nexus_inventory_platform.Text.Strip.{strip-strip}
use nexus_inventory_platform.Dates.{DateTime}
use nexus_inventory_platform.Models.{NormalizedProduct, NormalizedTransaction, NormalizedBatch}
use nexus_inventory_platform.Values.{
  Runtime, Result, ok, raised, Value, Row, Mapping, get, get_or, truthy, str, >>=-eq-ok,
}
use nexus_inventory_platform.Exec.Ensures.{ok-injective}
use nexus_inventory_platform.Normalizer.Rows.{
  normalize_product, normalize_transaction, normalize_batch,
}
use nexus_inventory_platform.Connector.{
  Config, mapping_for, default_product_mapping, default_transaction_mapping, default_batch_mapping,
  product_defaults, Stream, done, failing, yields, stream, optional_text, map_to_product,
  map_to_transaction, map_to_batch, fetch_products, fetch_transactions, fetch_batches,
}
use nexus_inventory_platform.Connector.Convert.{to_paise, to_int, apply_mapping}
use nexus_inventory_platform.Sync.Rows.{product_row, transaction_row, batch_row}
use nexus_inventory_platform.Sync.Rows.Screened.{
  IsStripped?, screened_product, screened_transaction, screened_batch, normalize-product_row,
  normalize-transaction_row, normalize-batch_row,
}

-- A predicate on every record that a stream yields.
abbrev pub Every : {A : Type 0} → (A → Type 0) → Stream A → Type 0
Every P done = Unit
Every P (failing e) = Unit
Every P (yields a rest) = P a × Every P rest

stream-Every :
    {A : Type 0} (P : A → Type 0) (f : Row → Result A)
    → ((row : Row) (a : A) → f row ≡ ok a → P a)
    → (rows : List Row) → Every P (stream f rows)
unfolding stream
stream-Every P f h [] = tt
stream-Every {A} P f h (row ∷ rows) = go (f row) (h row) (stream-Every P f h rows)
  where
    go :
        (r : Result A)
        → ((a : A) → r ≡ ok a → P a)
        → Every P (stream f rows)
        → Every P (elim r [ ok a ↦ yields a (stream f rows) | raised e ↦ failing e ])
    go (ok a) k later = (k a refl, later)
    go (raised e) k later = tt

module _ (py : Runtime) where
  optional_text-IsStripped? : (v : Value) → IsStripped? (optional_text py v)
  unfolding optional_text
  optional_text-IsStripped? v = elim (Bool-cases (truthy py v)) [
    | inl e ↦ rw e (strip-strip (str py v))
    | inr e ↦ rw e tt
  ]

  -- Each record that the connector maps from a row comes back from the normalizer as it is, but for
  -- blank fields.
  abbrev pub IsProduct : NormalizedProduct → Type 0
  IsProduct p = normalize_product py (product_row p) [] ≡ screened_product p

  map_to_product-IsProduct :
      (row : Row) (mapping : Mapping) (p : NormalizedProduct)
      → map_to_product py row mapping ≡ ok p
      → IsProduct p
  unfolding map_to_product
  map_to_product-IsProduct row mapping p h =
      let mapped = product_defaults py (apply_mapping py row mapping) in
      let (cost, hc, h1) = >>=-eq-ok (to_paise py (get "unit_cost_paise" mapped)) _ h in
      let (price, hp, h2) = >>=-eq-ok (to_paise py (get "selling_price_paise" mapped)) _ h1 in
      subst IsProduct (ok-injective h2) (
        normalize-product_row py _ (strip-strip (str py (get "sku_code" mapped)))
          (strip-strip (str py (get "name" mapped)))
          (optional_text-IsStripped? (get "category" mapped))
          (strip-strip (str py (get "unit_of_measure" mapped))))

  abbrev pub IsTransaction : NormalizedTransaction → Type 0
  IsTransaction t = normalize_transaction py (transaction_row t) [] ≡ screened_transaction t

  map_to_transaction-IsTransaction :
      (now : DateTime) (row : Row) (mapping : Mapping) (t : NormalizedTransaction)
      → map_to_transaction py now row mapping ≡ ok t
      → IsTransaction t
  unfolding map_to_transaction
  map_to_transaction-IsTransaction now row mapping t h =
      let mapped = apply_mapping py row mapping in
      let blank = Value.text "" in
      let zero_int = Value.int (pos 0) in
      let (quantity, hq, h1) = >>=-eq-ok (to_int py (get_or "quantity" mapped zero_int)) _ h in
      let (cost, hc, h2) =
        >>=-eq-ok (to_paise py (get_or "unit_cost_paise" mapped zero_int)) _ h1 in
      subst IsTransaction (ok-injective h2) (
        normalize-transaction_row py _ (strip-strip (str py (get_or "sku_code" mapped blank)))
          (strip-strip (str py (get_or "location_name" mapped blank)))
          (optional_text-IsStripped? (get "reference_no" mapped)))

  abbrev pub IsBatch : NormalizedBatch → Type 0
  IsBatch b = normalize_batch py (batch_row b) [] ≡ screened_batch b

  map_to_batch-IsBatch :
      (row : Row) (mapping : Mapping) (b : NormalizedBatch)
      → map_to_batch py row mapping ≡ ok b
      → IsBatch b
  unfolding map_to_batch
  map_to_batch-IsBatch row mapping b h =
      let mapped = apply_mapping py row mapping in
      let blank = Value.text "" in
      let (quantity, hq, h1) =
        >>=-eq-ok (to_int py (get_or "quantity" mapped (Value.int (pos 0)))) _ h in
      subst IsBatch (ok-injective h1) (
        normalize-batch_row py _ (strip-strip (str py (get_or "sku_code" mapped blank)))
          (strip-strip (str py (get_or "batch_no" mapped blank)))
          (optional_text-IsStripped? (get "location_name" mapped)))

  stream_or_none :
      {A : Type 0} (P : A → Type 0) (f : Row → Result A)
      → ((row : Row) (a : A) → f row ≡ ok a → P a)
      → (skip : Bool) (read : Result (List Row))
      → Every P
          (if skip then done else elim read [ raised e ↦ failing e | ok rows ↦ stream f rows ])
  stream_or_none P f h true read = tt
  stream_or_none P f h false (raised e) = tt
  stream_or_none P f h false (ok rows) = stream-Every P f h rows

  -- Every record that the connector yields, for each of the three entities, comes back from the
  -- normalizer as the connector read it, but for blank fields, or is refused for a blank key: the
  -- second validation loses nothing.
  pub fetch-screened :
      (now : DateTime) (c : Config) (read : Result (List Row))
      → Every IsProduct (fetch_products py c read)
        × Every IsTransaction (fetch_transactions py now c read)
        × Every IsBatch (fetch_batches py c read)
  unfolding fetch_products fetch_transactions fetch_batches
  fetch-screened now c read = (
    stream_or_none IsProduct _
        (λ row. map_to_product-IsProduct row (mapping_for "products" default_product_mapping c)) _
        read,
    stream_or_none IsTransaction _
        (λ row.
          map_to_transaction-IsTransaction now row
            (mapping_for "transactions" default_transaction_mapping c))
        _ read,
    stream_or_none IsBatch _
        (λ row. map_to_batch-IsBatch row (mapping_for "batches" default_batch_mapping c)) _ read,
  )
