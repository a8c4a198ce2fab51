-- ===== src/Normalizer/Store.antt =====
-- app/integrations/normalizer.py: the upsert methods and the resolution helpers of `DataNormalizer`.
pub mod Invariant
pub mod Writes
pub mod Methods
pub mod Replay
pub mod Resolved
use nexus_inventory_platform.Base.{
  ℕ, String, List, [], ◌∷◌, Option, none, some, str_eq, if◌then◌else◌,
}
use nexus_inventory_platform.Dates.{DateTime}
use nexus_inventory_platform.Models.{
  TransactionType, NormalizedProduct, NormalizedInventoryRecord, NormalizedTransaction,
  NormalizedBatch,
}
use nexus_inventory_platform.Values.{
  Raised, Result, ok, raised, normalization_error, product_not_found, or_raise, lookup, insert,
}
use nexus_inventory_platform.Exec.{Exec, pure, lift, modify, cached, ◌>>=◌}
use nexus_inventory_platform.Normalizer.Database.{
  Product, Location, TransactionValues, Transaction, Batch, Statement, Answer, Database,
}

-- `self`: the session, and the caches by SKU and by location name.
pub record Normalizer (S : Type 0) : Type 0 where
  pub db : S
  pub product_cache : List (String × Product)
  pub location_cache : List (String × Location)

-- Result.scalar_one_or_none()
unfoldable pub scalar_one_or_none {ℓ} : {A : Type ℓ} → List A → Result (Option A)
scalar_one_or_none [] = ok none
scalar_one_or_none (a ∷ []) = ok (some a)
scalar_one_or_none (a ∷ b ∷ rest) = raised Raised.multiple_results

module _ {S : Type 0} (db : Database S) (tenant_id : ℕ) where
  abbrev pub M : Type 0 → Type 0
  M A = Exec (Normalizer S) A

  unfoldable pub execute : (q : Statement) → M (Answer q)
  execute q s = ((db.execute q s.db).0, record s { db = (db.execute q s.db).1 })

  unfoldable pub cache_product : String → Product → M Unit
  unfolding insert
  cache_product k p = modify (λ s. record s { product_cache = insert k p s.product_cache })

  unfoldable pub cache_location : String → Location → M Unit
  unfolding insert
  cache_location k l = modify (λ s. record s { location_cache = insert k l s.location_cache })

  unfoldable pub fetch_product : String → M Product
  unfolding execute scalar_one_or_none cache_product
  fetch_product sku_code = do
    rows ← execute (Statement.select_products tenant_id sku_code)
    found ← lift (scalar_one_or_none rows)
    product ← lift (or_raise (normalization_error (product_not_found sku_code)) found)
    _ ← cache_product sku_code product
    pure product

  unfoldable pub resolve_product : String → M Product
  unfolding fetch_product lookup
  resolve_product sku_code s = cached (lookup sku_code s.product_cache) (fetch_product sku_code) s

  unfoldable pub location_or_new : String → Option Location → M Location
  unfolding execute
  location_or_new name (some location) = pure location
  location_or_new name none = execute (Statement.insert_location tenant_id name)

  unfoldable pub fetch_location : String → M Location
  unfolding execute scalar_one_or_none location_or_new cache_location
  fetch_location name = do
    rows ← execute (Statement.select_locations tenant_id name)
    found ← lift (scalar_one_or_none rows)
    location ← location_or_new name found
    _ ← cache_location name location
    pure location

  unfoldable pub resolve_location : String → M Location
  unfolding fetch_location lookup
  resolve_location name s = cached (lookup name s.location_cache) (fetch_location name) s

  unfoldable pub upsert_product : NormalizedProduct → M Product
  unfolding execute cache_product
  upsert_product normalized = do
    product ← execute (Statement.upsert_product tenant_id normalized)
    _ ← cache_product normalized.sku_code product
    pure product

  -- An inventory position becomes an "in" transaction of the present instant.
  unfoldable pub upsert_inventory :
      DateTime → NormalizedInventoryRecord → Product → Location → M Transaction
  unfolding execute
  upsert_inventory now r product location = execute (
      Statement.insert_transaction (record {
        tenant_id = tenant_id;
        product_id = product.id;
        location_id = location.id;
        transaction_type = TransactionType.in_;
        quantity = r.quantity;
        unit_cost_paise = r.unit_cost_paise;
        reference_no = none;
        transaction_date = now;
      }))

  abbrev pub transaction_values : NormalizedTransaction → Product → Location → TransactionValues
  transaction_values n product location = record {
    tenant_id = tenant_id;
    product_id = product.id;
    location_id = location.id;
    transaction_type = n.transaction_type;
    quantity = n.quantity;
    unit_cost_paise = n.unit_cost_paise;
    reference_no = n.reference_no;
    transaction_date = n.transaction_date;
  }

  unfoldable pub transaction_or_new : TransactionValues → Option Transaction → M Transaction
  unfolding execute
  transaction_or_new v (some transaction) = pure transaction
  transaction_or_new v none = execute (Statement.insert_transaction v)

  -- The existing transaction with these values, or a new one.
  unfoldable pub record_transaction : TransactionValues → M Transaction
  unfolding execute scalar_one_or_none transaction_or_new
  record_transaction v = do
    rows ← execute (Statement.select_transactions v)
    existing ← lift (scalar_one_or_none rows)
    transaction_or_new v existing

  unfoldable pub create_transaction : NormalizedTransaction → M Transaction
  unfolding resolve_product resolve_location record_transaction
  create_transaction normalized = do
    product ← resolve_product normalized.sku_code
    location ← resolve_location normalized.location_name
    record_transaction (transaction_values normalized product location)

  -- A batch with no location name, or an empty one, has no location.
  unfoldable pub optional_location : Option String → M (Option Location)
  unfolding resolve_location
  optional_location none = pure none
  optional_location (some name) =
      if str_eq name ""
      then pure none
      else resolve_location name >>= λ location. pure (some location)

  unfoldable pub upsert_batch : NormalizedBatch → M Batch
  unfolding resolve_product optional_location execute
  upsert_batch normalized = do
    product ← resolve_product normalized.sku_code
    location ← optional_location normalized.location_name
    execute (
        Statement.upsert_batch (record {
          tenant_id = tenant_id;
          product_id = product.id;
          batch_no = normalized.batch_no;
          manufactured_date = normalized.manufactured_date;
          expiry_date = normalized.expiry_date;
          quantity = normalized.quantity;
          location_id = elim location [ none ↦ none | some l ↦ some l.id ];
        }))
