-- ===== src/Sync/Loop/Keeps.antt =====
-- Whatever every statement of the tenant keeps of the session, the loops keep.
use nexus_inventory_platform.Base.{
  ℕ, String, Option, none, some, str_eq, ◌≡◌, refl, Bool-cases, inl, inr,
}
use nexus_inventory_platform.Values.{Runtime, Result, lookup, or_raise}
use nexus_inventory_platform.Exec.{Exec, lift, ◌>>=◌}
use nexus_inventory_platform.Exec.Ensures.{
  Ensures, Ensures-pure, Ensures-lift, Ensures-modify, Ensures-bind, Ensures-cached,
}
use nexus_inventory_platform.Models.{NormalizedProduct, NormalizedTransaction, NormalizedBatch}
use nexus_inventory_platform.Normalizer.Database.{
  Database, Statement, tenant_of, Location, Product, Transaction, TransactionValues,
}
use nexus_inventory_platform.Normalizer.Store.{
  Normalizer, execute, cache_product, cache_location, fetch_product, resolve_product,
  location_or_new, fetch_location, resolve_location, upsert_product, record_transaction,
  transaction_or_new, create_transaction, optional_location, upsert_batch, scalar_one_or_none,
}
use nexus_inventory_platform.Connector.{Stream, done, failing, yields}
use nexus_inventory_platform.Sync.Loop.{
  Job, process_record, process_stream, handle_product, handle_transaction, handle_batch,
}

module _ {S : Type 0} (py : Runtime) (db : Database S) (tenant_id : ℕ) (P : S → Type 0)
    (kept : (q : Statement) → tenant_of q ≡ tenant_id → (s : S) → P s → P (db.execute q s).1) where
  abbrev pub Keeps : {A : Type 0} → Exec (Normalizer S) A → Type 0
  Keeps m = Ensures (λ (s : Normalizer S). P s.db) m (λ _. Unit {0})

  execute-Keeps : (q : Statement) → tenant_of q ≡ tenant_id → Keeps (execute db tenant_id q)
  unfolding execute
  execute-Keeps q own = record { keeps = λ s h. kept q own s.db h; returns = λ s h a e. tt }

  lift-Keeps : {A : Type 0} (r : Result A) → Keeps (lift r)
  lift-Keeps r = Ensures-lift r (λ a e. tt)

  bind-Keeps :
      {A B : Type 0} (m : Exec (Normalizer S) A) (f : A → Exec (Normalizer S) B)
      → Keeps m
      → ((a : A) → Keeps (f a))
      → Keeps (m >>= f)
  bind-Keeps m f km kf = Ensures-bind m f km (λ a _. kf a)

  cache_product-Keeps : (k : String) (p : Product) → Keeps (cache_product db tenant_id k p)
  unfolding cache_product
  cache_product-Keeps k p = Ensures-modify _ (λ s h. h)

  cache_location-Keeps : (k : String) (l : Location) → Keeps (cache_location db tenant_id k l)
  unfolding cache_location
  cache_location-Keeps k l = Ensures-modify _ (λ s h. h)

  fetch_product-Keeps : (k : String) → Keeps (fetch_product db tenant_id k)
  unfolding fetch_product
  fetch_product-Keeps k =
      bind-Keeps _ _ (execute-Keeps (Statement.select_products tenant_id k) refl) λ rows.
        bind-Keeps _ _ (lift-Keeps (scalar_one_or_none rows)) λ found.
          bind-Keeps _ _ (lift-Keeps (or_raise _ found))
            λ p. bind-Keeps _ _ (cache_product-Keeps k p) λ _. Ensures-pure p tt

  resolve_product-Keeps : (k : String) → Keeps (resolve_product db tenant_id k)
  unfolding resolve_product
  resolve_product-Keeps k =
      Ensures-cached (λ s. lookup k s.product_cache) _ (fetch_product-Keeps k) λ s h p e. tt

  location_or_new-Keeps :
      (k : String) (o : Option Location) → Keeps (location_or_new db tenant_id k o)
  unfolding location_or_new
  location_or_new-Keeps k none = execute-Keeps (Statement.insert_location tenant_id k) refl
  location_or_new-Keeps k (some l) = Ensures-pure l tt

  fetch_location-Keeps : (k : String) → Keeps (fetch_location db tenant_id k)
  unfolding fetch_location
  fetch_location-Keeps k =
      bind-Keeps _ _ (execute-Keeps (Statement.select_locations tenant_id k) refl) λ rows.
        bind-Keeps _ _ (lift-Keeps (scalar_one_or_none rows)) λ found.
          bind-Keeps _ _ (location_or_new-Keeps k found)
            λ l. bind-Keeps _ _ (cache_location-Keeps k l) λ _. Ensures-pure l tt

  resolve_location-Keeps : (k : String) → Keeps (resolve_location db tenant_id k)
  unfolding resolve_location
  resolve_location-Keeps k =
      Ensures-cached (λ s. lookup k s.location_cache) _ (fetch_location-Keeps k) λ s h l e. tt

  optional_location-Keeps : (o : Option String) → Keeps (optional_location db tenant_id o)
  unfolding optional_location
  optional_location-Keeps none = Ensures-pure none tt
  optional_location-Keeps (some name) = elim (Bool-cases (str_eq name "")) [
    | inl e ↦ rw (e, optional_location) (Ensures-pure none tt)
    | inr e ↦
        rw (e, optional_location)
          (bind-Keeps _ _ (resolve_location-Keeps name) λ l. Ensures-pure (some l) tt)
  ]

  transaction_or_new-Keeps :
      (v : TransactionValues) (o : Option Transaction)
      → v.tenant_id ≡ tenant_id
      → Keeps (transaction_or_new db tenant_id v o)
  unfolding transaction_or_new
  transaction_or_new-Keeps v none own = execute-Keeps (Statement.insert_transaction v) own
  transaction_or_new-Keeps v (some t) own = Ensures-pure t tt

  record_transaction-Keeps :
      (v : TransactionValues) → v.tenant_id ≡ tenant_id → Keeps (record_transaction db tenant_id v)
  unfolding record_transaction
  record_transaction-Keeps v own =
      bind-Keeps _ _ (execute-Keeps (Statement.select_transactions v) own) λ rows.
        bind-Keeps _ _ (lift-Keeps (scalar_one_or_none rows))
          λ found. transaction_or_new-Keeps v found own

  upsert_product-Keeps : (n : NormalizedProduct) → Keeps (upsert_product db tenant_id n)
  unfolding upsert_product
  upsert_product-Keeps n =
      bind-Keeps _ _ (execute-Keeps (Statement.upsert_product tenant_id n) refl)
        λ p. bind-Keeps _ _ (cache_product-Keeps n.sku_code p) λ _. Ensures-pure p tt

  create_transaction-Keeps : (n : NormalizedTransaction) → Keeps (create_transaction db tenant_id n)
  unfolding create_transaction
  create_transaction-Keeps n = bind-Keeps _ _ (resolve_product-Keeps n.sku_code) λ p.
      bind-Keeps _ _ (resolve_location-Keeps n.location_name) λ l. record_transaction-Keeps _ refl

  upsert_batch-Keeps : (n : NormalizedBatch) → Keeps (upsert_batch db tenant_id n)
  unfolding upsert_batch
  upsert_batch-Keeps n = bind-Keeps _ _ (resolve_product-Keeps n.sku_code) λ p.
      bind-Keeps _ _ (optional_location-Keeps n.location_name)
        λ l. execute-Keeps (Statement.upsert_batch _) refl

  pub handle_product-Keeps : (np : NormalizedProduct) → Keeps (handle_product py db tenant_id np)
  unfolding handle_product
  handle_product-Keeps np =
      bind-Keeps (lift _) (upsert_product db tenant_id) (lift-Keeps _) upsert_product-Keeps

  pub handle_transaction-Keeps :
      (txn : NormalizedTransaction) → Keeps (handle_transaction py db tenant_id txn)
  unfolding handle_transaction
  handle_transaction-Keeps txn =
      bind-Keeps (lift _) (create_transaction db tenant_id) (lift-Keeps _) create_transaction-Keeps

  pub handle_batch-Keeps : (batch : NormalizedBatch) → Keeps (handle_batch py db tenant_id batch)
  unfolding handle_batch
  handle_batch-Keeps batch =
      bind-Keeps (lift _) (upsert_batch db tenant_id) (lift-Keeps _) upsert_batch-Keeps

module _ {S A B : Type 0} (db : Database S) (P : S → Type 0) (entity : String) (sku_of : A → String)
    (handle : A → Exec (Normalizer S) B)
    (keep : (a : A) → Ensures (λ (s : Normalizer S). P s.db) (handle a) (λ _. Unit {0})) where
  pub process_stream-keeps :
      (st : Stream A) (j : Job S)
      → P j.normalizer.db
      → P (process_stream db entity sku_of handle st j).1.normalizer.db
  unfolding process_stream
  process_stream-keeps done j h = h
  process_stream-keeps (failing e) j h = h
  process_stream-keeps (yields a rest) j h =
      process_stream-keeps rest (process_record db entity sku_of handle a j)
        ((keep a).keeps j.normalizer h)
