-- ===== src/Sync/Loop/Aborted.antt =====
-- What a database error in one record does to the rest of the stream: the transaction is aborted, the
-- loop has no savepoint and no rollback, and no later record can go in.
use nexus_inventory_platform.Base.{
  ℕ, String, [], Option, none, some, true, str_eq, ◌≡◌, refl, ◌∙◌, arith, inl, inr, Bool-cases,
}
use nexus_inventory_platform.Values.{Runtime, Result, ok, raised, lookup}
use nexus_inventory_platform.Exec.{Exec, lift, ◌>>=◌}
use nexus_inventory_platform.Exec.Ensures.{
  Ensures, Ensures-pure, Ensures-lift, Ensures-bind, Ensures-cached,
}
use nexus_inventory_platform.Models.{NormalizedProduct, NormalizedTransaction, NormalizedBatch}
use nexus_inventory_platform.Normalizer.Rows.{
  normalize_product, normalize_transaction, normalize_batch,
}
use nexus_inventory_platform.Normalizer.Database.{Database, IsPostgres, Statement}
use nexus_inventory_platform.Normalizer.Store.{
  Normalizer, execute, fetch_product, resolve_product, fetch_location, resolve_location,
  upsert_product, record_transaction, create_transaction, optional_location, upsert_batch,
}
use nexus_inventory_platform.Connector.{Stream, done, failing, yields}
use nexus_inventory_platform.Sync.Log.{SyncLog}
use nexus_inventory_platform.Sync.Rows.{product_row, transaction_row, batch_row}
use nexus_inventory_platform.Sync.Loop.{
  Job, account, log_after, process_record, process_stream, handle_product, handle_transaction,
  handle_batch, process_products, process_transactions, process_batches,
}

module _ {S : Type 0} (py : Runtime) (db : Database S) (pg : IsPostgres db) (tenant_id : ℕ) where
  abbrev pub IsAborted : Normalizer S → Type 0
  IsAborted s = pg.aborted s.db ≡ true

  -- In an aborted transaction a method returns nothing.
  abbrev pub Stuck : {A : Type 0} → Exec (Normalizer S) A → Type 0
  Stuck m = Ensures IsAborted m (λ _. ⊥)

  -- It leaves the transaction aborted, whether it returns or raises.
  abbrev pub Stays : {A : Type 0} → Exec (Normalizer S) A → Type 0
  Stays m = Ensures IsAborted m (λ _. Unit {0})

  execute-Stuck : (q : Statement) → Stuck (execute db tenant_id q)
  unfolding execute
  execute-Stuck q = record {
    keeps = λ s h. (pg.on_error q s.db _ (pg.on_aborted q s.db h)).1;
    returns = λ s h a e. cc (pg.on_aborted q s.db h, e);
  }

  Stuck-bind :
      {A B : Type 0} (m : Exec (Normalizer S) A) (f : A → Exec (Normalizer S) B)
      → Stuck m
      → Stuck (m >>= f)
  Stuck-bind m f h = Ensures-bind m f h (λ a x. absurd x)

  Stays-of_Stuck : {A : Type 0} (m : Exec (Normalizer S) A) → Stuck m → Stays m
  Stays-of_Stuck m h = record { keeps = h.keeps; returns = λ s p a e. tt }

  resolve_product-Stays : (k : String) → Stays (resolve_product db tenant_id k)
  unfolding resolve_product fetch_product
  resolve_product-Stays k =
      Ensures-cached (λ s. lookup k s.product_cache) _
        (Stays-of_Stuck _ (Stuck-bind _ _ (execute-Stuck (Statement.select_products tenant_id k))))
        λ s h p e. tt

  resolve_location-Stays : (k : String) → Stays (resolve_location db tenant_id k)
  unfolding resolve_location fetch_location
  resolve_location-Stays k =
      Ensures-cached (λ s. lookup k s.location_cache) _
        (Stays-of_Stuck _ (Stuck-bind _ _ (execute-Stuck (Statement.select_locations tenant_id k))))
        λ s h p e. tt

  optional_location-Stays : (o : Option String) → Stays (optional_location db tenant_id o)
  unfolding optional_location
  optional_location-Stays none = Ensures-pure none tt
  optional_location-Stays (some name) = elim (Bool-cases (str_eq name "")) [
    | inl e ↦ rw (e, optional_location) (Ensures-pure none tt)
    | inr e ↦
        rw (e, optional_location)
          (Ensures-bind _ _ (resolve_location-Stays name) λ l _. Ensures-pure (some l) tt)
  ]

  upsert_product-Stuck : (n : NormalizedProduct) → Stuck (upsert_product db tenant_id n)
  unfolding upsert_product
  upsert_product-Stuck n = Stuck-bind _ _ (execute-Stuck (Statement.upsert_product tenant_id n))

  create_transaction-Stuck : (n : NormalizedTransaction) → Stuck (create_transaction db tenant_id n)
  unfolding create_transaction record_transaction
  create_transaction-Stuck n = Ensures-bind _ _ (resolve_product-Stays n.sku_code) λ p _.
      Ensures-bind _ _ (resolve_location-Stays n.location_name)
        λ l _. Stuck-bind _ _ (execute-Stuck (Statement.select_transactions _))

  upsert_batch-Stuck : (n : NormalizedBatch) → Stuck (upsert_batch db tenant_id n)
  unfolding upsert_batch
  upsert_batch-Stuck n = Ensures-bind _ _ (resolve_product-Stays n.sku_code) λ p _.
      Ensures-bind _ _ (optional_location-Stays n.location_name)
        λ l _. execute-Stuck (Statement.upsert_batch _)

  lift-Stuck :
      {A B : Type 0} (r : Result A) (f : A → Exec (Normalizer S) B)
      → ((a : A) → Stuck (f a))
      → Stuck (lift r >>= f)
  lift-Stuck r f h =
      Ensures-bind (lift r) f (Ensures-lift {Q = λ _. Unit {0}} r (λ a e. tt)) (λ a _. h a)

  pub handle_product-Stuck : (np : NormalizedProduct) → Stuck (handle_product py db tenant_id np)
  unfolding handle_product
  handle_product-Stuck np =
      lift-Stuck (normalize_product py (product_row np) []) (upsert_product db tenant_id)
        upsert_product-Stuck

  pub handle_transaction-Stuck :
      (txn : NormalizedTransaction) → Stuck (handle_transaction py db tenant_id txn)
  unfolding handle_transaction
  handle_transaction-Stuck txn =
      lift-Stuck (normalize_transaction py (transaction_row txn) [])
        (create_transaction db tenant_id) create_transaction-Stuck

  pub handle_batch-Stuck : (batch : NormalizedBatch) → Stuck (handle_batch py db tenant_id batch)
  unfolding handle_batch
  handle_batch-Stuck batch =
      lift-Stuck (normalize_batch py (batch_row batch) []) (upsert_batch db tenant_id)
        upsert_batch-Stuck

module _ {S A B : Type 0} (db : Database S) (pg : IsPostgres db) (entity : String)
    (sku_of : A → String) (handle : A → Exec (Normalizer S) B)
    (stuck : (a : A)
      → Ensures (λ (s : Normalizer S). pg.aborted s.db ≡ true) (handle a) (λ _. ⊥)) where
  account_unprocessed :
      (a : A) (r : Result B) (log : SyncLog)
      → ((b : B) → r ≡ ok b → ⊥)
      → (account entity (sku_of a) r log).records_processed ≡ log.records_processed
  unfolding account
  account_unprocessed a (ok b) log h = absurd (h b refl)
  account_unprocessed a (raised e) log h = ground arith

  log_after-processed :
      (s s' : S) (log : SyncLog) → (log_after db s s' log).records_processed ≡ log.records_processed
  unfolding log_after
  log_after-processed s s' log = ground arith

  -- Once the transaction is aborted, no later record is processed, and it stays aborted.
  pub process_stream_aborted :
      (st : Stream A) (j : Job S)
      → pg.aborted j.normalizer.db ≡ true
      → (pg.aborted (process_stream db entity sku_of handle st j).1.normalizer.db ≡ true)
        × ((process_stream db entity sku_of handle st j).1.log.records_processed
            ≡ j.log.records_processed)
  unfolding process_stream
  process_stream_aborted done j h = (h, refl)
  process_stream_aborted (failing e) j h = (h, refl)
  process_stream_aborted (yields a rest) j h =
      let later =
        process_stream_aborted rest (process_record db entity sku_of handle a j)
          ((stuck a).keeps j.normalizer h) in
      (
        later.0,
        later.1
            ∙ account_unprocessed a (handle a j.normalizer).0
                (log_after db j.normalizer.db (handle a j.normalizer).1.db j.log)
                ((stuck a).returns j.normalizer h)
            ∙ log_after-processed j.normalizer.db (handle a j.normalizer).1.db j.log,
      )

module _ {S : Type 0} (py : Runtime) (db : Database S) (pg : IsPostgres db) (tenant_id : ℕ) where
  -- The transaction is aborted, and no more records count as processed than before.
  abbrev pub Halted : Job S → Result (Unit {0}) × Job S → Type 0
  Halted j x =
      (pg.aborted x.1.normalizer.db ≡ true) × (x.1.log.records_processed ≡ j.log.records_processed)

  -- Where the transaction of the session is aborted, each of the three loops leaves it aborted and
  -- counts no further record as processed, whatever the rest of its stream.
  pub loops-Halted :
      (ps : Stream NormalizedProduct) (ts : Stream NormalizedTransaction)
      (bs : Stream NormalizedBatch) (j : Job S)
      → pg.aborted j.normalizer.db ≡ true
      → Halted j (process_products py db tenant_id ps j)
        × Halted j (process_transactions py db tenant_id ts j)
        × Halted j (process_batches py db tenant_id bs j)
  unfolding process_products process_transactions process_batches
  loops-Halted ps ts bs j h = (
    process_stream_aborted db pg _ _ _ (handle_product-Stuck py db pg tenant_id) ps j h,
    process_stream_aborted db pg _ _ _ (handle_transaction-Stuck py db pg tenant_id) ts j h,
    process_stream_aborted db pg _ _ _ (handle_batch-Stuck py db pg tenant_id) bs j h,
  )
