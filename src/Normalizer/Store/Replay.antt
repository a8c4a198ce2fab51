-- ===== src/Normalizer/Store/Replay.antt =====
-- A record that is sent again: `create_transaction` of app/integrations/normalizer.py finds the row that
-- it made, and makes no second one. This is what a retried sync job relies on.
use nexus_inventory_platform.Base.{
  ℕ, String, List, [], ◌∷◌, Option, none, some, true, ◌≡◌, refl, ap, sym, ◌∙◌, subst, arith,
}
use nexus_inventory_platform.Models.{NormalizedTransaction}
use nexus_inventory_platform.Values.{Result, ok, lookup, lookup-insert_self, or_raise}
use nexus_inventory_platform.Exec.{Exec, lift, cached}
use nexus_inventory_platform.Exec.Ensures.{ok-injective, Gives, Gives-bind}
use nexus_inventory_platform.Normalizer.Database.{
  Product, Location, Transaction, TransactionValues, Tables, Statement, Database, IsPostgres,
  select, has_values,
}
use nexus_inventory_platform.Normalizer.Database.Laws.{select-append}
use nexus_inventory_platform.Normalizer.Store.{
  Normalizer, execute, cache_product, cache_location, fetch_product, resolve_product,
  location_or_new, fetch_location, resolve_location, transaction_values, transaction_or_new,
  record_transaction, create_transaction, scalar_one_or_none,
}
use nexus_inventory_platform.Normalizer.Store.Invariant.{scalar-some}
use nexus_inventory_platform.Normalizer.Store.Resolved.{scalar-none}
use nexus_inventory_platform.Normalizer.Store.Writes.{has_values_self}

module _ {S : Type 0} (db : Database S) (pg : IsPostgres db) (tenant_id : ℕ) where
  abbrev CachesProduct : String → Product → Normalizer S → Type 0
  CachesProduct k p s = lookup k s.product_cache ≡ some p

  abbrev CachesLocation : String → Location → Normalizer S → Type 0
  CachesLocation k l s = lookup k s.location_cache ≡ some l

  fetch_product-Gives :
      (k : String) (s : Normalizer S) → Gives (fetch_product db tenant_id k) s (CachesProduct k)
  unfolding fetch_product cache_product
  fetch_product-Gives k s =
      Gives-bind (CachesProduct k) (execute db tenant_id (Statement.select_products tenant_id k)) _
        s
        λ rows h. Gives-bind (CachesProduct k) (lift (scalar_one_or_none rows)) _ _ λ found h1.
          Gives-bind (CachesProduct k) (lift (or_raise _ found)) _ _
            λ p h2 q e. lookup-insert_self k p _ ∙ ap some (ok-injective e)

  fetch_location-Gives :
      (k : String) (s : Normalizer S) → Gives (fetch_location db tenant_id k) s (CachesLocation k)
  unfolding fetch_location cache_location
  fetch_location-Gives k s =
      Gives-bind (CachesLocation k) (execute db tenant_id (Statement.select_locations tenant_id k))
        _ s
        λ rows h. Gives-bind (CachesLocation k) (lift (scalar_one_or_none rows)) _ _ λ found h1.
          Gives-bind (CachesLocation k) (location_or_new db tenant_id k found) _ _
            λ p h2 q e. lookup-insert_self k p _ ∙ ap some (ok-injective e)

  cached-Gives :
      {A : Type 0} (R : A → Normalizer S → Type 0) (o : Option A) (m : Exec (Normalizer S) A)
      (s : Normalizer S)
      → Gives m s R
      → ((a : A) → o ≡ some a → R a s)
      → Gives (cached o m) s R
  cached-Gives R none m s k h a e = k a e
  cached-Gives R (some b) m s k h a e = h a (ap some (ok-injective e))

  -- What `_resolve_product` and `_resolve_location` return is in the cache from then on.
  resolve_product-Gives :
      (k : String) (s : Normalizer S) → Gives (resolve_product db tenant_id k) s (CachesProduct k)
  unfolding resolve_product
  resolve_product-Gives k s =
      cached-Gives (CachesProduct k) _ _ s (fetch_product-Gives k s) (λ a e. e)

  resolve_location-Gives :
      (k : String) (s : Normalizer S) → Gives (resolve_location db tenant_id k) s (CachesLocation k)
  unfolding resolve_location
  resolve_location-Gives k s =
      cached-Gives (CachesLocation k) _ _ s (fetch_location-Gives k s) (λ a e. e)

  -- A product that is in the cache stays there while a location is looked up.
  location_or_new-CachesProduct :
      (j : String) (o : Option Location) (k : String) (p : Product) (s : Normalizer S)
      → CachesProduct k p s
      → CachesProduct k p (location_or_new db tenant_id j o s).1
  unfolding location_or_new execute
  location_or_new-CachesProduct j none k p s h = h
  location_or_new-CachesProduct j (some l) k p s h = h

  fetch_location-CachesProduct :
      (j k : String) (p : Product) (s : Normalizer S)
      → CachesProduct k p s
      → Gives (fetch_location db tenant_id j) s (λ _. CachesProduct k p)
  unfolding fetch_location cache_location execute
  fetch_location-CachesProduct j k p s h =
      Gives-bind (λ _. CachesProduct k p)
        (execute db tenant_id (Statement.select_locations tenant_id j)) _ s
        λ rows h0.
          Gives-bind (λ _. CachesProduct k p) (lift (scalar_one_or_none rows)) _ _
            λ found h1.
              Gives-bind (λ _. CachesProduct k p) (location_or_new db tenant_id j found) _ _
                λ l h2 q e. location_or_new-CachesProduct j found k p _ h

  resolve_location-CachesProduct :
      (j k : String) (p : Product) (s : Normalizer S)
      → CachesProduct k p s
      → Gives (resolve_location db tenant_id j) s (λ _. CachesProduct k p)
  unfolding resolve_location
  resolve_location-CachesProduct j k p s h =
      cached-Gives (λ _. CachesProduct k p) (lookup j s.location_cache)
        (fetch_location db tenant_id j) s (fetch_location-CachesProduct j k p s h) (λ a e. h)

  -- Once a row with the values is recorded, it is the one that they select, and the caches are left.
  pub record Recorded (v : TransactionValues) (s : Normalizer S) (t : Transaction)
      (s' : Normalizer S) : Type 0 where
    pub one : select (has_values v) (pg.tables s'.db).transactions ≡ t ∷ []
    pub locations_kept : (pg.tables s'.db).locations ≡ (pg.tables s.db).locations
    products : s'.product_cache ≡ s.product_cache
    locations : s'.location_cache ≡ s.location_cache

  transaction_or_new-Recorded :
      (v : TransactionValues) (existing : Option Transaction) (rows : List Transaction)
      (s : Normalizer S)
      → scalar_one_or_none rows ≡ ok existing
      → rows ≡ select (has_values v) (pg.tables s.db).transactions
      → Gives (transaction_or_new db tenant_id v existing) s (Recorded v s)
  unfolding transaction_or_new execute
  transaction_or_new-Recorded v (some r) rows s one e t h = record {
    one = sym e ∙ scalar-some rows r one ∙ ap (λ (x : Transaction). x ∷ []) (ok-injective h);
    locations_kept = refl;
    products = refl;
    locations = refl;
  }
  transaction_or_new-Recorded v none rows s one e t h =
      let (values, tables) = pg.on_ok (Statement.insert_transaction v) s.db t h in
      let found : has_values v t ≡ true =
        subst (λ w. has_values w t ≡ true) values (has_values_self t) in
      let empty : select (has_values v) (pg.tables s.db).transactions ≡ [] =
        sym e ∙ scalar-none rows one in
      record {
        one =
            ap (λ (T : Tables). select (has_values v) T.transactions) tables
            ∙ select-append (has_values v) (pg.tables s.db).transactions t
            ∙ rw (empty, found) refl;
        locations_kept = ap (λ (T : Tables). T.locations) tables;
        products = refl;
        locations = refl;
      }

  pub record_transaction-Recorded :
      (v : TransactionValues) (s : Normalizer S)
      → Gives (record_transaction db tenant_id v) s (Recorded v s)
  unfolding record_transaction execute
  record_transaction-Recorded v s =
      Gives-bind (Recorded v s) (execute db tenant_id (Statement.select_transactions v)) _ s
        λ rows h. Gives-bind (Recorded v s) (lift (scalar_one_or_none rows)) _ _ λ existing one t e.
          let (selected, same) = pg.on_ok (Statement.select_transactions v) s.db rows h in
          let r =
            transaction_or_new-Recorded v existing rows _ one
              (selected ∙ ap (λ (T : Tables). select (has_values v) T.transactions) (sym same)) t
              e in
          record {
            one = r.one;
            locations_kept = r.locations_kept ∙ ap (λ (T : Tables). T.locations) same;
            products = r.products;
            locations = r.locations;
          }

  -- What a first `create_transaction` leaves: its product and location are cached, and its row is the
  -- only one with its values.
  record Replayable (n : NormalizedTransaction) (t : Transaction) (s : Normalizer S) : Type 0 where
    product : Product
    location : Location
    product_cached : CachesProduct n.sku_code product s
    location_cached : CachesLocation n.location_name location s
    one :
        select
          (has_values (transaction_values db tenant_id n product location))
          (pg.tables s.db).transactions
        ≡ t ∷ []

  create_transaction-Replayable :
      (n : NormalizedTransaction) (s : Normalizer S)
      → Gives (create_transaction db tenant_id n) s (Replayable n)
  unfolding create_transaction
  create_transaction-Replayable n s =
      Gives-bind (Replayable n) (resolve_product db tenant_id n.sku_code) _ s λ p hp.
        Gives-bind (Replayable n) (resolve_location db tenant_id n.location_name) _ _ λ l hl t h.
          let r = record_transaction-Recorded (transaction_values db tenant_id n p l) _ t h in
          let at_product = resolve_product-Gives n.sku_code s p hp in
          record {
            product = p;
            location = l;
            product_cached =
                ap (lookup n.sku_code) r.products
                ∙ resolve_location-CachesProduct n.location_name n.sku_code p _ at_product l hl;
            location_cached =
                ap (lookup n.location_name) r.locations
                ∙ resolve_location-Gives n.location_name _ l hl;
            one = r.one;
          }

  create_transaction-cached :
      (n : NormalizedTransaction) (s : Normalizer S) (p : Product) (l : Location)
      → CachesProduct n.sku_code p s
      → CachesLocation n.location_name l s
      → create_transaction db tenant_id n s
        ≡ record_transaction db tenant_id (transaction_values db tenant_id n p l) s
  unfolding create_transaction resolve_product resolve_location
  create_transaction-cached n s p l hp hl = rw (hp, hl) refl

  -- A second row is not made where the values select one.
  abbrev Unchanged : Transaction → Normalizer S → Transaction → Normalizer S → Type 0
  Unchanged t s t' s' = (t' ≡ t) × (pg.tables s'.db ≡ pg.tables s.db)

  transaction_or_new-Unchanged :
      (v : TransactionValues) (existing : Option Transaction) (t : Transaction) (s : Normalizer S)
      → scalar_one_or_none (t ∷ []) ≡ ok existing
      → Gives (transaction_or_new db tenant_id v existing) s (Unchanged t s)
  unfolding transaction_or_new scalar_one_or_none
  transaction_or_new-Unchanged v none t s one t' h = cc
  transaction_or_new-Unchanged v (some r) t s one t' h = (ground arith, refl)

  record_transaction-Unchanged :
      (v : TransactionValues) (t : Transaction) (s : Normalizer S)
      → select (has_values v) (pg.tables s.db).transactions ≡ t ∷ []
      → Gives (record_transaction db tenant_id v) s (Unchanged t s)
  unfolding record_transaction execute
  record_transaction-Unchanged v t s one =
      Gives-bind (Unchanged t s) (execute db tenant_id (Statement.select_transactions v)) _ s
        λ rows h.
          Gives-bind (Unchanged t s) (lift (scalar_one_or_none rows)) _ _ λ existing e t' h'.
            let (selected, same) = pg.on_ok (Statement.select_transactions v) s.db rows h in
            let found = ap scalar_one_or_none (sym one ∙ sym selected) ∙ e in
            let r = transaction_or_new-Unchanged v existing t _ found t' h' in (r.0, r.1 ∙ same)

  -- A transaction that is sent again right after it was recorded is the row that was recorded, new or
  -- found, and the tables stay as they were, if the second call returns too.
  pub create_transaction_again :
      (n : NormalizedTransaction) (s : Normalizer S) (t t' : Transaction)
      → (create_transaction db tenant_id n s).0 ≡ ok t
      → (create_transaction db tenant_id n (create_transaction db tenant_id n s).1).0 ≡ ok t'
      → (t' ≡ t)
        × (pg.tables
              (create_transaction db tenant_id n (create_transaction db tenant_id n s).1).1.db
            ≡ pg.tables (create_transaction db tenant_id n s).1.db)
  create_transaction_again n s t t' h h' =
      let r = create_transaction-Replayable n s t h in
      let again =
        create_transaction-cached n (create_transaction db tenant_id n s).1 r.product r.location
          r.product_cached r.location_cached in
      let (same, tables) =
        record_transaction-Unchanged (transaction_values db tenant_id n r.product r.location) t
          (create_transaction db tenant_id n s).1 r.one t'
          (ap (λ (x : Result Transaction × Normalizer S). x.0) (sym again) ∙ h') in
      (same, ap (λ (x : Result Transaction × Normalizer S). pg.tables x.1.db) again ∙ tables)
