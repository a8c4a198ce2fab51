-- ===== src/Normalizer/Store/Methods.antt =====
-- What the callers of a `DataNormalizer` of app/integrations/normalizer.py may rely on.
use nexus_inventory_platform.Base.{
  ℕ, String, List, [], ◌∷◌, ◌++◌, Option, ◌≡◌, ap, sym, ◌∙◌, subst, inl, inr,
}
use nexus_inventory_platform.Values.{ok, lookup}
use nexus_inventory_platform.Models.{NormalizedProduct, NormalizedTransaction, NormalizedBatch}
use nexus_inventory_platform.Exec.Ensures.{Gives-bind}
use nexus_inventory_platform.Normalizer.Database.{
  Product, Location, Transaction, Batch, Tables, Database, IsPostgres, select, put, has_name,
  has_values, has_batch_key,
}
use nexus_inventory_platform.Normalizer.Database.Laws.{select_head}
use nexus_inventory_platform.Normalizer.Store.{
  Normalizer, upsert_product, create_transaction, upsert_batch, resolve_product, resolve_location,
  transaction_values,
}
use nexus_inventory_platform.Normalizer.Store.Invariant.{
  IsSound, upsert_product-Ensures, resolve_product-Ensures, resolve_location-Ensures,
}
use nexus_inventory_platform.Normalizer.Store.Resolved.{
  IsProductFor, IsLocationFor, IsNamedLocation, resolve_product-Resolved, resolve_location-Resolved,
}
use nexus_inventory_platform.Normalizer.Store.Replay.{record_transaction-Recorded}
use nexus_inventory_platform.Normalizer.Store.Writes.{
  Stands, StandsBatch, Stands-of_values, create_transaction-Ensures, upsert_batch-Ensures,
}

module _ {S : Type 0} (db : Database S) (pg : IsPostgres db) (tenant_id : ℕ) (start : Tables) where
  -- Each of the three writing methods keeps the normalizer sound, whether it returns or raises: its
  -- caches hold only the tenant's own products and locations, under their own keys, and the rows of
  -- other tenants are those of the tables `start`.
  pub writes_IsSound :
      (p : NormalizedProduct) (t : NormalizedTransaction) (b : NormalizedBatch) (s : Normalizer S)
      → IsSound db pg tenant_id start s
      → IsSound db pg tenant_id start (upsert_product db tenant_id p s).1
        × IsSound db pg tenant_id start (create_transaction db tenant_id t s).1
        × IsSound db pg tenant_id start (upsert_batch db tenant_id b s).1
  writes_IsSound p t b s h = (
    (upsert_product-Ensures db pg tenant_id start p).keeps s h,
    (create_transaction-Ensures db pg tenant_id start t).keeps s h,
    (upsert_batch-Ensures db pg tenant_id start b).keeps s h,
  )

  -- What `create_transaction` makes of a record, from one normalizer to the next.
  pub record IsRecorded (n : NormalizedTransaction) (s : Normalizer S) (t : Transaction)
      (s' : Normalizer S) : Type 0 where
    pub product : Product
    pub location : Location
    pub product_found : IsProductFor db pg tenant_id s n.sku_code product
    pub location_found :
        IsLocationFor db pg tenant_id s n.location_name location (pg.tables s'.db).locations
    pub stands : Stands db pg tenant_id start n product location t
    pub one :
        select
          (has_values (transaction_values db tenant_id n product location))
          (pg.tables s'.db).transactions
        ≡ t ∷ []

  -- From one state to another that differs in the product cache alone.
  location-transport :
      (s s1 : Normalizer S) (k : String) (l : Location) (after : List Location)
      → pg.tables s1.db ≡ pg.tables s.db
      → s1.location_cache ≡ s.location_cache
      → IsLocationFor db pg tenant_id s1 k l after
      → IsLocationFor db pg tenant_id s k l after
  location-transport s s1 k l after same caches h = elim h [
    | inl (c, a) ↦ inl (sym (ap (lookup k) caches) ∙ c, a ∙ places)
    | inr rest ↦ elim rest [
      | inl (c, one, a) ↦ inr (inl (sym (ap (lookup k) caches) ∙ c, sym selected ∙ one, a ∙ places))
      | inr (c, empty, a) ↦ inr (
          inr (
            sym (ap (lookup k) caches) ∙ c,
            sym selected ∙ empty,
            a ∙ ap (λ ls. ls ++ l ∷ []) places,
          ))
    ]
  ]
    where
      places : (pg.tables s1.db).locations ≡ (pg.tables s.db).locations
      places = ap (λ (T : Tables). T.locations) same

      selected :
          select (has_name tenant_id k) (pg.tables s1.db).locations
          ≡ select (has_name tenant_id k) (pg.tables s.db).locations
      selected = ap (select (has_name tenant_id k)) places

  -- A transaction that `create_transaction` returns, from a sound normalizer, has the record's type,
  -- quantity, cost, reference and date, and the ids of a product and a location of the tenant with the
  -- record's SKU and location name: the product that is in the cache, or else the only one of the table;
  -- the location that is in the cache, or else the only one of the table, or else a new one, which the
  -- table gains. And it is the only row of the table with its values.
  pub create_transaction-Stands :
      (n : NormalizedTransaction) (s : Normalizer S) (t : Transaction)
      → IsSound db pg tenant_id start s
      → (create_transaction db tenant_id n s).0 ≡ ok t
      → IsRecorded n s t (create_transaction db tenant_id n s).1
  unfolding create_transaction
  create_transaction-Stands n s t sound =
      Gives-bind (IsRecorded n s) (resolve_product db tenant_id n.sku_code) _ s
        (λ p hp.
          Gives-bind (IsRecorded n s) (resolve_location db tenant_id n.location_name) _ _
            λ l hl u h.
              let products = resolve_product-Ensures db pg tenant_id start n.sku_code in
              let places = resolve_location-Ensures db pg tenant_id start n.location_name in
              let (product_found, same, caches) =
                resolve_product-Resolved db pg tenant_id n.sku_code s p hp in
              let (location_found, only) =
                resolve_location-Resolved db pg tenant_id n.location_name _ l hl in
              let r =
                record_transaction-Recorded db pg tenant_id (transaction_values db tenant_id n p l)
                  _ u h in
              record {
                product = p;
                location = l;
                product_found = product_found;
                location_found =
                    location-transport s (resolve_product db tenant_id n.sku_code s).1
                      n.location_name l _ same caches
                      (subst
                        (IsLocationFor db pg tenant_id (resolve_product db tenant_id n.sku_code s).1
                          n.location_name l)
                        (sym r.locations_kept) location_found);
                stands =
                    Stands-of_values db pg tenant_id start n p l u (products.returns s sound p hp)
                      (places.returns _ (products.keeps s sound) l hl)
                      (select_head (has_values (transaction_values db tenant_id n p l)) _ {a = u}
                        {rest = []} r.one);
                one = r.one;
              })
        t

  -- What `upsert_batch` makes of a record.
  pub record IsUpserted (n : NormalizedBatch) (s : Normalizer S) (b : Batch) (s' : Normalizer S)
      : Type 0 where
    pub product : Product
    pub location : Option Location
    pub product_found : IsProductFor db pg tenant_id s n.sku_code product
    pub location_found :
        IsNamedLocation db pg tenant_id s n.location_name location (pg.tables s'.db).locations
    pub stands : StandsBatch db pg tenant_id start n product location b
    pub stored : (pg.tables s'.db).batches ≡ put (has_batch_key b.values) b (pg.tables s.db).batches
