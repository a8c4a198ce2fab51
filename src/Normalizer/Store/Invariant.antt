-- ===== src/Normalizer/Store/Invariant.antt =====
-- The invariant of a `DataNormalizer`: its caches hold rows of its own tenant under their own keys,
-- and it has changed no row of another tenant.
use nexus_inventory_platform.Base.{
  ℕ, String, List, [], ◌∷◌, Option, none, some, ◌≡◌, refl, ap, ◌∙◌, sym, arith, eq_iff,
}
use nexus_inventory_platform.Models.{NormalizedProduct}
use nexus_inventory_platform.Values.{Raised, Result, ok, raised, lookup, lookup-insert, or_raise}
use nexus_inventory_platform.Exec.Ensures.{
  Ensures, Ensures-pure, Ensures-lift, Ensures-modify, Ensures-bind, Ensures-cached,
}
use nexus_inventory_platform.Normalizer.Database.{
  Product, Location, Tables, Statement, tenant_of, Answer, Answers, Database, IsPostgres, has_sku,
  has_name,
}
use nexus_inventory_platform.Normalizer.Database.Laws.{outside, Answers-outside, select_head}
use nexus_inventory_platform.Normalizer.Store.{
  Normalizer, execute, cache_product, cache_location, fetch_product, resolve_product,
  fetch_location, resolve_location, location_or_new, upsert_product, scalar_one_or_none,
}

-- A row of the tenant under its key.
abbrev pub IsProductOf : ℕ → String → Product → Type 0
IsProductOf t k p = (p.tenant_id ≡ t) × (p.sku_code ≡ k)

abbrev pub IsLocationOf : ℕ → String → Location → Type 0
IsLocationOf t k l = (l.tenant_id ≡ t) × (l.name ≡ k)

pub scalar-some :
    {A : Type 0} (rows : List A) (a : A) → scalar_one_or_none rows ≡ ok (some a) → rows ≡ a ∷ []
unfolding scalar_one_or_none
scalar-some [] a h = cc
scalar-some (x ∷ []) a h = ground (arith, h)
scalar-some (x ∷ y ∷ rest) a h = cc

module _ {S : Type 0} (db : Database S) (pg : IsPostgres db) (tenant_id : ℕ) (start : Tables) where
  pub record IsSound (s : Normalizer S) : Type 0 where
    pub products :
        (k : String) (p : Product) → lookup k s.product_cache ≡ some p → IsProductOf tenant_id k p
    pub locations :
        (k : String) (l : Location)
        → lookup k s.location_cache ≡ some l
        → IsLocationOf tenant_id k l
    pub isolated : outside tenant_id (pg.tables s.db) ≡ outside tenant_id start

  -- What a statement of the tenant that succeeds returns.
  unfoldable pub Answered : (q : Statement) → Answer q → Type 0
  Answered q a = (T : Tables) × (T' : Tables) × Answers q T a T'

  pub execute-outside :
      (q : Statement) (s : S) (r : Result (Answer q))
      → (db.execute q s).0 ≡ r
      → outside (tenant_of q) (pg.tables (db.execute q s).1) ≡ outside (tenant_of q) (pg.tables s)
  execute-outside q s (ok a) e = Answers-outside q _ a _ (pg.on_ok q s a e)
  execute-outside q s (raised x) e = ap (outside (tenant_of q)) (pg.on_error q s x e).2

  pub execute-Ensures :
      (q : Statement)
      → tenant_of q ≡ tenant_id
      → Ensures IsSound (execute db tenant_id q) (Answered q)
  unfolding execute Answered
  execute-Ensures q t = record {
    keeps = λ s h. record {
      products = h.products;
      locations = h.locations;
      isolated = (rw t at (execute-outside q s.db _ refl)) ∙ h.isolated;
    };
    returns = λ s h a e. (_, _, pg.on_ok q s.db a e);
  }

  cache_product-Ensures :
      (k : String) (p : Product)
      → IsProductOf tenant_id k p
      → Ensures IsSound (cache_product db tenant_id k p) (λ _. Unit {0})
  unfolding cache_product
  cache_product-Ensures k p own = Ensures-modify _ λ s h. record {
    products =
        λ j r e. ground (arith, h.products j r, lookup-insert k j p s.product_cache, eq_iff k j);
    locations = h.locations;
    isolated = h.isolated;
  }

  cache_location-Ensures :
      (k : String) (l : Location)
      → IsLocationOf tenant_id k l
      → Ensures IsSound (cache_location db tenant_id k l) (λ _. Unit {0})
  unfolding cache_location
  cache_location-Ensures k l own = Ensures-modify _ λ s h. record {
    products = h.products;
    locations =
        λ j r e. ground (arith, h.locations j r, lookup-insert k j l s.location_cache, eq_iff k j);
    isolated = h.isolated;
  }

  found_product :
      (k : String) (x : Raised) (rows : List Product) (found : Option Product) (p : Product)
      → Answered (Statement.select_products tenant_id k) rows
      → scalar_one_or_none rows ≡ ok found
      → or_raise x found ≡ ok p
      → IsProductOf tenant_id k p
  unfolding Answered
  found_product k x rows none p (T, T', e) one got = cc
  found_product k x rows (some r) p (T, T', e) one got = ground (
    arith,
    got,
    select_head (has_sku tenant_id k) T.products {a = r} {rest = []}
        (sym e.0 ∙ scalar-some rows r one),
    eq_iff r.sku_code k,
  )

  fetch_product-Ensures :
      (k : String) → Ensures IsSound (fetch_product db tenant_id k) (IsProductOf tenant_id k)
  unfolding fetch_product
  fetch_product-Ensures k =
      Ensures-bind _ _ (execute-Ensures (Statement.select_products tenant_id k) refl)
        λ rows answered.
          Ensures-bind _ _ (Ensures-lift (scalar_one_or_none rows) (λ found e. e)) λ found one.
            Ensures-bind _ _ (Ensures-lift _ (λ p e. found_product k _ rows found p answered one e))
              λ p own. Ensures-bind _ _ (cache_product-Ensures k p own) λ _ _. Ensures-pure p own

  pub resolve_product-Ensures :
      (k : String) → Ensures IsSound (resolve_product db tenant_id k) (IsProductOf tenant_id k)
  unfolding resolve_product
  resolve_product-Ensures k =
      Ensures-cached (λ s. lookup k s.product_cache) _ (fetch_product-Ensures k)
        λ s h p e. h.products k p e

  location_or_new-Ensures :
      (k : String) (rows : List Location) (found : Option Location)
      → Answered (Statement.select_locations tenant_id k) rows
      → scalar_one_or_none rows ≡ ok found
      → Ensures IsSound (location_or_new db tenant_id k found) (IsLocationOf tenant_id k)
  unfolding location_or_new Answered
  location_or_new-Ensures k rows none answered one = record {
    keeps = (execute-Ensures (Statement.insert_location tenant_id k) refl).keeps;
    returns = λ s h l e.
        let (T, T', a) =
          (execute-Ensures (Statement.insert_location tenant_id k) refl).returns s h l e in
        (a.0, a.1);
  }
  location_or_new-Ensures k rows (some r) (T, T', e) one = Ensures-pure r (
      ground (
        arith,
        select_head (has_name tenant_id k) T.locations {a = r} {rest = []}
            (sym e.0 ∙ scalar-some rows r one),
        eq_iff r.name k,
      ))

  fetch_location-Ensures :
      (k : String) → Ensures IsSound (fetch_location db tenant_id k) (IsLocationOf tenant_id k)
  unfolding fetch_location
  fetch_location-Ensures k =
      Ensures-bind _ _ (execute-Ensures (Statement.select_locations tenant_id k) refl)
        λ rows answered.
          Ensures-bind _ _ (Ensures-lift (scalar_one_or_none rows) (λ found e. e)) λ found one.
            Ensures-bind _ _ (location_or_new-Ensures k rows found answered one)
              λ l own. Ensures-bind _ _ (cache_location-Ensures k l own) λ _ _. Ensures-pure l own

  pub resolve_location-Ensures :
      (k : String) → Ensures IsSound (resolve_location db tenant_id k) (IsLocationOf tenant_id k)
  unfolding resolve_location
  resolve_location-Ensures k =
      Ensures-cached (λ s. lookup k s.location_cache) _ (fetch_location-Ensures k)
        λ s h l e. h.locations k l e

  -- An upsert returns an object of the tenant with the record's SKU.
  pub upsert_product-Ensures :
      (n : NormalizedProduct)
      → Ensures IsSound (upsert_product db tenant_id n) (IsProductOf tenant_id n.sku_code)
  unfolding upsert_product Answered
  upsert_product-Ensures n =
      Ensures-bind _ _ (execute-Ensures (Statement.upsert_product tenant_id n) refl)
        λ p (T, T', (row, holds, key, own, sku, after)).
          Ensures-bind _ _ (cache_product-Ensures n.sku_code p (own, sku))
            λ _ _. Ensures-pure p (own, sku)
