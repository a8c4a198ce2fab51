-- ===== src/Normalizer/Store/Resolved.antt =====
-- app/integrations/normalizer.py: which product and which location `_resolve_product` and
-- `_resolve_location` give, by the caches and the tables that they start from.
use nexus_inventory_platform.Base.{
  ℕ, String, List, [], ◌∷◌, ◌++◌, Option, none, some, str_eq, ◌≡◌, refl, ap, sym, ◌∙◌, ◌⊎◌, inl,
  inr, Bool-cases, subst, eq_iff,
}
use nexus_inventory_platform.Values.{Raised, ok, lookup, or_raise}
use nexus_inventory_platform.Exec.{lift, pure, cached, ◌>>=◌}
use nexus_inventory_platform.Exec.Ensures.{ok-injective, Gives, Gives-bind}
use nexus_inventory_platform.Normalizer.Database.{
  Product, Location, Tables, Statement, Database, IsPostgres, select, has_sku, has_name,
}
use nexus_inventory_platform.Normalizer.Store.{
  Normalizer, execute, cache_product, cache_location, fetch_product, resolve_product,
  location_or_new, fetch_location, resolve_location, optional_location, scalar_one_or_none,
}
use nexus_inventory_platform.Normalizer.Store.Invariant.{scalar-some}

pub scalar-none : {A : Type 0} (rows : List A) → scalar_one_or_none rows ≡ ok none → rows ≡ []
unfolding scalar_one_or_none
scalar-none [] h = refl
scalar-none (a ∷ []) h = cc
scalar-none (a ∷ b ∷ rest) h = cc

or_raise-some :
    {A : Type 0} (x : Raised) (found : Option A) (a : A) → or_raise x found ≡ ok a → found ≡ some a
or_raise-some x none a h = cc
or_raise-some x (some b) a h = ap some (ok-injective h)

module _ {S : Type 0} (db : Database S) (pg : IsPostgres db) (tenant_id : ℕ) where
  abbrev pub tables_of : Normalizer S → Tables
  tables_of s = pg.tables s.db

  -- The product in the cache under the SKU, or where there is none the only one of the table with the
  -- tenant and the SKU.
  abbrev pub IsProductFor : Normalizer S → String → Product → Type 0
  IsProductFor s k p =
      (lookup k s.product_cache ≡ some p)
      ⊎ ((lookup k s.product_cache ≡ none)
          × (select (has_sku tenant_id k) (tables_of s).products ≡ p ∷ []))

  -- The location in the cache, or the only one of the table with the tenant and the name, or where there is
  -- none the one that is new at the end of the table.
  abbrev pub IsLocationFor : Normalizer S → String → Location → List Location → Type 0
  IsLocationFor s k l after =
      ((lookup k s.location_cache ≡ some l) × (after ≡ (tables_of s).locations))
      ⊎ ((lookup k s.location_cache ≡ none)
          × (select (has_name tenant_id k) (tables_of s).locations ≡ l ∷ [])
          × (after ≡ (tables_of s).locations))
      ⊎ ((lookup k s.location_cache ≡ none)
          × (select (has_name tenant_id k) (tables_of s).locations ≡ [])
          × (after ≡ (tables_of s).locations ++ l ∷ []))

  -- Nothing has changed but the table of locations.
  abbrev pub OnlyLocations : Tables → Tables → Type 0
  OnlyLocations T T' = T' ≡ record T { locations = T'.locations }

  abbrev Fetched : String → Normalizer S → Product → Normalizer S → Type 0
  Fetched k s p s' =
      (select (has_sku tenant_id k) (tables_of s).products ≡ p ∷ [])
      × (tables_of s' ≡ tables_of s)
      × (s'.location_cache ≡ s.location_cache)

  fetch_product-Fetched :
      (k : String) (s : Normalizer S) → Gives (fetch_product db tenant_id k) s (Fetched k s)
  unfolding fetch_product cache_product execute
  fetch_product-Fetched k s =
      Gives-bind (Fetched k s) (execute db tenant_id (Statement.select_products tenant_id k)) _ s
        λ rows h. Gives-bind (Fetched k s) (lift (scalar_one_or_none rows)) _ _ λ found h1.
          Gives-bind (Fetched k s) (lift (or_raise _ found)) _ _ λ p h2 q e.
            let (selected, same) = pg.on_ok (Statement.select_products tenant_id k) s.db rows h in
            let one = scalar-some rows p (h1 ∙ ap ok (or_raise-some _ found p h2)) in
            (sym selected ∙ one ∙ ap (λ (x : Product). x ∷ []) (ok-injective e), same, refl)

  abbrev ResolvedProduct : String → Normalizer S → Product → Normalizer S → Type 0
  ResolvedProduct k s p s' =
      IsProductFor s k p × (tables_of s' ≡ tables_of s) × (s'.location_cache ≡ s.location_cache)

  resolve_product-cached :
      (k : String) (s : Normalizer S) (o : Option Product)
      → lookup k s.product_cache ≡ o
      → Gives (cached o (fetch_product db tenant_id k)) s (ResolvedProduct k s)
  resolve_product-cached k s none h p e =
      let (one, same, caches) = fetch_product-Fetched k s p e in (inr (h, one), same, caches)
  resolve_product-cached k s (some a) h p e = (inl (h ∙ ap some (ok-injective e)), refl, refl)

  pub resolve_product-Resolved :
      (k : String) (s : Normalizer S)
      → Gives (resolve_product db tenant_id k) s (ResolvedProduct k s)
  unfolding resolve_product
  resolve_product-Resolved k s = resolve_product-cached k s _ refl

  abbrev ResolvedLocation : String → Normalizer S → Location → Normalizer S → Type 0
  ResolvedLocation k s l s' =
      IsLocationFor s k l (tables_of s').locations × OnlyLocations (tables_of s) (tables_of s')

  module _ (k : String) (s : Normalizer S) (missing : lookup k s.location_cache ≡ none) where
    new-Resolved :
        (rows : List Location) (found : Option Location) (s1 : Normalizer S)
        → tables_of s1 ≡ tables_of s
        → rows ≡ select (has_name tenant_id k) (tables_of s).locations
        → scalar_one_or_none rows ≡ ok found
        → Gives (location_or_new db tenant_id k found) s1 (ResolvedLocation k s)
    unfolding location_or_new execute
    new-Resolved rows (some r) s1 same selected one l h = (
      inr (
          inl (
            missing,
            sym selected ∙ scalar-some rows r one ∙ ap (λ (x : Location). x ∷ []) (ok-injective h),
            ap (λ (T : Tables). T.locations) same,
          )),
      same ∙ sym (ap (λ (T : Tables). record (tables_of s) { locations = T.locations }) same),
    )
    new-Resolved rows none s1 same selected one l h =
        let (own, named, after) = pg.on_ok (Statement.insert_location tenant_id k) s1.db l h in
        let there =
          after ∙ ap (λ (T : Tables). record T { locations = T.locations ++ l ∷ [] }) same in
        (
          inr (
              inr (
                missing,
                sym selected ∙ scalar-none rows one,
                ap (λ (T : Tables). T.locations) there,
              )),
          there ∙ sym (ap (λ (T : Tables). record (tables_of s) { locations = T.locations }) there),
        )

    retarget :
        (T' : Tables) (l q : Location)
        → l ≡ q
        → IsLocationFor s k l T'.locations × OnlyLocations (tables_of s) T'
        → IsLocationFor s k q T'.locations × OnlyLocations (tables_of s) T'
    retarget T' l q e h =
        subst (λ x. IsLocationFor s k x T'.locations × OnlyLocations (tables_of s) T') e h

    fetch_location-Resolved : Gives (fetch_location db tenant_id k) s (ResolvedLocation k s)
    unfolding fetch_location cache_location execute
    fetch_location-Resolved =
        Gives-bind (ResolvedLocation k s)
          (execute db tenant_id (Statement.select_locations tenant_id k)) _ s
          λ rows h.
            Gives-bind (ResolvedLocation k s) (lift (scalar_one_or_none rows)) _ _ λ found h1.
              Gives-bind (ResolvedLocation k s) (location_or_new db tenant_id k found) _ _
                λ l h2 q e.
                  let (selected, same) =
                    pg.on_ok (Statement.select_locations tenant_id k) s.db rows h in
                  retarget _ l q (ok-injective e) (new-Resolved rows found _ same selected h1 l h2)

  resolve_location-cached :
      (k : String) (s : Normalizer S) (o : Option Location)
      → lookup k s.location_cache ≡ o
      → Gives (cached o (fetch_location db tenant_id k)) s (ResolvedLocation k s)
  resolve_location-cached k s none h l e = fetch_location-Resolved k s h l e
  resolve_location-cached k s (some a) h l e = (inl (h ∙ ap some (ok-injective e), refl), refl)

  pub resolve_location-Resolved :
      (k : String) (s : Normalizer S)
      → Gives (resolve_location db tenant_id k) s (ResolvedLocation k s)
  unfolding resolve_location
  resolve_location-Resolved k s = resolve_location-cached k s _ refl

  -- The location of a batch: none where it has no name or an empty one.
  abbrev pub IsNamedLocation :
      Normalizer S → Option String → Option Location → List Location → Type 0
  IsNamedLocation s none o after = (o ≡ none) × (after ≡ (tables_of s).locations)
  IsNamedLocation s (some name) o after =
      ((name ≡ "") × (o ≡ none) × (after ≡ (tables_of s).locations))
      ⊎ ((l : Location) × (o ≡ some l) × IsLocationFor s name l after)

  abbrev ResolvedName : Option String → Normalizer S → Option Location → Normalizer S → Type 0
  ResolvedName n s o s' =
      IsNamedLocation s n o (tables_of s').locations × OnlyLocations (tables_of s) (tables_of s')

  named-Resolved :
      (name : String) (s : Normalizer S)
      → Gives
          (resolve_location db tenant_id name >>= λ location. pure (some location))
          s
          (ResolvedName (some name) s)
  named-Resolved name s =
      Gives-bind (ResolvedName (some name) s) (resolve_location db tenant_id name)
        (λ location. pure (some location)) s
        λ l h o e.
          let (found, only) = resolve_location-Resolved name s l h in
          (inr (l, sym (ok-injective e), found), only)

  pub optional_location-Resolved :
      (n : Option String) (s : Normalizer S)
      → Gives (optional_location db tenant_id n) s (ResolvedName n s)
  unfolding optional_location
  optional_location-Resolved none s = λ o e. ((sym (ok-injective e), refl), refl)
  optional_location-Resolved (some name) s = elim (Bool-cases (str_eq name "")) [
    | inl empty ↦
        rw (empty, optional_location)
          (λ o e. (inl ((eq_iff name "").0 empty, sym (ok-injective e), refl), refl))
    | inr given ↦ rw (given, optional_location) (named-Resolved name s)
  ]
