-- ===== src/Migrations/History/Isolation.antt =====
-- What the policies of the migrated database let the role `nexus_runtime` see and write. PostgreSQL is not
-- part of the repository: `IsSecured` states what it documents of policies.
use nexus_inventory_platform.Rls.{tenant_setting}
use nexus_inventory_platform.Base.{
  String, List, [], ◌∷◌, Option, none, some, Bool, true, false, ◌&&◌, str_eq, if◌then◌else◌, ◌≡◌,
  refl, ap, sym, ◌∙◌, ◌⊎◌, inl, inr, arith, eq_iff,
}
use nexus_inventory_platform.Migrations.Schema.{Policy, Table, Function, Catalog}
use nexus_inventory_platform.Migrations.Operations.{every, run, policy_function}
use nexus_inventory_platform.Migrations.Revisions.{inserts}
use nexus_inventory_platform.Migrations.History.{create_inventory, upgrade, upgrade_with, upgraded}
use nexus_inventory_platform.Migrations.History.Undone.{upgrade_seed-inserts}

abbrev pub In : {A : Type 0} → A → List A → Type 0
In x [] = ⊥
In x (y ∷ ys) = (x ≡ y) ⊎ In x ys

-- WITH CHECK, or USING where a policy has none.
abbrev pub write_condition : Policy → Option String
write_condition p = elim p.check [ none ↦ p.using | some c ↦ some c ]

-- `sees` and `writes` of a table, with the settings of the session, and a row; `value` is a column of a row,
-- as text, and `functions` those of the database. In a table under row-level security, what a role other
-- than the owner sees or writes meets the condition of one of the policies, which compares a column with the
-- setting that the function of the conditions reads; and a comparison with a setting that is not there is
-- not true.
abbrev pub Settings : Type 0
Settings = String → Option String

pub record IsSecured {R : Type 0} (functions : List Function) (value : String → R → String)
    (sees writes : Table → Settings → R → Type 0) : Type 0 where
  pub on_read :
      (t : Table) (settings : Settings) (row : R)
      → t.row_security ≡ true
      → sees t settings row
      → (p : Policy) × (c : String) × (f : Function) × In p t.policies
        × In f functions
        × (f.name ≡ policy_function)
        × (p.using ≡ some c)
        × (settings f.setting ≡ some (value c row))
  pub on_write :
      (t : Table) (settings : Settings) (row : R)
      → t.row_security ≡ true
      → writes t settings row
      → (p : Policy) × (c : String) × (f : Function) × In p t.policies
        × In f functions
        × (f.name ≡ policy_function)
        × (write_condition p ≡ some c)
        × (settings f.setting ≡ some (value c row))

-- The column that says whose row it is.
abbrev pub owner_column : Table → String
owner_column t = if str_eq t.name "tenants" then "id" else "tenant_id"

abbrev only : String → Option String → Bool
only c none = true
only c (some d) = str_eq d c

abbrev confines : String → Policy → Bool
confines c p = only c p.using && only c (write_condition p)

abbrev isolates : Table → Bool
isolates t = t.row_security && t.forced && every (confines (owner_column t)) t.policies

and-true : (a b : Bool) → (a && b) ≡ true → (a ≡ true) × (b ≡ true)
and-true true b h = (refl, h)
and-true false b h = cc

every-In :
    {A : Type 0} (q : A → Bool) (xs : List A) (x : A) → every q xs ≡ true → In x xs → q x ≡ true
every-In q [] x h m = absurd m
every-In q (y ∷ ys) x h (inl e) = rw e (and-true (q y) (every q ys) h).0
every-In q (y ∷ ys) x h (inr m) = every-In q ys x (and-true (q y) (every q ys) h).1 m

only-same : (c d : String) (o : Option String) → o ≡ some d → only c o ≡ true → d ≡ c
only-same c d none e h = cc
only-same c d (some d') e h = ground (arith, h, e, eq_iff d' c)

-- The setting that `set_tenant_context` sets is the one that the function reads.
abbrev reads_tenant : Function → Bool
reads_tenant f = str_eq f.setting tenant_setting

reads_tenant-setting : (f : Function) → reads_tenant f ≡ true → f.setting ≡ tenant_setting
reads_tenant-setting f h = (eq_iff f.setting tenant_setting).0 h

module _ {R : Type 0} (value : String → R → String)
    (sees writes : Table → Settings → R → Type 0) where
  -- The tenant of the context is that of the row.
  abbrev pub IsOwn : Table → Settings → R → Type 0
  IsOwn t settings row = settings tenant_setting ≡ some (value (owner_column t) row)

  isolates-IsOwn :
      (functions : List Function)
      → IsSecured functions value sees writes
      → every reads_tenant functions ≡ true
      → (t : Table) (settings : Settings) (row : R) → isolates t ≡ true
      → sees t settings row ⊎ writes t settings row
      → IsOwn t settings row
  isolates-IsOwn functions secured read t settings row h access =
      let (both, all) = and-true (t.row_security && t.forced) _ h in
      let (on, forced) = and-true t.row_security t.forced both in
      elim access [
        | inl seen ↦
            let (p, c, f, m, n, called, u, e) = secured.on_read t settings row on seen in
            let q =
              and-true (only (owner_column t) p.using) _
                (every-In (confines (owner_column t)) t.policies p all m) in
            ap settings (sym (reads_tenant-setting f (every-In reads_tenant functions f read n)))
            ∙ e
            ∙ ap (λ d. some (value d row)) (only-same (owner_column t) c p.using u q.0)
        | inr written ↦
            let (p, c, f, m, n, called, u, e) = secured.on_write t settings row on written in
            let q =
              and-true (only (owner_column t) p.using) _
                (every-In (confines (owner_column t)) t.policies p all m) in
            ap settings (sym (reads_tenant-setting f (every-In reads_tenant functions f read n)))
            ∙ e
            ∙ ap (λ d. some (value d row)) (only-same (owner_column t) c (write_condition p) u q.1)
      ]

  inserts-isolates :
      (email hashed : String) (s : Catalog)
      → upgraded (upgrade_with (some (inserts email hashed))) create_inventory ≡ some s
      → (every isolates s.tables ≡ true) × (every reads_tenant s.functions ≡ true)
  unfolding upgraded upgrade_with run
  inserts-isolates email hashed s h = (
    ap (λ (o : Option Catalog). elim o [ none ↦ false | some k ↦ every isolates k.tables ]) (sym h),
    ap (λ (o : Option Catalog). elim o [ none ↦ false | some k ↦ every reads_tenant k.functions ])
        (sym h),
  )

  -- In the migrated database, whatever the email and the password of the seed, `nexus_runtime` sees and
  -- writes, in every table, only rows of the tenant in its context, and none where no tenant is set; of
  -- the tenants themselves only that one.
  pub upgraded-IsOwn :
      (hash : String → String) (email password : String) (s : Catalog)
      → str_eq email "" ≡ false
      → str_eq password "" ≡ false
      → upgraded
          (upgrade
            (record { owner_email = some email; owner_password = some password; hash = hash }))
          create_inventory
        ≡ some s
      → IsSecured s.functions value sees writes
      → (t : Table) (settings : Settings) (row : R) → In t s.tables
      → sees t settings row ⊎ writes t settings row
      → IsOwn t settings row
  unfolding upgrade
  upgraded-IsOwn hash email password s h k reached secured t settings row m access =
      let seeded = upgrade_seed-inserts hash email password h k in
      let (tables, functions) =
        inserts-isolates email (hash password) s (
          ap (λ seeding. upgraded (upgrade_with seeding) create_inventory) (sym seeded)
          ∙ reached) in
      isolates-IsOwn s.functions secured functions t settings row
        (every-In isolates s.tables t tables m) access
