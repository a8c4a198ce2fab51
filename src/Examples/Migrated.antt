-- ===== src/Examples/Migrated.antt =====
-- The theorems on the migrations and on the sessions at concrete inputs.
use nexus_inventory_platform.Base.{String, List, [], ◌∷◌, none, some, true, ◌≡◌, refl, inl}
use nexus_inventory_platform.Migrations.Schema.{ColumnType, Policy, Row, Table, Function, Catalog}
use nexus_inventory_platform.Migrations.Operations.{
  field, in_table, new_table, run, policy_function, has_type,
}
use nexus_inventory_platform.Migrations.Revisions.{
  Seed, required, role_values, upgrade_convert_role,
}
use nexus_inventory_platform.Migrations.Inventory.{isolation}
use nexus_inventory_platform.Migrations.History.{create_inventory, upgrade, upgraded, empty_catalog}
use nexus_inventory_platform.Migrations.History.Roles.{has_role_values, upgrade_convert_role_lem}
use nexus_inventory_platform.Migrations.History.Isolation.{
  In, write_condition, Settings, IsSecured, IsOwn, upgraded-IsOwn,
}
use nexus_inventory_platform.Migrations.Metadata.{product}
use nexus_inventory_platform.Migrations.Metadata.Matches.{Matches, upgrade-Matches}

abbrev seed : Seed
seed = record { owner_email = some "o@x"; owner_password = some "secret"; hash = λ p. "h" }

upgrade-Matches_example : Matches (upgraded (upgrade seed) create_inventory) product
upgrade-Matches_example = upgrade-Matches (λ p. "h") "o@x" "secret" product refl refl

-- A table of users, one with a role that the enumeration does not have.
abbrev old_users : Table
old_users = record (new_table "users" (required "role" (ColumnType.varchar 20) ∷ []) []) {
  rows = (("id", "1") ∷ ("role", "boss") ∷ []) ∷ (("id", "2") ∷ ("role", "ops") ∷ []) ∷ [];
}

abbrev old_catalog : Catalog
old_catalog = record empty_catalog { tables = old_users ∷ [] }

upgrade_convert_role_lem_example :
    (s' : Catalog) × (run upgrade_convert_role old_catalog ≡ some s')
    × (in_table "users" has_role_values s' ≡ true)
    × (has_type s' (ColumnType.enum "user_role_enum" role_values) ≡ true)
upgrade_convert_role_lem_example = upgrade_convert_role_lem old_catalog refl (inl refl)

-- Reading and writing by the policies of a table alone.
abbrev Sees : List Function → Table → Settings → Row → Type 0
Sees functions t settings row =
    (p : Policy) × (c : String) × (f : Function) × In p t.policies
    × In f functions
    × (f.name ≡ policy_function)
    × (p.using ≡ some c)
    × (settings f.setting ≡ some (field c row))

abbrev Writes : List Function → Table → Settings → Row → Type 0
Writes functions t settings row =
    (p : Policy) × (c : String) × (f : Function) × In p t.policies
    × In f functions
    × (f.name ≡ policy_function)
    × (write_condition p ≡ some c)
    × (settings f.setting ≡ some (field c row))

abbrev by_policies : (fs : List Function) → IsSecured fs field (Sees fs) (Writes fs)
by_policies fs = record {
  on_read = λ t tenant row on seen. seen;
  on_write = λ t tenant row on written. written;
}

unfoldable migrated : Catalog
unfolding upgraded upgrade
migrated = elim (upgraded (upgrade seed) create_inventory) [ none ↦ empty_catalog | some s ↦ s ]

first_table : List Table → Table
first_table [] = old_users
first_table (t ∷ ts) = t

abbrev stock_row : Row
stock_row = ("tenant_id", "t1") ∷ []

abbrev settings : Settings
settings k = some "t1"

upgraded-IsOwn_example :
    IsOwn field
      (Sees (migrated.functions))
      (Writes (migrated.functions))
      (first_table (migrated.tables))
      settings
      stock_row
unfolding migrated first_table field
upgraded-IsOwn_example =
    upgraded-IsOwn field (Sees (migrated.functions)) (Writes (migrated.functions)) (λ p. "h") "o@x"
      "secret" migrated refl refl refl (by_policies (migrated.functions))
      (first_table (migrated.tables)) settings stock_row (inl refl)
      (inl (isolation "transactions", "tenant_id", _, inl refl, inl refl, refl, refl, refl))
