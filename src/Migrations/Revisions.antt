-- ===== src/Migrations/Revisions.antt =====
-- alembic/versions: the `upgrade` and the `downgrade` of each revision, as the operations that it asks
-- for, in order.
use nexus_inventory_platform.Base.{
  String, List, [], ◌∷◌, Option, none, some, true, false, ◌||◌, str_eq, if◌then◌else◌,
}
use nexus_inventory_platform.Migrations.Schema.{
  ColumnType, Column, OnDelete, Constraint, Index, Command, Policy, Row,
}
use nexus_inventory_platform.Migrations.Operations.{Sql, Op}

-- sa.Column(name, type, nullable=False), nullable=True, and server_default=sa.text('now()')
abbrev pub required : String → ColumnType → Column
required n t = record { name = n; type = t; nullable = false; now_default = false }

abbrev pub optional : String → ColumnType → Column
optional n t = record { name = n; type = t; nullable = true; now_default = false }

abbrev pub stamped : String → Column
stamped n = record { name = n; type = ColumnType.timestamptz; nullable = false; now_default = true }

abbrev pub index : String → List String → Index
index n cs = record { name = n; columns = cs; unique = false }

abbrev pub tenant_fk : String × Constraint
tenant_fk = ("", Constraint.foreign_key "tenant_id" "tenants" "id" OnDelete.restrict)

abbrev pub key : String × Constraint
key = ("", Constraint.primary_key "id")

-- 36e6ea49bb2b
abbrev pub upgrade_create_users_table : List Op
upgrade_create_users_table =
    Op.create_table "users"
      (required "id" ColumnType.uuid
        ∷ required "email" ColumnType.text
        ∷ required "hashed_password" ColumnType.text
        ∷ required "is_active" ColumnType.boolean
        ∷ stamped "created_at"
        ∷ stamped "updated_at"
        ∷ [])
      (key ∷ [])
    ∷ Op.create_index (record { name = "ix_users_email"; columns = "email" ∷ []; unique = true })
        "users"
    ∷ []

abbrev pub downgrade_create_users_table : List Op
downgrade_create_users_table = Op.drop_index "ix_users_email" "users" ∷ Op.drop_table "users" ∷ []

-- 4bc4e45b350d
abbrev pub upgrade_create_tenants_table : List Op
upgrade_create_tenants_table =
    Op.create_table "tenants"
      (required "id" ColumnType.uuid
        ∷ required "name" (ColumnType.varchar 255)
        ∷ optional "industry_type" (ColumnType.varchar 100)
        ∷ optional "erp_type" (ColumnType.varchar 100)
        ∷ required "subscription_plan" (ColumnType.varchar 20)
        ∷ required "subscription_status" (ColumnType.varchar 20)
        ∷ optional "trial_start_date" ColumnType.date
        ∷ optional "trial_end_date" ColumnType.date
        ∷ optional "subscription_start_date" ColumnType.date
        ∷ optional "next_billing_date" ColumnType.date
        ∷ optional "config" ColumnType.jsonb
        ∷ required "is_active" ColumnType.boolean
        ∷ stamped "created_at"
        ∷ stamped "updated_at"
        ∷ [])
      (key ∷ ("", Constraint.unique ("name" ∷ [])) ∷ [])
    ∷ []

abbrev pub downgrade_create_tenants_table : List Op
downgrade_create_tenants_table = Op.drop_table "tenants" ∷ []

-- 444a0c65e4f0
abbrev pub upgrade_add_tenant_id : List Op
upgrade_add_tenant_id =
    Op.add_column "users" (required "tenant_id" ColumnType.uuid)
    ∷ Op.add_column "users" (required "role" (ColumnType.varchar 20))
    ∷ Op.add_column "users" (optional "last_login" ColumnType.timestamptz)
    ∷ Op.create_index (index "ix_users_tenant_id" ("tenant_id" ∷ [])) "users"
    ∷ Op.create_constraint "fk_users_tenant_id" "users"
        (Constraint.foreign_key "tenant_id" "tenants" "id" OnDelete.restrict)
    ∷ []

abbrev pub downgrade_add_tenant_id : List Op
downgrade_add_tenant_id =
    Op.drop_constraint "fk_users_tenant_id" "users"
    ∷ Op.drop_index "ix_users_tenant_id" "users"
    ∷ Op.drop_column "users" "last_login"
    ∷ Op.drop_column "users" "role"
    ∷ Op.drop_column "users" "tenant_id"
    ∷ []

-- f7e098064859
abbrev pub policy : String → Command → Option String → Option String → Policy
policy n c u k = record { name = n; command = c; using = u; check = k }

abbrev pub upgrade_enable_rls_on_users : List Op
upgrade_enable_rls_on_users =
    Op.execute (Sql.create_schema "app")
    ∷ Op.execute (Sql.create_function "app" "app.current_tenant_id()" "app.current_tenant_id")
    ∷ Op.execute (Sql.enable_row_security "users")
    ∷ Op.execute (Sql.force_row_security "users")
    ∷ Op.execute (
        Sql.create_policy "users"
          (policy "tenant_isolation_select" Command.select (some "tenant_id") none))
    ∷ Op.execute (
        Sql.create_policy "users"
          (policy "tenant_isolation_insert" Command.insert none (some "tenant_id")))
    ∷ Op.execute (
        Sql.create_policy "users"
          (policy "tenant_isolation_update" Command.update (some "tenant_id") (some "tenant_id")))
    ∷ Op.execute (
        Sql.create_policy "users"
          (policy "tenant_isolation_delete" Command.delete (some "tenant_id") none))
    ∷ Op.execute (Sql.enable_row_security "tenants")
    ∷ Op.execute (Sql.force_row_security "tenants")
    ∷ Op.execute
        (Sql.create_policy "tenants" (policy "tenant_self_select" Command.select (some "id") none))
    ∷ Op.execute (Sql.grant_usage "app" "nexus_runtime")
    ∷ Op.execute (Sql.grant_execute "app.current_tenant_id()" "nexus_runtime")
    ∷ []

abbrev pub downgrade_enable_rls_on_users : List Op
downgrade_enable_rls_on_users =
    Op.execute (Sql.drop_policy "tenant_self_select" "tenants")
    ∷ Op.execute (Sql.disable_row_security "tenants")
    ∷ Op.execute (Sql.no_force_row_security "tenants")
    ∷ Op.execute (Sql.drop_policy "tenant_isolation_delete" "users")
    ∷ Op.execute (Sql.drop_policy "tenant_isolation_update" "users")
    ∷ Op.execute (Sql.drop_policy "tenant_isolation_insert" "users")
    ∷ Op.execute (Sql.drop_policy "tenant_isolation_select" "users")
    ∷ Op.execute (Sql.disable_row_security "users")
    ∷ Op.execute (Sql.no_force_row_security "users")
    ∷ Op.execute (Sql.drop_function "app.current_tenant_id()")
    ∷ Op.execute (Sql.drop_schema "app")
    ∷ []

-- What the seed reads from the environment, and the hash of a password by `pwdlib`.
pub record Seed : Type 0 where
  pub owner_email : Option String
  pub owner_password : Option String
  pub hash : String → String

-- ef7f95410110
abbrev pub default_tenant_id : String
default_tenant_id = "00000000-0000-4000-a000-000000000001"

abbrev pub default_owner_id : String
default_owner_id = "00000000-0000-4000-a000-000000000002"

abbrev pub tenant_row : Row
tenant_row =
    ("id", default_tenant_id)
    ∷ ("name", "Default")
    ∷ ("subscription_plan", "enterprise")
    ∷ ("subscription_status", "active")
    ∷ ("is_active", "true")
    ∷ []

abbrev pub owner_row : String → String → Row
owner_row email hashed =
    ("id", default_owner_id)
    ∷ ("tenant_id", default_tenant_id)
    ∷ ("email", email)
    ∷ ("role", "owner")
    ∷ ("hashed_password", hashed)
    ∷ ("is_active", "true")
    ∷ []

abbrev pub inserts : String → String → List Op
inserts email hashed =
    Op.execute (Sql.insert_new "tenants" tenant_row)
    ∷ Op.execute (Sql.insert_new "users" (owner_row email hashed))
    ∷ []

-- `none` is the RuntimeError of an email or a password that is not set, or empty.
unfoldable pub given_inserts : (String → String) → Option String → Option String → Option (List Op)
given_inserts hash none password = none
given_inserts hash (some email) none = none
given_inserts hash (some email) (some password) =
    if str_eq email "" || str_eq password "" then none else some (inserts email (hash password))

unfoldable pub upgrade_seed_default_tenant : Seed → Option (List Op)
unfolding given_inserts
upgrade_seed_default_tenant seed = given_inserts seed.hash seed.owner_email seed.owner_password

abbrev pub downgrade_seed_default_tenant : List Op
downgrade_seed_default_tenant =
    Op.execute (Sql.delete_id "users" default_owner_id)
    ∷ Op.execute (Sql.delete_id "tenants" default_tenant_id)
    ∷ []

-- 3bd67eab8293
abbrev pub role_values : List String
role_values = "owner" ∷ "admin" ∷ "ops" ∷ "viewer" ∷ []

abbrev pub upgrade_convert_role : List Op
upgrade_convert_role =
    Op.execute (Sql.update_unless "users" "role" "viewer" role_values)
    ∷ Op.create_enum "user_role_enum" role_values
    ∷ Op.alter_type "users" "role" (ColumnType.enum "user_role_enum" role_values)
    ∷ []

abbrev pub downgrade_convert_role : List Op
downgrade_convert_role =
    Op.alter_type "users" "role" (ColumnType.varchar 20) ∷ Op.drop_enum "user_role_enum" ∷ []
