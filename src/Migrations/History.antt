-- ===== src/Migrations/History.antt =====
-- The chain of the revisions in alembic/versions, by `revision` and `down_revision`, and the catalogs
-- that Alembic goes through as it applies them one after another.
pub mod Undone
pub mod Roles
pub mod Isolation
use nexus_inventory_platform.Base.{ℕ, zero, suc, String, List, [], ◌∷◌, Option, none, some}
use nexus_inventory_platform.Migrations.Schema.{Catalog}
use nexus_inventory_platform.Migrations.Operations.{Op, run}
use nexus_inventory_platform.Migrations.Revisions.{
  Seed, upgrade_create_users_table, downgrade_create_users_table, upgrade_create_tenants_table,
  downgrade_create_tenants_table, upgrade_add_tenant_id, downgrade_add_tenant_id,
  upgrade_enable_rls_on_users, downgrade_enable_rls_on_users, upgrade_seed_default_tenant,
  downgrade_seed_default_tenant, upgrade_convert_role, downgrade_convert_role,
}
use nexus_inventory_platform.Migrations.Inventory.{upgrade_inventory, downgrade_inventory}

pub data Revision : Type 0 where
  create_users_table create_tenants_table add_tenant_id enable_rls_on_users : Revision
  seed_default_tenant convert_role create_inventory : Revision

abbrev pub down_revision : Revision → Option Revision
down_revision create_users_table = none
down_revision create_tenants_table = some create_users_table
down_revision add_tenant_id = some create_tenants_table
down_revision enable_rls_on_users = some add_tenant_id
down_revision seed_default_tenant = some enable_rls_on_users
down_revision convert_role = some seed_default_tenant
down_revision create_inventory = some convert_role

-- What each migration asks for, with what the seed does; `none` is one that raises.
unfoldable pub upgrade_with : Option (List Op) → Revision → Option (List Op)
upgrade_with seeding create_users_table = some upgrade_create_users_table
upgrade_with seeding create_tenants_table = some upgrade_create_tenants_table
upgrade_with seeding add_tenant_id = some upgrade_add_tenant_id
upgrade_with seeding enable_rls_on_users = some upgrade_enable_rls_on_users
upgrade_with seeding seed_default_tenant = seeding
upgrade_with seeding convert_role = some upgrade_convert_role
upgrade_with seeding create_inventory = some upgrade_inventory

unfoldable pub upgrade : Seed → Revision → Option (List Op)
unfolding upgrade_with upgrade_seed_default_tenant
upgrade seed = upgrade_with (upgrade_seed_default_tenant seed)

abbrev pub downgrade : Revision → List Op
downgrade create_users_table = downgrade_create_users_table
downgrade create_tenants_table = downgrade_create_tenants_table
downgrade add_tenant_id = downgrade_add_tenant_id
downgrade enable_rls_on_users = downgrade_enable_rls_on_users
downgrade seed_default_tenant = downgrade_seed_default_tenant
downgrade convert_role = downgrade_convert_role
downgrade create_inventory = downgrade_inventory

abbrev pub empty_catalog : Catalog
empty_catalog = record { tables = []; enums = []; schemas = []; functions = [] }

unfoldable pub run_given : Option (List Op) → Option Catalog → Option Catalog
unfolding run
run_given none s = none
run_given (some ops) none = none
run_given (some ops) (some s) = run ops s

-- The catalog before a revision is that of the revision below it, the first one starting from an empty
-- database. The number bounds the steps down, of which there are six at most.
unfoldable pub catalog_at : ℕ → (Revision → Option (List Op)) → Option Revision → Option Catalog
unfolding run_given
catalog_at n up none = some empty_catalog
catalog_at zero up (some r) = none
catalog_at (suc n) up (some r) = run_given (up r) (catalog_at n up (down_revision r))

-- `alembic upgrade r` from an empty database
unfoldable pub upgraded : (Revision → Option (List Op)) → Revision → Option Catalog
unfolding catalog_at
upgraded up r = catalog_at 7 up (some r)

unfoldable pub before : (Revision → Option (List Op)) → Revision → Option Catalog
unfolding catalog_at
before up r = catalog_at 6 up (down_revision r)
