-- ===== src/Migrations/History/Undone.antt =====
-- Each migration of alembic/versions takes effect, and its downgrade takes that back.
use nexus_inventory_platform.Base.{String, List, Option, some, false, str_eq, ◌≡◌, refl}
use nexus_inventory_platform.Migrations.Schema.{Catalog}
use nexus_inventory_platform.Migrations.Operations.{Op, run}
use nexus_inventory_platform.Migrations.Revisions.{inserts, upgrade_seed_default_tenant}
use nexus_inventory_platform.Migrations.History.{Revision, downgrade, upgraded, before}

-- The migration of `r` takes the database from one catalog to the other, and its downgrade brings the
-- first one back.
pub record Undoes (up : Revision → Option (List Op)) (r : Revision) : Type 0 where
  pub earlier : Catalog
  pub later : Catalog
  pub reached : before up r ≡ some earlier
  pub taken : upgraded up r ≡ some later
  pub back : run (downgrade r) later ≡ some earlier

pub upgrade_seed-inserts :
    (hash : String → String) (email password : String)
    → str_eq email "" ≡ false
    → str_eq password "" ≡ false
    → upgrade_seed_default_tenant
        (record { owner_email = some email; owner_password = some password; hash = hash })
      ≡ some (inserts email (hash password))
unfolding upgrade_seed_default_tenant
upgrade_seed-inserts hash email password h k = rw (h, k) refl
