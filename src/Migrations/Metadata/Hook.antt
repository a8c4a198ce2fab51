-- ===== src/Migrations/Metadata/Hook.antt =====
-- The statements of row-level security in alembic/versions/ca2c9afa5eb7_create_inventory_and_sync_tables.py,
-- as texts, beside those of the hook of app/rls.py.
use Prim.Native.String.{◌++◌ as append}
use nexus_inventory_platform.Base.{String, map, Option, none, some, ◌≡◌, refl}
use nexus_inventory_platform.Rls.{
  MetaData, Operation, create_table, execute_sql, other, process_revision_directives,
}
use nexus_inventory_platform.Migrations.Schema.{Column, Command}
use nexus_inventory_platform.Migrations.Operations.{Sql, Op, is_in}
use nexus_inventory_platform.Migrations.Inventory.{
  created, removed, upgrade_inventory, downgrade_inventory,
}
use nexus_inventory_platform.Migrations.Metadata.{Class, declared, classes}

abbrev command_text : Command → String
command_text Command.all = "ALL"
command_text Command.select = "SELECT"
command_text Command.insert = "INSERT"
command_text Command.update = "UPDATE"
command_text Command.delete = "DELETE"

abbrev condition : String → Option String → String
condition clause none = ""
condition clause (some c) = append clause (append " (" (append c " = app.current_tenant_id())"))

abbrev alter : String → String → String
alter t what = append (append (append "ALTER TABLE " t) what) " ROW LEVEL SECURITY"

-- The text of a statement that the migration executes; the others have none here.
abbrev sql_text : Sql → String
sql_text (Sql.enable_row_security t) = alter t " ENABLE"
sql_text (Sql.force_row_security t) = alter t " FORCE"
sql_text (Sql.no_force_row_security t) = alter t " NO FORCE"
sql_text (Sql.disable_row_security t) = alter t " DISABLE"
sql_text (Sql.create_policy t p) =
    append
      (append (append (append "CREATE POLICY " p.name) (append " ON " t))
        (append (append " FOR " (command_text p.command)) " TO nexus_runtime"))
      (append (condition " USING" p.using) (condition " WITH CHECK" p.check))
sql_text (Sql.drop_policy p t) = append (append "DROP POLICY IF EXISTS " p) (append " ON " t)
sql_text _ = ""

-- An operation as the hook sees it.
abbrev scripted : Op → Operation
scripted (Op.create_table t cs ks) = create_table t
scripted (Op.execute q) = execute_sql (sql_text q)
scripted _ = other ""

-- Base.metadata: each table with the flag of each of its columns.
abbrev metadata : MetaData
metadata =
    map
      (λ (c : Class). (
        (declared c).table,
        map (λ (column : Column). is_in column.name (declared c).rls) (declared c).columns,
      ))
      classes

-- On the script of the tables alone, the hook makes the migration, both ways.
test_hook :
    process_revision_directives metadata
      (record { upgrade_ops = map scripted created; downgrade_ops = map scripted removed })
    ≡ record {
      upgrade_ops = map scripted upgrade_inventory;
      downgrade_ops = map scripted downgrade_inventory;
    }
unfolding process_revision_directives
test_hook = refl
