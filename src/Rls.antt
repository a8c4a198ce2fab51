-- ===== src/Rls.antt =====
-- app/rls.py: the statements that put a table under row-level security, and the hook that adds them to
-- an Alembic revision. Alembic and SQLAlchemy's metadata are not part of the repository: an operation is
-- the creation of a table, an SQL statement, or another one, and the metadata is a list of tables with
-- the `rls` flag of each column.
pub mod Revision
use Prim.Native.String.{◌++◌ as append}
use nexus_inventory_platform.Base.{
  String, List, [], ◌∷◌, ◌++◌, map, Option, none, some, Bool, true, false, if◌then◌else◌, any,
}
use nexus_inventory_platform.Values.{lookup}

abbrev pub runtime_role : String
runtime_role = "nexus_runtime"

abbrev pub tenant_setting : String
tenant_setting = "app.current_tenant_id"

-- The texts of an f-string, one after another.
concat : List String → String
concat [] = ""
concat (s ∷ rest) = append s (concat rest)

unfoldable pub rls_upgrade_sql : String → String → List String
unfolding concat
rls_upgrade_sql table_name tenant_col =
    let policy = append "tenant_isolation_" table_name in
    concat ("ALTER TABLE " ∷ table_name ∷ " ENABLE ROW LEVEL SECURITY" ∷ [])
    ∷ concat ("ALTER TABLE " ∷ table_name ∷ " FORCE ROW LEVEL SECURITY" ∷ [])
    ∷ concat (
        "CREATE POLICY " ∷ policy ∷ " ON " ∷ table_name ∷ " FOR ALL TO " ∷ runtime_role ∷ " USING ("
        ∷ tenant_col ∷ " = " ∷ tenant_setting ∷ "()) WITH CHECK (" ∷ tenant_col ∷ " = "
        ∷ tenant_setting ∷ "())" ∷ [])
    ∷ []

unfoldable pub rls_downgrade_sql : String → List String
unfolding concat
rls_downgrade_sql table_name =
    let policy = append "tenant_isolation_" table_name in
    concat ("DROP POLICY IF EXISTS " ∷ policy ∷ " ON " ∷ table_name ∷ [])
    ∷ concat ("ALTER TABLE " ∷ table_name ∷ " NO FORCE ROW LEVEL SECURITY" ∷ [])
    ∷ concat ("ALTER TABLE " ∷ table_name ∷ " DISABLE ROW LEVEL SECURITY" ∷ [])
    ∷ []

-- metadata.tables, with `col.info.get("rls", False)` of each column
abbrev pub MetaData : Type 0
MetaData = List (String × List Bool)

unfoldable pub is_rls_table : MetaData → String → Bool
unfolding lookup
is_rls_table metadata table_name = elim (lookup table_name metadata) [
  | none ↦ false
  | some columns ↦ any (λ rls. rls) columns
]

pub data Operation : Type 0 where
  create_table : String → Operation
  execute_sql : String → Operation
  other : String → Operation

-- The directives of a revision script.
pub record Script : Type 0 where
  pub upgrade_ops : List Operation
  pub downgrade_ops : List Operation

-- The tables of the first loop, in order.
unfoldable pub rls_tables : MetaData → List Operation → List String
unfolding is_rls_table
rls_tables metadata [] = []
rls_tables metadata (create_table t ∷ ops) =
    let rest = rls_tables metadata ops in if is_rls_table metadata t then t ∷ rest else rest
rls_tables metadata (execute_sql s ∷ ops) = rls_tables metadata ops
rls_tables metadata (other s ∷ ops) = rls_tables metadata ops

-- upgrade_ops.ops.append(ops.ExecuteSQLOp(sql)), for each statement
unfoldable pub append_each : List String → List Operation → List Operation
append_each [] ops = ops
append_each (sql ∷ sqls) ops = append_each sqls (ops ++ execute_sql sql ∷ [])

-- downgrade_ops.ops.insert(0, ops.ExecuteSQLOp(sql)), for each statement
unfoldable pub insert_each : List String → List Operation → List Operation
insert_each [] ops = ops
insert_each (sql ∷ sqls) ops = insert_each sqls (execute_sql sql ∷ ops)

-- reversed(sqls)
unfoldable pub reversed_onto : List String → List String → List String
reversed_onto [] done = done
reversed_onto (s ∷ rest) done = reversed_onto rest (s ∷ done)

-- The second loop.
unfoldable pub process_tables : List String → Script → Script
unfolding append_each insert_each reversed_onto rls_upgrade_sql rls_downgrade_sql
process_tables [] script = script
process_tables (t ∷ ts) script = process_tables ts (record {
  upgrade_ops = append_each (rls_upgrade_sql t "tenant_id") script.upgrade_ops;
  downgrade_ops = insert_each (reversed_onto (rls_downgrade_sql t) []) script.downgrade_ops;
})

unfoldable pub process_revision_directives : MetaData → Script → Script
unfolding process_tables rls_tables
process_revision_directives metadata script =
    process_tables (rls_tables metadata script.upgrade_ops) script
