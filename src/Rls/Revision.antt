-- ===== src/Rls/Revision.antt =====
-- What the hook of app/rls.py makes of a revision script.
use mathlib.Core.List.{append_assoc, append-nil}
use nexus_inventory_platform.Base.{String, List, [], ◌∷◌, ◌++◌, ◌≡◌, refl, ap, sym, ◌∙◌}
use nexus_inventory_platform.Rls.{
  rls_upgrade_sql, rls_downgrade_sql, MetaData, Operation, execute_sql, Script, rls_tables,
  append_each, insert_each, reversed_onto, process_tables, process_revision_directives,
}

abbrev pub statements : List String → List Operation
statements [] = []
statements (s ∷ rest) = execute_sql s ∷ statements rest

-- The statements of all tables, first table first.
abbrev pub upgrades : List String → List Operation
upgrades [] = []
upgrades (t ∷ ts) = statements (rls_upgrade_sql t "tenant_id") ++ upgrades ts

-- The statements of all tables, last table first.
abbrev pub downgrades : List String → List Operation
downgrades [] = []
downgrades (t ∷ ts) = downgrades ts ++ statements (rls_downgrade_sql t)

append_each-statements :
    (sqls : List String) (ops : List Operation) → append_each sqls ops ≡ ops ++ statements sqls
unfolding append_each
append_each-statements [] ops = sym (append-nil ops)
append_each-statements (s ∷ rest) ops =
    append_each-statements rest (ops ++ execute_sql s ∷ [])
    ∙ append_assoc ops (execute_sql s ∷ []) (statements rest)

insert_each-reversed_onto :
    (sqls done : List String) (ops : List Operation)
    → insert_each (reversed_onto sqls done) ops ≡ insert_each done (statements sqls ++ ops)
unfolding insert_each reversed_onto
insert_each-reversed_onto [] done ops = refl
insert_each-reversed_onto (s ∷ rest) done ops = insert_each-reversed_onto rest (s ∷ done) ops

process_tables_lem :
    (ts : List String) (script : Script)
    → ((process_tables ts script).upgrade_ops ≡ script.upgrade_ops ++ upgrades ts)
      × ((process_tables ts script).downgrade_ops ≡ downgrades ts ++ script.downgrade_ops)
unfolding process_tables insert_each
process_tables_lem [] script = (sym (append-nil script.upgrade_ops), refl)
process_tables_lem (t ∷ ts) script =
    let (up, down) = process_tables_lem ts (record {
      upgrade_ops = append_each (rls_upgrade_sql t "tenant_id") script.upgrade_ops;
      downgrade_ops = insert_each (reversed_onto (rls_downgrade_sql t) []) script.downgrade_ops;
    }) in
    (
      up
          ∙ ap (λ ops. ops ++ upgrades ts)
              (append_each-statements (rls_upgrade_sql t "tenant_id") script.upgrade_ops)
          ∙ append_assoc script.upgrade_ops (statements (rls_upgrade_sql t "tenant_id"))
              (upgrades ts),
      down
          ∙ ap (λ ops. downgrades ts ++ ops)
              (insert_each-reversed_onto (rls_downgrade_sql t) [] script.downgrade_ops)
          ∙ sym (
              append_assoc (downgrades ts) (statements (rls_downgrade_sql t)) script.downgrade_ops),
    )

-- The hook leaves the operations of a revision as they are: after its upgrade it adds, for each tenant
-- table that the revision creates, in order, the statements that protect it; before its downgrade it
-- puts the statements that lift the protection, each table's in their own order, the tables in reverse.
pub process_revision_directives_lem :
    (metadata : MetaData) (script : Script)
    → ((process_revision_directives metadata script).upgrade_ops
        ≡ script.upgrade_ops ++ upgrades (rls_tables metadata script.upgrade_ops))
      × ((process_revision_directives metadata script).downgrade_ops
          ≡ downgrades (rls_tables metadata script.upgrade_ops) ++ script.downgrade_ops)
unfolding process_revision_directives
process_revision_directives_lem metadata script =
    process_tables_lem (rls_tables metadata script.upgrade_ops) script
