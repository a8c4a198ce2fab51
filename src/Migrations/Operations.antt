-- ===== src/Migrations/Operations.antt =====
-- The operations of Alembic that the migrations use, and the SQL that they execute: when the database
-- takes one, and what it leaves. Alembic and PostgreSQL are not part of the repository; what is written
-- here of them is the existence of what an operation names and depends on, that nothing depends on what it
-- drops, and the effect that it declares. CREATE TYPE and DROP TYPE are run with `checkfirst`. Keys and
-- unique columns are not checked on rows.
use nexus_inventory_platform.Base.{
  String, List, [], ◌∷◌, ◌++◌, map, Option, none, some, Bool, true, false, not, ◌&&◌, ◌||◌, any,
  str_eq, if◌then◌else◌,
}
use nexus_inventory_platform.Values.{lookup, insert}
use nexus_inventory_platform.Migrations.Schema.{
  ColumnType, Column, Constraint, Index, Policy, Row, Table, Function, Catalog,
}

pub data Sql : Type 0 where
  enable_row_security force_row_security no_force_row_security disable_row_security : String → Sql
  create_policy : String → Policy → Sql
  drop_policy : String → String → Sql
  create_schema drop_schema : String → Sql
  -- CREATE OR REPLACE FUNCTION schema.name, with the setting that it reads
  create_function : String → String → String → Sql
  drop_function : String → Sql
  grant_usage grant_execute : String → String → Sql
  -- UPDATE t SET column = value WHERE column NOT IN (values)
  update_unless : String → String → String → List String → Sql
  -- INSERT ... ON CONFLICT (id) DO NOTHING, and DELETE ... WHERE id = ...
  insert_new : String → Row → Sql
  delete_id : String → String → Sql

pub data Op : Type 0 where
  create_table : String → List Column → List (String × Constraint) → Op
  drop_table : String → Op
  add_column : String → Column → Op
  drop_column : String → String → Op
  create_index : Index → String → Op
  drop_index : String → String → Op
  create_constraint : String → String → Constraint → Op
  drop_constraint : String → String → Op
  alter_type : String → String → ColumnType → Op
  create_enum : String → List String → Op
  drop_enum : String → Op
  execute : Sql → Op

abbrev pub is_in : String → List String → Bool
is_in s xs = any (str_eq s) xs

-- The first entry that a test picks is changed, or taken away.
abbrev pub change_first {ℓ} : {A : Type ℓ} → (A → Bool) → (A → A) → List A → List A
change_first p f [] = []
change_first p f (x ∷ xs) = if p x then f x ∷ xs else x ∷ change_first p f xs

abbrev pub remove_first {ℓ} : {A : Type ℓ} → (A → Bool) → List A → List A
remove_first p [] = []
remove_first p (x ∷ xs) = if p x then xs else x ∷ remove_first p xs

abbrev pub is_table : String → Table → Bool
is_table t table = str_eq table.name t

abbrev pub is_column : String → Column → Bool
is_column c column = str_eq column.name c

abbrev pub is_index : String → Index → Bool
is_index i index = str_eq index.name i

abbrev pub is_policy : String → Policy → Bool
is_policy p policy = str_eq policy.name p

abbrev pub is_named {ℓ} : {A : Type ℓ} → String → String × A → Bool
is_named n x = str_eq x.0 n

abbrev pub is_function : String → Function → Bool
is_function n f = str_eq f.name n

-- The function that the conditions of the policies call.
abbrev pub policy_function : String
policy_function = "app.current_tenant_id()"

-- A test of the first entry that another test picks.
abbrev pub in_first {ℓ} : {A : Type ℓ} → (A → Bool) → (A → Bool) → List A → Bool
in_first q p [] = false
in_first q p (x ∷ xs) = if q x then p x else in_first q p xs

abbrev pub in_table : String → (Table → Bool) → Catalog → Bool
in_table t p s = in_first (is_table t) p s.tables

abbrev pub on_table : String → (Table → Table) → Catalog → Catalog
on_table t f s = record s { tables = change_first (is_table t) f s.tables }

abbrev pub is_empty {ℓ} : {A : Type ℓ} → List A → Bool
is_empty [] = true
is_empty (x ∷ xs) = false

abbrev pub refers : String → String × Constraint → Bool
refers t (n, Constraint.foreign_key c target k d) = str_eq target t
refers t (n, Constraint.primary_key c) = false
refers t (n, Constraint.unique cs) = false

-- The table that a foreign key names is there, or is the new one itself.
abbrev pub targets : Catalog → String → String × Constraint → Bool
targets s new (n, Constraint.foreign_key c target k d) =
    str_eq target new || any (is_table target) s.tables
targets s new (n, Constraint.primary_key c) = true
targets s new (n, Constraint.unique cs) = true

abbrev pub every {ℓ} : {A : Type ℓ} → (A → Bool) → List A → Bool
every p [] = true
every p (x ∷ xs) = p x && every p xs

-- The value of a column, or an empty text where the row has none.
unfoldable pub field : String → Row → String
unfolding lookup
field c row = elim (lookup c row) [ none ↦ "" | some v ↦ v ]

unfoldable pub same_texts : List String → List String → Bool
same_texts [] [] = true
same_texts (a ∷ as') (b ∷ bs) = str_eq a b && same_texts as' bs
same_texts _ _ = false

-- An enumeration is there, with these values; the other types are always.
unfoldable pub has_type : Catalog → ColumnType → Bool
unfolding same_texts
has_type s (ColumnType.enum n values) =
    in_first (is_named n) (λ (x : String × List String). same_texts x.1 values) s.enums
has_type s _ = true

unfoldable pub is_enum : String → ColumnType → Bool
is_enum n (ColumnType.enum m values) = str_eq m n
is_enum n _ = false

abbrev pub uses_enum : String → Table → Bool
uses_enum n table = any (λ column. is_enum n column.type) table.columns

-- A row gives a value to each column that has no default and takes no null.
unfoldable pub gives_required : Row → Column → Bool
unfolding lookup
gives_required row column =
    column.nullable
    || column.now_default
    || elim (lookup column.name row) [ none ↦ false | some v ↦ true ]

abbrev pub fits_row : Row → Table → Bool
fits_row row table =
    every (gives_required row) table.columns
    && every (λ (x : String × String). any (is_column x.0) table.columns) row

-- A cast to an enumeration needs one of its values in each row.
unfoldable pub casts : String → ColumnType → Row → Bool
unfolding field
casts c (ColumnType.enum n values) row = is_in (field c row) values
casts c _ row = true

unfoldable pub unless_in : String → String → List String → Row → Row
unfolding insert field
unless_in column value values row =
    if is_in (field column row) values then row else insert column value row

unfoldable pub add_new : Row → List Row → List Row
unfolding field
add_new row rows =
    if any (λ r. str_eq (field "id" r) (field "id" row)) rows then rows else rows ++ row ∷ []

unfoldable pub admits_sql : Sql → Catalog → Bool
unfolding gives_required
admits_sql (Sql.enable_row_security t) s = any (is_table t) s.tables
admits_sql (Sql.force_row_security t) s = any (is_table t) s.tables
admits_sql (Sql.no_force_row_security t) s = any (is_table t) s.tables
admits_sql (Sql.disable_row_security t) s = any (is_table t) s.tables
admits_sql (Sql.create_policy t p) s =
    in_table t (λ table. not (any (is_policy p.name) table.policies)) s
    && any (is_function policy_function) s.functions
admits_sql (Sql.drop_policy p t) s = any (is_table t) s.tables
admits_sql (Sql.create_schema n) s = true
admits_sql (Sql.drop_schema n) s = not (any (λ f. str_eq f.schema n) s.functions)
admits_sql (Sql.create_function schema n setting) s = any (is_named schema) s.schemas
admits_sql (Sql.drop_function n) s =
    not (str_eq n policy_function) || every (λ table. is_empty table.policies) s.tables
admits_sql (Sql.grant_usage n role) s = any (is_named n) s.schemas
admits_sql (Sql.grant_execute n role) s = any (is_function n) s.functions
admits_sql (Sql.update_unless t c v vs) s = in_table t (λ table. any (is_column c) table.columns) s
admits_sql (Sql.insert_new t row) s = in_table t (fits_row row) s
admits_sql (Sql.delete_id t id) s = any (is_table t) s.tables

abbrev pub granted : String → String → List (String × List String) → List (String × List String)
granted n role xs = change_first (is_named n) (λ (x : String × List String). (x.0, role ∷ x.1)) xs

-- CREATE SCHEMA IF NOT EXISTS leaves the grants of what is there.
abbrev pub ensured : String → List (String × List String) → List (String × List String)
ensured n xs = if any (is_named n) xs then xs else (n, []) ∷ xs

-- CREATE OR REPLACE FUNCTION gives a function that is there another body, and leaves its grants.
unfoldable pub replaced : String → String → String → List Function → List Function
replaced schema n setting fs =
    if any (is_function n) fs
    then change_first (is_function n) (λ f. record f { setting = setting }) fs
    else record { name = n; schema = schema; setting = setting; granted = [] } ∷ fs

unfoldable pub execute_sql : Sql → Catalog → Catalog
unfolding unless_in add_new field replaced
execute_sql (Sql.enable_row_security t) s =
    on_table t (λ table. record table { row_security = true }) s
execute_sql (Sql.disable_row_security t) s =
    on_table t (λ table. record table { row_security = false }) s
execute_sql (Sql.force_row_security t) s = on_table t (λ table. record table { forced = true }) s
execute_sql (Sql.no_force_row_security t) s =
    on_table t (λ table. record table { forced = false }) s
execute_sql (Sql.create_policy t p) s =
    on_table t (λ table. record table { policies = p ∷ table.policies }) s
execute_sql (Sql.drop_policy p t) s =
    on_table t (λ table. record table { policies = remove_first (is_policy p) table.policies }) s
execute_sql (Sql.create_schema n) s = record s { schemas = ensured n s.schemas }
execute_sql (Sql.drop_schema n) s = record s { schemas = remove_first (is_named n) s.schemas }
execute_sql (Sql.create_function schema n setting) s = record s {
  functions = replaced schema n setting s.functions;
}
execute_sql (Sql.drop_function n) s = record s {
  functions = remove_first (is_function n) s.functions;
}
execute_sql (Sql.grant_usage n role) s = record s { schemas = granted n role s.schemas }
execute_sql (Sql.grant_execute n role) s = record s {
  functions =
      change_first (is_function n) (λ f. record f { granted = role ∷ f.granted }) s.functions;
}
execute_sql (Sql.update_unless t c v vs) s =
    on_table t (λ table. record table { rows = map (unless_in c v vs) table.rows }) s
execute_sql (Sql.insert_new t row) s =
    on_table t (λ table. record table { rows = add_new row table.rows }) s
execute_sql (Sql.delete_id t id) s =
    on_table t
      (λ table. record table { rows = remove_first (λ r. str_eq (field "id" r) id) table.rows }) s

-- Whether the database takes an operation, or raises.
unfoldable pub admits : Op → Catalog → Bool
unfolding admits_sql casts has_type is_enum
admits (Op.create_table t cs ks) s =
    not (any (is_table t) s.tables)
    && every (targets s t) ks
    && every (λ column. has_type s column.type) cs
admits (Op.drop_table t) s =
    any (is_table t) s.tables
    && not (any (λ table. not (is_table t table) && any (refers t) table.constraints) s.tables)
admits (Op.add_column t c) s =
    in_table t
      (λ table.
        not (any (is_column c.name) table.columns)
        && (c.nullable || c.now_default || is_empty table.rows))
      s
    && has_type s c.type
admits (Op.drop_column t c) s = in_table t (λ table. any (is_column c) table.columns) s
admits (Op.create_index i t) s =
    any (is_table t) s.tables && not (any (λ table. any (is_index i.name) table.indexes) s.tables)
admits (Op.drop_index i t) s = in_table t (λ table. any (is_index i) table.indexes) s
admits (Op.create_constraint n t k) s =
    in_table t (λ table. not (any (is_named n) table.constraints)) s && targets s t (n, k)
admits (Op.drop_constraint n t) s = in_table t (λ table. any (is_named n) table.constraints) s
admits (Op.alter_type t c type) s =
    in_table t (λ table. any (is_column c) table.columns && every (casts c type) table.rows) s
    && has_type s type
admits (Op.create_enum n vs) s = true
admits (Op.drop_enum n) s = not (any (uses_enum n) s.tables)
admits (Op.execute q) s = admits_sql q s

abbrev pub new_table : String → List Column → List (String × Constraint) → Table
new_table t cs ks = record {
  name = t;
  columns = cs;
  constraints = ks;
  indexes = [];
  row_security = false;
  forced = false;
  policies = [];
  rows = [];
}

unfoldable pub effect : Op → Catalog → Catalog
unfolding execute_sql
effect (Op.create_table t cs ks) s = record s { tables = new_table t cs ks ∷ s.tables }
effect (Op.drop_table t) s = record s { tables = remove_first (is_table t) s.tables }
effect (Op.add_column t c) s =
    on_table t (λ table. record table { columns = table.columns ++ c ∷ [] }) s
effect (Op.drop_column t c) s =
    on_table t (λ table. record table { columns = remove_first (is_column c) table.columns }) s
effect (Op.create_index i t) s =
    on_table t (λ table. record table { indexes = i ∷ table.indexes }) s
effect (Op.drop_index i t) s =
    on_table t (λ table. record table { indexes = remove_first (is_index i) table.indexes }) s
effect (Op.create_constraint n t k) s =
    on_table t (λ table. record table { constraints = (n, k) ∷ table.constraints }) s
effect (Op.drop_constraint n t) s =
    on_table t (λ table. record table { constraints = remove_first (is_named n) table.constraints })
      s
effect (Op.alter_type t c type) s =
    on_table t
      (λ table. record table {
        columns =
            change_first (is_column c) (λ column. record column { type = type }) table.columns;
      })
      s
effect (Op.create_enum n vs) s = record s {
  enums = if any (is_named n) s.enums then s.enums else (n, vs) ∷ s.enums;
}
effect (Op.drop_enum n) s = record s { enums = remove_first (is_named n) s.enums }
effect (Op.execute q) s = execute_sql q s

-- The operations of one migration; `none` is an error, which ends it.
unfoldable pub run : List Op → Catalog → Option Catalog
unfolding admits effect
run [] s = some s
run (op ∷ ops) s = let rest = run ops (effect op s) in if admits op s then rest else none
