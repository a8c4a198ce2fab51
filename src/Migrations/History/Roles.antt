-- ===== src/Migrations/History/Roles.antt =====
-- alembic/versions/3bd67eab8293_convert_role_to_enum.py on a table of users with any rows.
use nexus_inventory_platform.Base.{
  String, List, [], ◌∷◌, map, Option, none, some, Bool, true, false, ◌&&◌, any, ◌≡◌, refl, ap, ◌∙◌,
  Bool-cases, inl, inr, ◌⊎◌,
}
use nexus_inventory_platform.Values.{insert, lookup-insert_self}
use nexus_inventory_platform.Migrations.Schema.{ColumnType, Row, Table, Catalog}
use nexus_inventory_platform.Migrations.Operations.{
  Op, field, unless_in, is_in, casts, every, in_first, in_table, change_first, is_table, is_column,
  has_type, same_texts, is_named, run, admits, effect, Sql, admits_sql, execute_sql,
}
use nexus_inventory_platform.Migrations.Revisions.{upgrade_convert_role, role_values}

-- A change that the test does not see is seen through it.
in_first-change_first :
    {A : Type 0} (q p : A → Bool) (f : A → A) (xs : List A)
    → ((x : A) → q (f x) ≡ q x)
    → in_first q p (change_first q f xs) ≡ in_first q (λ x. p (f x)) xs
in_first-change_first q p f [] h = refl
in_first-change_first q p f (x ∷ xs) h = elim (Bool-cases (q x)) [
  | inl e ↦ rw (e, h x, e) refl
  | inr e ↦ rw (e, e) (in_first-change_first q p f xs h)
]

in_first-same :
    {A : Type 0} (q p p' : A → Bool) (xs : List A)
    → ((x : A) → p x ≡ p' x)
    → in_first q p xs ≡ in_first q p' xs
in_first-same q p p' [] h = refl
in_first-same q p p' (x ∷ xs) h = elim (Bool-cases (q x)) [
  | inl e ↦ rw e (h x)
  | inr e ↦ rw e (in_first-same q p p' xs h)
]

-- One admitted operation, and what follows it.
run-admitted :
    (op : Op) (ops : List Op) (s s' : Catalog)
    → admits op s ≡ true
    → run ops (effect op s) ≡ some s'
    → run (op ∷ ops) s ≡ some s'
unfolding run
run-admitted op ops s s' h e = rw h e

field-insert : (c v : String) (row : Row) → field c (insert c v row) ≡ v
unfolding field
field-insert c v row =
    ap (λ (o : Option String). elim o [ none ↦ "" | some w ↦ w ]) (lookup-insert_self c v row)

module _ (c v : String) (vs : List String) (member : is_in v vs ≡ true) where
  unless_in-is_in : (row : Row) → is_in (field c (unless_in c v vs row)) vs ≡ true
  unfolding unless_in
  unless_in-is_in row = elim (Bool-cases (is_in (field c row) vs)) [
    | inl e ↦ rw e e
    | inr e ↦ rw e (ap (λ w. is_in w vs) (field-insert c v row) ∙ member)
  ]

  every-unless_in :
      (rows : List Row) → every (λ row. is_in (field c row) vs) (map (unless_in c v vs) rows) ≡ true
  every-unless_in [] = refl
  every-unless_in (row ∷ rows) =
      ap (λ b. b && every (λ r. is_in (field c r) vs) (map (unless_in c v vs) rows))
        (unless_in-is_in row)
      ∙ every-unless_in rows

abbrev has_role : Table → Bool
has_role table = any (is_column "role") table.columns

abbrev pub has_role_values : Table → Bool
has_role_values table = every (λ row. is_in (field "role" row) role_values) table.rows

in_first-found :
    {A : Type 0} (q p p' : A → Bool) (xs : List A)
    → ((x : A) → p' x ≡ true)
    → in_first q p xs ≡ true
    → in_first q p' xs ≡ true
in_first-found q p p' [] always h = h
in_first-found q p p' (x ∷ xs) always h = elim (Bool-cases (q x)) [
  | inl e ↦ rw e (always x)
  | inr e ↦ rw e (in_first-found q p p' xs always (rw e at h))
]

and_true : (b c : Bool) → c ≡ true → (b && c) ≡ b
and_true true c h = h
and_true false c h = refl

abbrev update_op : Op
update_op = Op.execute (Sql.update_unless "users" "role" "viewer" role_values)

abbrev enum_op : Op
enum_op = Op.create_enum "user_role_enum" role_values

abbrev type_op : Op
type_op = Op.alter_type "users" "role" (ColumnType.enum "user_role_enum" role_values)

abbrev updated : Table → Table
updated table = record table { rows = map (unless_in "role" "viewer" role_values) table.rows }

abbrev retyped : Table → Table
retyped table = record table {
  columns =
      change_first (is_column "role")
        (λ column. record column { type = ColumnType.enum "user_role_enum" role_values })
        table.columns;
}

updated_role_values : (table : Table) → has_role_values (updated table) ≡ true
updated_role_values table = every-unless_in "role" "viewer" role_values refl table.rows

-- There is no type of this name yet, or it has these values.
abbrev pub IsRoleEnumFree : Catalog → Type 0
IsRoleEnumFree s =
    (any (is_named "user_role_enum") s.enums ≡ false)
    ⊎ (has_type s (ColumnType.enum "user_role_enum" role_values) ≡ true)

and-both : (b c : Bool) → b ≡ true → c ≡ true → (b && c) ≡ true
and-both b c h k = rw (h, k) refl

in_first-any :
    {A : Type 0} (q p : A → Bool) (xs : List A) → in_first q p xs ≡ true → any q xs ≡ true
in_first-any q p [] h = cc
in_first-any q p (x ∷ xs) h = elim (Bool-cases (q x)) [
  | inl e ↦ rw e refl
  | inr e ↦ rw e (in_first-any q p xs (rw e at h))
]

-- The type is there with its values, once it has been created with `checkfirst`.
has_type-created :
    (s : Catalog)
    → IsRoleEnumFree s
    → has_type (effect enum_op (effect update_op s)) (ColumnType.enum "user_role_enum" role_values)
      ≡ true
unfolding has_type effect execute_sql same_texts
has_type-created s (inl none_yet) = rw none_yet refl
has_type-created s (inr there) = rw (in_first-any (is_named "user_role_enum") _ s.enums there) there

admits-type_op :
    (s : Catalog)
    → in_table "users" has_role s ≡ true
    → IsRoleEnumFree s
    → admits type_op (effect enum_op (effect update_op s)) ≡ true
unfolding admits effect execute_sql casts
admits-type_op s h given =
    and-both _ _
      (in_first-change_first (is_table "users") _ updated s.tables (λ table. refl)
        ∙ in_first-same (is_table "users") _ has_role s.tables
            (λ table. and_true (has_role table) _ (updated_role_values table))
        ∙ h)
      (has_type-created s given)

-- On any rows, and where the enumeration is not there yet or has the four roles as its values, the conversion
-- of a column `role` of a table `users` succeeds, and leaves in each of its rows one of these, and in the
-- catalog the enumeration with them.
pub upgrade_convert_role_lem :
    (s : Catalog)
    → in_table "users" has_role s ≡ true
    → IsRoleEnumFree s
    → (s' : Catalog) × (run upgrade_convert_role s ≡ some s')
      × (in_table "users" has_role_values s' ≡ true)
      × (has_type s' (ColumnType.enum "user_role_enum" role_values) ≡ true)
unfolding run admits effect admits_sql execute_sql has_type
upgrade_convert_role_lem s h given =
    let first = effect update_op s in
    let second = effect enum_op first in
    (
      effect type_op second,
      run-admitted update_op (enum_op ∷ type_op ∷ []) s _ h (
          run-admitted enum_op (type_op ∷ []) first _ refl
            (run-admitted type_op [] second _ (admits-type_op s h given) refl)),
      in_first-change_first (is_table "users") has_role_values retyped
            (change_first (is_table "users") updated s.tables) (λ table. refl)
          ∙ in_first-change_first (is_table "users") has_role_values updated s.tables
              (λ table. refl)
          ∙ in_first-found (is_table "users") has_role _ s.tables updated_role_values h,
      has_type-created s given,
    )
