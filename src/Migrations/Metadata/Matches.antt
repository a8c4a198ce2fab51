-- ===== src/Migrations/Metadata/Matches.antt =====
-- The database that the migrations make, beside the classes of app/models and the hook of app/rls.py.
use nexus_inventory_platform.Base.{
  String, List, [], ◌∷◌, map, Option, some, Bool, true, false, ◌&&◌, any, ◌==◌, str_eq, ◌≡◌, refl,
  sym, subst, length,
}
use nexus_inventory_platform.Migrations.Schema.{
  ColumnType, Column, OnDelete, Constraint, Index, Table, Catalog,
}
use nexus_inventory_platform.Migrations.Operations.{every, in_table, run}
use nexus_inventory_platform.Migrations.Revisions.{inserts}
use nexus_inventory_platform.Migrations.History.{create_inventory, upgrade, upgrade_with, upgraded}
use nexus_inventory_platform.Migrations.History.Undone.{upgrade_seed-inserts}
use nexus_inventory_platform.Migrations.Metadata.{
  Class, user, tenant, product, location, transaction, batch, sync_log, Declared, declared, classes,
}

abbrev names_eq : List String → List String → Bool
names_eq [] [] = true
names_eq (x ∷ xs) (y ∷ ys) = str_eq x y && names_eq xs ys
names_eq _ _ = false

abbrev bool_eq : Bool → Bool → Bool
bool_eq true b = b
bool_eq false true = false
bool_eq false false = true

abbrev type_eq : ColumnType → ColumnType → Bool
type_eq ColumnType.uuid ColumnType.uuid = true
type_eq ColumnType.text ColumnType.text = true
type_eq ColumnType.boolean ColumnType.boolean = true
type_eq ColumnType.date ColumnType.date = true
type_eq ColumnType.timestamptz ColumnType.timestamptz = true
type_eq ColumnType.integer ColumnType.integer = true
type_eq ColumnType.big_integer ColumnType.big_integer = true
type_eq ColumnType.float ColumnType.float = true
type_eq ColumnType.jsonb ColumnType.jsonb = true
type_eq (ColumnType.varchar n) (ColumnType.varchar m) = n == m
type_eq (ColumnType.enum n vs) (ColumnType.enum m ws) = str_eq n m && names_eq vs ws
type_eq _ _ = false

abbrev column_eq : Column → Column → Bool
column_eq a b =
    str_eq a.name b.name
    && type_eq a.type b.type
    && bool_eq a.nullable b.nullable
    && bool_eq a.now_default b.now_default

abbrev on_delete_eq : OnDelete → OnDelete → Bool
on_delete_eq OnDelete.restrict OnDelete.restrict = true
on_delete_eq OnDelete.set_null OnDelete.set_null = true
on_delete_eq _ _ = false

abbrev constraint_eq : Constraint → Constraint → Bool
constraint_eq (Constraint.primary_key c) (Constraint.primary_key d) = str_eq c d
constraint_eq (Constraint.unique cs) (Constraint.unique ds) = names_eq cs ds
constraint_eq (Constraint.foreign_key c t k d) (Constraint.foreign_key c' t' k' d') =
    str_eq c c' && str_eq t t' && str_eq k k' && on_delete_eq d d'
constraint_eq _ _ = false

abbrev index_eq : Index → Index → Bool
index_eq a b = str_eq a.name b.name && names_eq a.columns b.columns && bool_eq a.unique b.unique

-- The same entries, in any order.
abbrev same_entries : {A : Type 0} → (A → A → Bool) → List A → List A → Bool
same_entries eq xs ys =
    (length xs == length ys) && every (λ x. any (eq x) ys) xs && every (λ y. any (eq y) xs) ys

-- A table has the columns, the constraints and the indexes that a class declares, and is under forced
-- row-level security.
abbrev pub has_shape : Declared → Table → Bool
has_shape d t =
    same_entries column_eq d.columns t.columns
    && same_entries constraint_eq d.constraints
        (map (λ (x : String × Constraint). x.1) t.constraints)
    && same_entries index_eq d.indexes t.indexes
    && t.row_security
    && t.forced

abbrev pub Matches : Option Catalog → Class → Type 0
Matches o c =
    (s : Catalog) × (o ≡ some s)
    × (length s.tables ≡ length classes)
    × (in_table (declared c).table (has_shape (declared c)) s ≡ true)

inserts-Matches :
    (email hashed : String) (c : Class)
    → Matches (upgraded (upgrade_with (some (inserts email hashed))) create_inventory) c
unfolding upgraded upgrade_with run
inserts-Matches email hashed user = (_, refl, refl, refl)
inserts-Matches email hashed tenant = (_, refl, refl, refl)
inserts-Matches email hashed product = (_, refl, refl, refl)
inserts-Matches email hashed location = (_, refl, refl, refl)
inserts-Matches email hashed transaction = (_, refl, refl, refl)
inserts-Matches email hashed batch = (_, refl, refl, refl)
inserts-Matches email hashed sync_log = (_, refl, refl, refl)

-- The migrations, run on an empty database, leave a table for each class of the models and no other, with
-- the columns, the types, the defaults, the keys, the unique columns and the indexes that the class
-- declares, and each under forced row-level security.
pub upgrade-Matches :
    (hash : String → String) (email password : String) (c : Class)
    → str_eq email "" ≡ false
    → str_eq password "" ≡ false
    → Matches
        (upgraded
          (upgrade
            (record { owner_email = some email; owner_password = some password; hash = hash }))
          create_inventory)
        c
unfolding upgrade
upgrade-Matches hash email password c h k =
    subst (λ seeding. Matches (upgraded (upgrade_with seeding) create_inventory) c)
      (sym (upgrade_seed-inserts hash email password h k)) (inserts-Matches email (hash password) c)
