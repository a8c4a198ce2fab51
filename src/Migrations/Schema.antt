-- ===== src/Migrations/Schema.antt =====
-- The state of a database as the migrations of alembic/versions and the classes of app/models describe
-- it: tables with their columns, constraints, indexes and row-level security. A row holds the columns that
-- a migration reads or writes, by name.
use nexus_inventory_platform.Base.{ℕ, String, List, Option, Bool}

-- sa.Uuid(), sa.String(length), sa.Boolean() and so on; an enumeration has a name and its values.
pub data ColumnType : Type 0 where
  uuid text boolean date timestamptz integer big_integer float jsonb : ColumnType
  varchar : ℕ → ColumnType
  enum : String → List String → ColumnType

-- `now_default` is server_default=now(), and `rls` the flag that TenantMixin puts in `info`.
pub record Column : Type 0 where
  pub name : String
  pub type : ColumnType
  pub nullable : Bool
  pub now_default : Bool

-- ondelete
pub data OnDelete : Type 0 where
  restrict set_null : OnDelete

pub data Constraint : Type 0 where
  primary_key : String → Constraint
  unique : List String → Constraint
  foreign_key : String → String → String → OnDelete → Constraint

pub record Index : Type 0 where
  pub name : String
  pub columns : List String
  pub unique : Bool

-- The commands that a policy is for.
pub data Command : Type 0 where
  all select insert update delete : Command

-- CREATE POLICY ... TO nexus_runtime: USING and WITH CHECK compare a column with
-- `app.current_tenant_id()`.
pub record Policy : Type 0 where
  pub name : String
  pub command : Command
  pub using : Option String
  pub check : Option String

abbrev pub Row : Type 0
Row = List (String × String)

-- A constraint stands with its name, which is empty where the migration gives none.
pub record Table : Type 0 where
  pub name : String
  pub columns : List Column
  pub constraints : List (String × Constraint)
  pub indexes : List Index
  pub row_security : Bool
  pub forced : Bool
  pub policies : List Policy
  pub rows : List Row

-- A function without arguments that reads a setting of the session, as a uuid: its body is
-- `SELECT current_setting(setting, true)::uuid`.
pub record Function : Type 0 where
  pub name : String
  pub schema : String
  pub setting : String
  pub granted : List String

-- Beside the tables: the enumeration types with their values, the schemas with what is granted on each, and
-- the functions.
pub record Catalog : Type 0 where
  pub tables : List Table
  pub enums : List (String × List String)
  pub schemas : List (String × List String)
  pub functions : List Function
