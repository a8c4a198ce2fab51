-- ===== src/Normalizer/Database.antt =====
-- What `DataNormalizer` asks of the database session (app/integrations/normalizer.py), over the rows of
-- app/models. PostgreSQL and SQLAlchemy are not part of the repository: a session is an interface, and
-- `IsPostgres` states what PostgreSQL documents of the statements. `created_at` and `updated_at`, which
-- the server fills in, are not modelled.
pub mod Laws
use nexus_inventory_platform.Base.{
  ℕ, String, List, [], ◌∷◌, ◌++◌, Option, none, some, Bool, true, false, ◌&&◌, ◌==◌, str_eq,
  if◌then◌else◌, ℤ, int_eq, ◌≡◌,
}
use nexus_inventory_platform.Dates.{Date, DateTime, same_instant}
use nexus_inventory_platform.Models.{
  TransactionType, transaction_type_eq, Attributes, LocationType, NormalizedProduct,
}
use nexus_inventory_platform.Values.{Raised, Result, ok, raised}

pub record Product : Type 0 where
  pub id : ℕ
  pub tenant_id : ℕ
  pub sku_code : String
  pub name : String
  pub category : Option String
  pub unit_of_measure : String
  pub unit_cost_paise : ℤ
  pub selling_price_paise : ℤ
  pub industry_attributes : Attributes

pub record Location : Type 0 where
  pub id : ℕ
  pub tenant_id : ℕ
  pub name : String
  pub type : LocationType
  pub city : Option String
  pub state : Option String
  pub is_active : Bool

-- The columns of a transaction but its key.
pub record TransactionValues : Type 0 where
  pub tenant_id : ℕ
  pub product_id : ℕ
  pub location_id : ℕ
  pub transaction_type : TransactionType
  pub quantity : ℤ
  pub unit_cost_paise : ℤ
  pub reference_no : Option String
  pub transaction_date : DateTime

pub record Transaction : Type 0 where
  pub id : ℕ
  pub values : TransactionValues
  pub open values use *

-- The columns of a batch but its key.
pub record BatchValues : Type 0 where
  pub tenant_id : ℕ
  pub product_id : ℕ
  pub batch_no : String
  pub manufactured_date : Option Date
  pub expiry_date : Option Date
  pub quantity : ℤ
  pub location_id : Option ℕ

pub record Batch : Type 0 where
  pub id : ℕ
  pub values : BatchValues
  pub open values use *

pub record Tables : Type 0 where
  pub products : List Product
  pub locations : List Location
  pub transactions : List Transaction
  pub batches : List Batch

-- The statements of `DataNormalizer`, each with the tenant that it names.
pub data Statement : Type 0 where
  upsert_product : ℕ → NormalizedProduct → Statement
  select_products : ℕ → String → Statement
  select_locations : ℕ → String → Statement
  insert_location : ℕ → String → Statement
  select_transactions : TransactionValues → Statement
  insert_transaction : TransactionValues → Statement
  upsert_batch : BatchValues → Statement

abbrev pub tenant_of : Statement → ℕ
tenant_of (Statement.upsert_product t p) = t
tenant_of (Statement.select_products t s) = t
tenant_of (Statement.select_locations t n) = t
tenant_of (Statement.insert_location t n) = t
tenant_of (Statement.select_transactions v) = v.tenant_id
tenant_of (Statement.insert_transaction v) = v.tenant_id
tenant_of (Statement.upsert_batch v) = v.tenant_id

-- What a statement returns.
abbrev pub Answer : Statement → Type 0
Answer (Statement.upsert_product t p) = Product
Answer (Statement.select_products t s) = List Product
Answer (Statement.select_locations t n) = List Location
Answer (Statement.insert_location t n) = Location
Answer (Statement.select_transactions v) = List Transaction
Answer (Statement.insert_transaction v) = Transaction
Answer (Statement.upsert_batch v) = Batch

-- A session of state `S`: `execute` and `flush` together.
pub record Database (S : Type 0) : Type 0 where
  pub execute : (q : Statement) → S → Result (Answer q) × S
  -- How often the session has flushed its objects: by `flush`, or by itself before a statement.
  pub flushes : S → ℕ

-- The rows that a condition selects, in order.
abbrev pub select {ℓ} : {A : Type ℓ} → (A → Bool) → List A → List A
select p [] = []
select p (x ∷ xs) = if p x then x ∷ select p xs else select p xs

-- The row that has the key of `a` gives way to `a`; if there is none, `a` is added.
abbrev pub put {ℓ} : {A : Type ℓ} → (A → Bool) → A → List A → List A
put same a [] = a ∷ []
put same a (x ∷ xs) = if same x then a ∷ xs else x ∷ put same a xs

abbrev pub has_sku : ℕ → String → Product → Bool
has_sku t s p = p.tenant_id == t && str_eq p.sku_code s

abbrev pub has_name : ℕ → String → Location → Bool
has_name t n l = l.tenant_id == t && str_eq l.name n

abbrev pub option_eq : Option String → Option String → Bool
option_eq none none = true
option_eq (some a) (some b) = str_eq a b
option_eq _ _ = false

abbrev pub has_values : TransactionValues → Transaction → Bool
has_values v t =
    t.tenant_id == v.tenant_id
    && t.product_id == v.product_id
    && t.location_id == v.location_id
    && transaction_type_eq t.transaction_type v.transaction_type
    && int_eq t.quantity v.quantity
    && int_eq t.unit_cost_paise v.unit_cost_paise
    && option_eq t.reference_no v.reference_no
    && same_instant t.transaction_date v.transaction_date

-- uq_tenant_batch_product
abbrev pub has_batch_key : BatchValues → Batch → Bool
has_batch_key v b =
    b.tenant_id == v.tenant_id && str_eq b.batch_no v.batch_no && b.product_id == v.product_id

-- A product row that holds a normalized product of a tenant.
pub record Holds (t : ℕ) (n : NormalizedProduct) (p : Product) : Type 0 where
  pub tenant : p.tenant_id ≡ t
  pub sku_code : p.sku_code ≡ n.sku_code
  pub name : p.name ≡ n.name
  pub category : p.category ≡ n.category
  pub unit_of_measure : p.unit_of_measure ≡ n.unit_of_measure
  pub unit_cost_paise : p.unit_cost_paise ≡ n.unit_cost_paise
  pub selling_price_paise : p.selling_price_paise ≡ n.selling_price_paise
  pub industry_attributes : p.industry_attributes ≡ n.industry_attributes

-- What a statement that succeeds returns, and what it makes of the tables. RETURNING gives the session's
-- object of the row, which SQLAlchemy does not refresh where the session has it already: it has the key of
-- the row, and the other fields may be older.
abbrev pub Answers : (q : Statement) → Tables → Answer q → Tables → Type 0
Answers (Statement.upsert_product t n) T a T' =
    (row : Product) × Holds t n row
    × (a.id ≡ row.id)
    × (a.tenant_id ≡ t)
    × (a.sku_code ≡ n.sku_code)
    × (T' ≡ record T { products = put (has_sku t n.sku_code) row T.products })
Answers (Statement.select_products t s) T a T' = (a ≡ select (has_sku t s) T.products) × (T' ≡ T)
Answers (Statement.select_locations t n) T a T' = (a ≡ select (has_name t n) T.locations) × (T' ≡ T)
Answers (Statement.insert_location t n) T a T' =
    (a.tenant_id ≡ t) × (a.name ≡ n) × (T' ≡ record T { locations = T.locations ++ a ∷ [] })
Answers (Statement.select_transactions v) T a T' =
    (a ≡ select (has_values v) T.transactions) × (T' ≡ T)
Answers (Statement.insert_transaction v) T a T' =
    (a.values ≡ v) × (T' ≡ record T { transactions = T.transactions ++ a ∷ [] })
Answers (Statement.upsert_batch v) T a T' =
    (a.values ≡ v) × (T' ≡ record T { batches = put (has_batch_key v) a T.batches })

-- The laws of a session of PostgreSQL. A statement that fails, for whatever reason, changes no table
-- and aborts the transaction, and in an aborted transaction every statement fails.
pub record IsPostgres {S : Type 0} (db : Database S) : Type 0 where
  pub tables : S → Tables
  pub aborted : S → Bool
  pub on_ok :
      (q : Statement) (s : S) (a : Answer q)
      → (db.execute q s).0 ≡ ok a
      → Answers q (tables s) a (tables (db.execute q s).1)
  pub on_error :
      (q : Statement) (s : S) (e : Raised)
      → (db.execute q s).0 ≡ raised e
      → (e ≡ Raised.database_error)
        × (aborted (db.execute q s).1 ≡ true)
        × (tables (db.execute q s).1 ≡ tables s)
  pub on_aborted :
      (q : Statement) (s : S) → aborted s ≡ true → (db.execute q s).0 ≡ raised Raised.database_error
