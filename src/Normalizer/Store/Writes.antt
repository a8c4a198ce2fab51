-- ===== src/Normalizer/Store/Writes.antt =====
-- The methods that write: the invariant of `Invariant`, and what the rows that they return stand for.
use nexus_inventory_platform.Base.{
  ℕ, String, List, [], Option, none, some, true, str_eq, ◌≡◌, refl, sym, ◌∙◌, subst, arith,
  int_eq→eq, eq_iff, int_eq_self, eq_refl, Bool-cases, inl, inr,
}
use nexus_inventory_platform.Dates.{same_instant, same_instant_self}
use nexus_inventory_platform.Models.{
  NormalizedTransaction, NormalizedBatch, TransactionType, transaction_type_eq,
}
use nexus_inventory_platform.Values.{ok}
use nexus_inventory_platform.Exec.Ensures.{Ensures, Ensures-pure, Ensures-lift, Ensures-bind}
use nexus_inventory_platform.Normalizer.Database.{
  Product, Location, Transaction, TransactionValues, Batch, Tables, Statement, Database, IsPostgres,
  has_values, option_eq,
}
use nexus_inventory_platform.Normalizer.Database.Laws.{select_head}
use nexus_inventory_platform.Normalizer.Store.{
  transaction_values, transaction_or_new, record_transaction, create_transaction, optional_location,
  upsert_batch, scalar_one_or_none,
}
use nexus_inventory_platform.Normalizer.Store.Invariant.{
  IsSound, Answered, IsProductOf, IsLocationOf, scalar-some, execute-Ensures,
  resolve_product-Ensures, resolve_location-Ensures,
}

transaction_type_eq_self : (t : TransactionType) → transaction_type_eq t t ≡ true
transaction_type_eq_self TransactionType.in_ = refl
transaction_type_eq_self TransactionType.out = refl
transaction_type_eq_self TransactionType.transfer = refl
transaction_type_eq_self TransactionType.return_ = refl
transaction_type_eq_self TransactionType.adjustment = refl

transaction_type_eq→eq : (t u : TransactionType) → transaction_type_eq t u ≡ true → t ≡ u
transaction_type_eq→eq TransactionType.in_ u h = ground arith
transaction_type_eq→eq TransactionType.out u h = ground arith
transaction_type_eq→eq TransactionType.transfer u h = ground arith
transaction_type_eq→eq TransactionType.return_ u h = ground arith
transaction_type_eq→eq TransactionType.adjustment u h = ground arith

option_eq→eq : (o p : Option String) → option_eq o p ≡ true → o ≡ p
option_eq→eq none none h = refl
option_eq→eq none (some b) h = cc
option_eq→eq (some a) none h = cc
option_eq→eq (some a) (some b) h = ground (arith, eq_iff a b)

option_eq_self : (o : Option String) → option_eq o o ≡ true
option_eq_self none = refl
option_eq_self (some s) = eq_refl s

-- A row is found by its own values.
pub has_values_self : (t : Transaction) → has_values t.values t ≡ true
has_values_self t = ground (
  arith,
  transaction_type_eq_self t.transaction_type,
  int_eq_self t.quantity,
  int_eq_self t.unit_cost_paise,
  option_eq_self t.reference_no,
  same_instant_self t.transaction_date,
)

-- location.id if location else None
abbrev pub location_id_of : Option Location → Option ℕ
location_id_of none = none
location_id_of (some l) = some l.id

module _ {S : Type 0} (db : Database S) (pg : IsPostgres db) (tenant_id : ℕ) (start : Tables) where
  -- A transaction that stands for a record: of the tenant, at a product and a location of those names,
  -- with the record's values; the date is the same instant.
  pub record Stands (n : NormalizedTransaction) (product : Product) (location : Location)
      (t : Transaction) : Type 0 where
    pub product_own : IsProductOf tenant_id n.sku_code product
    pub location_own : IsLocationOf tenant_id n.location_name location
    pub tenant : t.tenant_id ≡ tenant_id
    pub product_id : t.product_id ≡ product.id
    pub location_id : t.location_id ≡ location.id
    pub transaction_type : t.transaction_type ≡ n.transaction_type
    pub quantity : t.quantity ≡ n.quantity
    pub unit_cost_paise : t.unit_cost_paise ≡ n.unit_cost_paise
    pub reference_no : t.reference_no ≡ n.reference_no
    pub transaction_date : same_instant t.transaction_date n.transaction_date ≡ true

  pub Stands-of_values :
      (n : NormalizedTransaction) (p : Product) (l : Location) (t : Transaction)
      → IsProductOf tenant_id n.sku_code p
      → IsLocationOf tenant_id n.location_name l
      → has_values (transaction_values db tenant_id n p l) t ≡ true
      → Stands n p l t
  Stands-of_values n p l t own at h =
      let type_lem = transaction_type_eq→eq t.transaction_type n.transaction_type in
      let quantity_lem = int_eq→eq t.quantity n.quantity in
      let cost_lem = int_eq→eq t.unit_cost_paise n.unit_cost_paise in
      let reference_lem = option_eq→eq t.reference_no n.reference_no in
      record {
        product_own = own;
        location_own = at;
        tenant = ground arith;
        product_id = ground arith;
        location_id = ground arith;
        transaction_type = type_lem (ground arith);
        quantity = quantity_lem (ground arith);
        unit_cost_paise = cost_lem (ground arith);
        reference_no = reference_lem (ground arith);
        transaction_date = ground arith;
      }

  transaction_or_new-same :
      (v : TransactionValues) (rows : List Transaction) (existing : Option Transaction)
      → v.tenant_id ≡ tenant_id
      → Answered db pg tenant_id start (Statement.select_transactions v) rows
      → scalar_one_or_none rows ≡ ok existing
      → Ensures
          (IsSound db pg tenant_id start)
          (transaction_or_new db tenant_id v existing)
          (λ t. has_values v t ≡ true)
  unfolding transaction_or_new Answered
  transaction_or_new-same v rows none own answered one = record {
    keeps = (execute-Ensures db pg tenant_id start (Statement.insert_transaction v) own).keeps;
    returns = λ s h t e.
        let (T, T', a) =
          (execute-Ensures db pg tenant_id start (Statement.insert_transaction v) own).returns s h t
            e in
        subst (λ w. has_values w t ≡ true) a.0 (has_values_self t);
  }
  transaction_or_new-same v rows (some r) own (T, T', e) one = Ensures-pure r (
      select_head (has_values v) T.transactions {a = r} {rest = []}
        (sym e.0 ∙ scalar-some rows r one))

  record_transaction-same :
      (v : TransactionValues)
      → v.tenant_id ≡ tenant_id
      → Ensures
          (IsSound db pg tenant_id start)
          (record_transaction db tenant_id v)
          (λ t. has_values v t ≡ true)
  unfolding record_transaction
  record_transaction-same v own =
      Ensures-bind _ _ (execute-Ensures db pg tenant_id start (Statement.select_transactions v) own)
        λ rows answered.
          Ensures-bind _ _ (Ensures-lift (scalar_one_or_none rows) (λ found e. e))
            λ existing one. transaction_or_new-same v rows existing own answered one

  -- `create_transaction` returns a transaction that stands for the record, and keeps the invariant.
  pub create_transaction-Ensures :
      (n : NormalizedTransaction)
      → Ensures
          (IsSound db pg tenant_id start)
          (create_transaction db tenant_id n)
          (λ t. (p : Product) × (l : Location) × Stands n p l t)
  unfolding create_transaction
  create_transaction-Ensures n =
      Ensures-bind _ _ (resolve_product-Ensures db pg tenant_id start n.sku_code) λ p own.
        Ensures-bind _ _ (resolve_location-Ensures db pg tenant_id start n.location_name) λ l at.
          record {
            keeps = (record_transaction-same (transaction_values db tenant_id n p l) refl).keeps;
            returns = λ s h t e. (
              p,
              l,
              Stands-of_values n p l t own at (
                  (record_transaction-same (transaction_values db tenant_id n p l) refl).returns s h
                    t e),
            );
          }

  -- A batch that stands for a record: of the tenant, with the record's values, at a product of the tenant
  -- of that SKU, and at a location, if there is one.
  pub record StandsBatch (n : NormalizedBatch) (product : Product) (location : Option Location)
      (b : Batch) : Type 0 where
    pub product_own : IsProductOf tenant_id n.sku_code product
    pub tenant : b.tenant_id ≡ tenant_id
    pub product_id : b.product_id ≡ product.id
    pub batch_no : b.batch_no ≡ n.batch_no
    pub quantity : b.quantity ≡ n.quantity
    pub manufactured_date : b.manufactured_date ≡ n.manufactured_date
    pub expiry_date : b.expiry_date ≡ n.expiry_date
    pub location_id : b.location_id ≡ location_id_of location

  optional_location-Ensures :
      (o : Option String)
      → Ensures (IsSound db pg tenant_id start) (optional_location db tenant_id o) (λ _. Unit {0})
  unfolding optional_location
  optional_location-Ensures none = Ensures-pure none tt
  optional_location-Ensures (some name) = elim (Bool-cases (str_eq name "")) [
    | inl e ↦ rw (e, optional_location) (Ensures-pure none tt)
    | inr e ↦
        rw (e, optional_location)
          (Ensures-bind _ _ (resolve_location-Ensures db pg tenant_id start name)
            λ l _. Ensures-pure (some l) tt)
  ]

  -- `upsert_batch` keeps the invariant.
  pub upsert_batch-Ensures :
      (n : NormalizedBatch)
      → Ensures (IsSound db pg tenant_id start) (upsert_batch db tenant_id n) (λ _. Unit {0})
  unfolding upsert_batch
  upsert_batch-Ensures n =
      Ensures-bind _ _ (resolve_product-Ensures db pg tenant_id start n.sku_code) λ p own.
        Ensures-bind _ _ (optional_location-Ensures n.location_name) λ l _. record {
          keeps = (execute-Ensures db pg tenant_id start (Statement.upsert_batch _) refl).keeps;
          returns = λ s h b e. tt;
        }
