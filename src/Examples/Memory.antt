-- ===== src/Examples/Memory.antt =====
-- A session in memory that meets what the models assume of PostgreSQL: statements work on the tables,
-- a SKU that the database refuses aborts the transaction, and a commit stores the log.
use nexus_inventory_platform.Base.{
  ℕ, suc, String, [], ◌∷◌, ◌++◌, Option, none, some, Bool, true, false, str_eq, if◌then◌else◌, ◌≡◌,
  refl, subst, ap, ==_self, arith, ◌==◌,
}
use nexus_inventory_platform.Models.{LocationType, NormalizedProduct}
use nexus_inventory_platform.Values.{Raised, Result, ok, raised}
use nexus_inventory_platform.Exec.Ensures.{ok-injective}
use nexus_inventory_platform.Normalizer.Database.{
  Product, Location, Tables, Statement, Answer, Answers, Database, IsPostgres, select, put, has_sku,
  has_name, has_values, has_batch_key,
}
use nexus_inventory_platform.Sync.Log.{SyncLog}
use nexus_inventory_platform.Sync.Process.{Sessions}
use nexus_inventory_platform.Sync.Process.Outcome.{IsTransactional}
pub mod Commits

pub record Memory : Type 0 where
  pub tables : Tables
  pub committed : Tables
  pub logs : ℕ → Option SyncLog
  pub aborted : Bool
  pub next_id : ℕ
  pub statements : ℕ

abbrev row_of : ℕ → ℕ → NormalizedProduct → Product
row_of id t n = record {
  id = id;
  tenant_id = t;
  sku_code = n.sku_code;
  name = n.name;
  category = n.category;
  unit_of_measure = n.unit_of_measure;
  unit_cost_paise = n.unit_cost_paise;
  selling_price_paise = n.selling_price_paise;
  industry_attributes = n.industry_attributes;
}

abbrev place : ℕ → ℕ → String → Location
place id t n = record {
  id = id;
  tenant_id = t;
  name = n;
  type = LocationType.warehouse;
  city = none;
  state = none;
  is_active = true;
}

abbrev write : Tables → Memory → Memory
write T s = record s { tables = T; next_id = suc s.next_id }

upsert : Bool → ℕ → NormalizedProduct → Memory → Result Product × Memory
upsert true t n s = (raised Raised.database_error, record s { aborted = true })
upsert false t n s = (
  ok (row_of s.next_id t n),
  write
      (record (s.tables) {
        products = put (has_sku t n.sku_code) (row_of s.next_id t n) s.tables.products;
      })
      s,
)

-- What a statement does in a transaction that is not aborted; the SKU "too long" is refused.
apply : (q : Statement) → Memory → Result (Answer q) × Memory
unfolding upsert
apply (Statement.upsert_product t n) s = upsert (str_eq n.sku_code "too long") t n s
apply (Statement.select_products t k) s = (ok (select (has_sku t k) s.tables.products), s)
apply (Statement.select_locations t n) s = (ok (select (has_name t n) s.tables.locations), s)
apply (Statement.insert_location t n) s = (
  ok (place s.next_id t n),
  write (record (s.tables) { locations = s.tables.locations ++ place s.next_id t n ∷ [] }) s,
)
apply (Statement.select_transactions v) s = (ok (select (has_values v) s.tables.transactions), s)
apply (Statement.insert_transaction v) s = (
  ok (record { id = s.next_id; values = v }),
  write
      (record (s.tables) {
        transactions = s.tables.transactions ++ record { id = s.next_id; values = v } ∷ [];
      })
      s,
)
apply (Statement.upsert_batch v) s = (
  ok (record { id = s.next_id; values = v }),
  write
      (record (s.tables) {
        batches = put (has_batch_key v) (record { id = s.next_id; values = v }) s.tables.batches;
      })
      s,
)

guarded : Bool → (q : Statement) → Memory → Result (Answer q) × Memory
guarded true q s = (raised Raised.database_error, s)
guarded false q s = apply q (record s { statements = suc s.statements })

unfoldable pub memory_database : Database Memory
unfolding apply guarded
memory_database = record { execute = λ q s. guarded s.aborted q s; flushes = λ s. s.statements }

upsert_ok :
    (b : Bool) (t : ℕ) (n : NormalizedProduct) (s : Memory) (a : Product)
    → (upsert b t n s).0 ≡ ok a
    → Answers (Statement.upsert_product t n) s.tables a (upsert b t n s).1.tables
unfolding upsert
upsert_ok true t n s a h = cc
upsert_ok false t n s a h =
    subst (λ x. Answers (Statement.upsert_product t n) s.tables x (upsert false t n s).1.tables)
      (ok-injective h)
      (
        row_of s.next_id t n,
        record {
          tenant = refl;
          sku_code = refl;
          name = refl;
          category = refl;
          unit_of_measure = refl;
          unit_cost_paise = refl;
          selling_price_paise = refl;
          industry_attributes = refl;
        },
        refl,
        refl,
        refl,
        refl,
      )

answered :
    (q : Statement) (s : Memory) {a b : Answer q}
    → ok a ≡ ok b
    → Answers q s.tables a (apply q s).1.tables
    → Answers q s.tables b (apply q s).1.tables
answered q s h x = subst (λ c. Answers q s.tables c (apply q s).1.tables) (ok-injective h) x

apply_ok :
    (q : Statement) (s : Memory) (a : Answer q)
    → (apply q s).0 ≡ ok a
    → Answers q s.tables a (apply q s).1.tables
unfolding apply
apply_ok (Statement.upsert_product t n) s a h = upsert_ok (str_eq n.sku_code "too long") t n s a h
apply_ok (Statement.select_products t k) s a h =
    answered (Statement.select_products t k) s h (refl, refl)
apply_ok (Statement.select_locations t n) s a h =
    answered (Statement.select_locations t n) s h (refl, refl)
apply_ok (Statement.insert_location t n) s a h =
    answered (Statement.insert_location t n) s h (refl, refl, refl)
apply_ok (Statement.select_transactions v) s a h =
    answered (Statement.select_transactions v) s h (refl, refl)
apply_ok (Statement.insert_transaction v) s a h =
    answered (Statement.insert_transaction v) s h (refl, refl)
apply_ok (Statement.upsert_batch v) s a h = answered (Statement.upsert_batch v) s h (refl, refl)

-- What an error leaves: an aborted transaction, with the tables as they were.
abbrev Aborts : Raised → Tables → Memory → Type 0
Aborts e T s = (e ≡ Raised.database_error) × (s.aborted ≡ true) × (s.tables ≡ T)

upsert_error :
    (b : Bool) (t : ℕ) (n : NormalizedProduct) (s : Memory) (e : Raised)
    → (upsert b t n s).0 ≡ raised e
    → Aborts e s.tables (upsert b t n s).1
unfolding upsert
upsert_error true t n s e h = (ground arith, refl, refl)
upsert_error false t n s e h = cc

apply_error :
    (q : Statement) (s : Memory) (e : Raised)
    → (apply q s).0 ≡ raised e
    → Aborts e s.tables (apply q s).1
unfolding apply
apply_error (Statement.upsert_product t n) s e h =
    upsert_error (str_eq n.sku_code "too long") t n s e h
apply_error (Statement.select_products t k) s e h = cc
apply_error (Statement.select_locations t n) s e h = cc
apply_error (Statement.insert_location t n) s e h = cc
apply_error (Statement.select_transactions v) s e h = cc
apply_error (Statement.insert_transaction v) s e h = cc
apply_error (Statement.upsert_batch v) s e h = cc

guarded_ok :
    (b : Bool) (q : Statement) (s : Memory) (a : Answer q)
    → (guarded b q s).0 ≡ ok a
    → Answers q s.tables a (guarded b q s).1.tables
unfolding guarded
guarded_ok true q s a h = cc
guarded_ok false q s a h = apply_ok q (record s { statements = suc s.statements }) a h

guarded_error :
    (b : Bool) (q : Statement) (s : Memory) (e : Raised)
    → s.aborted ≡ b
    → (guarded b q s).0 ≡ raised e
    → Aborts e s.tables (guarded b q s).1
unfolding guarded
guarded_error true q s e k h = (ground arith, k, refl)
guarded_error false q s e k h = apply_error q (record s { statements = suc s.statements }) e h

pub memory_postgres : IsPostgres memory_database
unfolding memory_database
memory_postgres = record {
  tables = λ s. s.tables;
  aborted = λ s. s.aborted;
  on_ok = λ q s a h. guarded_ok s.aborted q s a h;
  on_error = λ q s e h. guarded_error s.aborted q s e refl h;
  on_aborted = λ q s h. rw (h, guarded);
}

pub memory_tables : (s : Memory) → memory_postgres.tables s ≡ s.tables
unfolding memory_postgres
memory_tables s = refl

pub memory_aborted : (s : Memory) → memory_postgres.aborted s ≡ s.aborted
unfolding memory_postgres
memory_aborted s = refl

stored_log : ℕ → Memory → Option SyncLog
stored_log id s = s.logs id

save : Bool → SyncLog → Memory → Result (Unit {0}) × Memory
save true log s = (raised Raised.database_error, s)
save false log s = (
  ok tt,
  record s { committed = s.tables; logs = λ id. if log.id == id then some log else s.logs id },
)

or_missing : Option SyncLog → Result SyncLog
or_missing none = raised Raised.database_error
or_missing (some log) = ok log

unfoldable pub memory_sessions : Sessions Memory
unfolding memory_database stored_log save or_missing
memory_sessions = record {
  database = memory_database;
  get_log = stored_log;
  refresh_log = λ id s. or_missing (stored_log id s);
  commit = λ log s. save s.aborted log s;
  rollback = λ s. record s { tables = s.committed; aborted = false };
}

-- A statement leaves the logs alone.
upsert_logs :
    (b : Bool) (t : ℕ) (n : NormalizedProduct) (s : Memory) → (upsert b t n s).1.logs ≡ s.logs
unfolding upsert
upsert_logs true t n s = refl
upsert_logs false t n s = refl

guarded_logs : (b : Bool) (q : Statement) (s : Memory) → (guarded b q s).1.logs ≡ s.logs
unfolding guarded apply
guarded_logs true q s = refl
guarded_logs false (Statement.upsert_product t n) s =
    upsert_logs (str_eq n.sku_code "too long") t n (record s { statements = suc s.statements })
guarded_logs false (Statement.select_products t k) s = refl
guarded_logs false (Statement.select_locations t n) s = refl
guarded_logs false (Statement.insert_location t n) s = refl
guarded_logs false (Statement.select_transactions v) s = refl
guarded_logs false (Statement.insert_transaction v) s = refl
guarded_logs false (Statement.upsert_batch v) s = refl

or_missing-some : (o : Option SyncLog) (log : SyncLog) → or_missing o ≡ ok log → o ≡ some log
unfolding or_missing
or_missing-some none log h = cc
or_missing-some (some g) log h = ground arith

save_ok :
    (b : Bool) (log : SyncLog) (s : Memory)
    → (save b log s).0 ≡ ok tt
    → stored_log log.id (save b log s).1 ≡ some log
unfolding save stored_log
save_ok true log s h = cc
save_ok false log s h = rw (==_self log.id)

save_aborted :
    (b : Bool) (log : SyncLog) (s : Memory)
    → b ≡ true
    → (save b log s).0 ≡ raised Raised.database_error
unfolding save
save_aborted true log s h = refl
save_aborted false log s h = cc

save_error :
    (b : Bool) (log : SyncLog) (s : Memory) (e : Raised)
    → (save b log s).0 ≡ raised e
    → (id : ℕ) → stored_log id (save b log s).1 ≡ stored_log id s
unfolding save
save_error true log s e h id = refl
save_error false log s e h id = cc

pub memory_transactional : IsTransactional memory_sessions
unfolding memory_sessions memory_postgres
memory_transactional = record {
  postgres = memory_postgres;
  stored = stored_log;
  on_get = λ id s. refl;
  on_refresh = λ id s log h. or_missing-some (stored_log id s) log h;
  on_commit = λ log s h. save_ok s.aborted log s h;
  on_commit_error = λ log s e h. save_error s.aborted log s e h;
  on_commit_aborted = λ log s h. save_aborted s.aborted log s h;
  on_execute = λ q s id. ap (λ (f : ℕ → Option SyncLog). f id) (guarded_logs s.aborted q s);
  on_rollback = λ s id. refl;
}

pub memory_transactional-aborted :
    (s : Memory) → memory_transactional.postgres.aborted s ≡ s.aborted
unfolding memory_transactional memory_postgres
memory_transactional-aborted s = refl

pub memory_transactional-stored :
    (id : ℕ) (s : Memory) → memory_transactional.stored id s ≡ s.logs id
unfolding memory_transactional stored_log
memory_transactional-stored id s = refl
