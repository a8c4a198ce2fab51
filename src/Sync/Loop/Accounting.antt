-- ===== src/Sync/Loop/Accounting.antt =====
-- Every record of a stream is counted once, and every entry of the error list is a failed record.
use nexus_inventory_platform.Base.{
  ap, Bool, true, false, if◌then◌else◌, ℕ, suc, String, [], ◌∷◌, ◌+◌, ◌≤◌, ◌≡◌, ◌∙◌, subst, arith,
  length, length-append,
}
use nexus_inventory_platform.Values.{Result, ok, raised, Raised, normalization_error}
use nexus_inventory_platform.Exec.{Exec}
use nexus_inventory_platform.Normalizer.Database.{Database}
use nexus_inventory_platform.Normalizer.Store.{Normalizer}
use nexus_inventory_platform.Connector.{Stream, done, failing, yields}
use nexus_inventory_platform.Sync.Log.{SyncLog, row_error, entries, append_row_error, flush}
use nexus_inventory_platform.Sync.Loop.{
  Job, account, counted, log_after, process_record, process_stream,
}

-- How many records a stream yields.
abbrev pub count : {A : Type 0} → Stream A → ℕ
count done = 0
count (failing e) = 0
count (yields a rest) = suc (count rest)

-- `after` is `before` with `n` more records, each processed or failed, and nothing else changed but
-- the error list, which gains an entry for some of the failed.
pub record Accounts (n : ℕ) (before after : SyncLog) : Type 0 where
  pub records : after.total_records ≡ before.total_records + n
  pub outcomes :
      after.records_processed + after.records_failed
      ≡ before.records_processed + before.records_failed + n
  pub listed :
      length (entries after.errors) + before.records_failed
      ≤ length (entries before.errors) + after.records_failed
  pub kept : length (entries before.errors) ≤ length (entries after.errors)
  pub processed_kept : before.records_processed ≤ after.records_processed
  pub same_id : after.id ≡ before.id
  pub same_tenant : after.tenant_id ≡ before.tenant_id
  pub same_path : after.stored_path ≡ before.stored_path
  pub same_status : after.status ≡ before.status

Accounts-trans :
    {m n : ℕ} {a b c : SyncLog} → Accounts m a b → Accounts n b c → Accounts (m + n) a c
Accounts-trans p q = record {
  records = omega (arith, p.records, q.records);
  outcomes = omega (arith, p.outcomes, q.outcomes);
  listed = omega (arith, p.listed, q.listed);
  kept = omega (arith, p.kept, q.kept);
  processed_kept = omega (arith, p.processed_kept, q.processed_kept);
  same_id = q.same_id ∙ p.same_id;
  same_tenant = q.same_tenant ∙ p.same_tenant;
  same_path = q.same_path ∙ p.same_path;
  same_status = q.same_status ∙ p.same_status;
}

-- A log with one more record in its total, flushed or not.
record Counts (log g : SyncLog) : Type 0 where
  total_records : g.total_records ≡ log.total_records + 1
  records_processed : g.records_processed ≡ log.records_processed
  records_failed : g.records_failed ≡ log.records_failed
  errors : g.errors ≡ log.errors
  id : g.id ≡ log.id
  tenant_id : g.tenant_id ≡ log.tenant_id
  stored_path : g.stored_path ≡ log.stored_path
  status : g.status ≡ log.status

if-Counts : (b : Bool) (log : SyncLog) → Counts log (if b then counted log else flush (counted log))
unfolding counted flush
if-Counts true log = ground arith
if-Counts false log = ground arith

account-Accounts :
    {B : Type 0} (entity sku : String) (r : Result B) (log g : SyncLog)
    → Counts log g
    → Accounts 1 log (account entity sku r g)
unfolding account append_row_error
account-Accounts entity sku (ok b) log g h = ground arith
account-Accounts entity sku (raised (normalization_error m)) log g h =
    ground
      (arith, length-append (entries g.errors) (row_error entity sku m ∷ []), ap entries h.errors)
account-Accounts entity sku (raised Raised.value_error) log g h = ground arith
account-Accounts entity sku (raised Raised.overflow_error) log g h = ground arith
account-Accounts entity sku (raised Raised.database_error) log g h = ground arith
account-Accounts entity sku (raised Raised.connector_error) log g h = ground arith
account-Accounts entity sku (raised Raised.multiple_results) log g h = ground arith
account-Accounts entity sku (raised Raised.os_error) log g h = ground arith

pub Accounts-refl : (log : SyncLog) → Accounts 0 log log
Accounts-refl log = ground arith

module _ {S A B : Type 0} (db : Database S) (entity : String) (sku_of : A → String)
    (handle : A → Exec (Normalizer S) B) where
  -- A loop over a stream accounts for each record that the stream yields, whatever the handling of each
  -- does and also if the stream then fails: the total rises by their number, each is processed or
  -- failed, and the error list grows by no more entries than records failed.
  pub process_stream-Accounts :
      (st : Stream A) (j : Job S)
      → Accounts (count st) j.log (process_stream db entity sku_of handle st j).1.log
  unfolding process_stream log_after
  process_stream-Accounts done j = Accounts-refl j.log
  process_stream-Accounts (failing e) j = Accounts-refl j.log
  process_stream-Accounts (yields a rest) j = one_more (
      Accounts-trans
        (account-Accounts entity (sku_of a) (handle a j.normalizer).0 j.log _ (if-Counts _ j.log))
        (process_stream-Accounts rest (process_record db entity sku_of handle a j)))
    where
      one_more :
          {log : SyncLog}
          → Accounts (1 + count rest) j.log log
          → Accounts (suc (count rest)) j.log log
      one_more {log} h = subst (λ k. Accounts k j.log log) (omega arith) h
