-- ===== src/Sync/Loop.antt =====
-- app/services/sync.py: `_process_products`, `_process_transactions` and `_process_batches`. The three
-- loops differ in what they do with a record; the accounting is the same.
pub mod Accounting
pub mod Aborted
pub mod Keeps
pub mod Errors
use nexus_inventory_platform.Base.{ℕ, String, [], ◌+◌, ◌==◌, if◌then◌else◌}
use nexus_inventory_platform.Models.{NormalizedProduct, NormalizedTransaction, NormalizedBatch}
use nexus_inventory_platform.Values.{Runtime, Raised, Result, ok, raised, normalization_error}
use nexus_inventory_platform.Exec.{Exec, lift, ◌>>=◌}
use nexus_inventory_platform.Normalizer.Rows.{
  normalize_product, normalize_transaction, normalize_batch,
}
use nexus_inventory_platform.Normalizer.Database.{Product, Transaction, Batch, Database}
use nexus_inventory_platform.Normalizer.Store.{
  Normalizer, upsert_product, create_transaction, upsert_batch,
}
use nexus_inventory_platform.Connector.{Stream, done, failing, yields}
use nexus_inventory_platform.Sync.Rows.{product_row, transaction_row, batch_row}
use nexus_inventory_platform.Sync.Log.{SyncLog, append_row_error, flush}

-- What a loop changes: the normalizer, with its session, and the log.
pub record Job (S : Type 0) : Type 0 where
  pub normalizer : Normalizer S
  pub log : SyncLog

-- A row that goes in, one that the normalizer refuses, and one with any other exception.
unfoldable pub account : {B : Type 0} → String → String → Result B → SyncLog → SyncLog
unfolding append_row_error
account entity sku (ok b) log = record log { records_processed = log.records_processed + 1 }
account entity sku (raised (normalization_error reason)) log =
    append_row_error entity sku reason log
account entity sku (raised e) log = record log { records_failed = log.records_failed + 1 }

-- A record is counted before it is handled.
unfoldable pub counted : SyncLog → SyncLog
counted log = record log { total_records = log.total_records + 1 }

-- The log after the handling of a record, which has flushed it if it has flushed the session.
unfoldable pub log_after : {S : Type 0} → Database S → S → S → SyncLog → SyncLog
unfolding counted flush
log_after db s s' log = if db.flushes s == db.flushes s' then counted log else flush (counted log)

module _ {S A B : Type 0} (db : Database S) (entity : String) (sku_of : A → String)
    (handle : A → Exec (Normalizer S) B) where
  unfoldable pub process_record : A → Job S → Job S
  unfolding account log_after
  process_record a j = record {
    normalizer = (handle a j.normalizer).1;
    log =
        account entity (sku_of a) (handle a j.normalizer).0
          (log_after db j.normalizer.db (handle a j.normalizer).1.db j.log);
  }

  unfoldable pub process_stream : Stream A → Exec (Job S) Unit
  unfolding process_record
  process_stream done j = (ok tt, j)
  process_stream (failing e) j = (raised e, j)
  process_stream (yields a rest) j = process_stream rest (process_record a j)

module _ {S : Type 0} (py : Runtime) (db : Database S) (tenant_id : ℕ) where
  unfoldable pub handle_product : NormalizedProduct → Exec (Normalizer S) Product
  handle_product np = lift (normalize_product py (product_row np) []) >>= λ validated.
      upsert_product db tenant_id validated

  unfoldable pub handle_transaction : NormalizedTransaction → Exec (Normalizer S) Transaction
  handle_transaction txn = lift (normalize_transaction py (transaction_row txn) []) >>= λ validated.
      create_transaction db tenant_id validated

  unfoldable pub handle_batch : NormalizedBatch → Exec (Normalizer S) Batch
  handle_batch batch = lift (normalize_batch py (batch_row batch) []) >>= λ validated.
      upsert_batch db tenant_id validated

  unfoldable pub process_products : Stream NormalizedProduct → Exec (Job S) Unit
  unfolding process_stream handle_product
  process_products = process_stream db "product" (λ np. np.sku_code) handle_product

  unfoldable pub process_transactions : Stream NormalizedTransaction → Exec (Job S) Unit
  unfolding process_stream handle_transaction
  process_transactions = process_stream db "transaction" (λ txn. txn.sku_code) handle_transaction

  unfoldable pub process_batches : Stream NormalizedBatch → Exec (Job S) Unit
  unfolding process_stream handle_batch
  process_batches = process_stream db "batch" (λ batch. batch.sku_code) handle_batch
