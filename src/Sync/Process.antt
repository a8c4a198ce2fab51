-- ===== src/Sync/Process.antt =====
-- app/services/sync.py: `process_sync` and `delete_upload`, with the file storage of
-- app/integrations/file_storage.py as the list of stored paths and what the disk allows. A session is the interface
-- `Sessions`: the statements of `Database`, and what the job does with its own sync log.
pub mod Outcome
pub mod Logs
pub mod Atomic
use nexus_inventory_platform.Base.{
  ℕ, String, List, [], ◌∷◌, ◌++◌, Option, none, some, Bool, str_eq, if◌then◌else◌,
}
use nexus_inventory_platform.Dates.{DateTime}
use nexus_inventory_platform.Models.{TenantConfig, SyncStatus, connector_type_value}
use nexus_inventory_platform.Values.{Runtime, Raised, Result, ok, raised, Row, Mapping}
use nexus_inventory_platform.Normalizer.Database.{Database}
use nexus_inventory_platform.Connector.{Config, fetch_products, fetch_transactions, fetch_batches}
use nexus_inventory_platform.Sync.Log.{SyncLog, fatal, append_entry, flush, row, calculate_quality}
use nexus_inventory_platform.Sync.Loop.{
  Job, process_products, process_transactions, process_batches,
}

pub record Sessions (S : Type 0) : Type 0 where
  pub database : Database S
  -- db.get(SyncLog, id), and db.refresh(sync_log)
  pub get_log : ℕ → S → Option SyncLog
  pub refresh_log : ℕ → S → Result SyncLog
  -- the flush of the log with COMMIT, and ROLLBACK
  pub commit : SyncLog → S → Result (Unit {0}) × S
  pub rollback : S → S

-- What the writing of a file comes to: it is there whole, there in part, or not there.
pub data Written : Type 0 where
  whole part nothing : Written

-- What the file system lets be done with a path; what it does not raises an OSError.
pub record Disk : Type 0 where
  pub unlinks : String → Bool
  pub writes : String → Written

pub record World (S : Type 0) : Type 0 where
  pub session : S
  pub files : List String
  pub disk : Disk

-- The stored paths without one, and without that of a log, if it has one.
unfoldable pub without_file : String → List String → List String
without_file path [] = []
without_file path (f ∷ fs) =
    if str_eq f path then without_file path fs else f ∷ without_file path fs

unfoldable pub without_stored : Option String → List String → List String
unfolding without_file
without_stored none fs = fs
without_stored (some path) fs = if str_eq path "" then fs else without_file path fs

-- LocalFileStorage.delete: unlink(missing_ok=True)
unfoldable pub delete_file : {S : Type 0} → String → World S → Result (Unit {0}) × World S
unfolding without_file
delete_file path w =
    if w.disk.unlinks path
    then (ok tt, record w { files = without_file path w.files })
    else (raised Raised.os_error, w)

-- if sync_log.stored_path: await file_storage.delete(sync_log.stored_path)
unfoldable pub delete_stored : {S : Type 0} → Option String → World S → Result (Unit {0}) × World S
unfolding delete_file
delete_stored none w = (ok tt, w)
delete_stored (some path) w = if str_eq path "" then (ok tt, w) else delete_file path w

abbrev pub or_default {ℓ} : {A : Type ℓ} → A → Option A → A
or_default a none = a
or_default a (some b) = b

abbrev pub entity_type_of : TenantConfig → String
entity_type_of c = or_default "products" c.entity_type

unfoldable pub connector_config : SyncLog → TenantConfig → Config
connector_config log c = record {
  file_path = or_default "" log.stored_path;
  mappings = or_default [] c.csv_mappings;
  entity_type = entity_type_of c;
}

-- sync_log.status = RUNNING, and the start
unfoldable pub started : DateTime → SyncLog → SyncLog
started now log = record log { status = SyncStatus.running; started_at = some now }

unfoldable pub completed : DateTime → SyncLog → SyncLog
unfolding calculate_quality
completed now log = record log {
  data_quality_score = some (calculate_quality log);
  status = SyncStatus.completed;
  completed_at = some now;
}

unfoldable pub failed : DateTime → SyncLog → SyncLog
unfolding append_entry
failed now log = record (append_entry fatal log) {
  status = SyncStatus.failed;
  completed_at = some now;
}

module _ {S : Type 0} (py : Runtime) (sessions : Sessions S) where
  open sessions use {database, get_log, refresh_log, commit, rollback}

  -- The loop for the entity of the upload, over the one registered connector. `read` is what pandas
  -- makes of the file at a path.
  unfoldable pub run_connector :
      ℕ → TenantConfig → DateTime → (String → Result (List Row)) → Job S → Result (Unit {0}) × Job S
  unfolding connector_config
  run_connector tenant_id c now read j =
      let config = connector_config j.log c in
      if str_eq (entity_type_of c) "transactions"
      then process_transactions py database tenant_id
          (fetch_transactions py now config (read config.file_path)) j
      else if str_eq (entity_type_of c) "batches"
      then process_batches py database tenant_id (fetch_batches py config (read config.file_path)) j
      else process_products py database tenant_id (fetch_products py config (read config.file_path))
          j

  -- ConnectorFactory.get: "csv" is registered.
  unfoldable pub run_registered :
      ℕ → TenantConfig → DateTime → (String → Result (List Row)) → Job S → Result (Unit {0}) × Job S
  unfolding run_connector connector_type_value
  run_registered tenant_id c now read j =
      if str_eq (connector_type_value j.log.connector_type) "csv"
      then run_connector tenant_id c now read j
      else (raised Raised.value_error, j)

  -- The exception goes on, unless the commit of the failed log raises another.
  unfoldable pub reraise : Raised → Result (Unit {0}) → Result (Unit {0})
  reraise e (ok u) = raised e
  reraise e (raised x) = raised x

  unfoldable pub mark_failed :
      DateTime → Raised → Result SyncLog → World S → Result (Unit {0}) × World S
  unfolding failed reraise row
  mark_failed now e (raised x) w = (raised x, w)
  mark_failed now e (ok log) w = (
    reraise e (commit (row (failed now log)) w.session).0,
    record w { session = (commit (row (failed now log)) w.session).1 },
  )

  -- except Exception: roll back, refresh the log, mark it failed, commit, raise again.
  unfoldable pub on_failure : DateTime → ℕ → Raised → World S → Result (Unit {0}) × World S
  unfolding mark_failed
  on_failure now id e w =
      mark_failed now e (refresh_log id (rollback w.session))
        (record w { session = rollback w.session })

  -- After the commit of the completed log: a file is deleted on success only. An error of the deletion
  -- leaves the `finally`, past the handler of the `try`.
  unfoldable pub conclude :
      DateTime → SyncLog → Result (Unit {0}) → World S → Result (Unit {0}) × World S
  unfolding on_failure delete_stored
  conclude now log (ok u) w = delete_stored log.stored_path w
  conclude now log (raised e) w = on_failure now log.id e w

  -- The rest of the `try` block after the loop.
  unfoldable pub finish :
      DateTime → Result (Unit {0}) → Job S → World S → Result (Unit {0}) × World S
  unfolding on_failure conclude completed row
  finish now (raised e) j w = on_failure now j.log.id e (record w { session = j.normalizer.db })
  finish now (ok u) j w =
      conclude now j.log (commit (row (completed now j.log)) j.normalizer.db).0
        (record w { session = (commit (row (completed now j.log)) j.normalizer.db).1 })

  abbrev pub initial_job : SyncLog → World S → Job S
  initial_job log w = record {
    normalizer = record { db = w.session; product_cache = []; location_cache = [] };
    log = log;
  }

  -- The job, once its log is marked as running.
  unfoldable pub run_job :
      ℕ
      → TenantConfig
      → DateTime
      → (String → Result (List Row))
      → SyncLog
      → World S
      → Result (Unit {0}) × World S
  unfolding run_registered finish
  run_job tenant_id c now read log w =
      let (r, j) = run_registered tenant_id c now read (initial_job log w) in finish now r j w

  -- What follows the commit of the running log.
  unfoldable pub proceed_job :
      ℕ
      → TenantConfig
      → DateTime
      → (String → Result (List Row))
      → SyncLog
      → Result (Unit {0})
      → World S
      → Result (Unit {0}) × World S
  unfolding run_job
  proceed_job tenant_id c now read log (raised e) w = (raised e, w)
  proceed_job tenant_id c now read log (ok u) w = run_job tenant_id c now read log w

  unfoldable pub begin_job :
      ℕ
      → TenantConfig
      → DateTime
      → (String → Result (List Row))
      → Option SyncLog
      → World S
      → Result (Unit {0}) × World S
  unfolding proceed_job started flush row
  begin_job tenant_id c now read none w = (ok tt, w)
  begin_job tenant_id c now read (some log) w =
      proceed_job tenant_id c now read (flush (started now log))
        (commit (row (started now log)) w.session).0
        (record w { session = (commit (row (started now log)) w.session).1 })

  unfoldable pub process_sync :
      ℕ
      → ℕ
      → TenantConfig
      → DateTime
      → (String → Result (List Row))
      → World S
      → Result (Unit {0}) × World S
  unfolding begin_job
  process_sync sync_log_id tenant_id c now read w =
      begin_job tenant_id c now read (get_log sync_log_id w.session) w

  unfoldable pub delete_upload : ℕ → World S → Result (Unit {0}) × World S
  unfolding delete_stored
  delete_upload sync_log_id w = elim (get_log sync_log_id w.session) [
    | none ↦ (ok tt, w)
    | some log ↦ delete_stored log.stored_path w
  ]
