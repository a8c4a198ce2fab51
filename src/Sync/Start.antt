-- ===== src/Sync/Start.antt =====
-- app/services/sync.py: `start_sync`, with the `save` of app/integrations/file_storage.py. The file and
-- the log's key carry a `uuid4`, which is an argument.
pub mod Created
use Prim.Native.String.{◌++◌ as append}
use nexus_inventory_platform.Base.{ℕ, String, List, [], ◌∷◌, Option, none, some, false}
use nexus_inventory_platform.Models.{SyncStatus, SyncConnectorType, connector_type}
use nexus_inventory_platform.Values.{Raised, Result, ok, raised}
use nexus_inventory_platform.Sync.Log.{SyncLog}
use nexus_inventory_platform.Sync.Process.{
  Sessions, World, Written, whole, part, nothing, without_file,
}

-- LocalFileStorage.save, with `join` for `str(self.base_dir / name)`: a file of that path is written
-- over.
unfoldable pub stored_name : String → String → String
stored_name hex filename = append hex (append "_" filename)

unfoldable pub with_file : String → List String → List String
unfolding without_file
with_file path files = path ∷ without_file path files

-- mkdir and write_bytes: an error may leave a part of the file.
unfoldable pub written : {S : Type 0} → Written → String → World S → Result String × World S
unfolding with_file
written whole path w = (ok path, record w { files = with_file path w.files })
written part path w = (raised Raised.os_error, record w { files = with_file path w.files })
written nothing path w = (raised Raised.os_error, w)

unfoldable pub save_file : {S : Type 0} → String → World S → Result String × World S
unfolding written
save_file path w = written (w.disk.writes path) path w

-- A new log, with the defaults of its columns.
unfoldable pub pending_log : ℕ → ℕ → SyncConnectorType → String → String → SyncLog
pending_log id tenant_id connector filename path = record {
  id = id;
  tenant_id = tenant_id;
  connector_type = connector;
  original_filename = some filename;
  stored_path = some path;
  status = SyncStatus.pending;
  total_records = 0;
  records_processed = 0;
  records_failed = 0;
  errors = some [];
  data_quality_score = none;
  started_at = none;
  completed_at = none;
  errors_row = some [];
  errors_new = false;
}

module _ {S : Type 0} (sessions : Sessions S) (join : String → String) where
  open sessions use {commit, refresh_log}

  -- After the commit: the log is read again.
  committed : ℕ → Result (Unit {0}) → World S → Result SyncLog × World S
  committed id (raised e) w = (raised e, w)
  committed id (ok u) w = (refresh_log id w.session, w)

  add_log : SyncLog → World S → Result SyncLog × World S
  unfolding committed
  add_log log w =
      committed log.id (commit log w.session).0 (record w { session = (commit log w.session).1 })

  -- SyncConnectorType(connector_type) raises where the text is no member: the file is there by then.
  create_log :
      ℕ → ℕ → Option SyncConnectorType → String → String → World S → Result SyncLog × World S
  unfolding add_log pending_log
  create_log id tenant_id none filename path w = (raised Raised.value_error, w)
  create_log id tenant_id (some c) filename path w =
      add_log (pending_log id tenant_id c filename path) w

  create_saved :
      ℕ → ℕ → Option SyncConnectorType → String → Result String → World S → Result SyncLog × World S
  unfolding create_log
  create_saved id tenant_id c filename (raised e) w = (raised e, w)
  create_saved id tenant_id c filename (ok path) w = create_log id tenant_id c filename path w

  unfoldable pub start_sync : ℕ → String → ℕ → String → String → World S → Result SyncLog × World S
  unfolding create_saved save_file stored_name connector_type
  start_sync id hex tenant_id filename connector w =
      let (saved, w') = save_file (join (stored_name hex filename)) w in
      create_saved id tenant_id (connector_type connector) filename saved w'
