-- ===== src/Examples/Handlers.antt =====
-- The theorems on the task, the handlers, the registry and the hook at concrete inputs.
use nexus_inventory_platform.Base.{
  ℕ, String, [], ◌∷◌, ◌++◌, Option, none, some, true, false, ◌≡◌, refl, if◌then◌else◌, arith, ◌⊎◌,
  ◌≢◌, ◌==◌,
}
use nexus_inventory_platform.Dates.{same_instant}
use nexus_inventory_platform.Models.{SyncConnectorType, connector_type}
use nexus_inventory_platform.Values.{ok}
use nexus_inventory_platform.Normalizer.Store.{create_transaction}
use nexus_inventory_platform.Normalizer.Store.Replay.{create_transaction_again}
use nexus_inventory_platform.Connector.{Config, fetch_products, fetch_transactions, fetch_batches}
use nexus_inventory_platform.Auth.{decode_token}
use nexus_inventory_platform.Sync.Log.{SyncLog}
use nexus_inventory_platform.Sync.Rows.Fetched.{
  Every, IsProduct, IsTransaction, IsBatch, fetch-screened,
}
use nexus_inventory_platform.Sync.Start.{start_sync, pending_log, with_file, stored_name}
use nexus_inventory_platform.Sync.Start.Created.{Leaves as StartLeaves, start_sync-Created}
use nexus_inventory_platform.Sync.Task.Retries.{Ends as TaskEnds}
use nexus_inventory_platform.Routes.Uploads.{
  products, default_form, upload_config, Site, UploadResponse, reply, rejected, upload_endpoint,
}
use nexus_inventory_platform.Routes.Uploads.Status.{upload_status}
use nexus_inventory_platform.Routes.Uploads.Accepted.{
  IsAccepted, upload_endpoint-Untouched, upload_endpoint-IsAccepted,
}
use nexus_inventory_platform.Routes.Uploads.Polled.{Shows, upload_status-Shows}
use nexus_inventory_platform.Routes.Login.{refresh, logout, create_tenant_user}
use nexus_inventory_platform.Routes.Login.Session.{IsRevoked, refresh_replayed}
use nexus_inventory_platform.Routes.Login.Created.{Adds, Refuses, create_tenant_user-Adds}
use nexus_inventory_platform.Routes.Uploads.Job.{upload_endpoint-Ends}
use nexus_inventory_platform.Routes.Uploads.{config_of}
use nexus_inventory_platform.Sync.Process.{process_sync}
use nexus_inventory_platform.Sync.Process.Outcome.{Ends}
use nexus_inventory_platform.Auth.{get_tenant_by_id}
use nexus_inventory_platform.Rls.{
  MetaData, create_table, other, Script, process_revision_directives, rls_tables,
}
use nexus_inventory_platform.Rls.Revision.{upgrades, downgrades, process_revision_directives_lem}
use nexus_inventory_platform.Marg.{
  Exports, prepare_standard_csvs, selected_entities, poll_status, finished,
}
use nexus_inventory_platform.Marg.Polling.{poll_status-verdict}
use nexus_inventory_platform.Marg.Multipart.{encode, utf8, file_head, mime_type_of, multipart}
use nexus_inventory_platform.Marg.Multipart.Find.{starts, occurs}
use nexus_inventory_platform.Marg.Multipart.Read.{read_form}
use nexus_inventory_platform.Marg.Multipart.Parts.{field_part, multipart-read_form}
use nexus_inventory_platform.Marg.Main.{Arguments, Api, main, Syncs, main-Syncs}
use nexus_inventory_platform.Examples.Memory.{
  Memory, memory_database, memory_postgres, memory_sessions, memory_transactional,
}
use nexus_inventory_platform.Examples.Data.{
  now, py, movement, log, world, rows, read, stocked, sold, owner, auth_settings, owner_claims,
  library, redis, redis-IsRedis, auth_store, raw_row,
}

abbrev connector : Config
connector = record { file_path = "u/products.csv"; mappings = []; entity_type = "products" }

fetch-screened_example :
    Every (IsProduct py) (fetch_products py connector (ok rows))
    × Every (IsTransaction py) (fetch_transactions py now connector (ok rows))
    × Every (IsBatch py) (fetch_batches py connector (ok rows))
fetch-screened_example = fetch-screened py now connector (ok rows)

create_transaction_again_example :
    (sold ≡ sold)
    × (memory_postgres.tables
          (create_transaction memory_database 1 movement
            (create_transaction memory_database 1 movement stocked).1).1.db
        ≡ memory_postgres.tables (create_transaction memory_database 1 movement stocked).1.db)
unfolding create_transaction memory_database same_instant
create_transaction_again_example =
    create_transaction_again memory_database memory_postgres 1 movement stocked sold sold refl refl

start_sync-Created_example :
    StartLeaves memory_sessions
      (λ s. s)
      memory_transactional
      (pending_log 9 1 SyncConnectorType.csv "p.csv" (stored_name "c0" "p.csv"))
      (stored_name "c0" "p.csv")
      world
      (start_sync memory_sessions (λ s. s) 9 "c0" 1 "p.csv" "csv" world)
unfolding connector_type
start_sync-Created_example =
    start_sync-Created memory_sessions (λ s. s) memory_transactional 9 "c0" 1 "p.csv" "csv"
      SyncConnectorType.csv world refl

abbrev site : Site Memory
site = record { world = world; queue = [] }

upload_endpoint-Untouched_example :
    (upload_endpoint memory_sessions
      (λ s. s)
      9
      "c0"
      1
      []
      owner
      (some "p.txt")
      (1 ∷ [])
      products
      default_form
      site).1
    ≡ site
unfolding memory_sessions upload_endpoint
upload_endpoint-Untouched_example =
    upload_endpoint-Untouched memory_sessions (λ s. s) 9 "c0" 1 [] owner (some "p.txt") (1 ∷ [])
      products default_form site 400 "Unsupported file type. Allowed: .csv, .xlsx" refl

abbrev accepted : UploadResponse
accepted = record { job_id = 9; status = "pending" }

upload_endpoint-IsAccepted_example :
    IsAccepted memory_sessions
      (λ s. s)
      9
      "c0"
      memory_transactional
      1
      []
      owner
      (some "p.csv")
      (1 ∷ [])
      products
      default_form
      site
      accepted
      (upload_endpoint memory_sessions
        (λ s. s)
        9
        "c0"
        1
        []
        owner
        (some "p.csv")
        (1 ∷ [])
        products
        default_form
        site).1
unfolding memory_sessions upload_endpoint
upload_endpoint-IsAccepted_example =
    upload_endpoint-IsAccepted memory_sessions (λ s. s) 9 "c0" 1 [] owner (some "p.csv") (1 ∷ [])
      products default_form site memory_transactional accepted refl

upload_status-Shows_example :
    ((upload_status (some log) owner ≡ rejected 404 "Job not found")
      × ((some log ≡ none)
          ⊎ ((l : SyncLog) × (some log ≡ some l) × (l.tenant_id ≢ owner.tenant_id))))
    ⊎ ((l : SyncLog) × (st : _) × (some log ≡ some l)
        × (l.tenant_id ≡ owner.tenant_id)
        × (upload_status (some log) owner ≡ reply st)
        × Shows l st)
upload_status-Shows_example = upload_status-Shows (some log) owner

refresh_replayed_example :
    IsRevoked library auth_settings false redis redis-IsRedis (
      refresh library auth_settings false redis 20 "j2"
        (some "r0")
        (refresh library auth_settings false redis 10 "j1" (some "r0") auth_store).1)
    × IsRevoked library auth_settings false redis redis-IsRedis (
        refresh library auth_settings false redis 20 "j2"
          (some "r0")
          (logout library auth_settings false redis (some "r0") auth_store).1)
unfolding decode_token
refresh_replayed_example =
    refresh_replayed library auth_settings false redis redis-IsRedis 10 20 "j1" "j2" "j0" "r0"
      owner_claims auth_store refl refl refl refl

create_tenant_user-Adds_example :
    Adds library auth_settings redis 8 [] "V" "p" owner auth_store
      (create_tenant_user library auth_settings false redis 8 [] "V" "p" owner auth_store)
    ⊎ Refuses library auth_settings redis 8 [] "V" "p" auth_store
        (create_tenant_user library auth_settings false redis 8 [] "V" "p" owner auth_store)
create_tenant_user-Adds_example =
    create_tenant_user-Adds library auth_settings redis 8 [] "V" "p" owner auth_store

abbrev metadata : MetaData
metadata = ("users", true ∷ []) ∷ ("tenants", false ∷ []) ∷ []

abbrev script : Script
script = record {
  upgrade_ops = create_table "tenants" ∷ create_table "users" ∷ [];
  downgrade_ops = other "drop_table" ∷ [];
}

process_revision_directives_lem_example :
    ((process_revision_directives metadata script).upgrade_ops
      ≡ script.upgrade_ops ++ upgrades (rls_tables metadata script.upgrade_ops))
    × ((process_revision_directives metadata script).downgrade_ops
        ≡ downgrades (rls_tables metadata script.upgrade_ops) ++ script.downgrade_ops)
process_revision_directives_lem_example = process_revision_directives_lem metadata script

abbrev replies : ℕ → Option String
replies n = if n == 0 then some "running" else some "completed"

poll_status-verdict_example : poll_status replies ≡ finished
poll_status-verdict_example =
    poll_status-verdict 1 replies (omega arith)
      (λ i h. let first : i ≡ 0 = omega arith in rw first (refl, refl)) λ h. cc h

abbrev arguments : Arguments
arguments = record {
  command = "sync-all";
  base_url = "";
  email = "";
  password = "";
  token = "t";
  work_dir = "";
  default_location = "Main";
  poll = true;
}

abbrev api : Api
api = record {
  login = λ email password. none;
  upload = λ token entity csv. some (("job_id", "job") ∷ []);
  status = λ token job n. some "completed";
}

abbrev exports : Exports
exports = record {
  pro_full = some (raw_row ∷ []);
  probat_full = none;
  dis_full = none;
  dis_sample = none;
}

main-Syncs_example :
    Syncs
      (selected_entities "sync-all" (prepare_standard_csvs "Main" exports))
      (main arguments api exports)
main-Syncs_example = main-Syncs arguments api exports refl

upload_endpoint-Ends_example :
    Ends py memory_sessions (some "c0_p.csv") (with_file "c0_p.csv" site.world.files) (
      process_sync py memory_sessions 9 1
        (upload_config (config_of (get_tenant_by_id [] 1)) products default_form)
        now
        read
        (upload_endpoint memory_sessions
          (λ s. s)
          9
          "c0"
          1
          []
          owner
          (some "p.csv")
          (1 ∷ [])
          products
          default_form
          site).1.world)
unfolding memory_sessions upload_endpoint
upload_endpoint-Ends_example =
    upload_endpoint-Ends memory_sessions memory_transactional (λ s. s) 9 "c0" 1 [] owner
      (some "p.csv") (1 ∷ []) products default_form site py now read accepted refl

multipart-read_form_example :
    read_form (encode "b0") (
      multipart "b0"
        (("entity_type", "products") ∷ [])
        "file"
        "products.csv"
        none
        (encode "SKU Code\r\nA-1"))
    ≡ some (
        field_part ("entity_type", "products")
        ∷ (
          file_head (encode "file") (encode "products.csv") (encode "text/csv"),
          encode "SKU Code\r\nA-1",
        )
        ∷ [])
unfolding encode mime_type_of utf8 occurs starts
multipart-read_form_example =
    multipart-read_form "b0" (("entity_type", "products") ∷ []) "file" "products.csv" none
      (encode "SKU Code\r\nA-1") refl ((refl, refl), tt) refl refl refl refl
