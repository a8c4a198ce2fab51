-- ===== src/Routes/Uploads/Status.antt =====
-- app/routes/integrations.py: the polling of a job, and the template.
use nexus_inventory_platform.Base.{
  ℕ, String, List, [], ◌∷◌, Option, none, some, not, ◌-◌, ◌==◌, if◌then◌else◌, length, drop,
}
use nexus_inventory_platform.Dates.{DateTime}
use nexus_inventory_platform.Models.{sync_status_value}
use nexus_inventory_platform.Auth.{User}
use nexus_inventory_platform.Sync.Log.{SyncLog, Entry, entries}
use nexus_inventory_platform.Routes.Uploads.{Reply, reply, rejected}

pub record JobStatus : Type 0 where
  pub job_id : ℕ
  pub status : String
  pub records_processed : ℕ
  pub records_failed : ℕ
  pub total_records : ℕ
  pub errors : List Entry
  pub data_quality_score : Option ℕ
  pub started_at : Option DateTime
  pub completed_at : Option DateTime

-- errors[-50:]
unfoldable pub last_fifty : List Entry → List Entry
last_fifty es = drop (length es - 50) es

unfoldable pub job_status : SyncLog → JobStatus
unfolding last_fifty sync_status_value
job_status log = record {
  job_id = log.id;
  status = sync_status_value log.status;
  records_processed = log.records_processed;
  records_failed = log.records_failed;
  total_records = log.total_records;
  errors = last_fifty (entries log.errors);
  data_quality_score = log.data_quality_score;
  started_at = log.started_at;
  completed_at = log.completed_at;
}

-- The handler, on what `db.get` finds; the times are printed by `isoformat`.
unfoldable pub upload_status : Option SyncLog → User → Reply JobStatus
unfolding job_status
upload_status none user = rejected 404 "Job not found"
upload_status (some log) user =
    if not (log.tenant_id == user.tenant_id)
    then rejected 404 "Job not found"
    else reply (job_status log)

-- The rows that `download_template` writes.
abbrev pub download_template : List (List String)
download_template =
    ("SKU Code" ∷ "Product Name" ∷ "Category" ∷ "UOM" ∷ "Unit Cost" ∷ "Selling Price" ∷ [])
    ∷ ("EXAMPLE-001" ∷ "Sample Product" ∷ "General" ∷ "pcs" ∷ "100.00" ∷ "150.00" ∷ [])
    ∷ []
