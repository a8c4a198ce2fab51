-- ===== src/Routes/Uploads/Polled.antt =====
-- What `upload_status` of app/routes/integrations.py shows of a job.
use nexus_inventory_platform.Base.{
  take, take-drop, sym, String, List, [], ◌++◌, Option, none, some, ◌-◌, ◌≤◌, ◌==◌, length, ◌≡◌,
  ◌≢◌, refl, ap, arith, ◌⊎◌, inl, inr, Bool-cases, length-drop,
}
use nexus_inventory_platform.Models.{SyncStatus, sync_status_value}
use nexus_inventory_platform.Auth.{User}
use nexus_inventory_platform.Sync.Log.{SyncLog, Entry, entries}
use nexus_inventory_platform.Routes.Uploads.{reply, rejected}
use nexus_inventory_platform.Routes.Uploads.Status.{
  JobStatus, last_fifty, job_status, upload_status,
}

-- The texts of the states.
pub data IsShown : SyncStatus → String → Type 0 where
  shows_pending : IsShown SyncStatus.pending "pending"
  shows_running : IsShown SyncStatus.running "running"
  shows_completed : IsShown SyncStatus.completed "completed"
  shows_failed : IsShown SyncStatus.failed "failed"

-- What a job's owner sees of its log: the state, the counters, the score and the times as they are, and the
-- errors, the last fifty of them where there are more.
pub record Shows (log : SyncLog) (st : JobStatus) : Type 0 where
  pub job_id : st.job_id ≡ log.id
  pub processed : st.records_processed ≡ log.records_processed
  pub failed : st.records_failed ≡ log.records_failed
  pub total : st.total_records ≡ log.total_records
  pub score : st.data_quality_score ≡ log.data_quality_score
  pub status : IsShown log.status st.status
  pub started_at : st.started_at ≡ log.started_at
  pub completed_at : st.completed_at ≡ log.completed_at
  pub earlier : List Entry
  pub errors : entries log.errors ≡ earlier ++ st.errors
  pub fifty : 50 ≤ length (entries log.errors) → length st.errors ≡ 50
  pub none_hidden : length (entries log.errors) ≤ 50 → earlier ≡ []

last_fifty_split :
    (es : List Entry)
    → (es ≡ take (length es - 50) es ++ last_fifty es)
      × (50 ≤ length es → length (last_fifty es) ≡ 50)
      × (length es ≤ 50 → take (length es - 50) es ≡ [])
unfolding last_fifty
last_fifty_split es = (
  sym (take-drop (length es - 50) es),
  λ h. omega (arith, length-drop (length es - 50) es),
  λ h. let e : length es - 50 ≡ 0 = omega arith in ap (λ n. take n es) e,
)

is_shown : (s : SyncStatus) → IsShown s (sync_status_value s)
unfolding sync_status_value
is_shown SyncStatus.pending = shows_pending
is_shown SyncStatus.running = shows_running
is_shown SyncStatus.completed = shows_completed
is_shown SyncStatus.failed = shows_failed

job_status-Shows : (log : SyncLog) → Shows log (job_status log)
unfolding job_status
job_status-Shows log =
    let (whole, short, all) = last_fifty_split (entries log.errors) in
    record {
      job_id = refl;
      processed = refl;
      failed = refl;
      total = refl;
      score = refl;
      status = is_shown log.status;
      started_at = refl;
      completed_at = refl;
      earlier = take (length (entries log.errors) - 50) (entries log.errors);
      errors = whole;
      fifty = short;
      none_hidden = all;
    }

-- A poll of a job is answered with its log's state, counters, score, times and errors, the last fifty where
-- there are more, if there is a log and it is of the user's tenant; a log of another tenant is answered as
-- one that is not there.
pub upload_status-Shows :
    (o : Option SyncLog) (user : User)
    → ((upload_status o user ≡ rejected 404 "Job not found")
        × ((o ≡ none) ⊎ ((log : SyncLog) × (o ≡ some log) × (log.tenant_id ≢ user.tenant_id))))
      ⊎ ((log : SyncLog) × (st : JobStatus) × (o ≡ some log)
          × (log.tenant_id ≡ user.tenant_id)
          × (upload_status o user ≡ reply st)
          × Shows log st)
unfolding upload_status
upload_status-Shows none user = inl (refl, inl refl)
upload_status-Shows (some log) user = elim (Bool-cases (log.tenant_id == user.tenant_id)) [
  | inl own ↦ inr (log, job_status log, refl, ground arith, rw own refl, job_status-Shows log)
  | inr other ↦ inl (rw other refl, inr (log, refl, ground arith))
]
