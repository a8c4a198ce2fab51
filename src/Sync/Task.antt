-- ===== src/Sync/Task.antt =====
-- app/tasks/sync.py: the Celery task around `process_sync`. Celery is not part of the repository: it
-- delivers a task again, with one more retry on its count, when the task asks for it by `self.retry`.
pub mod Attempts
pub mod Retries
use nexus_inventory_platform.Base.{
  ℕ, zero, suc, String, List, [], ◌∷◌, Option, none, some, ◌+◌, ◌*◌, ◌^◌, leb, if◌then◌else◌,
}
use nexus_inventory_platform.Dates.{DateTime}
use nexus_inventory_platform.Models.{TenantConfig}
use nexus_inventory_platform.Values.{Runtime, Raised, Result, ok, raised, Row}
use nexus_inventory_platform.Sync.Process.{Sessions, World, process_sync, delete_upload}

abbrev pub max_retries : ℕ
max_retries = 3

abbrev pub default_retry_delay : ℕ
default_retry_delay = 30

-- How a run of the task ends: it returns, it raises for good, or it asks for a retry in some seconds.
pub data Attempt : Type 0 where
  finished : Attempt
  failed_with : Raised → Attempt
  retry_in : ℕ → Attempt

-- What an attempt meets: the time, and the files that can be read.
pub record Moment : Type 0 where
  pub now : DateTime
  pub read : String → Result (List Row)

-- How the task ended, with the delays between its attempts, and the files that each retry found.
pub record Ended (S : Type 0) : Type 0 where
  pub last : Attempt
  pub delays : List ℕ
  pub found : List (List String)
  pub world : World S

module _ {S : Type 0} where
  -- One more delay before what follows, which finds these files.
  abbrev pub delayed : ℕ → List String → Option (Ended S) → Option (Ended S)
  delayed d files none = none
  delayed d files (some r) = some (record r { delays = d ∷ r.delays; found = files ∷ r.found })

  unfoldable pub then_deliver : Attempt × World S → (World S → Option (Ended S)) → Option (Ended S)
  then_deliver (finished, w) later =
      some (record { last = finished; delays = []; found = []; world = w })
  then_deliver (failed_with e, w) later =
      some (record { last = failed_with e; delays = []; found = []; world = w })
  then_deliver (retry_in d, w) later = delayed d w.files (later w)

module _ {S : Type 0} (py : Runtime) (sessions : Sessions S) where
  -- raise, unless the deletion of the upload raises another exception.
  unfoldable pub after_deletion : Raised → Result (Unit {0}) × World S → Attempt × World S
  after_deletion e (ok u, w) = (failed_with e, w)
  after_deletion e (raised x, w) = (failed_with x, w)

  -- The `except` of the task, with `self.request.retries`.
  unfoldable pub after_attempt : ℕ → ℕ → Result (Unit {0}) × World S → Attempt × World S
  unfolding delete_upload after_deletion
  after_attempt id retries (ok u, w) = (finished, w)
  after_attempt id retries (raised e, w) =
      if leb max_retries retries
      then after_deletion e (delete_upload py sessions id w)
      else (retry_in (default_retry_delay * 2 ^ retries), w)

  unfoldable pub sync_erp_data : ℕ → ℕ → TenantConfig → ℕ → Moment → World S → Attempt × World S
  unfolding after_attempt process_sync
  sync_erp_data id tenant_id c retries at w =
      after_attempt id retries (process_sync py sessions id tenant_id c at.now at.read w)

  -- The deliveries of one task, from a count of retries, with a moment for each count. `none` is more
  -- deliveries than the fuel.
  unfoldable pub deliver : ℕ → ℕ → ℕ → TenantConfig → (ℕ → Moment) → ℕ → World S → Option (Ended S)
  unfolding sync_erp_data then_deliver
  deliver zero id tenant_id c moments retries w = none
  deliver (suc fuel) id tenant_id c moments retries w =
      then_deliver (sync_erp_data id tenant_id c retries (moments retries) w)
        (deliver fuel id tenant_id c moments (suc retries))
