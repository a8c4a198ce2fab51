-- ===== src/Sync/Task/Retries.antt =====
-- The task of app/tasks/sync.py comes to an end, and what it has done of the uploaded file by then.
use nexus_inventory_platform.Base.{
  ℕ, zero, suc, String, List, [], ◌∷◌, Option, some, ◌*◌, ◌^◌, ◌≤◌, ◌≡◌, refl, ◌⊎◌,
}
use nexus_inventory_platform.Models.{TenantConfig}
use nexus_inventory_platform.Values.{Runtime, Raised}
use nexus_inventory_platform.Sync.Process.{Sessions, without_stored}
use nexus_inventory_platform.Sync.Process.Outcome.{IsTransactional}
use nexus_inventory_platform.Sync.Task.{finished, failed_with, Ended, default_retry_delay}

-- The delays of `n` retries from the count `k` on.
abbrev pub backoff : ℕ → ℕ → List ℕ
backoff zero k = []
backoff (suc n) k = (default_retry_delay * 2 ^ k) ∷ backoff n (suc k)

abbrev pub repeated : {A : Type 0} → ℕ → A → List A
repeated zero a = []
repeated (suc n) a = a ∷ repeated n a

test_backoff : backoff 3 0 ≡ 30 ∷ 60 ∷ 120 ∷ []
test_backoff = refl

module _ {S : Type 0} (py : Runtime) (sessions : Sessions S) (tx : IsTransactional sessions)
    (id t : ℕ) (c : TenantConfig) (path : Option String) where
  -- The deletion after the last failure: the upload is gone, or cannot be deleted, which raises.
  abbrev pub Deletes : List String → Raised → List String → Type 0
  Deletes files x after =
      (after ≡ without_stored path files) ⊎ ((x ≡ Raised.os_error) × (after ≡ files))

  -- How a task ends, from the count of retries `k` with `r` more allowed, and a world with the files
  -- `files`: after some retries with their delays, each of which finds all the files, with success and the upload deleted, or with an
  -- exception after the last retry, when the upload is deleted too, unless that raises the exception.
  pub record Ends (r k : ℕ) (files : List String) (e : Ended S) : Type 0 where
    pub retries : ℕ
    pub allowed : retries ≤ r
    pub delays : e.delays ≡ backoff retries k
    pub found : e.found ≡ repeated retries files
    pub last :
        ((e.last ≡ finished) × (e.world.files ≡ without_stored path files))
        ⊎ ((x : Raised) × (e.last ≡ failed_with x) × (retries ≡ r) × Deletes files x e.world.files)

  -- It ends.
  abbrev pub Comes : ℕ → ℕ → List String → Option (Ended S) → Type 0
  Comes r k files o = (e : Ended S) × (o ≡ some e) × Ends r k files e
