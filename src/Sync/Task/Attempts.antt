-- ===== src/Sync/Task/Attempts.antt =====
-- What one attempt of the task of app/tasks/sync.py leaves: the log with the path of its upload, and the files.
use nexus_inventory_platform.Base.{
  ℕ, String, List, Option, some, ◌≡◌, refl, ap, ◌∙◌, ◌⊎◌, inl, inr, subst,
}
use nexus_inventory_platform.Dates.{DateTime}
use nexus_inventory_platform.Models.{TenantConfig}
use nexus_inventory_platform.Values.{Runtime, Raised, Result, ok, raised, Row}
use nexus_inventory_platform.Sync.Log.{SyncLog, append_entry, flush, row}
use nexus_inventory_platform.Sync.Process.{
  Sessions, World, process_sync, proceed_job, begin_job, without_stored, started, completed, failed,
}
use nexus_inventory_platform.Sync.Process.Outcome.{IsTransactional, process_sync_file}
use nexus_inventory_platform.Sync.Process.Logs.{Leaves, process_sync_log}
use nexus_inventory_platform.Sync.Task.{Moment}

Result-cases :
    {A : Type 0} (r : Result A) → ((a : A) × (r ≡ ok a)) ⊎ ((e : Raised) × (r ≡ raised e))
Result-cases (ok a) = inl (a, refl)
Result-cases (raised e) = inr (e, refl)

module _ {S : Type 0} (py : Runtime) (sessions : Sessions S) (tx : IsTransactional sessions)
    (id t : ℕ) (c : TenantConfig) (path : Option String) where
  -- The job's log is stored, with the path of its upload.
  pub record Holds (s : S) : Type 0 where
    pub log : SyncLog
    pub stored : tx.stored id s ≡ some log
    pub same_id : log.id ≡ id
    pub same_path : log.stored_path ≡ path

  pub log_found : (s : S) (h : Holds s) → sessions.get_log id s ≡ some h.log
  log_found s h = tx.on_get id s ∙ h.stored

  holds_row :
      (L : SyncLog) (k : ℕ) (s : S)
      → tx.stored k s ≡ some (row L)
      → k ≡ id
      → L.id ≡ id
      → L.stored_path ≡ path
      → Holds s
  unfolding row flush
  holds_row L k s e h i p = record {
    log = row L;
    stored = subst (λ n. tx.stored n s ≡ some (row L)) h e;
    same_id = i;
    same_path = p;
  }

  -- Whatever a raising job leaves of the log, the path is in it.
  Leaves-Holds :
      (now : DateTime) (L : SyncLog) (r : Result (Unit {0})) (e : Raised) (s : S)
      → r ≡ raised e
      → L.id ≡ id
      → L.stored_path ≡ path
      → Leaves py sessions tx now L r s
      → Holds s
  unfolding completed failed append_entry row flush
  Leaves-Holds now L (ok u) e s h i p l = cc
  Leaves-Holds now L (raised x) e s h i p l = elim l [
    | inl (os, (n, last, a, st)) ↦
        holds_row (completed now last) L.id s st i (a.same_id ∙ i) (a.same_path ∙ p)
    | inr rest ↦ elim rest [
      | inl st ↦ holds_row (failed now (row L)) L.id s st i i p
      | inr st ↦ holds_row L L.id s st i i p
    ]
  ]

  module _ (now : DateTime) (read : String → Result (List Row)) where
    refused_start :
        (L : SyncLog) (w : World S) (x : Raised)
        → sessions.get_log id w.session ≡ some L
        → (sessions.commit (row (started now L)) w.session).0 ≡ raised x
        → (process_sync py sessions id t c now read w).1.session
          ≡ (sessions.commit (row (started now L)) w.session).1
    unfolding process_sync begin_job proceed_job
    refused_start L w x e h = rw (e, begin_job, h, proceed_job) refl

    process_sync-Holds :
        (w : World S) (e : Raised)
        → Holds w.session
        → (process_sync py sessions id t c now read w).0 ≡ raised e
        → Holds (process_sync py sessions id t c now read w).1.session
    unfolding started flush
    process_sync-Holds w e h r =
        elim (Result-cases (sessions.commit (row (started now h.log)) w.session).0) [
          | inl (u, committed) ↦
              Leaves-Holds now (flush (started now h.log)) _ e _ r h.same_id h.same_path (
                process_sync_log py sessions tx t c now read id h.log w (log_found w.session h)
                  committed)
          | inr (x, refused) ↦ record {
            log = h.log;
            stored =
                ap (tx.stored id) (refused_start h.log w x (log_found w.session h) refused)
                ∙ tx.on_commit_error (row (started now h.log)) w.session x refused id
                ∙ h.stored;
            same_id = h.same_id;
            same_path = h.same_path;
          }
        ]

  -- What an attempt leaves: after a failure the files and the log's path, after a success the files without
  -- the upload.
  pub record Attempted (files : List String) (x : Result (Unit {0}) × World S) : Type 0 where
    pub on_failure : (e : Raised) → x.0 ≡ raised e → (x.1.files ≡ files) × Holds x.1.session
    pub on_success : x.0 ≡ ok tt → x.1.files ≡ without_stored path files

  pub process_sync-Attempted :
      (m : Moment) (files : List String) (w : World S)
      → Holds w.session
      → w.files ≡ files
      → Attempted files (process_sync py sessions id t c m.now m.read w)
  process_sync-Attempted m files w h f =
      let ends =
        process_sync_file py sessions id t c m.now m.read h.log w (log_found w.session h) in
      record {
        on_failure = λ e r. elim ends [
          | inl failing ↦ (failing.1 ∙ f, process_sync-Holds m.now m.read w e h r)
          | inr fine ↦ cc (fine.0, r)
        ];
        on_success = λ r. elim ends [
          | inl failing ↦ cc (failing.0.1, r)
          | inr fine ↦
              fine.1 ∙ ap (λ o. without_stored o w.files) h.same_path ∙ ap (without_stored path) f
        ];
      }
