-- ===== src/Sync/Process/Outcome.antt =====
-- How a sync job ends: what it leaves in its log and of its file.
use nexus_inventory_platform.Base.{
  ℕ, String, List, Option, none, some, true, Bool-cases, ap, str_eq, ◌≡◌, refl, sym, ◌⊎◌, inl, inr,
  subst, if-cases,
}
use nexus_inventory_platform.Dates.{DateTime}
use nexus_inventory_platform.Models.{
  TenantConfig, connector_type_value, NormalizedProduct, NormalizedTransaction, NormalizedBatch,
}
use nexus_inventory_platform.Connector.{Stream}
use nexus_inventory_platform.Values.{Runtime, Raised, Result, ok, raised, Row}
use nexus_inventory_platform.Normalizer.Database.{Statement, tenant_of, IsPostgres}
use nexus_inventory_platform.Sync.Log.{SyncLog, flush}
use nexus_inventory_platform.Sync.Loop.{
  Job, process_products, process_transactions, process_batches,
}
use nexus_inventory_platform.Sync.Loop.Accounting.{Accounts, process_stream-Accounts, Accounts-refl}
use nexus_inventory_platform.Sync.Loop.Keeps.{
  handle_product-Keeps, handle_transaction-Keeps, handle_batch-Keeps, process_stream-keeps,
}
use nexus_inventory_platform.Sync.Process.{
  Sessions, World, delete_file, delete_stored, without_stored, started, run_registered, reraise,
  mark_failed, on_failure, conclude, finish, initial_job, run_job, proceed_job, begin_job,
  process_sync, entity_type_of,
}

-- What the job relies on of its session: `stored` is the committed row of a log.
pub record IsTransactional {S : Type 0} (sessions : Sessions S) : Type 0 where
  pub postgres : IsPostgres sessions.database
  pub stored : ℕ → S → Option SyncLog
  pub on_get : (id : ℕ) (s : S) → sessions.get_log id s ≡ stored id s
  pub on_refresh :
      (id : ℕ) (s : S) (log : SyncLog) → sessions.refresh_log id s ≡ ok log → stored id s ≡ some log
  pub on_commit :
      (log : SyncLog) (s : S)
      → (sessions.commit log s).0 ≡ ok tt
      → stored log.id (sessions.commit log s).1 ≡ some log
  pub on_commit_error :
      (log : SyncLog) (s : S) (e : Raised)
      → (sessions.commit log s).0 ≡ raised e
      → (id : ℕ) → stored id (sessions.commit log s).1 ≡ stored id s
  pub on_commit_aborted :
      (log : SyncLog) (s : S)
      → postgres.aborted s ≡ true
      → (sessions.commit log s).0 ≡ raised Raised.database_error
  pub on_execute :
      (q : Statement) (s : S) (id : ℕ) → stored id (sessions.database.execute q s).1 ≡ stored id s
  pub on_rollback : (s : S) (id : ℕ) → stored id (sessions.rollback s) ≡ stored id s

module _ {S : Type 0} (py : Runtime) (sessions : Sessions S) where
  open sessions use {database, refresh_log, commit, rollback}

  -- What holds of each loop, and where no connector is found, holds of the run.
  run_registered_cases :
      (t : ℕ) (c : TenantConfig) (now : DateTime) (read : String → Result (List Row)) (j : Job S)
      (R : Result (Unit {0}) × Job S → Type 0)
      → ((st : Stream NormalizedTransaction) → R (process_transactions py database t st j))
      → ((st : Stream NormalizedBatch) → R (process_batches py database t st j))
      → ((st : Stream NormalizedProduct) → R (process_products py database t st j))
      → R (raised Raised.value_error, j)
      → R (run_registered py sessions t c now read j)
  unfolding run_registered
  run_registered_cases t c now read j R ht hb hp hn =
      if-cases R (str_eq (connector_type_value j.log.connector_type) "csv")
        (if-cases R (str_eq (entity_type_of c) "transactions") (ht _)
          (if-cases R (str_eq (entity_type_of c) "batches") (hb _) (hp _)))
        hn

  module _ (t : ℕ) (c : TenantConfig) (now : DateTime) (read : String → Result (List Row))
      (j : Job S) where
    -- A property of sessions that every statement of the tenant keeps, the run keeps.
    pub run_registered-keeps :
        (P : S → Type 0)
        → ((q : Statement) → tenant_of q ≡ t → (s : S) → P s → P (database.execute q s).1)
        → P j.normalizer.db
        → P (run_registered py sessions t c now read j).1.normalizer.db
    unfolding process_products process_transactions process_batches
    run_registered-keeps P kept h =
        run_registered_cases t c now read j (λ x. P x.1.normalizer.db)
          (λ st.
            process_stream-keeps database P _ _ _ (handle_transaction-Keeps py database t P kept) st
              j h)
          (λ st.
            process_stream-keeps database P _ _ _ (handle_batch-Keeps py database t P kept) st j h)
          (λ st.
            process_stream-keeps database P _ _ _ (handle_product-Keeps py database t P kept) st j
              h)
          h

    -- The run accounts for a number of records.
    pub run_registered-Accounts :
        (n : ℕ) × Accounts n j.log (run_registered py sessions t c now read j).1.log
    unfolding process_products process_transactions process_batches
    run_registered-Accounts =
        run_registered_cases t c now read j (λ x. (n : ℕ) × Accounts n j.log x.1.log)
          (λ st. (_, process_stream-Accounts database _ _ _ st j))
          (λ st. (_, process_stream-Accounts database _ _ _ st j))
          (λ st. (_, process_stream-Accounts database _ _ _ st j)) (0, Accounts-refl j.log)

  reraise-raises :
      (e : Raised) (r : Result (Unit {0})) → (x : Raised) × (reraise py sessions e r ≡ raised x)
  unfolding reraise
  reraise-raises e (ok u) = (e, refl)
  reraise-raises e (raised x) = (x, refl)

  -- A failure is raised again, or another in its place, and the file is kept.
  abbrev pub FailsKeeping : List String → Result (Unit {0}) × World S → Type 0
  FailsKeeping fs x = ((e : Raised) × (x.0 ≡ raised e)) × (x.1.files ≡ fs)

  mark_failed-FailsKeeping :
      (now : DateTime) (e : Raised) (r : Result SyncLog) (w : World S)
      → FailsKeeping w.files (mark_failed py sessions now e r w)
  unfolding mark_failed
  mark_failed-FailsKeeping now e (raised x) w = ((x, refl), refl)
  mark_failed-FailsKeeping now e (ok log) w = (reraise-raises e _, refl)

  pub on_failure-FailsKeeping :
      (now : DateTime) (id : ℕ) (e : Raised) (w : World S)
      → FailsKeeping w.files (on_failure py sessions now id e w)
  unfolding on_failure
  on_failure-FailsKeeping now id e w = mark_failed-FailsKeeping now e _ _

  -- How the end of a job looks: it fails and keeps its file, or it returns, and the file is deleted.
  abbrev pub Ends : (Option String) → List String → Result (Unit {0}) × World S → Type 0
  Ends path fs x = FailsKeeping fs x ⊎ ((x.0 ≡ ok tt) × (x.1.files ≡ without_stored path fs))

  -- The deletion of a log's file: it fails and changes nothing, or the file is gone, and no other.
  pub delete_stored_cases :
      (path : Option String) (w : World S)
      → ((delete_stored path w).0 ≡ raised Raised.os_error) × ((delete_stored path w).1 ≡ w)
        ⊎ ((delete_stored path w).0 ≡ ok tt)
          × ((delete_stored path w).1 ≡ record w { files = without_stored path w.files })
  unfolding delete_stored without_stored delete_file
  delete_stored_cases none w = inr (refl, refl)
  delete_stored_cases (some path) w = elim (Bool-cases (str_eq path "")) [
    | inl e ↦ inr (rw e refl, rw e refl)
    | inr e ↦ elim (Bool-cases (w.disk.unlinks path)) [
      | inl u ↦ inr (rw (e, u) refl, rw (e, u) refl)
      | inr u ↦ inl (rw (e, u) refl, rw (e, u) refl)
    ]
  ]

  delete_stored-Ends :
      (path : Option String) (w : World S) → Ends path w.files (delete_stored path w)
  delete_stored-Ends path w = elim (delete_stored_cases path w) [
    | inl (e, same) ↦ inl ((Raised.os_error, e), ap (λ (v : World S). v.files) same)
    | inr (e, gone) ↦ inr (e, ap (λ (v : World S). v.files) gone)
  ]

  conclude-Ends :
      (now : DateTime) (log : SyncLog) (r : Result (Unit {0})) (w : World S)
      → Ends log.stored_path w.files (conclude py sessions now log r w)
  unfolding conclude
  conclude-Ends now log (ok u) w = delete_stored-Ends log.stored_path w
  conclude-Ends now log (raised e) w = inl (on_failure-FailsKeeping now log.id e w)

  finish-Ends :
      (now : DateTime) (r : Result (Unit {0})) (j : Job S) (w : World S)
      → Ends j.log.stored_path w.files (finish py sessions now r j w)
  unfolding finish
  finish-Ends now (raised e) j w = inl (on_failure-FailsKeeping now j.log.id e _)
  finish-Ends now (ok u) j w = conclude-Ends now j.log _ _

  run_job-Ends :
      (t : ℕ) (c : TenantConfig) (now : DateTime) (read : String → Result (List Row))
      (log : SyncLog) (w : World S)
      → Ends log.stored_path w.files (run_job py sessions t c now read log w)
  unfolding run_job
  run_job-Ends t c now read log w =
      let accounts = run_registered-Accounts t c now read (initial_job py sessions log w) in
      subst (λ path. Ends path w.files (run_job py sessions t c now read log w))
        accounts.1.same_path (finish-Ends now _ _ w)

  proceed_job-Ends :
      (t : ℕ) (c : TenantConfig) (now : DateTime) (read : String → Result (List Row))
      (log : SyncLog) (r : Result (Unit {0})) (w : World S)
      → Ends log.stored_path w.files (proceed_job py sessions t c now read log r w)
  unfolding proceed_job
  proceed_job-Ends t c now read log (raised e) w = inl ((e, refl), refl)
  proceed_job-Ends t c now read log (ok u) w = run_job-Ends t c now read log w

  -- A job whose log is there fails and keeps its source file, whatever the failure, or returns and has
  -- deleted the file, and no other.
  pub process_sync_file :
      (id t : ℕ) (c : TenantConfig) (now : DateTime) (read : String → Result (List Row))
      (log : SyncLog) (w : World S)
      → sessions.get_log id w.session ≡ some log
      → Ends log.stored_path w.files (process_sync py sessions id t c now read w)
  unfolding process_sync started flush
  process_sync_file id t c now read log w e =
      subst (λ o. Ends log.stored_path w.files (begin_job py sessions t c now read o w)) (sym e)
        (proceed_job-Ends t c now read (flush (started now log)) _ _)
