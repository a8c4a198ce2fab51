-- ===== src/Sync/Process/Logs.antt =====
-- What a sync job leaves in its committed log.
use nexus_inventory_platform.Base.{
  ℕ, String, List, Option, some, true, ◌≡◌, refl, ap, sym, ◌∙◌, ◌⊎◌, inl, inr, subst,
}
use nexus_inventory_platform.Dates.{DateTime}
use nexus_inventory_platform.Models.{TenantConfig}
use nexus_inventory_platform.Values.{Runtime, Raised, Result, ok, raised, Row}
use nexus_inventory_platform.Sync.Log.{SyncLog, append_entry, flush, row}
use nexus_inventory_platform.Sync.Loop.{Job}
use nexus_inventory_platform.Sync.Loop.Accounting.{Accounts}
use nexus_inventory_platform.Sync.Process.{
  Sessions, World, started, completed, failed, reraise, mark_failed, on_failure, conclude, finish,
  initial_job, delete_stored, run_job, proceed_job, begin_job, process_sync,
}
use nexus_inventory_platform.Sync.Process.Outcome.{
  IsTransactional, run_registered-keeps, run_registered-Accounts, on_failure-FailsKeeping,
  delete_stored_cases,
}

module _ {S : Type 0} (py : Runtime) (sessions : Sessions S) (tx : IsTransactional sessions) where
  -- The completed log of some number of records, as it is committed.
  abbrev pub IsCompleted : DateTime → SyncLog → S → Type 0
  IsCompleted now log s =
      (n : ℕ) × (last : SyncLog) × Accounts n log last
      × (tx.stored log.id s ≡ some (row (completed now last)))

  -- After a job that started from the log `log`: a completed log that accounts for the records, with a
  -- return or the error of the file's deletion, or the log as it started, marked as failed unless that
  -- could not be committed.
  abbrev pub Leaves : DateTime → SyncLog → Result (Unit {0}) → S → Type 0
  Leaves now log (ok u) s = IsCompleted now log s
  Leaves now log (raised e) s =
      ((e ≡ Raised.os_error) × IsCompleted now log s)
      ⊎ (tx.stored log.id s ≡ some (row (failed now (row log))))
      ⊎ (tx.stored log.id s ≡ some (row log))

  -- `L` is the log as it is loaded: its row is its own.
  commit-stored :
      (log L : SyncLog) (s : S) (now : DateTime) (r : Result (Unit {0}))
      → (sessions.commit (row log) s).0 ≡ r
      → tx.stored L.id s ≡ some (row L)
      → log ≡ failed now (row L)
      → (e : Raised) → Leaves now L (reraise py sessions e r) (sessions.commit (row log) s).1
  unfolding reraise failed row flush append_entry
  commit-stored log L s now (ok u) c h f e = inr (
      inl (
        subst (λ g. tx.stored g.id (sessions.commit (row log) s).1 ≡ some (row g)) f
          (tx.on_commit (row log) s c)))
  commit-stored log L s now (raised x) c h f e =
      inr (inr (tx.on_commit_error (row log) s x c L.id ∙ h))

  mark_failed-Leaves :
      (now : DateTime) (e : Raised) (L : SyncLog) (r : Result SyncLog) (w : World S)
      → tx.stored L.id w.session ≡ some (row L)
      → ((log : SyncLog) → r ≡ ok log → log ≡ row L)
      → Leaves now L
          (mark_failed py sessions now e r w).0
          (mark_failed py sessions now e r w).1.session
  unfolding mark_failed
  mark_failed-Leaves now e L (raised x) w h k = inr (inr h)
  mark_failed-Leaves now e L (ok log) w h k =
      commit-stored (failed now log) L w.session now _ refl h (ap (failed now) (k log refl)) e

  some-injective : {A : Type 0} {a b : A} → some a ≡ some b → a ≡ b
  some-injective e = cc

  on_failure-Leaves :
      (now : DateTime) (e : Raised) (L : SyncLog) (w : World S)
      → tx.stored L.id w.session ≡ some (row L)
      → Leaves now L
          (on_failure py sessions now L.id e w).0
          (on_failure py sessions now L.id e w).1.session
  unfolding on_failure
  on_failure-Leaves now e L w h =
      let rolled : tx.stored L.id (sessions.rollback w.session) ≡ some (row L) =
        tx.on_rollback w.session L.id ∙ h in
      mark_failed-Leaves now e L _ _ rolled
        λ log r. some-injective (sym (tx.on_refresh L.id _ log r) ∙ rolled)

  module _ (now : DateTime) (L : SyncLog) (n : ℕ) where
    -- The deletion of the file leaves the completed log, and only it raises then.
    deleted-Leaves :
        (path : Option String) (w : World S)
        → IsCompleted now L w.session
        → Leaves now L (delete_stored path w).0 (delete_stored path w).1.session
    deleted-Leaves path w h = elim (delete_stored_cases py sessions path w) [
      | inl (e, same) ↦ rw (e, same) (inl (refl, h))
      | inr (e, gone) ↦ rw (e, gone) h
    ]

    conclude-Leaves :
        (log : SyncLog) (s : S) (r : Result (Unit {0})) (w : World S)
        → (sessions.commit (row (completed now log)) s).0 ≡ r
        → w.session ≡ (sessions.commit (row (completed now log)) s).1
        → Accounts n L log
        → tx.stored L.id s ≡ some (row L)
        → Leaves now L
            (conclude py sessions now log r w).0
            (conclude py sessions now log r w).1.session
    unfolding conclude completed row flush
    conclude-Leaves log s (ok u) w c e a h = deleted-Leaves log.stored_path w (
      n,
      log,
      a,
      subst (λ k. tx.stored k w.session ≡ some (row (completed now log))) a.same_id
          (subst (λ x. tx.stored log.id x ≡ some (row (completed now log))) (sym e)
            (tx.on_commit (row (completed now log)) s c)),
    )
    conclude-Leaves log s (raised x) w c e a h =
        subst
          (λ k.
            Leaves now L (on_failure py sessions now k x w).0
              (on_failure py sessions now k x w).1.session)
          (sym a.same_id)
          (on_failure-Leaves now x L w
            (ap (tx.stored L.id) e ∙ tx.on_commit_error (row (completed now log)) s x c L.id ∙ h))

    finish-Leaves :
        (r : Result (Unit {0})) (j : Job S) (w : World S)
        → Accounts n L j.log
        → tx.stored L.id j.normalizer.db ≡ some (row L)
        → Leaves now L (finish py sessions now r j w).0 (finish py sessions now r j w).1.session
    unfolding finish
    finish-Leaves (raised e) j w a h =
        subst
          (λ k.
            Leaves now L (on_failure py sessions now k e (record w { session = j.normalizer.db })).0
              (on_failure py sessions now k e (record w { session = j.normalizer.db })).1.session)
          (sym a.same_id) (on_failure-Leaves now e L (record w { session = j.normalizer.db }) h)
    finish-Leaves (ok u) j w a h = conclude-Leaves j.log j.normalizer.db _ _ refl refl a h

  module _ (t : ℕ) (c : TenantConfig) (now : DateTime) (read : String → Result (List Row)) where
    run_job-Leaves :
        (L : SyncLog) (w : World S)
        → tx.stored L.id w.session ≡ some (row L)
        → Leaves now L
            (run_job py sessions t c now read L w).0
            (run_job py sessions t c now read L w).1.session
    unfolding run_job
    run_job-Leaves L w h =
        let (n, a) =
          run_registered-Accounts py sessions t c now read (initial_job py sessions L w) in
        finish-Leaves now L n _ _ w a (
          run_registered-keeps py sessions t c now read (initial_job py sessions L w)
            (λ s. tx.stored L.id s ≡ some (row L)) (λ q own s k. tx.on_execute q s L.id ∙ k) h)

    proceed_job-Leaves :
        (log : SyncLog) (s : S) (r : Result (Unit {0})) (w : World S)
        → (sessions.commit (row log) s).0 ≡ r
        → r ≡ ok tt
        → w.session ≡ (sessions.commit (row log) s).1
        → Leaves now
            (flush log)
            (proceed_job py sessions t c now read (flush log) r w).0
            (proceed_job py sessions t c now read (flush log) r w).1.session
    unfolding proceed_job row flush
    proceed_job-Leaves log s (ok u) w e k at =
        run_job-Leaves (flush log) w (ap (tx.stored log.id) at ∙ tx.on_commit (row log) s e)
    proceed_job-Leaves log s (raised x) w e k at = cc

    pub process_sync_log :
        (id : ℕ) (log : SyncLog) (w : World S)
        → sessions.get_log id w.session ≡ some log
        → (sessions.commit (row (started now log)) w.session).0 ≡ ok tt
        → Leaves now
            (flush (started now log))
            (process_sync py sessions id t c now read w).0
            (process_sync py sessions id t c now read w).1.session
    unfolding process_sync begin_job
    process_sync_log id log w found committed =
        subst
          (λ o.
            Leaves now (flush (started now log)) (begin_job py sessions t c now read o w).0
              (begin_job py sessions t c now read o w).1.session)
          (sym found) (proceed_job-Leaves (started now log) w.session _ _ refl committed refl)

  conclude_failed :
      (now : DateTime) (log : SyncLog) (r : Result (Unit {0})) (x : Raised) (w : World S)
      → r ≡ raised x
      → (e : Raised) × ((conclude py sessions now log r w).0 ≡ raised e)
  unfolding conclude
  conclude_failed now log (ok u) x w h = cc
  conclude_failed now log (raised e) x w h = (on_failure-FailsKeeping py sessions now log.id e w).0

  -- In an aborted transaction the end of the loop is a failure, whatever the loop did.
  pub finish_aborted :
      (now : DateTime) (r : Result (Unit {0})) (j : Job S) (w : World S)
      → tx.postgres.aborted j.normalizer.db ≡ true
      → (e : Raised) × ((finish py sessions now r j w).0 ≡ raised e)
  unfolding finish
  finish_aborted now (raised e) j w h = (on_failure-FailsKeeping py sessions now j.log.id e _).0
  finish_aborted now (ok u) j w h =
      conclude_failed now j.log _ Raised.database_error _
        (tx.on_commit_aborted (row (completed now j.log)) j.normalizer.db h)
