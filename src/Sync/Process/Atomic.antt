-- ===== src/Sync/Process/Atomic.antt =====
-- What a sync job leaves in the tables: of its own tenant all or nothing, of the others nothing.
use nexus_inventory_platform.Base.{
  ℕ, String, List, some, ◌≡◌, refl, ap, ◌∙◌, sym, subst, ◌⊎◌, inl, inr,
}
use nexus_inventory_platform.Dates.{DateTime}
use nexus_inventory_platform.Models.{TenantConfig}
use nexus_inventory_platform.Values.{Runtime, Raised, Result, ok, raised, Row}
use nexus_inventory_platform.Normalizer.Database.{Tables, Statement, tenant_of, IsPostgres}
use nexus_inventory_platform.Normalizer.Database.Laws.{outside}
use nexus_inventory_platform.Normalizer.Store.Invariant.{execute-outside}
use nexus_inventory_platform.Sync.Log.{SyncLog, flush, row}
use nexus_inventory_platform.Sync.Loop.{Job}
use nexus_inventory_platform.Sync.Process.{
  Sessions, World, started, completed, failed, mark_failed, on_failure, conclude, finish,
  initial_job, run_job, proceed_job, begin_job, process_sync, run_registered,
}
use nexus_inventory_platform.Sync.Process.Outcome.{
  run_registered-keeps, on_failure-FailsKeeping, delete_stored_cases,
}

-- What PostgreSQL documents of a transaction: `committed` is the tables that other sessions see. A commit
-- makes them those of the session; one that fails leaves them, and may have rolled the session back; a
-- rollback goes back to them.
pub record CommitsAll {S : Type 0} (sessions : Sessions S) : Type 0 where
  pub postgres : IsPostgres sessions.database
  pub committed : S → Tables
  pub on_execute :
      (q : Statement) (s : S) → committed (sessions.database.execute q s).1 ≡ committed s
  pub on_commit :
      (log : SyncLog) (s : S)
      → (sessions.commit log s).0 ≡ ok tt
      → (committed (sessions.commit log s).1 ≡ postgres.tables s)
        × (postgres.tables (sessions.commit log s).1 ≡ postgres.tables s)
  pub on_commit_error :
      (log : SyncLog) (s : S) (e : Raised)
      → (sessions.commit log s).0 ≡ raised e
      → committed (sessions.commit log s).1 ≡ committed s
  pub on_rollback :
      (s : S)
      → (committed (sessions.rollback s) ≡ committed s)
        × (postgres.tables (sessions.rollback s) ≡ committed s)

module _ {S : Type 0} (py : Runtime) (sessions : Sessions S) (laws : CommitsAll sessions) (t : ℕ)
    (C F : Tables) where
  open laws use {postgres, committed, on_execute, on_commit, on_commit_error, on_rollback}

  -- From the committed tables `C`, with a loop that leaves the tables `F`: an exception, and `C` is
  -- committed still, or `F` is, which holds of other tenants what `C` does; then the job has returned, or
  -- could not delete its file.
  abbrev pub IsAtomic : Result (Unit {0}) × World S → Type 0
  IsAtomic x =
      ((e : Raised) × (x.0 ≡ raised e) × (committed x.1.session ≡ C))
      ⊎ (((x.0 ≡ ok tt) ⊎ (x.0 ≡ raised Raised.os_error))
          × (committed x.1.session ≡ F)
          × (outside t F ≡ outside t C))

  -- A commit of tables that are the committed ones changes nothing.
  commit_unchanged :
      (log : SyncLog) (s : S) (r : Result (Unit {0}))
      → (sessions.commit log s).0 ≡ r
      → committed s ≡ C
      → postgres.tables s ≡ C
      → committed (sessions.commit log s).1 ≡ C
  commit_unchanged log s (ok u) h c k = (on_commit log s h).0 ∙ k
  commit_unchanged log s (raised e) h c k = on_commit_error log s e h ∙ c

  mark_failed-committed :
      (now : DateTime) (e : Raised) (r : Result SyncLog) (w : World S)
      → committed w.session ≡ C
      → postgres.tables w.session ≡ C
      → committed (mark_failed py sessions now e r w).1.session ≡ C
  unfolding mark_failed
  mark_failed-committed now e (raised x) w c k = c
  mark_failed-committed now e (ok log) w c k =
      commit_unchanged (row (failed now log)) w.session _ refl c k

  on_failure-IsAtomic :
      (now : DateTime) (id : ℕ) (e : Raised) (w : World S)
      → committed w.session ≡ C
      → IsAtomic (on_failure py sessions now id e w)
  unfolding on_failure
  on_failure-IsAtomic now id e w c =
      let ((x, fails), kept) = on_failure-FailsKeeping py sessions now id e w in
      let (same, back) = on_rollback w.session in
      inl (x, fails, mark_failed-committed now e _ _ (same ∙ c) (back ∙ c))

  conclude-IsAtomic :
      (now : DateTime) (log : SyncLog) (s : S) (r : Result (Unit {0})) (w : World S)
      → (sessions.commit (row (completed now log)) s).0 ≡ r
      → w.session ≡ (sessions.commit (row (completed now log)) s).1
      → committed s ≡ C
      → postgres.tables s ≡ F
      → outside t F ≡ outside t C
      → IsAtomic (conclude py sessions now log r w)
  unfolding conclude
  conclude-IsAtomic now log s (ok u) w h at c f k =
      let all = ap committed at ∙ (on_commit (row (completed now log)) s h).0 ∙ f in
      elim (delete_stored_cases py sessions log.stored_path w) [
        | inl (e, same) ↦ inr (inr e, ap (λ (v : World S). committed v.session) same ∙ all, k)
        | inr (e, gone) ↦ inr (inl e, ap (λ (v : World S). committed v.session) gone ∙ all, k)
      ]
  conclude-IsAtomic now log s (raised e) w h at c f k =
      on_failure-IsAtomic now log.id e w
        (ap committed at ∙ on_commit_error (row (completed now log)) s e h ∙ c)

  finish-IsAtomic :
      (now : DateTime) (r : Result (Unit {0})) (j : Job S) (w : World S)
      → committed j.normalizer.db ≡ C
      → postgres.tables j.normalizer.db ≡ F
      → outside t F ≡ outside t C
      → IsAtomic (finish py sessions now r j w)
  unfolding finish
  finish-IsAtomic now (raised e) j w c f k = on_failure-IsAtomic now j.log.id e _ c
  finish-IsAtomic now (ok u) j w c f k =
      conclude-IsAtomic now j.log j.normalizer.db _ _ refl refl c f k

  -- What a statement of the tenant keeps of the session.
  abbrev Uncommitted : S → Type 0
  Uncommitted s = (committed s ≡ C) × (outside t (postgres.tables s) ≡ outside t C)

  execute-Uncommitted :
      (q : Statement)
      → tenant_of q ≡ t
      → (s : S) → Uncommitted s
      → Uncommitted (sessions.database.execute q s).1
  execute-Uncommitted q own s (c, k) = (
    on_execute q s ∙ c,
    (rw own at (execute-outside sessions.database postgres t C q s _ refl)) ∙ k,
  )

-- The session after the loop of a job, whose log was `log`: the running log is committed before it.
abbrev pub looped :
    {S : Type 0}
    → Runtime
    → Sessions S
    → ℕ
    → TenantConfig
    → DateTime
    → (String → Result (List Row))
    → SyncLog
    → World S
    → S
looped py sessions t c now read log w =
    (run_registered py sessions t c now read (
      initial_job py sessions (flush (started now log)) (record w {
        session = (sessions.commit (row (started now log)) w.session).1;
      }))).1.normalizer.db

module _ {S : Type 0} (py : Runtime) (sessions : Sessions S) (laws : CommitsAll sessions) (t : ℕ)
    (C : Tables) (c : TenantConfig) (now : DateTime) (read : String → Result (List Row)) where
  open laws use {postgres, committed, on_commit, on_commit_error}

  run_job-IsAtomic :
      (log : SyncLog) (w : World S)
      → Uncommitted py sessions laws t C C w.session
      → IsAtomic py sessions laws t C
          (postgres.tables
            (run_registered py sessions t c now read
              (initial_job py sessions log w)).1.normalizer.db)
          (run_job py sessions t c now read log w)
  unfolding run_job
  run_job-IsAtomic log w h =
      let (same, apart) =
        run_registered-keeps py sessions t c now read (initial_job py sessions log w)
          (Uncommitted py sessions laws t C C) (execute-Uncommitted py sessions laws t C C) h in
      finish-IsAtomic py sessions laws t C _ now _ _ w same refl apart

  proceed_job-IsAtomic :
      (log : SyncLog) (s : S) (r : Result (Unit {0})) (w : World S)
      → (sessions.commit (row log) s).0 ≡ r
      → w.session ≡ (sessions.commit (row log) s).1
      → committed s ≡ C
      → postgres.tables s ≡ C
      → IsAtomic py sessions laws t C
          (postgres.tables
            (run_registered py sessions t c now read
              (initial_job py sessions (flush log) w)).1.normalizer.db)
          (proceed_job py sessions t c now read (flush log) r w)
  unfolding proceed_job
  proceed_job-IsAtomic log s (raised e) w h at same k =
      inl (e, refl, ap committed at ∙ on_commit_error (row log) s e h ∙ same)
  proceed_job-IsAtomic log s (ok u) w h at same k =
      let (there, kept) = on_commit (row log) s h in
      run_job-IsAtomic (flush log) w (
        ap committed at ∙ there ∙ k,
        ap (λ (v : S). outside t (postgres.tables v)) at ∙ ap (outside t) (kept ∙ k),
      )

-- A sync job of a tenant whose log is there, from a session with nothing uncommitted, is all or nothing:
-- it raises, and the committed tables are what they were, or they are exactly those that its loop left,
-- and hold of every other tenant what they held; then it returns, or raises since it cannot delete its
-- file.
pub process_sync-IsAtomic :
    {S : Type 0} (py : Runtime) (sessions : Sessions S) (laws : CommitsAll sessions) (id t : ℕ)
    (c : TenantConfig) (now : DateTime) (read : String → Result (List Row)) (log : SyncLog)
    (w : World S)
    → sessions.get_log id w.session ≡ some log
    → laws.postgres.tables w.session ≡ laws.committed w.session
    → IsAtomic py sessions laws t
        (laws.committed w.session)
        (laws.postgres.tables (looped py sessions t c now read log w))
        (process_sync py sessions id t c now read w)
unfolding process_sync begin_job
process_sync-IsAtomic py sessions laws id t c now read log w found fresh =
    subst
      (λ o.
        IsAtomic py sessions laws t (laws.committed w.session)
          (laws.postgres.tables (looped py sessions t c now read log w))
          (begin_job py sessions t c now read o w))
      (sym found)
      (proceed_job-IsAtomic py sessions laws t (laws.committed w.session) c now read
        (started now log) w.session _ _ refl refl refl fresh)
