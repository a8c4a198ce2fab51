-- ===== src/Sync/Start/Created.antt =====
-- What `start_sync` of app/services/sync.py leaves.
use nexus_inventory_platform.Base.{ℕ, String, some, ◌≡◌, refl, ap, sym, ◌∙◌, ◌⊎◌, inl, inr}
use nexus_inventory_platform.Models.{SyncConnectorType, connector_type}
use nexus_inventory_platform.Values.{Raised, Result, ok, raised}
use nexus_inventory_platform.Sync.Log.{SyncLog}
use nexus_inventory_platform.Sync.Process.{Sessions, World, Written, whole, part, nothing}
use nexus_inventory_platform.Sync.Process.Outcome.{IsTransactional}
use nexus_inventory_platform.Sync.Start.{
  start_sync, create_saved, create_log, add_log, committed, pending_log, with_file, written,
  save_file, stored_name,
}

module _ {S : Type 0} (sessions : Sessions S) (join : String → String)
    (tx : IsTransactional sessions) where
  some-injective : {A : Type 0} {a b : A} → some a ≡ some b → a ≡ b
  some-injective h = cc

  -- Where the log comes back, it is the pending one, and it is committed.
  abbrev Created : SyncLog → Result SyncLog × World S → Type 0
  Created pending x =
      (log : SyncLog)
      → x.0 ≡ ok log
      → (log ≡ pending) × (tx.stored pending.id x.1.session ≡ some pending)

  committed-Created :
      (pending : SyncLog) (s : S) (r : Result (Unit {0})) (w : World S)
      → (sessions.commit pending s).0 ≡ r
      → w.session ≡ (sessions.commit pending s).1
      → Created pending (committed sessions join pending.id r w)
  unfolding committed
  committed-Created pending s (raised x) w c at log h = cc
  committed-Created pending s (ok u) w c at log h =
      let there = ap (tx.stored pending.id) at ∙ tx.on_commit pending s c in
      (some-injective (sym (tx.on_refresh pending.id w.session log h) ∙ there), there)

  committed-files :
      (id : ℕ) (r : Result (Unit {0})) (w : World S)
      → (committed sessions join id r w).1.files ≡ w.files
  unfolding committed
  committed-files id (raised x) w = refl
  committed-files id (ok u) w = refl

  -- What a `start_sync` of the log `pending` leaves of the files: with its own where it returns, and where
  -- it raises with it, or as they were.
  pub record Leaves (pending : SyncLog) (path : String) (w : World S) (x : Result SyncLog × World S)
      : Type 0 where
    pub on_return :
        (log : SyncLog)
        → x.0 ≡ ok log
        → (log ≡ pending)
          × (tx.stored pending.id x.1.session ≡ some pending)
          × (x.1.files ≡ with_file path w.files)
    pub on_raise :
        (e : Raised)
        → x.0 ≡ raised e
        → (x.1.files ≡ with_file path w.files) ⊎ ((x.1.files ≡ w.files) × (x.1.session ≡ w.session))
    pub on_unwritten :
        (w.disk.writes path ≡ whole → ⊥)
        → (x.0 ≡ raised Raised.os_error) × (x.1.session ≡ w.session)

  create_log-Leaves :
      (id t : ℕ) (c : SyncConnectorType) (filename path : String) (w v : World S)
      → v.files ≡ with_file path w.files
      → w.disk.writes path ≡ whole
      → Leaves
          (pending_log id t c filename path)
          path
          w
          (create_log sessions join id t (some c) filename path v)
  unfolding create_log add_log pending_log
  create_log-Leaves id t c filename path w v f h =
      let there = committed-files id _ _ ∙ f in
      record {
        on_return = λ log e.
            let (same, stored) =
              committed-Created (pending_log id t c filename path) v.session _ _ refl refl log e in
            (same, stored, there);
        on_raise = λ e r. inl there;
        on_unwritten = λ no. absurd (no h);
      }

  create_saved-Leaves :
      (id t : ℕ) (c : SyncConnectorType) (filename path : String) (w : World S) (how : Written)
      → w.disk.writes path ≡ how
      → Leaves (pending_log id t c filename path) path w (
          create_saved sessions join id t
            (some c)
            filename
            (written how path w).0
            (written how path w).1)
  unfolding written create_saved
  create_saved-Leaves id t c filename path w whole h =
      create_log-Leaves id t c filename path w _ refl h
  create_saved-Leaves id t c filename path w part h = record {
    on_return = λ log e. cc e;
    on_raise = λ e r. inl refl;
    on_unwritten = λ no. (refl, refl);
  }
  create_saved-Leaves id t c filename path w nothing h = record {
    on_return = λ log e. cc e;
    on_raise = λ e r. inr (refl, refl);
    on_unwritten = λ no. (refl, refl);
  }

  -- A `start_sync` that returns has committed the pending log that it returns, of the tenant and the
  -- connector that were asked for, and stored the file of its path, and no other is deleted. One that
  -- raises has stored the file, or a part of it, or nothing, and then the session is as it was. Where the
  -- file cannot be written whole it raises an `OSError`, and no log is added.
  pub start_sync-Created :
      (id : ℕ) (hex : String) (tenant_id : ℕ) (filename connector : String) (c : SyncConnectorType)
      (w : World S)
      → connector_type connector ≡ some c
      → Leaves
          (pending_log id tenant_id c filename (join (stored_name hex filename)))
          (join (stored_name hex filename))
          w
          (start_sync sessions join id hex tenant_id filename connector w)
  unfolding start_sync save_file
  start_sync-Created id hex tenant_id filename connector c w e =
      rw e (create_saved-Leaves id tenant_id c filename (join (stored_name hex filename)) w _ refl)
