-- ===== src/Examples/Memory/Commits.antt =====
-- The session in memory keeps what was committed: statements leave it, a commit replaces it by the
-- tables and a rollback goes back to it.
use nexus_inventory_platform.Base.{ℕ, suc, Bool, true, false, ◌≡◌, refl}
use nexus_inventory_platform.Models.{NormalizedProduct}
use nexus_inventory_platform.Values.{Raised, ok, raised}
use nexus_inventory_platform.Normalizer.Database.{Statement}
use nexus_inventory_platform.Sync.Log.{SyncLog}
use nexus_inventory_platform.Sync.Process.Atomic.{CommitsAll}
use nexus_inventory_platform.Examples.Memory.{
  Memory, upsert, apply, guarded, save, memory_postgres, memory_sessions,
}

upsert-committed :
    (b : Bool) (t : ℕ) (n : NormalizedProduct) (s : Memory)
    → (upsert b t n s).1.committed ≡ s.committed
unfolding upsert
upsert-committed true t n s = refl
upsert-committed false t n s = refl

apply-committed : (q : Statement) (s : Memory) → (apply q s).1.committed ≡ s.committed
unfolding apply
apply-committed (Statement.upsert_product t n) s = upsert-committed _ t n s
apply-committed (Statement.select_products t k) s = refl
apply-committed (Statement.select_locations t n) s = refl
apply-committed (Statement.insert_location t n) s = refl
apply-committed (Statement.select_transactions v) s = refl
apply-committed (Statement.insert_transaction v) s = refl
apply-committed (Statement.upsert_batch v) s = refl

guarded-committed :
    (b : Bool) (q : Statement) (s : Memory) → (guarded b q s).1.committed ≡ s.committed
unfolding guarded
guarded-committed true q s = refl
guarded-committed false q s = apply-committed q (record s { statements = suc s.statements })

save-commits :
    (b : Bool) (log : SyncLog) (s : Memory)
    → (save b log s).0 ≡ ok tt
    → ((save b log s).1.committed ≡ s.tables) × ((save b log s).1.tables ≡ s.tables)
unfolding save
save-commits true log s h = cc
save-commits false log s h = (refl, refl)

save-fails :
    (b : Bool) (log : SyncLog) (s : Memory) (e : Raised)
    → (save b log s).0 ≡ raised e
    → (save b log s).1.committed ≡ s.committed
unfolding save
save-fails true log s e h = refl
save-fails false log s e h = cc

pub memory_commits : CommitsAll memory_sessions
unfolding memory_sessions memory_postgres
memory_commits = record {
  postgres = memory_postgres;
  committed = λ s. s.committed;
  on_execute = λ q s. guarded-committed s.aborted q s;
  on_commit = λ log s h. save-commits s.aborted log s h;
  on_commit_error = λ log s e h. save-fails s.aborted log s e h;
  on_rollback = λ s. (refl, refl);
}

-- A session whose tables are the committed ones has nothing uncommitted.
pub memory_commits-fresh :
    (s : Memory)
    → s.tables ≡ s.committed
    → memory_commits.postgres.tables s ≡ memory_commits.committed s
unfolding memory_commits memory_postgres
memory_commits-fresh s h = h
