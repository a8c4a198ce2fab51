-- ===== src/Migrations/Run.antt =====
-- alembic/env.py: a run of the migrations. Alembic and SQLAlchemy are not part of the repository: a
-- connection is an interface, with what env.py calls of it.
use nexus_inventory_platform.Base.{String, List, [], ◌∷◌}
use nexus_inventory_platform.Values.{Result, ok, raised}

-- `migrate` is the block of `context.begin_transaction()` with `context.run_migrations()`, and `close` the
-- end of `connectable.connect()`.
pub record Connection (C : Type 0) : Type 0 where
  pub migrate : C → Result (Unit {0}) × C
  pub execute : String → C → Result (Unit {0}) × C
  pub close : C → C

abbrev pub grants : List String
grants =
    "GRANT SELECT, INSERT, UPDATE, DELETE ON ALL TABLES IN SCHEMA public TO nexus_runtime"
    ∷ "GRANT USAGE ON ALL SEQUENCES IN SCHEMA public TO nexus_runtime" ∷ []

module _ {C : Type 0} (connection : Connection C) where
  open connection use {migrate, execute, close}

  -- An exception ends the statements.
  unfoldable pub execute_next : List String → Result (Unit {0}) × C → Result (Unit {0}) × C
  execute_next [] x = x
  execute_next (q ∷ qs) (raised e, c) = (raised e, c)
  execute_next (q ∷ qs) (ok u, c) = execute_next qs (execute q c)

  unfoldable pub post_migration_grants : C → Result (Unit {0}) × C
  unfolding execute_next
  post_migration_grants c = execute_next grants (ok tt, c)

  unfoldable pub then_grants : Result (Unit {0}) × C → Result (Unit {0}) × C
  unfolding post_migration_grants
  then_grants (raised e, c) = (raised e, c)
  then_grants (ok u, c) = post_migration_grants c

  unfoldable pub do_run_migrations : C → Result (Unit {0}) × C
  unfolding then_grants
  do_run_migrations c = then_grants (migrate c)

  -- run_async_migrations, which `run_migrations_online` runs.
  unfoldable pub run_migrations_online : C → Result (Unit {0}) × C
  unfolding do_run_migrations
  run_migrations_online c = ((do_run_migrations c).0, close (do_run_migrations c).1)
