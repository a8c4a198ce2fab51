-- ===== src/Sessions.antt =====
-- app/database.py, and `get_tenant_db` of app/dependencies/auth.py: the sessions with a tenant's context.
-- SQLAlchemy and PostgreSQL are not part of the repository: a session is an interface on the state of its
-- connection, which comes from a pool and goes back to it.
use nexus_inventory_platform.Base.{String}
use nexus_inventory_platform.Values.{Result, ok, raised}

-- `set_config` is the statement of `set_tenant_context`, `reset_config` that of `reset_tenant_context`, and
-- `close` the end of `async with async_session_factory()`.
pub record Pooled (S : Type 0) : Type 0 where
  pub set_config : String → S → Result (Unit {0}) × S
  pub reset_config : S → Result (Unit {0}) × S
  pub close : S → S

module _ {S : Type 0} (pooled : Pooled S) where
  open pooled use {set_config, reset_config, close}

  unfoldable pub set_tenant_context : String → S → Result (Unit {0}) × S
  set_tenant_context tenant_id s = set_config tenant_id s

  unfoldable pub reset_tenant_context : S → Result (Unit {0}) × S
  reset_tenant_context s = reset_config s

module _ {S A : Type 0} (pooled : Pooled S) where
  open pooled use {close}

  -- An exception of the `finally` takes the place of what came before.
  unfoldable pub after_reset : Result A → Result (Unit {0}) × S → Result A × S
  after_reset r (raised e, s) = (raised e, s)
  after_reset r (ok u, s) = (r, s)

  -- try: yield session; finally: reset_tenant_context(session)
  unfoldable pub finally_reset : Result A × S → Result A × S
  unfolding after_reset reset_tenant_context
  finally_reset (r, s) = after_reset r (reset_tenant_context pooled s)

  unfoldable pub with_context : (S → Result A × S) → Result (Unit {0}) × S → Result A × S
  unfolding finally_reset
  with_context handler (raised e, s) = (raised e, s)
  with_context handler (ok u, s) = finally_reset (handler s)

  -- What a request does with the session, `handler`, between its context and its end.
  unfoldable pub get_tenant_db : String → (S → Result A × S) → S → Result A × S
  unfolding with_context set_tenant_context
  get_tenant_db tenant_id handler s =
      let x = with_context handler (set_tenant_context pooled tenant_id s) in (x.0, close x.1)
