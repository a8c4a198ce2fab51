-- ===== src/Lib.antt =====
-- Verification library of the Nexus Inventory Platform: the path of an upload from the request to the
-- rows of the tenant's tables, the tokens of its users, the hook that sends Marg exports, the
-- migrations of the database, and the row-level security that keeps the tenants apart.
--
-- The parts. The upload handler (app/routes/integrations.py) checks the request, lets `start_sync` of
-- app/services/sync.py store the file and commit a pending log, and sends a task, which Celery delivers
-- to `sync_erp_data` (app/tasks/sync.py) until it ends. A job (`process_sync` of app/services/sync.py)
-- marks its sync log as running, asks the CSV connector (app/integrations/csv_connector.py) for a stream
-- of normalized records, and gives each one, as a row, to the `DataNormalizer`
-- (app/integrations/normalizer.py), which validates the row again and writes it through one database
-- session; the log counts the records, and the job ends by committing the completed log or, after a
-- rollback, the failed one.
--
-- The files.
--   Base, Text, Dates, Values, Exec: shared helpers; `str.strip` and `str.lower`; `datetime.strptime`
--     for the directives in use; Python values, exceptions and dicts; methods on an object's state.
--   Models: app/models/enums.py, app/schemas/integration.py, the configuration of a tenant.
--   Normalizer: app/integrations/normalizer.py. Convert is the conversions of cells, Rows the
--     `normalize_*` methods, Database the tables of app/models and the statements, Store the methods
--     that write, with their caches; Store/Resolved is about the product and the location of a record,
--     Store/Replay about a record that comes again.
--   Connector: app/integrations/csv_connector.py; Convert is its module functions, Files the
--     reading of its file, and Registry app/integrations/factory.py.
--   Sync: app/services/sync.py. Rows is the dicts that the loops build, Log the sync log with its
--     score, Loop the three loops, Process the job, Process/Atomic what it leaves
--     committed. Start is `start_sync` with the `save` of app/integrations/file_storage.py, Task the
--     retries of app/tasks/sync.py.
--   Routes: Uploads is app/routes/integrations.py, Login app/routes/auth.py,
--     Products app/routes/products.py, Health app/routes/health.py, Requests app/schemas/auth.py,
--     Users app/schemas/user.py with `get_me`.
--   Rls: app/rls.py.
--   Migrations: alembic. Schema and Operations are the catalog of a database and what an operation makes
--     of it, Revisions and Inventory the files of alembic/versions, History their chain, Metadata the
--     classes of app/models, Run alembic/env.py.
--   Sessions: app/database.py, and `get_tenant_db` of app/dependencies/auth.py.
--   Auth: app/services/auth.py, app/security.py, app/dependencies/auth.py, app/repositories.
--   Marg: integrations/marg_hook/nexus_marg_sync.py; Main is its `main`, Polling is about `poll_status`,
--     Multipart is the body of an upload and its reader, Requests the arguments and the HTTP calls.
--   Settings: app/config.py, and what app/celery_app.py takes from it.
--   Examples: a session in memory that meets what is assumed of PostgreSQL, and concrete cases.
--
-- What is assumed. A session is a parameter: a statement that succeeds answers by the tables that it
-- finds, one that fails aborts the transaction and leaves the tables, and an aborted transaction
-- refuses statements and commits (`IsPostgres`, `IsTransactional`); what other sessions see changes at a
-- commit and no sooner, and a rollback goes back to it (`CommitsAll`). The arithmetic of doubles and the
-- texts of `str` are fields of `Runtime`. What pandas reads is an argument of the job. PyJWT, the
-- password hash and uuid are the fields of `Library`, and Redis is `Redis` with the laws `IsRedis`.
-- What the two queries of `list_products` answer is an argument. What the file system lets be done with a
-- path is `Disk`: a file that cannot be deleted, or written whole, raises an OSError. SQLAlchemy writes
-- `errors`, a plain JSONB, only where another list has been assigned (`flush`, `row` of Sync/Log); when a
-- session has flushed is `flushes`, and RETURNING may give an object that is older than its row.
-- An operation of a migration needs what it names and depends on to be there, or not to be there yet,
-- drops nothing that another thing depends on, and leaves the effect that it declares; `IsSecured` states
-- what PostgreSQL lets a role see and write under policies, whose function reads a setting of the session.
-- Celery delivers a task again, with one more retry on its count, when the task asks for it. The API that
-- the hook calls is `Api`: what each call gives, or that it raises; `http_api` makes one of requests, over
-- urllib, json, csv, uuid and mimetypes as the fields of `Http`. How pydantic finds and converts a setting
-- is `Environment`, and pandas with pathlib is `Files`.
--
-- Bounds and fuel. All loops run over a finite list or stream, so there is no fuel there; `poll_status`
-- asks 90 times, as the code does. `deliver` has one fuel for each delivery of a task: with three retries
-- four are enough, which is proved. `catalog_at` steps down through the seven revisions, with a step for
-- each. Numbers are unbounded, as in Python.
--
-- What is not modelled. `str.lower` and `str.strip` work on ASCII and on the usual white space;
-- `strptime` reads ASCII digits. A migration's rows are not checked against keys and unique columns. The
-- values of `created_at` and `updated_at`, logging, the cell of the sync log between commits, the form of an
-- email, the engines of app/database.py, the registration of routers and tasks, and the offline run of the
-- migrations are left out, and of the hook its log file and the directories that it makes. The
-- two JSON texts of a row error are kept as the reason that they print.
pub mod Base
pub mod Text
pub mod Dates
pub mod Models
pub mod Values
pub mod Exec
pub mod Normalizer
pub mod Connector
pub mod Sync
pub mod Marg
pub mod Auth
pub mod Routes
pub mod Rls
pub mod Migrations
pub mod Sessions
pub mod Settings
pub mod Examples
