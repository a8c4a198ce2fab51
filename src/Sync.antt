-- ===== src/Sync.antt =====
-- app/services/sync.py: `SyncService` and its sync log (app/models/sync_log.py). `Rows` has the rows that
-- the loops hand to the normalizer, `Loop` the loops, `Process` the job with its transaction and file,
-- `Start` what an upload stores, and `Task` the Celery task that runs the job.
pub mod Rows
pub mod Log
pub mod Loop
pub mod Process
pub mod Start
pub mod Task
