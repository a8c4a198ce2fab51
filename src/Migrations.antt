-- ===== src/Migrations.antt =====
-- alembic: the migrations of the database, from the operations of each revision to the catalog that they
-- leave, beside what app/models declares.
pub mod Schema
pub mod Operations
pub mod Revisions
pub mod Inventory
pub mod History
pub mod Metadata
pub mod Run
