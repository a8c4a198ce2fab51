-- ===== src/Normalizer.antt =====
-- app/integrations/normalizer.py: `DataNormalizer`. `Convert` has its static helpers, `Rows` its
-- normalize methods, `Database` what it asks of the database, `Store` its upsert methods.
pub mod Convert
pub mod Rows
pub mod Database
pub mod Store
