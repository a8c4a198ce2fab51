-- ===== src/Examples.antt =====
-- Instances of what the models assume, tests, and the theorems at concrete inputs.
mod Memory
mod Data
mod Witnesses
mod Handlers
mod Migrated
