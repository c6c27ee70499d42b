-- ===== src/Tests.antt =====
-- Runs of the definitions on concrete inputs, and the theorems at concrete inputs.
mod Sample
mod Keys
mod Identifiers
mod Reads
mod Updates
mod Subscripts
mod Dependencies
mod Products
mod BulkUpdaters
mod Hypertries
mod Joins
mod Einsums
