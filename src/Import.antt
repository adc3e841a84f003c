-- ===== src/Import.antt =====
-- api/internal/jobs/adif_import.go: the job that imports an ADIF file into a logbook.
pub mod Date
pub mod Row
pub mod Batch
pub mod Run
mod Examples
