-- ===== src/Job.antt =====
-- The job system: packages/job-core and the cancellation of apps/api/src/jobs.
pub mod Data
pub mod Exec
pub mod Store
pub mod Machine
pub mod Lock
pub mod Worker
pub mod Repository
pub mod Scanner
pub mod Cancel
