-- ===== src/JobWorker.antt =====
-- services/job-worker.service.ts: the queue of jobs in the database and the worker that drains it.
mod Service
pub mod Drain
unfoldable pub use Service.*
