-- ===== src/Worker.antt =====
-- The worker process: panel/worker.
pub mod Build
pub mod Task
pub mod Keeps
pub mod Snapshots
pub mod Active
