-- ===== src/Mailman.antt =====
-- Mailman, which holds mail back and releases it in batches: src/services/mailman,
-- src/models/mailman.py and the job that releases, src/workers/jobs/mailman_tick.py.
pub mod Scheduler
pub mod Tick
pub mod Filters
mod Tests
