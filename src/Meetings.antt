-- ===== src/Meetings.antt =====
-- Meetings: src/services/meetings/, src/workers/jobs/meetings_sweep.py and
-- src/workers/jobs/retention_sweep.py.
pub mod Rows
pub mod Recording
pub mod Retention
pub mod Bots
mod Tests
