-- ===== src/Billing.antt =====
-- The billing subsystem: src/core/plans.py, src/services/billing/ and
-- src/workers/jobs/retention_sweep.py.
pub mod Plans
pub mod Rows
pub mod Access
pub mod Usage
pub mod Entitlements
pub mod MailGate
pub mod Webhooks
mod Tests
