-- ===== src/Tests.antt =====
-- Concrete data, and one application of each theorem that has a hypothesis or an argument.
mod Areas
mod Data
mod Orders
mod Payments
mod Queues
mod Routes
mod Tracking
mod Csv
mod Settlements
mod Idempotency
mod Webhook
mod Bulk
mod Jobs
mod Exceptions
mod Support
