-- ===== src/Orders.antt =====
-- The request handlers of apps/api/src/app.ts that change an order. Each handler of the source is
-- a function of the child module named for the group of routes that it belongs to.
pub mod References
pub mod Choice
pub mod Atomicity
pub mod Cases
pub mod Lifecycle
pub mod Calls
pub mod Effects
pub mod Refinement
pub mod History
pub mod Create
pub mod Dispatch
pub mod Delivery
pub mod Customer
pub mod Payment
