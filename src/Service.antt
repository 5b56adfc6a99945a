-- ===== src/Service.antt =====
-- pallets/service/src/lib.rs: the pallet of the chain on which the devices work.
pub mod State
pub mod Orders
pub mod Calls
pub mod Hooks
pub mod Received
pub mod Locking
pub mod Storing
pub mod Transitions
pub mod Engaged
pub mod Escrow
pub mod Backed
pub mod Runs
pub mod Terms
pub mod Contract
pub mod Bounds
pub mod Deadlines
pub mod Atomic
pub mod Settlement
pub mod Payments
pub mod Placement
pub mod Newcomers
pub mod Answered
pub mod Authority
pub mod Recovery
pub mod Failures
pub mod Mock
