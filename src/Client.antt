-- ===== src/Client.antt =====
-- pallets/client/src/lib.rs: the pallet of the chain on which orders are placed and paid.
pub mod State
pub mod Orders
pub mod Calls
pub mod Messages
pub mod Hooks
pub mod Placement
pub mod Transitions
pub mod Tracked
pub mod Escrow
pub mod Covered
pub mod Settlement
pub mod Placed
pub mod Ordering
pub mod Runs
pub mod Terms
pub mod Contract
pub mod Bounds
pub mod Posted
pub mod Authority
pub mod Recovery
