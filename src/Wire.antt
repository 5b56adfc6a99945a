-- ===== src/Wire.antt =====
-- The two pallets together: the message that one chain sends is what the other acts on
-- (pallets/client/src/lib.rs and pallets/service/src/lib.rs).
pub mod Orders
pub mod Answers
pub mod Cycle
pub mod Network
pub mod Provenance
pub mod Earned
pub mod Flow
pub mod Once
