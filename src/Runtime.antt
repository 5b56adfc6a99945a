-- ===== src/Runtime.antt =====
-- runtime/src/lib.rs: the parts of the runtime that the pallets depend on. The runtime is built
-- either with the service pallet or with the client pallet.
pub mod Constants
pub mod Service
pub mod Client
pub mod Weights
pub mod Composition
pub mod Benchmarks
