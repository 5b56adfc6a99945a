-- ===== src/Frame.antt =====
-- What the pallets use of Substrate's FRAME and of Cumulus, as interfaces: the code behind them is
-- not part of this repository. Each is a record of operations, with the documented behaviour that
-- a theorem relies on in a second record of laws.
mod Outcome
mod Storage
mod Reservable
mod Xcmp
mod Statements
pub mod Settlement
pub use Outcome.*
pub use Storage.*
pub use Reservable.*
pub use Xcmp.*
pub use Statements.*
