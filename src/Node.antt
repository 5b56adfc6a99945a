-- ===== src/Node.antt =====
-- node/src: what the collator decides itself: the chain specifications that are built in, and which
-- of them, and which identifiers of the chains, a command line selects.
pub mod ChainSpec
pub mod Command
pub mod Selection
pub mod Effects
pub mod Service
pub mod Export
pub mod Run
pub mod Relay
pub mod Texts
pub mod Keys
