-- ===== src/Lib.antt =====
-- Robobank: two parachains on which devices work for clients. On the client chain a client places
-- an order and both sides put up money; the order is sent as a message to the service chain, where
-- the device accepts, rejects or finishes it; the answer comes back as a message and settles the
-- order. The service chain also takes orders of its own clients, with the money on that chain.
--
-- Common: pallets/common/src/lib.rs, the device states, the two forms of an order and the
-- messages. `OrderBase::convert` is `to_order`, `Order::convert` is `to_base`.
--
-- Service: pallets/service/src/lib.rs. State is the configuration, storage, events and errors;
-- Calls has the calls `order`, `cancel`, `accept`, `done`, `register` and `set_state`; Orders the
-- functions `order_received` (in three parts: `check_order`, `lock_funds`, `store_order`),
-- `order_accept`, `order_reject` and `order_done`; Hooks has `on_killed_account` and the handlers
-- of messages. The other modules are about these: Received, Locking and Storing about the parts of
-- `order_received`, Transitions about the ways in which an input can change the storage, Engaged,
-- Escrow and Backed about invariants, Runs about sequences of inputs, Terms about one input and a
-- stored order, Authority about one input and the entries of a device, Recovery about late orders,
-- Failures about failed calls, and Atomic, Settlement, Payments and Placement about single calls.
-- Mock is the accounts and the initial balances of pallets/service/src/mock.rs.
--
-- Client: pallets/client/src/lib.rs, in the same way. Calls has `test`, `order`, `cancel` and
-- `register`; Orders the parts of `order` (`check_order`, `lock_funds`, `send_order`) and
-- `order_reject`; Messages has `on_accept`, `on_reject` and `on_done`; Hooks the hooks. Placement,
-- Placed and Ordering are about `order`, Transitions, Tracked, Escrow, Covered and Runs about
-- invariants, Terms about one input and a stored order, Authority about one input and the entries
-- of a device, Settlement about the ends of an order, and Recovery about late orders.
--
-- Contract: what the pallets promise of an order, without their storage: the life of a device's
-- order as steps (it starts, its device changes its state, it ends), under rules that say when an
-- order may start and go on. Service.Contract and Client.Contract give the rules of the pallets;
-- Service.Deadlines, Service.Bounds and Client.Bounds are about deadlines and the work cycle.
--
-- Wire: the two pallets together. Orders follows a message `NewOrder` from the client chain to the
-- service chain, Answers an `OrderDone` or `OrderReject` back, and Cycle a whole order from its
-- placement to its payment. Network lets both chains run together, any inputs in any order, where
-- a message that names the client chain as its sender is one that this chain has sent; Provenance
-- is about where the orders on the service chain come from, and Earned about the payments that it
-- claims. Flow is the same with each message arriving once at most, and Once is about how often a
-- payment is claimed. They rest on what each input brings and sends: Service.Newcomers,
-- Service.Answered and Client.Posted.
--
-- Runtime: runtime/src/lib.rs. Service is the configuration of the service pallet with
-- `AcceptOnReceive`, Client that of the client pallet, Constants has constants, Weights the version
-- and the limits of blocks, Composition the pallets of the two builds, and Benchmarks is
-- `dispatch_benchmark`.
--
-- Node: ChainSpec is node/src/chain_spec.rs, the built-in chains and their genesis, and Keys the
-- accounts of its seeds, which ChainSpec takes as a function; Command is what a command line
-- selects, from node/src/command.rs and node/src/cli.rs (`load_spec`,
-- `Cli::load_spec` as `cli_load_spec`, the identifier in `run` as `node_para_id`,
-- `RelayChainCli::new` as `relay_chain_id`, `RelayChainCli::chain_id` as `chain_id`, the default
-- of `ExportGenesisStateCommand` as `exported_para_id`). Relay is the configuration of the relay
-- chain's node, for the methods that `RelayChainCli` overrides, and Texts the names and
-- descriptions of the two command lines. Service is node/src/service.rs (`new_partial`,
-- `start_node_impl`, `start_node`), Export the two exports in node/src/command.rs, and Run its
-- `run` (`run_subcommand` the subcommands, `run_node` the node itself). The calls of
-- the client's libraries are operations in Effects: an oracle lets each succeed or fail, and the
-- operations that were made are kept in order. The handles that one call passes to the next have
-- no model. Keytool is keytool/src/main.rs.
--
-- Frame: what the pallets use of FRAME and Cumulus, which are not in this repository. Currency
-- (`ReservableCurrency`) and XcmpMessageSender are records of operations, and the documented
-- behaviour that theorems rely on is in records of laws. Codec is the derived codec of messages,
-- XcmFormat versioned XCM. A call is a function from a state to a result and a state, and a failed
-- call keeps what it wrote, since the calls are not transactional. Chain is the state: timestamp,
-- the two storage maps (as functions on accounts), ledger, queue and events. Moments are u64 with
-- wrap-around on `+`, as in a release build; balances are only compared and handed on, so they
-- need no bound. `debug_assert!` is not compiled into a release build and has no model; log lines
-- have none either. Frame.Settlement is about the four ways in which the pallets settle an
-- order. The laws of the currency are those of one in which a payer keeps what it has left. The
-- runtime's is such as long as no payer falls below the existential deposit of 500 with a rest
-- above zero: `pallet_balances` would then remove the account, and drop the rest, reserved or not.
-- Theorems that say that money is backed, or where it goes, hold up to there.
--
-- Tests: a currency, a sender and a codec that satisfy the laws, the scenarios of
-- pallets/service/src/tests.rs by evaluation, and the theorems at concrete inputs.
--
-- The pallets have no loops, so nothing needs fuel. Runs are sequences of inputs of any length,
-- between which the rest of the chain may act: time goes on and other pallets move money, but take
-- nothing from reserves; where both chains run together, nor do they use the senders of blobs.
--
-- Not modelled: the loss of dust in payments; the methods that `RelayChainCli` leaves at their
-- defaults; the weights of the calls and the metadata of the pallets; the rest of the runtime, which
-- composes pallets of other repositories; the parsing of arguments, and what the client's libraries
-- do when the node calls them; the runtimes that the mocks of the tests compose; the scripts.
pub mod Prelude
pub mod Frame
pub mod Common
pub mod Contract
pub mod Service
pub mod Client
pub mod Wire
pub mod Runtime
pub mod Node
pub mod Keytool
pub mod Tests
