-- ===== src/Runtime/Composition.antt =====
-- The pallets that the runtime is composed of (runtime/src/lib.rs), by the features with which it
-- is built. What the macro `construct_runtime` makes of the list is other repositories' code; what
-- is modelled is the list, in its order, which gives each pallet its index.
use xcm_robobank_prototype.Prelude.{Bool, true, false, Option, none, some, List, [], ◌∷◌}

pub data Pallet : Type 0 where
  system timestamp balances sudo randomness_collective_flip parachain_system : Pallet
  transaction_payment parachain_info xcm_handler service_module client_module : Pallet

-- The parts of a pallet beside `Pallet` itself.
pub data Part : Type 0 where
  call storage config event inherent origin : Part

-- With the features `service` and `client`. `compile_error!` is `none`.
unfoldable pub construct_runtime : Bool → Bool → Option (List (Pallet × List Part))
construct_runtime true true = none
construct_runtime false false = none
construct_runtime true false = some (
    (Pallet.system, Part.call ∷ Part.storage ∷ Part.config ∷ Part.event ∷ [])
    ∷ (Pallet.timestamp, Part.call ∷ Part.storage ∷ Part.inherent ∷ [])
    ∷ (Pallet.balances, Part.call ∷ Part.storage ∷ Part.config ∷ Part.event ∷ [])
    ∷ (Pallet.sudo, Part.call ∷ Part.storage ∷ Part.config ∷ Part.event ∷ [])
    ∷ (Pallet.randomness_collective_flip, Part.call ∷ Part.storage ∷ [])
    ∷ (Pallet.parachain_system, Part.call ∷ Part.storage ∷ Part.inherent ∷ Part.event ∷ [])
    ∷ (Pallet.transaction_payment, Part.storage ∷ [])
    ∷ (Pallet.parachain_info, Part.storage ∷ Part.config ∷ [])
    ∷ (Pallet.xcm_handler, Part.event ∷ Part.origin ∷ [])
    ∷ (Pallet.service_module, Part.call ∷ Part.storage ∷ Part.event ∷ [])
    ∷ [])
construct_runtime false true = some (
    (Pallet.system, Part.call ∷ Part.storage ∷ Part.config ∷ Part.event ∷ [])
    ∷ (Pallet.timestamp, Part.call ∷ Part.storage ∷ Part.inherent ∷ [])
    ∷ (Pallet.balances, Part.call ∷ Part.storage ∷ Part.config ∷ Part.event ∷ [])
    ∷ (Pallet.sudo, Part.call ∷ Part.storage ∷ Part.config ∷ Part.event ∷ [])
    ∷ (Pallet.randomness_collective_flip, Part.call ∷ Part.storage ∷ [])
    ∷ (Pallet.parachain_system, Part.call ∷ Part.storage ∷ Part.inherent ∷ Part.event ∷ [])
    ∷ (Pallet.transaction_payment, Part.storage ∷ [])
    ∷ (Pallet.parachain_info, Part.storage ∷ Part.config ∷ [])
    ∷ (Pallet.xcm_handler, Part.event ∷ Part.origin ∷ [])
    ∷ (Pallet.client_module, Part.call ∷ Part.storage ∷ Part.event ∷ [])
    ∷ [])

-- `XcmpMessageHandlers` of the parachain system.
unfoldable pub xcmp_message_handlers : Bool → Bool → Option Pallet
xcmp_message_handlers true true = none
xcmp_message_handlers false false = none
xcmp_message_handlers true false = some Pallet.service_module
xcmp_message_handlers false true = some Pallet.client_module
