-- ===== src/Service/Hooks.antt =====
-- What the chain calls: an account is reaped, a message comes in (pallets/service/src/lib.rs).
-- Log lines have no model.
use xcm_robobank_prototype.Prelude.{ℕ, Option, none, some, if◌then◌else◌, [], ◌∷◌, ◌++◌}
use xcm_robobank_prototype.Frame.{AccountId, ParaId, Blob, remove}
use xcm_robobank_prototype.Common.{DeviceState, eq, XcmpMessage}
use xcm_robobank_prototype.Service.State.{Config, Event, State}
use xcm_robobank_prototype.Service.Orders.{order_received, placed}

-- `OnReceived` of the unit type.
abbrev pub unit_on_received : {O : Type 0} → AccountId → O → Option DeviceState
unit_on_received _ _ = some DeviceState.busy

module _ (T : Config) where
  unfoldable pub on_killed_account : AccountId → State T → State T
  on_killed_account who s = elim (s.device who) [
    | none ↦ s
    | some dev ↦
        if eq dev.state DeviceState.off then record s { device = remove who s.device } else s
  ]

  -- A message in a known version is ignored.
  unfoldable pub handle_xcm_message : ParaId → ℕ → T.xcm.VersionedXcm → State T → State T
  handle_xcm_message _sender _sent_at xcm s =
      if T.xcm.try_from xcm
      then s
      else record s { events = s.events ++ Event.bad_version (T.xcm.hash xcm) ∷ [] }

  -- The `match` on a decoded message; the error of `order_received` is only logged.
  unfoldable pub handle_message :
      ParaId → XcmpMessage AccountId ℕ T.OrderPayload ℕ → State T → State T
  handle_message sender (XcmpMessage.new_order client o) s =
      (order_received T (placed o client sender) o.device s).1
  handle_message sender (XcmpMessage.order_accept _ _) s = s
  handle_message sender (XcmpMessage.order_reject _ _ _) s = s
  handle_message sender (XcmpMessage.order_done _ _ _) s = s

  unfoldable pub handle_blob_message : ParaId → ℕ → Blob → State T → State T
  unfolding handle_message
  handle_blob_message sender _sent_at blob s = elim (T.codec.decode blob) [
    | none ↦ s
    | some message ↦ handle_message sender message s
  ]
