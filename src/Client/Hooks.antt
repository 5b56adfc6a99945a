-- ===== src/Client/Hooks.antt =====
-- What the chain calls: an account is reaped, a message comes in (pallets/client/src/lib.rs).
-- Log lines have no model, and the errors of the handlers of answers are dropped.
use xcm_robobank_prototype.Prelude.{ℕ, none, some, if◌then◌else◌, [], ◌∷◌, ◌++◌}
use xcm_robobank_prototype.Frame.{AccountId, ParaId, Blob, insert, remove}
use xcm_robobank_prototype.Common.{DeviceState, eq, XcmpMessage}
use xcm_robobank_prototype.Client.State.{Config, Event, State}
use xcm_robobank_prototype.Client.Messages.{on_accept, on_reject, on_done}

module _ (T : Config) where
  unfoldable pub on_killed_account : AccountId → State T → State T
  on_killed_account who s = elim (s.device who) [
    | none ↦ s
    | some dev ↦
        if eq dev.state DeviceState.off
        then record s { device = remove who s.device }
        else record s { device = insert who (record dev { state = DeviceState.timewait }) s.device }
  ]

  -- A message in a known version is ignored.
  unfoldable pub handle_xcm_message : ParaId → ℕ → T.xcm.VersionedXcm → State T → State T
  handle_xcm_message sender _sent_at xcm s =
      if T.xcm.try_from xcm
      then s
      else record s { events = s.events ++ Event.bad_version (T.xcm.hash xcm) ∷ [] }

  -- The `match` on a decoded message.
  unfoldable pub handle_message : XcmpMessage AccountId ℕ T.OrderPayload ℕ → State T → State T
  handle_message (XcmpMessage.order_accept client devid) s = (on_accept T client devid s).1
  handle_message (XcmpMessage.order_reject client devid onoff) s =
      (on_reject T client devid onoff s).1
  handle_message (XcmpMessage.order_done client devid onoff) s = (on_done T client devid onoff s).1
  handle_message (XcmpMessage.new_order _ _) s = s

  -- The sender is not looked at.
  unfoldable pub handle_blob_message : ParaId → ℕ → Blob → State T → State T
  unfolding handle_message
  handle_blob_message _sender _sent_at blob s = elim (T.codec.decode blob) [
    | none ↦ s
    | some message ↦ handle_message message s
  ]
