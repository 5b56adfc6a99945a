-- ===== src/Service/Authority/Inputs.antt =====
-- The inputs of the service pallet, and what they do to the entries of a device.
use xcm_robobank_prototype.Prelude.{ℕ, ◌≡◌, refl, ◌⊎◌, inl, inr, none, some, arith, Option-cases}
use xcm_robobank_prototype.Frame.{AccountId, ParaId, Blob}
use xcm_robobank_prototype.Common.{DeviceState, XcmpMessage}
use xcm_robobank_prototype.Service.State.{Config, OrderOf, DeviceProfile, State}
use xcm_robobank_prototype.Service.Orders.{placed, order_received}
use xcm_robobank_prototype.Service.Received.{reception}
use xcm_robobank_prototype.Service.Hooks.{
  on_killed_account, handle_xcm_message, handle_message, handle_blob_message,
}
use xcm_robobank_prototype.Service.Transitions.Hooks.{decoded_blob}
use xcm_robobank_prototype.Service.Runs.{Input, deliver}
use xcm_robobank_prototype.Service.Authority.{Becomes, Change, Same, still}
use xcm_robobank_prototype.Service.Authority.Orders.{Reception-Starts, order-Change, cancel-Change}
use xcm_robobank_prototype.Service.Authority.Answers.{accept-Change}
use xcm_robobank_prototype.Service.Authority.Devices.{
  done-Change, register-Change, set_state-Change,
}

module _ (T : Config) (s : State T) (d : AccountId) where
  on_killed_account-Becomes :
      (who : AccountId) {dev : DeviceProfile}
      → s.device who ≡ some dev
      → Same T s d (on_killed_account T who s)
        ⊎ ((who ≡ d)
            × (dev.state ≡ DeviceState.off)
            × Becomes (on_killed_account T who s) d (s.orders d) none)
  unfolding on_killed_account
  on_killed_account-Becomes who known = ground arith

  on_killed_account-Change :
      (who : AccountId) → Change s (on_killed_account T who s) d (Input.killed who)
  unfolding on_killed_account
  on_killed_account-Change who = elim (Option-cases (s.device who)) [
    | inl missing ↦ Change.unchanged _ (still T s d _ (ground (arith, missing)))
    | inr (dev, known) ↦ elim (on_killed_account-Becomes who known) [
      | inl same ↦ Change.unchanged _ same
      | inr (e, off, gone) ↦ rw e (Change.reaped dev (rw e at known) off (rw e at gone))
    ]
  ]

  handle_xcm_message-Same :
      (sender : ParaId) (at : ℕ) (xcm : T.xcm.VersionedXcm)
      → Same T s d (handle_xcm_message T sender at xcm s)
  unfolding handle_xcm_message
  handle_xcm_message-Same sender at xcm = ground arith

  handle_message-Change :
      (sender : ParaId) (at : ℕ) (blob : Blob) (m : XcmpMessage AccountId ℕ T.OrderPayload ℕ)
      → T.codec.decode blob ≡ some m
      → Change s (handle_message T sender m s) d (Input.blob_received sender at blob)
  unfolding handle_message
  handle_message-Change sender at blob (XcmpMessage.new_order client b) decoded =
      let o : OrderOf T = placed b client sender in
      elim (Reception-Starts T s d o b.device (order_received T o b.device s)
        (reception T o b.device s)) [
          | inl same ↦ Change.unchanged _ same
          | inr (dev, found, starts) ↦ Change.sent sender at blob client b dev decoded found starts
        ]
  handle_message-Change sender at blob (XcmpMessage.order_accept _ _) decoded =
      Change.unchanged _ (still T s d _ refl)
  handle_message-Change sender at blob (XcmpMessage.order_reject _ _ _) decoded =
      Change.unchanged _ (still T s d _ refl)
  handle_message-Change sender at blob (XcmpMessage.order_done _ _ _) decoded =
      Change.unchanged _ (still T s d _ refl)

  handle_blob_message-Change :
      (sender : ParaId) (at : ℕ) (blob : Blob)
      → Change s (handle_blob_message T sender at blob s) d (Input.blob_received sender at blob)
  unfolding handle_blob_message
  handle_blob_message-Change sender at blob = elim (Option-cases (T.codec.decode blob)) [
    | inl garbled ↦ Change.unchanged _ (still T s d _ (ground (arith, garbled)))
    | inr (m, decoded) ↦
        rw (decoded_blob T s sender at decoded) (handle_message-Change sender at blob m decoded)
  ]

  -- Whatever reaches the service pallet, the entries of a device change in one of these ways only: it
  -- takes an order, if it is ready, willing and free of orders; the client of its order cancels it,
  -- from the deadline on; by its own signature it accepts, rejects or finishes its order, registers
  -- or is switched, each only in the states for that; or it is off and its account goes.
  pub deliver-Change : (i : Input T) → Change s (deliver i s) d i
  unfolding deliver
  deliver-Change (Input.order_call origin b) = order-Change T s d origin b
  deliver-Change (Input.cancel_call origin k) = cancel-Change T s d origin k
  deliver-Change (Input.accept_call origin reject onoff) = accept-Change T s d origin reject onoff
  deliver-Change (Input.done_call origin onoff) = done-Change T s d origin onoff
  deliver-Change (Input.register_call origin penalty wcd onoff) =
      register-Change T s d origin penalty wcd onoff
  deliver-Change (Input.set_state_call origin onoff) = set_state-Change T s d origin onoff
  deliver-Change (Input.killed who) = on_killed_account-Change who
  deliver-Change (Input.xcm_received sender at xcm) =
      Change.unchanged _ (handle_xcm_message-Same sender at xcm)
  deliver-Change (Input.blob_received sender at blob) = handle_blob_message-Change sender at blob
