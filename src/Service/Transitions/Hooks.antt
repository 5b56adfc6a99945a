-- ===== src/Service/Transitions/Hooks.antt =====
-- The hooks of the service pallet as transitions.
use xcm_robobank_prototype.Prelude.{
  ℕ, ◌≡◌, ◌≢◌, refl, ◌⊎◌, inl, inr, true, false, none, some, arith, Option-cases, Bool-cases,
}
use xcm_robobank_prototype.Frame.{AccountId, ParaId, Blob}
use xcm_robobank_prototype.Common.{DeviceState, eq, eq-cases, XcmpMessage}
use xcm_robobank_prototype.Service.State.{Config, DeviceProfile, Event, State}
use xcm_robobank_prototype.Service.Hooks.{
  on_killed_account, handle_xcm_message, handle_message, handle_blob_message,
}
use xcm_robobank_prototype.Service.Transitions.{Transition}

module _ (T : Config) (s : State T) where
  pub on_killed_account-transition : (who : AccountId) → Transition s (on_killed_account T who s)
  unfolding on_killed_account
  on_killed_account-transition who = elim (Option-cases (s.device who)) [
    | inl missing ↦ Transition.idle (ground arith)
    | inr (dev, known) ↦ on_known dev known (eq-cases dev.state DeviceState.off)
  ]
    where
      on_known :
          (dev : DeviceProfile)
          → s.device who ≡ some dev
          → ((eq dev.state DeviceState.off ≡ true) × (dev.state ≡ DeviceState.off))
            ⊎ ((eq dev.state DeviceState.off ≡ false) × (dev.state ≢ DeviceState.off))
          → Transition s (on_killed_account T who s)
      on_known dev known (inl (test, off)) = Transition.reaped who dev known off (ground arith)
      on_known dev known (inr (test, on)) = Transition.idle (ground arith)

  pub handle_xcm_message-transition :
      (sender : ParaId) (at : ℕ) (xcm : T.xcm.VersionedXcm)
      → Transition s (handle_xcm_message T sender at xcm s)
  unfolding handle_xcm_message
  handle_xcm_message-transition sender at xcm = elim (Bool-cases (T.xcm.try_from xcm)) [
    | inl readable ↦ Transition.idle (ground arith)
    | inr unknown ↦ Transition.noted (Event.bad_version (T.xcm.hash xcm)) (ground arith)
  ]

  handle_message-transition :
      (sender : ParaId) (m : XcmpMessage AccountId ℕ T.OrderPayload ℕ)
      → Transition s (handle_message T sender m s)
  unfolding handle_message
  handle_message-transition sender (XcmpMessage.new_order client o) =
      Transition.received
        (record {
          until = o.until;
          payload = o.payload;
          fee = o.fee;
          client = client;
          paraid = sender;
        })
        o.device refl
  handle_message-transition sender (XcmpMessage.order_accept _ _) = Transition.idle refl
  handle_message-transition sender (XcmpMessage.order_reject _ _ _) = Transition.idle refl
  handle_message-transition sender (XcmpMessage.order_done _ _ _) = Transition.idle refl

  garbled_blob :
      (sender : ParaId) (at : ℕ) {blob : Blob}
      → T.codec.decode blob ≡ none
      → handle_blob_message T sender at blob s ≡ s
  unfolding handle_blob_message
  garbled_blob sender at garbled = ground arith

  pub decoded_blob :
      (sender : ParaId) (at : ℕ) {blob : Blob} {m : XcmpMessage AccountId ℕ T.OrderPayload ℕ}
      → T.codec.decode blob ≡ some m
      → handle_blob_message T sender at blob s ≡ handle_message T sender m s
  unfolding handle_blob_message
  decoded_blob sender at decoded = ground arith

  pub handle_blob_message-transition :
      (sender : ParaId) (at : ℕ) (blob : Blob)
      → Transition s (handle_blob_message T sender at blob s)
  handle_blob_message-transition sender at blob = elim (Option-cases (T.codec.decode blob)) [
    | inl garbled ↦ Transition.idle (garbled_blob sender at garbled)
    | inr (m, decoded) ↦ rw (decoded_blob sender at decoded) (handle_message-transition sender m)
  ]
