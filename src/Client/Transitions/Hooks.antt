-- ===== src/Client/Transitions/Hooks.antt =====
-- The hooks of the client pallet as transitions.
use xcm_robobank_prototype.Prelude.{
  ℕ, ◌≡◌, refl, ◌⊎◌, inl, inr, Bool, none, some, arith, Option-cases, Bool-cases,
}
use xcm_robobank_prototype.Frame.{AccountId, ParaId, Blob}
use xcm_robobank_prototype.Common.{DeviceState, eq-cases, on_or_off, XcmpMessage}
use xcm_robobank_prototype.Client.State.{Config, OrderOf, Event, State}
use xcm_robobank_prototype.Client.Messages.{on_accept, on_reject, on_done}
use xcm_robobank_prototype.Client.Hooks.{
  on_killed_account, handle_xcm_message, handle_message, handle_blob_message,
}
use xcm_robobank_prototype.Client.Transitions.{Naming, Transition, Permits}

module _ (T : Config) (Names : Naming T) (s : State T) where
  pub on_killed_account-transition :
      (who : AccountId) → Transition Names s (on_killed_account T who s)
  unfolding on_killed_account
  on_killed_account-transition who = elim (Option-cases (s.device who)) [
    | inl missing ↦ Transition.idle (ground arith)
    | inr (dev, known) ↦ elim (eq-cases dev.state DeviceState.off) [
      | inl (test, off) ↦ Transition.reaped who dev known off (ground arith)
      | inr (test, on) ↦ Transition.abandoned who dev known (ground arith)
    ]
  ]

  pub handle_xcm_message-transition :
      (sender : ParaId) (at : ℕ) (xcm : T.xcm.VersionedXcm)
      → Transition Names s (handle_xcm_message T sender at xcm s)
  unfolding handle_xcm_message
  handle_xcm_message-transition sender at xcm = elim (Bool-cases (T.xcm.try_from xcm)) [
    | inl readable ↦ Transition.idle (ground arith)
    | inr unknown ↦ Transition.noted (Event.bad_version (T.xcm.hash xcm)) (ground arith)
  ]

  on_reject-transition :
      (who d : AccountId) (onoff : Bool)
      → ((o : OrderOf T) → s.orders d ≡ some o → Names s who o d)
      → Transition Names s (on_reject T who d onoff s).1
  unfolding on_reject
  on_reject-transition who d onoff named = elim (Option-cases (s.orders d)) [
    | inl missing ↦ Transition.idle (ground arith)
    | inr (o, stored) ↦ elim (Option-cases (s.device d)) [
      | inl missing ↦ Transition.idle (ground arith)
      | inr (dev, known) ↦
          Transition.rejected who o d dev (on_or_off onoff) stored known (named o stored)
            (ground arith)
    ]
  ]

  on_done-unknown :
      (who d : AccountId) (onoff : Bool)
      → (s.orders d ≡ none) ⊎ (s.device d ≡ none)
      → (on_done T who d onoff s).1 ≡ s
  unfolding on_done
  on_done-unknown who d onoff missing = ground arith

  on_done-transition :
      (who d : AccountId) (onoff : Bool)
      → ((o : OrderOf T) → s.orders d ≡ some o → Names s who o d)
      → Transition Names s (on_done T who d onoff s).1
  on_done-transition who d onoff named = elim (Option-cases (s.orders d)) [
    | inl missing ↦ Transition.idle (on_done-unknown who d onoff (inl missing))
    | inr (o, stored) ↦ elim (Option-cases (s.device d)) [
      | inl missing ↦ Transition.idle (on_done-unknown who d onoff (inr missing))
      | inr (dev, known) ↦ Transition.completed who o d dev onoff stored known (named o stored) refl
    ]
  ]

  handle_message-transition :
      (m : XcmpMessage AccountId ℕ T.OrderPayload ℕ)
      → Permits Names s (some m)
      → Transition Names s (handle_message T m s)
  unfolding handle_message on_accept
  handle_message-transition (XcmpMessage.order_accept who d) permitted =
      Transition.noted (Event.accept who d) refl
  handle_message-transition (XcmpMessage.order_reject who d onoff) permitted =
      on_reject-transition who d onoff permitted
  handle_message-transition (XcmpMessage.order_done who d onoff) permitted =
      on_done-transition who d onoff permitted
  handle_message-transition (XcmpMessage.new_order _ _) permitted = Transition.idle refl

  garbled_blob :
      (sender : ParaId) (at : ℕ) {blob : Blob}
      → T.codec.decode blob ≡ none
      → handle_blob_message T sender at blob s ≡ s
  unfolding handle_blob_message
  garbled_blob sender at garbled = ground arith

  pub decoded_blob :
      (sender : ParaId) (at : ℕ) {blob : Blob} {m : XcmpMessage AccountId ℕ T.OrderPayload ℕ}
      → T.codec.decode blob ≡ some m
      → handle_blob_message T sender at blob s ≡ handle_message T m s
  unfolding handle_blob_message
  decoded_blob sender at decoded = ground arith

  pub handle_blob_message-transition :
      (sender : ParaId) (at : ℕ) (blob : Blob)
      → Permits Names s (T.codec.decode blob)
      → Transition Names s (handle_blob_message T sender at blob s)
  handle_blob_message-transition sender at blob permitted =
      elim (Option-cases (T.codec.decode blob)) [
        | inl garbled ↦ Transition.idle (garbled_blob sender at garbled)
        | inr (m, decoded) ↦
            rw (decoded_blob sender at decoded)
              (handle_message-transition m (rw decoded at permitted))
      ]
