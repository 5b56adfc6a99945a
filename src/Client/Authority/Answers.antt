-- ===== src/Client/Authority/Answers.antt =====
-- The answers of the service chain, and what they do to the entries of a device.
use xcm_robobank_prototype.Prelude.{
  ℕ, ◌≡◌, refl, ◌⊎◌, inl, inr, Bool, none, some, arith, Option-cases,
}
use xcm_robobank_prototype.Frame.{AccountId, ParaId, Blob}
use xcm_robobank_prototype.Common.{on_or_off, XcmpMessage}
use xcm_robobank_prototype.Client.State.{Config, OrderOf, DeviceProfile, State}
use xcm_robobank_prototype.Client.Orders.{order_reject}
use xcm_robobank_prototype.Client.Messages.{on_accept, on_reject, on_done}
use xcm_robobank_prototype.Client.Hooks.{handle_message, handle_blob_message}
use xcm_robobank_prototype.Client.Transitions.Hooks.{decoded_blob}
use xcm_robobank_prototype.Client.Runs.{Input}
use xcm_robobank_prototype.Client.Authority.{Becomes, Change, Same, still}

module _ (T : Config) (s : State T) (d : AccountId) where
  on_reject-Becomes :
      (who k : AccountId) (onoff : Bool) {o : OrderOf T} {dev : DeviceProfile}
      → s.orders k ≡ some o
      → s.device k ≡ some dev
      → let t = (on_reject T who k onoff s).1 in
        Same T s d t ⊎ ((k ≡ d) × Becomes t d none (some (record dev { state = on_or_off onoff })))
  unfolding on_reject order_reject
  on_reject-Becomes who k onoff ordered known = ground arith

  on_done-Becomes :
      (who k : AccountId) (onoff : Bool) {o : OrderOf T} {dev : DeviceProfile}
      → s.orders k ≡ some o
      → s.device k ≡ some dev
      → let t = (on_done T who k onoff s).1 in
        Same T s d t ⊎ ((k ≡ d) × Becomes t d none (some (record dev { state = on_or_off onoff })))
  unfolding on_done
  on_done-Becomes who k onoff ordered known = ground arith

  on_reject-idle :
      (who k : AccountId) (onoff : Bool)
      → (s.orders k ≡ none) ⊎ (s.device k ≡ none)
      → (on_reject T who k onoff s).1 ≡ s
  unfolding on_reject
  on_reject-idle who k onoff missing = ground arith

  on_done-idle :
      (who k : AccountId) (onoff : Bool)
      → (s.orders k ≡ none) ⊎ (s.device k ≡ none)
      → (on_done T who k onoff s).1 ≡ s
  unfolding on_done
  on_done-idle who k onoff missing = ground arith

  module _ (sender : ParaId) (at : ℕ) (blob : Blob) where
    on_reject-Change :
        (who k : AccountId) (onoff : Bool)
        → T.codec.decode blob ≡ some (XcmpMessage.order_reject who k onoff)
        → Change s (on_reject T who k onoff s).1 d (Input.blob_received sender at blob)
    on_reject-Change who k onoff decoded = elim (Option-cases (s.orders k)) [
      | inl missing ↦ Change.unchanged _ (still T s d _ (on_reject-idle who k onoff (inl missing)))
      | inr (o, ordered) ↦ elim (Option-cases (s.device k)) [
        | inl missing ↦
            Change.unchanged _ (still T s d _ (on_reject-idle who k onoff (inr missing)))
        | inr (dev, known) ↦ elim (on_reject-Becomes who k onoff ordered known) [
          | inl same ↦ Change.unchanged _ same
          | inr (e, gone) ↦
              Change.rejected sender at blob who onoff o dev (rw e at decoded) (rw e at ordered)
                (rw e at known) gone
        ]
      ]
    ]

    on_done-Change :
        (who k : AccountId) (onoff : Bool)
        → T.codec.decode blob ≡ some (XcmpMessage.order_done who k onoff)
        → Change s (on_done T who k onoff s).1 d (Input.blob_received sender at blob)
    on_done-Change who k onoff decoded = elim (Option-cases (s.orders k)) [
      | inl missing ↦ Change.unchanged _ (still T s d _ (on_done-idle who k onoff (inl missing)))
      | inr (o, ordered) ↦ elim (Option-cases (s.device k)) [
        | inl missing ↦ Change.unchanged _ (still T s d _ (on_done-idle who k onoff (inr missing)))
        | inr (dev, known) ↦ elim (on_done-Becomes who k onoff ordered known) [
          | inl same ↦ Change.unchanged _ same
          | inr (e, gone) ↦
              Change.finished sender at blob who onoff o dev (rw e at decoded) (rw e at ordered)
                (rw e at known) gone
        ]
      ]
    ]

    handle_message-Change :
        (m : XcmpMessage AccountId ℕ T.OrderPayload ℕ)
        → T.codec.decode blob ≡ some m
        → Change s (handle_message T m s) d (Input.blob_received sender at blob)
    unfolding handle_message on_accept
    handle_message-Change (XcmpMessage.new_order _ _) decoded =
        Change.unchanged _ (still T s d _ refl)
    handle_message-Change (XcmpMessage.order_accept _ _) decoded =
        Change.unchanged _ (record { order_after = refl; device_after = refl })
    handle_message-Change (XcmpMessage.order_reject who k onoff) decoded =
        on_reject-Change who k onoff decoded
    handle_message-Change (XcmpMessage.order_done who k onoff) decoded =
        on_done-Change who k onoff decoded

    pub handle_blob_message-Change :
        Change s (handle_blob_message T sender at blob s) d (Input.blob_received sender at blob)
    unfolding handle_blob_message
    handle_blob_message-Change = elim (Option-cases (T.codec.decode blob)) [
      | inl garbled ↦ Change.unchanged _ (still T s d _ (ground (arith, garbled)))
      | inr (m, decoded) ↦
          rw (decoded_blob T (λ _ _ _ _. Unit) s sender at decoded)
            (handle_message-Change m decoded)
    ]
