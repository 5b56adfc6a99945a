-- ===== src/Client/Posted.antt =====
-- What the client chain sends: the orders that it places, and the blob of `test`.
use xcm_robobank_prototype.Prelude.{
  ℕ, ◌≡◌, refl, inl, inr, Bool, arith, [], ◌∷◌, ◌++◌, ap, ◌∙◌, Option-cases,
}
use xcm_robobank_prototype.Frame.{
  AccountId, ParaId, Blob, DispatchError, Result, Result-cases, ok, err, CurrencyLaws,
  XcmpMessageSenderLaws, ServiceQuality,
}
use xcm_robobank_prototype.Common.{XcmpMessage}
use xcm_robobank_prototype.Client.State.{Config, OrderBaseOf, DeviceProfile, Error, State}
use xcm_robobank_prototype.Client.Orders.{lock_funds, send_order, place_order, order_reject}
use xcm_robobank_prototype.Client.Placement.{lock_funds-frame, sending, Placing, placing}
use xcm_robobank_prototype.Client.Placed.{IsPlaced, place_order-IsPlaced}
use xcm_robobank_prototype.Client.Calls.{test, order, cancel, register}
use xcm_robobank_prototype.Client.Messages.{on_accept, on_reject, on_done}
use xcm_robobank_prototype.Client.Hooks.{
  on_killed_account, handle_xcm_message, handle_message, handle_blob_message,
}
use xcm_robobank_prototype.Client.Runs.{Input, deliver}

-- What an input has sent from one state to the next: nothing; the blob of `test`, to the parachain
-- 200; or an order that has been placed. The input is then a call of `order` by its client.
pub data Posts {T : Config} (i : Input T) (s t : State T) : Type 0 where
  quiet : T.sender.sent t.queue ≡ T.sender.sent s.queue → Posts i s t
  tested :
      T.sender.sent t.queue ≡ T.sender.sent s.queue ++ (200, 0x00 ∷ 0x20 ∷ []) ∷ [] → Posts i s t
  ordered :
      (origin : T.OriginFor) (o : OrderBaseOf T) (who : AccountId) (dev : DeviceProfile)
      → i ≡ Input.order_call origin o
      → T.ensure_signed origin ≡ ok who
      → IsPlaced s t o who dev
      → Posts i s t

module _ (T : Config) (laws : CurrencyLaws T.currency) (reliable : XcmpMessageSenderLaws T.sender)
    (s : State T) where
  unsent-queue :
      (o : OrderBaseOf T) (who : AccountId) (dev : DeviceProfile) (u : State T)
      {e : DispatchError Error}
      → (send_order T o who dev u).0 ≡ err e
      → (send_order T o who dev u).1.queue ≡ u.queue
  unfolding send_order
  unsent-queue o who dev u h = elim (Result-cases (sending T o who dev u)) [
    | inl (_, sent) ↦ absurd (ground (arith, sent, h))
    | inr (code, failed) ↦ ground (
      arith,
      failed,
      reliable.sent_err u.queue dev.paraid (T.codec.encode (XcmpMessage.new_order who o))
          ServiceQuality.ordered code failed,
    )
  ]

  Placing-queue :
      (o : OrderBaseOf T) (who : AccountId) (r : Result (DispatchError Error) (Unit {0}) × State T)
      {e : DispatchError Error}
      → Placing T o who s r
      → r.0 ≡ err e
      → r.1.queue ≡ s.queue
  Placing-queue o who r (Placing.refused e eq) h = rw eq
  Placing-queue o who r (Placing.unfunded dev e passes failed eq) h =
      rw eq (ap (λ (v : State T). v.queue) (lock_funds-frame T o who dev s))
  Placing-queue o who r (Placing.stored dev passes funded eq) h =
      let u = (lock_funds T o who dev s).1 in
      rw eq (
        unsent-queue o who dev u (rw eq at h)
        ∙ ap (λ (v : State T). v.queue) (lock_funds-frame T o who dev s))

  order-Posts :
      (origin : T.OriginFor) (o : OrderBaseOf T)
      → Posts (Input.order_call origin o) s (order T origin o s).1
  unfolding order
  order-Posts origin o = elim (Result-cases (T.ensure_signed origin)) [
    | inr (e, bad) ↦ Posts.quiet (ground (arith, bad))
    | inl (who, signed) ↦ rw signed (elim (Result-cases (place_order T o who s).0) [
      | inl (_, success) ↦
          let (dev, was_placed) = place_order-IsPlaced T laws o who s reliable success in
          Posts.ordered origin o who dev refl signed was_placed
      | inr (e, failed) ↦ Posts.quiet (
          ap T.sender.sent (Placing-queue o who (place_order T o who s) (placing T o who s) failed))
    ])
  ]

  test-Posts : (origin : T.OriginFor) → Posts (Input.test_call origin) s (test T origin s).1
  unfolding test
  test-Posts origin =
      let q = T.sender.send_blob_message s.queue 200 (0x00 ∷ 0x20 ∷ []) ServiceQuality.ordered in
      elim (Result-cases q.0) [
        | inl (_, success) ↦ Posts.tested (
            ground (
              arith,
              reliable.sent_ok s.queue 200 (0x00 ∷ 0x20 ∷ []) ServiceQuality.ordered success,
            ))
        | inr (e, failed) ↦ Posts.quiet (
            ground (
              arith,
              reliable.sent_err s.queue 200 (0x00 ∷ 0x20 ∷ []) ServiceQuality.ordered e failed,
            ))
      ]

  cancel-queue : (origin : T.OriginFor) (d : AccountId) → (cancel T origin d s).1.queue ≡ s.queue
  unfolding cancel order_reject
  cancel-queue origin d = ground arith

  register-queue :
      (origin : T.OriginFor) (paraid penalty wcd : ℕ) (onoff : Bool)
      → (register T origin paraid penalty wcd onoff s).1.queue ≡ s.queue
  unfolding register
  register-queue origin paraid penalty wcd onoff = ground arith

  on_killed_account-queue : (who : AccountId) → (on_killed_account T who s).queue ≡ s.queue
  unfolding on_killed_account
  on_killed_account-queue who = ground arith

  handle_xcm_message-queue :
      (sender : ParaId) (at : ℕ) (xcm : T.xcm.VersionedXcm)
      → (handle_xcm_message T sender at xcm s).queue ≡ s.queue
  unfolding handle_xcm_message
  handle_xcm_message-queue sender at xcm = ground arith

  handle_message-queue :
      (m : XcmpMessage AccountId ℕ T.OrderPayload ℕ) → (handle_message T m s).queue ≡ s.queue
  unfolding handle_message on_accept on_reject on_done order_reject
  handle_message-queue (XcmpMessage.new_order _ _) = refl
  handle_message-queue (XcmpMessage.order_accept _ _) = refl
  handle_message-queue (XcmpMessage.order_reject who d onoff) = ground arith
  handle_message-queue (XcmpMessage.order_done who d onoff) = ground arith

  handle_blob_message-queue :
      (sender : ParaId) (at : ℕ) (blob : Blob)
      → (handle_blob_message T sender at blob s).queue ≡ s.queue
  unfolding handle_blob_message
  handle_blob_message-queue sender at blob = elim (Option-cases (T.codec.decode blob)) [
    | inl garbled ↦ ground (arith, garbled)
    | inr (m, decoded) ↦ ground (arith, decoded, handle_message-queue m)
  ]

  -- Whatever reaches the client pallet, it sends nothing, or the blob of `test`, or an order: one
  -- that its client has signed and that has been placed, the money of both parties reserved, and it
  -- goes to the chain of the device.
  pub deliver-Posts : (i : Input T) → Posts i s (deliver i s)
  unfolding deliver
  deliver-Posts (Input.test_call origin) = test-Posts origin
  deliver-Posts (Input.order_call origin o) = order-Posts origin o
  deliver-Posts (Input.cancel_call origin d) =
      Posts.quiet (ap T.sender.sent (cancel-queue origin d))
  deliver-Posts (Input.register_call origin paraid penalty wcd onoff) =
      Posts.quiet (ap T.sender.sent (register-queue origin paraid penalty wcd onoff))
  deliver-Posts (Input.killed who) = Posts.quiet (ap T.sender.sent (on_killed_account-queue who))
  deliver-Posts (Input.xcm_received sender at xcm) =
      Posts.quiet (ap T.sender.sent (handle_xcm_message-queue sender at xcm))
  deliver-Posts (Input.blob_received sender at blob) =
      Posts.quiet (ap T.sender.sent (handle_blob_message-queue sender at blob))
