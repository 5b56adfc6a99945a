-- ===== src/Service/Answered/Inputs.antt =====
-- What each input of the service pallet sends.
use xcm_robobank_prototype.Prelude.{
  ℕ, ◌≡◌, refl, inl, inr, Bool, true, false, Option, some, arith, ap, Option-cases,
}
use xcm_robobank_prototype.Frame.{AccountId, ParaId, Blob, Result-cases, ok, XcmpMessageSenderLaws}
use xcm_robobank_prototype.Common.{on_or_off, XcmpMessage}
use xcm_robobank_prototype.Service.State.{Config, OrderOf, OrderBaseOf, DeviceProfile, State}
use xcm_robobank_prototype.Service.Orders.{placed, order_received, order_reject}
use xcm_robobank_prototype.Service.Received.{reception}
use xcm_robobank_prototype.Service.Calls.{order, cancel, accept, done, register, set_state}
use xcm_robobank_prototype.Service.Hooks.{
  on_killed_account, handle_xcm_message, handle_message, handle_blob_message,
}
use xcm_robobank_prototype.Service.Transitions.Calls.{
  cancel-ends, accept-ends_rejecting, accept-ends_accepting,
}
use xcm_robobank_prototype.Service.Transitions.Devices.{done-ends, done-ends_unordered}
use xcm_robobank_prototype.Service.Runs.{Input, deliver}
use xcm_robobank_prototype.Service.Answered.{
  Tells, Sends, queue-still, Reception-Tells, order_accept-Tells, order_reject-Tells,
  order_done-Sends,
}
use xcm_robobank_prototype.Service.Transitions.Hooks.{decoded_blob}

module _ (T : Config) (reliable : XcmpMessageSenderLaws T.sender) (s : State T) where
  same-Tells : {t : State T} → t ≡ s → Tells T s.queue t.queue
  same-Tells same = (Tells.quiet (ap (λ (v : State T). T.sender.sent v.queue) same))

  received-Tells :
      (o : OrderOf T) (d : AccountId) → Tells T s.queue (order_received T o d s).1.queue
  received-Tells o d = (Reception-Tells T reliable (order_received T o d s) (reception T o d s))

  rejected-Tells :
      (o : Option (OrderOf T)) (d : AccountId) (dev : DeviceProfile) (onoff : Bool)
      → Tells T s.queue (order_reject T o s.now d dev onoff s).1.queue
  rejected-Tells o d dev onoff = (order_reject-Tells T reliable o s.now d dev onoff s)

  order-Tells :
      (origin : T.OriginFor) (b : OrderBaseOf T) → Tells T s.queue (order T origin b s).1.queue
  unfolding order
  order-Tells origin b = elim (Result-cases (T.ensure_signed origin)) [
    | inr (e, bad) ↦ queue-still T reliable (ground (arith, bad))
    | inl (who, signed) ↦ rw signed (received-Tells (placed b who T.self_para_id) b.device)
  ]

  cancel-Tells :
      (origin : T.OriginFor) (d : AccountId) → Tells T s.queue (cancel T origin d s).1.queue
  unfolding cancel
  cancel-Tells origin d = elim (Option-cases (s.orders d)) [
    | inl missing ↦ queue-still T reliable (ground arith)
    | inr (o, ordered) ↦ elim (Option-cases (s.device d)) [
      | inl missing ↦ queue-still T reliable (ground arith)
      | inr (dev, known) ↦ elim (cancel-ends T s origin ordered known) [
        | inl same ↦ same-Tells same
        | inr e ↦ rw e (rejected-Tells (some o) d dev false)
      ]
    ]
  ]

  accept-Tells_known :
      (origin : T.OriginFor) (reject onoff : Bool) {id : AccountId} {dev : DeviceProfile}
      → T.ensure_signed origin ≡ ok id
      → s.device id ≡ some dev
      → Tells T s.queue (accept T origin reject onoff s).1.queue
  unfolding accept
  accept-Tells_known origin true onoff {id} {dev} signed known =
      elim (accept-ends_rejecting T s origin onoff signed known) [
        | inl same ↦ same-Tells same
        | inr e ↦
            rw e (rejected-Tells (s.orders id) id (record dev { state = on_or_off onoff }) onoff)
      ]
  accept-Tells_known origin false onoff {id} {dev} signed known =
      elim (Option-cases (s.orders id)) [
        | inl missing ↦ queue-still T reliable (ground (arith, missing, signed, known))
        | inr (o, ordered) ↦ elim (accept-ends_accepting T s origin onoff signed known ordered) [
          | inl same ↦ same-Tells same
          | inr (state, in_time, e) ↦ rw e ((order_accept-Tells T reliable o s.now id dev s))
        ]
      ]

  accept-Tells :
      (origin : T.OriginFor) (reject onoff : Bool)
      → Tells T s.queue (accept T origin reject onoff s).1.queue
  unfolding accept
  accept-Tells origin reject onoff = elim (Result-cases (T.ensure_signed origin)) [
    | inr (e, bad) ↦ queue-still T reliable (ground (arith, bad))
    | inl (id, signed) ↦ elim (Option-cases (s.device id)) [
      | inl missing ↦ queue-still T reliable (ground (arith, signed, missing))
      | inr (dev, known) ↦ accept-Tells_known origin reject onoff signed known
    ]
  ]

  done-Sends_known :
      (origin : T.OriginFor) (onoff : Bool) {id : AccountId} {dev : DeviceProfile}
      → T.ensure_signed origin ≡ ok id
      → s.device id ≡ some dev
      → Sends T (Input.done_call origin onoff) s (done T origin onoff s).1
  done-Sends_known origin onoff {id} {dev} signed known = elim (Option-cases (s.orders id)) [
    | inl missing ↦ elim (done-ends_unordered T s origin onoff signed known missing) [
      | inl same ↦ Sends.harmless (same-Tells same)
      | inr e ↦ rw e (Sends.harmless (Tells.quiet refl))
    ]
    | inr (o, ordered) ↦ elim (done-ends T s origin onoff signed known ordered) [
      | inl same ↦ Sends.harmless (same-Tells same)
      | inr (state, e) ↦
          rw e (order_done-Sends T reliable s origin id o dev onoff signed ordered known state)
    ]
  ]

  done-Sends :
      (origin : T.OriginFor) (onoff : Bool)
      → Sends T (Input.done_call origin onoff) s (done T origin onoff s).1
  unfolding done
  done-Sends origin onoff = elim (Result-cases (T.ensure_signed origin)) [
    | inr (e, bad) ↦ Sends.harmless (queue-still T reliable (ground (arith, bad)))
    | inl (id, signed) ↦ elim (Option-cases (s.device id)) [
      | inl missing ↦ Sends.harmless (queue-still T reliable (ground (arith, signed, missing)))
      | inr (dev, known) ↦ done-Sends_known origin onoff signed known
    ]
  ]

  register-queue :
      (origin : T.OriginFor) (penalty wcd : ℕ) (onoff : Bool)
      → (register T origin penalty wcd onoff s).1.queue ≡ s.queue
  unfolding register
  register-queue origin penalty wcd onoff = ground arith

  set_state-queue :
      (origin : T.OriginFor) (onoff : Bool) → (set_state T origin onoff s).1.queue ≡ s.queue
  unfolding set_state
  set_state-queue origin onoff = ground arith

  on_killed_account-queue : (who : AccountId) → (on_killed_account T who s).queue ≡ s.queue
  unfolding on_killed_account
  on_killed_account-queue who = ground arith

  handle_xcm_message-queue :
      (sender : ParaId) (at : ℕ) (xcm : T.xcm.VersionedXcm)
      → (handle_xcm_message T sender at xcm s).queue ≡ s.queue
  unfolding handle_xcm_message
  handle_xcm_message-queue sender at xcm = ground arith

  handle_message-Tells :
      (sender : ParaId) (m : XcmpMessage AccountId ℕ T.OrderPayload ℕ)
      → Tells T s.queue (handle_message T sender m s).queue
  unfolding handle_message
  handle_message-Tells sender (XcmpMessage.new_order client b) =
      received-Tells (placed b client sender) b.device
  handle_message-Tells sender (XcmpMessage.order_accept _ _) = same-Tells refl
  handle_message-Tells sender (XcmpMessage.order_reject _ _ _) = same-Tells refl
  handle_message-Tells sender (XcmpMessage.order_done _ _ _) = same-Tells refl

  handle_blob_message-Tells :
      (sender : ParaId) (at : ℕ) (blob : Blob)
      → Tells T s.queue (handle_blob_message T sender at blob s).queue
  unfolding handle_blob_message
  handle_blob_message-Tells sender at blob = elim (Option-cases (T.codec.decode blob)) [
    | inl garbled ↦ queue-still T reliable (ground (arith, garbled))
    | inr (m, decoded) ↦ rw (decoded_blob T s sender at decoded) (handle_message-Tells sender m)
  ]

  -- Whatever reaches the service pallet, it sends nothing, or that an order is accepted or rejected;
  -- or a device in `Busy2` has signed that it has finished its order, the order is gone, and this is
  -- sent to the chain of its client.
  pub deliver-Sends : (i : Input T) → Sends T i s (deliver i s)
  unfolding deliver
  deliver-Sends (Input.order_call origin b) = Sends.harmless (order-Tells origin b)
  deliver-Sends (Input.cancel_call origin d) = Sends.harmless (cancel-Tells origin d)
  deliver-Sends (Input.accept_call origin reject onoff) =
      Sends.harmless (accept-Tells origin reject onoff)
  deliver-Sends (Input.done_call origin onoff) = done-Sends origin onoff
  deliver-Sends (Input.register_call origin penalty wcd onoff) =
      Sends.harmless (queue-still T reliable (register-queue origin penalty wcd onoff))
  deliver-Sends (Input.set_state_call origin onoff) =
      Sends.harmless (queue-still T reliable (set_state-queue origin onoff))
  deliver-Sends (Input.killed who) =
      Sends.harmless (queue-still T reliable (on_killed_account-queue who))
  deliver-Sends (Input.xcm_received sender at xcm) =
      Sends.harmless (queue-still T reliable (handle_xcm_message-queue sender at xcm))
  deliver-Sends (Input.blob_received sender at blob) =
      Sends.harmless (handle_blob_message-Tells sender at blob)
