-- ===== src/Service/Answered.antt =====
-- What the service chain sends: the answers to an order.
pub mod Inputs
use xcm_robobank_prototype.Prelude.{
  ℕ, ◌≡◌, refl, inl, inr, Bool, true, false, Option, none, some, arith, ap, ◌==◌, [], ◌∷◌, ◌++◌,
  Option-cases, Bool-cases,
}
use xcm_robobank_prototype.Frame.{
  AccountId, ParaId, Blob, Moment, DispatchError, Result, Result-cases, ok, err,
  XcmpMessageSenderLaws, ServiceQuality, remove, insert,
}
use xcm_robobank_prototype.Common.{DeviceState, eq, on_or_off, XcmpMessage}
use xcm_robobank_prototype.Service.State.{
  Config, OrderOf, OrderBaseOf, DeviceProfile, Error, Event, State,
}
use xcm_robobank_prototype.Service.Orders.{
  placed, order_received, order_accept, order_reject, order_done, store_order, lock_funds,
}
use xcm_robobank_prototype.Service.Locking.{lock_funds-frame}
use xcm_robobank_prototype.Service.Received.{Reception, reception}
use xcm_robobank_prototype.Service.Calls.{order, cancel, accept, done, register, set_state}
use xcm_robobank_prototype.Service.Hooks.{
  on_killed_account, handle_xcm_message, handle_message, handle_blob_message,
}
use xcm_robobank_prototype.Service.Transitions.Calls.{
  cancel-ends, accept-ends_rejecting, accept-ends_accepting,
}
use xcm_robobank_prototype.Service.Transitions.Devices.{done-ends, done-ends_unordered}
use xcm_robobank_prototype.Service.Runs.{Input, deliver}

-- An answer that does not claim a payment.
abbrev pub IsFree : {P : Type 0} → XcmpMessage AccountId ℕ P ℕ → Type 0
IsFree (XcmpMessage.order_accept _ _) = Unit
IsFree (XcmpMessage.order_reject _ _ _) = Unit
IsFree _ = ⊥

module _ (T : Config) where
  -- Between two queues nothing has been sent, or an answer that does not claim a payment.
  pub data Tells (q r : T.sender.Queue) : Type 0 where
    quiet : T.sender.sent r ≡ T.sender.sent q → Tells q r
    told :
        (p : ParaId) (m : XcmpMessage AccountId ℕ T.OrderPayload ℕ)
        → IsFree m
        → T.sender.sent r ≡ T.sender.sent q ++ (p, T.codec.encode m) ∷ []
        → Tells q r

  -- What an input has sent from one state to the next: something else, or that a device in `Busy2`
  -- has finished its order. The input is then a call of `done` which the device has signed.
  pub data Sends (i : Input T) (s t : State T) : Type 0 where
    harmless : Tells s.queue t.queue → Sends i s t
    finishing :
        (origin : T.OriginFor) (d : AccountId) (o : OrderOf T) (dev : DeviceProfile) (onoff : Bool)
        → i ≡ Input.done_call origin onoff
        → T.ensure_signed origin ≡ ok d
        → s.orders d ≡ some o
        → s.device d ≡ some dev
        → dev.state ≡ DeviceState.busy2
        → t.orders ≡ remove d s.orders
        → T.sender.sent t.queue
          ≡ T.sender.sent s.queue
            ++ (o.paraid, T.codec.encode (XcmpMessage.order_done o.client d onoff)) ∷ []
        → Sends i s t

module _ (T : Config) (reliable : XcmpMessageSenderLaws T.sender) where
  abbrev post : T.sender.Queue → ParaId → Blob → T.sender.Queue
  post q p blob = (T.sender.send_blob_message q p blob ServiceQuality.ordered).1

  post-Tells :
      (q : T.sender.Queue) (p : ParaId) (m : XcmpMessage AccountId ℕ T.OrderPayload ℕ)
      → IsFree m
      → Tells T q (post q p (T.codec.encode m))
  post-Tells q p m kind =
      let blob = T.codec.encode m in
      elim (Result-cases (T.sender.send_blob_message q p blob ServiceQuality.ordered).0) [
        | inl (_, success) ↦
            Tells.told p m kind (reliable.sent_ok q p blob ServiceQuality.ordered success)
        | inr (e, failed) ↦
            Tells.quiet
              (ap T.sender.sent (reliable.sent_err q p blob ServiceQuality.ordered e failed))
      ]

  pub order_accept-Tells :
      (o : OrderOf T) (now : Moment) (d : AccountId) (dev : DeviceProfile) (s : State T)
      → Tells T s.queue (order_accept T o now d dev s).1.queue
  unfolding order_accept
  order_accept-Tells o now d dev s = elim (Bool-cases (o.paraid == T.self_para_id)) [
    | inl own ↦ rw own (Tells.quiet refl)
    | inr far ↦ rw far (post-Tells s.queue o.paraid (XcmpMessage.order_accept o.client d) tt)
  ]

  pub queue-still : {q r : T.sender.Queue} → r ≡ q → Tells T q r
  queue-still same = Tells.quiet (ap T.sender.sent same)

  Tells-after : {q r w : T.sender.Queue} → r ≡ q → Tells T r w → Tells T q w
  Tells-after same h = rw same at h

  store_order-Tells :
      (o : OrderOf T) (d : AccountId) (dev : DeviceProfile) (s : State T)
      → Tells T s.queue (store_order T o d dev s).1.queue
  unfolding store_order
  store_order-Tells o d dev s = elim (Bool-cases (eq dev.state DeviceState.busy2)) [
    | inl at_once ↦ rw at_once (
        order_accept-Tells o s.now d dev
          (record s { orders = insert d o s.orders; events = s.events ++ Event.new_order d ∷ [] }))
    | inr later ↦ rw later (Tells.quiet refl)
  ]

  pub Reception-Tells :
      {o : OrderOf T} {d : AccountId} {s : State T}
      (r : Result (DispatchError Error) (Unit {0}) × State T)
      → Reception T o d s r
      → Tells T s.queue r.1.queue
  Reception-Tells {s = s} r (Reception.refused e ends) = queue-still (rw ends)
  Reception-Tells {o} {d} {s} r (Reception.unfunded p e passes failed ends) =
      queue-still (rw ends (ap (λ (v : State T). v.queue) (lock_funds-frame T o d p s)))
  Reception-Tells {o} {d} {s} r (Reception.stored p passes funded ends) =
      let u = (lock_funds T o d p s).1 in
      let same : u.queue ≡ s.queue = ap (λ (v : State T). v.queue) (lock_funds-frame T o d p s) in
      rw ends (Tells-after same (store_order-Tells o d p u))

  pub order_reject-Tells :
      (o : Option (OrderOf T)) (now : Moment) (d : AccountId) (dev : DeviceProfile) (onoff : Bool)
      (s : State T)
      → Tells T s.queue (order_reject T o now d dev onoff s).1.queue
  unfolding order_reject
  order_reject-Tells none now d dev onoff s = Tells.quiet refl
  order_reject-Tells (some o) now d dev onoff s = elim (Bool-cases (o.paraid == T.self_para_id)) [
    | inl own ↦ queue-still (ground (arith, own))
    | inr far ↦
        let m = XcmpMessage.order_reject o.client d onoff in
        rw (told_lem far) (post-Tells s.queue o.paraid m tt)
  ]
    where
      told_lem :
          (o.paraid == T.self_para_id) ≡ false
          → (order_reject T (some o) now d dev onoff s).1.queue
            ≡ post s.queue o.paraid (T.codec.encode (XcmpMessage.order_reject o.client d onoff))
      told_lem far = ground (arith, far)

  pub order_done-Sends :
      (s : State T) (origin : T.OriginFor) (d : AccountId) (o : OrderOf T) (dev : DeviceProfile)
      (onoff : Bool)
      → T.ensure_signed origin ≡ ok d
      → s.orders d ≡ some o
      → s.device d ≡ some dev
      → dev.state ≡ DeviceState.busy2
      → Sends T
          (Input.done_call origin onoff)
          s
          (order_done T o s.now d dev onoff (record s { orders = remove d s.orders })).1
  unfolding order_done
  order_done-Sends s origin d o dev onoff signed stored known working =
      let blob = T.codec.encode (XcmpMessage.order_done o.client d onoff) in
      elim (Bool-cases (o.paraid == T.self_para_id)) [
        | inl own ↦ Sends.harmless (queue-still (ground (arith, own)))
        | inr far ↦
            elim (Result-cases
              (T.sender.send_blob_message s.queue o.paraid blob ServiceQuality.ordered).0) [
                | inl (_, success) ↦
                    Sends.finishing origin d o dev onoff refl signed stored known working
                      (ground (arith, far, success))
                      (ground (
                        arith,
                        far,
                        success,
                        reliable.sent_ok s.queue o.paraid blob ServiceQuality.ordered success,
                      ))
                | inr (e, failed) ↦ Sends.harmless (
                    queue-still (
                      ground (
                        arith,
                        far,
                        failed,
                        reliable.sent_err s.queue o.paraid blob ServiceQuality.ordered e failed,
                      )))
              ]
      ]
