-- ===== src/Wire/Cycle.antt =====
-- The whole life of an order on both chains: a client places it on the client chain, the message
-- reaches the service chain, which accepts it at once, the device finishes it, and the answer
-- reaches the client chain.
use xcm_robobank_prototype.Prelude.{
  ℕ, ◌+◌, ◌≤◌, ◌≡◌, ◌≢◌, refl, Bool, true, false, none, some, arith, ltb, ◌==◌, if◌then◌else◌, [],
  ◌∷◌, ◌++◌,
}
use xcm_robobank_prototype.Frame.{
  AccountId, ParaId, Blob, Moment, ok, free, Currency, CurrencyLaws, XcmpMessageSenderLaws,
  ServiceQuality,
}
use xcm_robobank_prototype.Frame.Settlement.{Settles}
use xcm_robobank_prototype.Common.{DeviceState, on_or_off, XcmpMessage}
use xcm_robobank_prototype.Service.State.{
  Config as ServiceConfig, State as ServiceState, OrderOf as ServiceOrder,
  DeviceProfile as ServiceProfile,
}
use xcm_robobank_prototype.Service.Orders.{placed}
use xcm_robobank_prototype.Service.Calls.{done}
use xcm_robobank_prototype.Service.Hooks.{handle_blob_message as service_handles}
use xcm_robobank_prototype.Service.Received.{Passes as Receivable}
use xcm_robobank_prototype.Service.Placement.{IsPlaced as IsReceived, order_received-IsPlaced}
use xcm_robobank_prototype.Client.State.{
  Config as ClientConfig, State as ClientState, OrderBaseOf as ClientOrderBase,
  DeviceProfile as ClientProfile,
}
use xcm_robobank_prototype.Client.Calls.{order}
use xcm_robobank_prototype.Client.Hooks.{handle_blob_message as client_handles}
use xcm_robobank_prototype.Client.Placement.{Passes, stored_form, sending}
use xcm_robobank_prototype.Client.Placed.{IsPlaced}
use xcm_robobank_prototype.Client.Ordering.{order-IsPlaced, order-ok}
use xcm_robobank_prototype.Client.Escrow.{IsCovered}
use xcm_robobank_prototype.Client.Settlement.{IsSettled, on_done-IsSettled}
use xcm_robobank_prototype.Client.Runs.{order_call, deliver, Reach, Step, Reach-IsCovered}
use xcm_robobank_prototype.Wire.Orders.{carried, ReadsOrders, handled_lem, received_remote}
use xcm_robobank_prototype.Wire.Answers.{IsAnswered, done-IsAnswered, handled_done}

-- The service chain writes ends of orders that the client chain reads.
abbrev pub ReadsDone : (T : ServiceConfig) (C : ClientConfig) → Type 0
ReadsDone T C =
    (who d : AccountId) (onoff : Bool)
    → C.codec.decode (T.codec.encode (XcmpMessage.order_done who d onoff))
      ≡ some (XcmpMessage.order_done who d onoff)

-- Over the whole cycle the fee has gone from the client to the device and the penalty from the
-- device to `penalty_to`, and nothing more is reserved than before.
pub record Pays (c : Currency) (l l' : c.Ledger) (client device penalty_to : AccountId)
    (fee penalty : ℕ) : Type 0 where
  pub reserved : (a : AccountId) → c.reserved_balance l' a ≡ c.reserved_balance l a
  pub paid :
      (a : AccountId)
      → c.free_balance l' a
          + (if client == a then fee else 0)
          + (if device == a then penalty else 0)
        ≡ c.free_balance l a
          + (if device == a then fee else 0)
          + (if penalty_to == a then penalty else 0)

Settles-Pays :
    {C : ClientConfig} {c c' : ClientState C} {o : ClientOrderBase C} {who : AccountId}
    {dev : ClientProfile} (t : ClientState C) (to : AccountId)
    → IsPlaced c c' o who dev
    → Settles C.currency c'.ledger t.ledger who o.device o.device to o.fee dev.penalty
    → Pays C.currency c.ledger t.ledger who o.device to o.fee dev.penalty
Settles-Pays t to was_placed settles = record {
  reserved = λ a. omega (arith, was_placed.reserved a, settles.released a);
  paid = λ a. omega (arith, was_placed.taken a, settles.given a);
}

module _ (C : ClientConfig) (T : ServiceConfig) (payload : C.OrderPayload → T.OrderPayload)
    (o : ClientOrderBase C) (who : AccountId) (origin : C.OriginFor) (c : ClientState C)
    (s : ServiceState T) (client_para service_para : ParaId) (at at' : ℕ)
    (device_origin : T.OriginFor) (onoff : Bool) (time : Moment) where
  abbrev pub order' : ServiceOrder T
  order' = placed (carried payload o) who client_para

  -- The states and the messages of the cycle, one after the other.
  abbrev pub ordered : ClientState C
  ordered = (order C origin o c).1

  abbrev pub received : ServiceState T
  received = service_handles T client_para at (C.codec.encode (XcmpMessage.new_order who o)) s

  abbrev pub finished : ServiceState T
  finished = (done T device_origin onoff received).1

  abbrev pub later : ClientState C
  later = record ordered { now = time }

  abbrev pub answer : Blob
  answer = T.codec.encode (XcmpMessage.order_done who o.device onoff)

  abbrev pub settled : ClientState C
  settled = client_handles C service_para at' answer later

  -- The steps of the cycle have taken place, with `dev` for the device's profile on the client
  -- chain.
  pub record IsCompleted (dev : ClientProfile) : Type 0 where
    pub order_succeeds : (order C origin o c).0 ≡ ok tt
    pub order_sent :
        C.sender.sent ordered.queue
        ≡ C.sender.sent c.queue ++ (dev.paraid, C.codec.encode (XcmpMessage.new_order who o)) ∷ []
    pub order_taken : received.orders o.device ≡ some order'
    pub done_succeeds : (done T device_origin onoff received).0 ≡ ok tt
    pub answer_sent :
        T.sender.sent finished.queue ≡ T.sender.sent received.queue ++ (client_para, answer) ∷ []
    pub service_clear : finished.orders o.device ≡ none
    pub client_clear : settled.orders o.device ≡ none
    pub device_kept : settled.device o.device ≡ some (record dev { state = on_or_off onoff })
    pub money :
        Pays C.currency c.ledger settled.ledger who o.device
          (if ltb time o.until then o.device else who)
          o.fee
          dev.penalty

  module _ (client_laws : CurrencyLaws C.currency) (laws : CurrencyLaws T.currency)
      (client_sends : XcmpMessageSenderLaws C.sender)
      (service_sends : XcmpMessageSenderLaws T.sender) (reads : ReadsOrders C T payload)
      (reads_done : ReadsDone T C) (dev : ClientProfile) (sdev : ServiceProfile)
      (signed : C.ensure_signed origin ≡ ok who)
      (device_signed : T.ensure_signed device_origin ≡ ok o.device) (two : who ≢ o.device)
      (covered : IsCovered c) (passes : Passes C o who c dev)
      (rich : C.currency.can_reserve c.ledger o.device dev.penalty ≡ true)
      (taken : sending C o who dev c ≡ ok tt) (receivable : Receivable T order' o.device s sdev)
      (eager : T.on_received o.device order' ≡ some DeviceState.busy2)
      (far : (client_para == T.self_para_id) ≡ false) where
    success : (order C origin o c).0 ≡ ok tt
    success = order-ok C client_laws o who c origin signed dev passes two rich taken

    ordered-IsPlaced : (p : ClientProfile) × IsPlaced c ordered o who p
    ordered-IsPlaced = order-IsPlaced C client_laws o who c origin signed client_sends success

    ordered-IsPlaced_dev : IsPlaced c ordered o who dev
    ordered-IsPlaced_dev =
        let (p, was_placed) = ordered-IsPlaced in
        let same : p ≡ dev = ground (arith, was_placed.passes.registered, passes.registered) in
        rw same at was_placed

    later-IsCovered : IsCovered later
    unfolding deliver
    later-IsCovered a ks distinct =
        Reach-IsCovered client_laws
          (Reach.next Reach.here (Step.delivered (order_call origin o) tt refl)) covered a ks
          distinct

    received-IsReceived : (p : ServiceProfile) × IsReceived s received order' o.device p
    received-IsReceived =
        rw (handled_lem C client_laws client_sends T laws payload reads o who s client_para at) (
          order_received-IsPlaced T laws order' o.device s
            (received_remote T laws order' o.device sdev s receivable far))

    module _
        (answered : (T.sender.send_blob_message received.queue client_para answer
            ServiceQuality.ordered).0
          ≡ ok tt)
        (device_alive : C.currency.exists later.ledger o.device ≡ true)
        (client_alive : o.until ≤ time
          → C.currency.exists
              (C.currency.repatriate_reserved later.ledger who o.device o.fee free).1
              who
            ≡ true) where
      finished-IsAnswered :
          ((done T device_origin onoff received).0 ≡ ok tt)
          × IsAnswered received finished o.device client_para answer
      finished-IsAnswered =
          let (p, r) = received-IsReceived in
          done-IsAnswered T service_sends received o.device order' p
            (ground (arith, r.order_stored)) (ground (arith, r.device_stored)) far device_origin
            device_signed onoff (ground (arith, r.passes.willing, eager)) answered

      settled-IsSettled :
          IsSettled later settled o.device
            (stored_form o who)
            (record dev { state = DeviceState.busy })
            (on_or_off onoff)
            o.device
            (if ltb time o.until then o.device else who)
      settled-IsSettled =
          let (p, r) = received-IsReceived in
          let w = ordered-IsPlaced_dev in
          rw
            (handled_done T service_sends received o.device order' p
              (ground (arith, r.order_stored)) (ground (arith, r.device_stored)) far device_origin
              device_signed onoff C client_laws later (stored_form o who)
              (record dev { state = DeviceState.busy }) (ground (arith, w.order_stored))
              (ground (arith, w.device_busy)) later-IsCovered refl two service_para at'
              (reads_done who o.device onoff))
            (on_done-IsSettled C client_laws later o.device (stored_form o who)
              (record dev { state = DeviceState.busy }) (ground (arith, w.order_stored))
              (ground (arith, w.device_busy)) later-IsCovered two onoff device_alive client_alive).1

      -- A client signs a call of `order` on a client chain whose orders are covered, for a device
      -- other than itself, and the call passes the tests there; the device can reserve its penalty,
      -- and the sender takes the message. The order in the message also passes the tests of the
      -- service chain, which is another chain, reads the message, and puts the device in `Busy2` at
      -- once. Then the device signs a call of `done`, the sender there takes the answer, and the
      -- client chain reads it; when it comes, the device's account exists, and from the deadline on
      -- also the client's once the fee is taken from it. Then all steps of the cycle succeed: the
      -- two messages are sent, both chains end clear of the order, the device is `Ready` or `Off`
      -- as it asked, and on the client chain, over the whole cycle, the fee has gone from the
      -- client to the device, the penalty stays with the device before the deadline and goes to the
      -- client from then on, and no more is reserved than before. Nothing else may happen on either
      -- chain in between but that time goes on on the client chain. The currency must leave a payer
      -- what it has left, as the laws say.
      pub cycle-IsCompleted : IsCompleted dev
      cycle-IsCompleted =
          let w = ordered-IsPlaced_dev in
          let (p, r) = received-IsReceived in
          let (finishes, a) = finished-IsAnswered in
          let e = settled-IsSettled in
          record {
            order_succeeds = success;
            order_sent = w.sent;
            order_taken = ground (arith, r.order_stored);
            done_succeeds = finishes;
            answer_sent = a.sent;
            service_clear = ground (arith, a.order_gone);
            client_clear = ground (arith, e.order_gone);
            device_kept = ground (arith, e.device_kept);
            money = Settles-Pays settled (if ltb time o.until then o.device else who) w e.money;
          }
