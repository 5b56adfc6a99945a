-- ===== src/Wire/Orders.antt =====
-- An order goes from the client chain to the service chain.
use xcm_robobank_prototype.Prelude.{ℕ, ◌≡◌, false, some, arith, ◌==◌, [], ◌∷◌, ◌++◌}
use xcm_robobank_prototype.Frame.{
  AccountId, ParaId, Blob, Balance, Moment, ok, CurrencyLaws, XcmpMessageSenderLaws,
}
use xcm_robobank_prototype.Common.{OrderBase, XcmpMessage}
use xcm_robobank_prototype.Service.State.{
  Config as ServiceConfig, State as ServiceState, OrderOf as ServiceOrder,
  DeviceProfile as ServiceProfile,
}
use xcm_robobank_prototype.Service.Orders.{placed, order_received}
use xcm_robobank_prototype.Service.Received.{Passes, Passes-check_order, check_order-state}
use xcm_robobank_prototype.Service.Locking.{lock_funds-remote}
use xcm_robobank_prototype.Service.Storing.{store_order-frame}
use xcm_robobank_prototype.Service.Placement.{IsPlaced as IsReceived, order_received-IsPlaced}
use xcm_robobank_prototype.Service.Hooks.{handle_message, handle_blob_message}
use xcm_robobank_prototype.Client.State.{
  Config as ClientConfig, State as ClientState, OrderBaseOf as ClientOrderBase,
  DeviceProfile as ClientProfile,
}
use xcm_robobank_prototype.Client.Calls.{order}
use xcm_robobank_prototype.Client.Placed.{IsPlaced}
use xcm_robobank_prototype.Client.Ordering.{order-IsPlaced}

-- The order as the service chain reads it, which may know the payload by another type.
abbrev pub carried :
    {P Q : Type 0}
    → (P → Q)
    → OrderBase P Balance Moment AccountId
    → OrderBase Q Balance Moment AccountId
carried payload o = record {
  until = o.until;
  payload = payload o.payload;
  fee = o.fee;
  device = o.device;
}

-- The service chain reads the orders that the client chain writes.
abbrev pub ReadsOrders :
    (C : ClientConfig) (T : ServiceConfig) → (C.OrderPayload → T.OrderPayload) → Type 0
ReadsOrders C T payload =
    (who : AccountId) (o : ClientOrderBase C)
    → T.codec.decode (C.codec.encode (XcmpMessage.new_order who o))
      ≡ some (XcmpMessage.new_order who (carried payload o))

module _ (T : ServiceConfig) (laws : CurrencyLaws T.currency) where
  pub received_remote :
      (o : ServiceOrder T) (d : AccountId) (dev : ServiceProfile) (s : ServiceState T)
      → Passes T o d s dev
      → (o.paraid == T.self_para_id) ≡ false
      → (order_received T o d s).0 ≡ ok tt
  unfolding order_received
  received_remote o d dev s passes far = ground (
    arith,
    Passes-check_order T o d s passes,
    check_order-state T o d s,
    lock_funds-remote T o d dev s far,
    store_order-frame T o d dev s,
  )

module _ (C : ClientConfig) (client_laws : CurrencyLaws C.currency)
    (reliable : XcmpMessageSenderLaws C.sender) (T : ServiceConfig) (laws : CurrencyLaws T.currency)
    (payload : C.OrderPayload → T.OrderPayload) (reads : ReadsOrders C T payload) where
  -- What the service chain does with the message of an order.
  pub handled_lem :
      (o : ClientOrderBase C) (who : AccountId) (s : ServiceState T) (sender : ParaId) (at : ℕ)
      → handle_blob_message T sender at (C.codec.encode (XcmpMessage.new_order who o)) s
        ≡ (order_received T (placed (carried payload o) who sender) o.device s).1
  unfolding handle_blob_message handle_message
  handled_lem o who s sender at = ground (arith, reads who o)

  -- A call of `order` that succeeds on the client chain, signed by the client, places the order
  -- there, and the message of the order is the last one sent, to the chain of the device. If a
  -- service chain other than the sender can read the orders of the client chain, and the order
  -- passes its tests when the message comes in, then it takes the order: the order is stored there
  -- for the same client, to be answered to the sender, its device gets the state that `on_received`
  -- answers, and no other entry changes.
  pub order-arrives :
      (o : ClientOrderBase C) (who : AccountId) (c : ClientState C) (origin : C.OriginFor)
      (s : ServiceState T) (dev : ServiceProfile) (sender : ParaId) (at : ℕ)
      → C.ensure_signed origin ≡ ok who
      → (order C origin o c).0 ≡ ok tt
      → Passes T (placed (carried payload o) who sender) o.device s dev
      → (sender == T.self_para_id) ≡ false
      → (profile : ClientProfile) × (blob : Blob) × IsPlaced c (order C origin o c).1 o who profile
        × (C.sender.sent (order C origin o c).1.queue
            ≡ C.sender.sent c.queue ++ (profile.paraid, blob) ∷ [])
        × (dev' : ServiceProfile) × IsReceived s
            (handle_blob_message T sender at blob s)
            (placed (carried payload o) who sender)
            o.device
            dev'
  order-arrives o who c origin s dev sender at signed success passes far =
      let (profile, was_placed) =
        order-IsPlaced C client_laws o who c origin signed reliable success in
      let order' : ServiceOrder T = placed (carried payload o) who sender in
      let taken =
        order_received-IsPlaced T laws order' o.device s
          (received_remote T laws order' o.device dev s passes far) in
      (
        profile,
        C.codec.encode (XcmpMessage.new_order who o),
        was_placed,
        was_placed.sent,
        taken.0,
        rw (handled_lem o who s sender at) taken.1,
      )
