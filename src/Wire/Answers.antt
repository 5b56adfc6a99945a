-- ===== src/Wire/Answers.antt =====
-- The end of an order goes from the service chain to the client chain, which settles it.
use xcm_robobank_prototype.Prelude.{
  ℕ, ◌≤◌, ◌≡◌, ◌≢◌, Bool, true, false, some, arith, ltb, ◌==◌, if◌then◌else◌, [], ◌∷◌, ◌++◌,
}
use xcm_robobank_prototype.Frame.{
  AccountId, ParaId, Blob, ok, free, CurrencyLaws, XcmpMessageSenderLaws, ServiceQuality, remove,
}
use xcm_robobank_prototype.Common.{DeviceState, on_or_off, XcmpMessage}
use xcm_robobank_prototype.Service.State.{
  Config as ServiceConfig, State as ServiceState, OrderOf as ServiceOrder,
  DeviceProfile as ServiceProfile,
}
use xcm_robobank_prototype.Service.Orders.{order_done, order_reject}
use xcm_robobank_prototype.Service.Calls.{done, accept}
use xcm_robobank_prototype.Service.Engaged.{IsWorking}
use xcm_robobank_prototype.Client.State.{
  Config as ClientConfig, State as ClientState, OrderOf as ClientOrder,
  DeviceProfile as ClientProfile,
}
use xcm_robobank_prototype.Client.Messages.{on_done, on_reject}
use xcm_robobank_prototype.Client.Hooks.{handle_blob_message, handle_message}
use xcm_robobank_prototype.Client.Escrow.{IsCovered}
use xcm_robobank_prototype.Client.Settlement.{IsSettled, on_done-IsSettled, on_reject-IsSettled}

-- What a service chain leaves when it has answered an order: the blob for the chain of the client
-- is the last one sent, the order is gone, and no money has moved.
pub record IsAnswered {T : ServiceConfig} (s t : ServiceState T) (d : AccountId) (paraid : ParaId)
    (blob : Blob) : Type 0 where
  pub sent : T.sender.sent t.queue ≡ T.sender.sent s.queue ++ (paraid, blob) ∷ []
  pub order_gone : t.orders ≡ remove d s.orders
  pub money_kept : t.ledger ≡ s.ledger

module _ (T : ServiceConfig) (reliable : XcmpMessageSenderLaws T.sender) (s : ServiceState T)
    (d : AccountId) (o : ServiceOrder T) (dev : ServiceProfile) (ordered : s.orders d ≡ some o)
    (known : s.device d ≡ some dev) (far : (o.paraid == T.self_para_id) ≡ false)
    (origin : T.OriginFor) (signed : T.ensure_signed origin ≡ ok d) (onoff : Bool) where
  abbrev pub done_blob : Blob
  done_blob = T.codec.encode (XcmpMessage.order_done o.client d onoff)

  abbrev pub reject_blob : Blob
  reject_blob = T.codec.encode (XcmpMessage.order_reject o.client d onoff)

  pub done-IsAnswered :
      dev.state ≡ DeviceState.busy2
      → (T.sender.send_blob_message s.queue o.paraid done_blob ServiceQuality.ordered).0 ≡ ok tt
      → ((done T origin onoff s).0 ≡ ok tt)
        × IsAnswered s (done T origin onoff s).1 d o.paraid done_blob
  unfolding done order_done
  done-IsAnswered working taken = (
    ground arith,
    record {
      sent =
          ground (arith, reliable.sent_ok s.queue o.paraid done_blob ServiceQuality.ordered taken);
      order_gone = ground arith;
      money_kept = ground arith;
    },
  )

  reject-IsAnswered :
      IsWorking dev.state
      → (T.sender.send_blob_message s.queue o.paraid reject_blob ServiceQuality.ordered).0 ≡ ok tt
      → ((accept T origin true onoff s).0 ≡ ok tt)
        × IsAnswered s (accept T origin true onoff s).1 d o.paraid reject_blob
  unfolding accept order_reject
  reject-IsAnswered working taken = (
    ground arith,
    record {
      sent =
          ground
            (arith, reliable.sent_ok s.queue o.paraid reject_blob ServiceQuality.ordered taken);
      order_gone = ground arith;
      money_kept = ground arith;
    },
  )

  -- The client chain has an order for the same device and the same client.
  module _ (C : ClientConfig) (client_laws : CurrencyLaws C.currency) (c : ClientState C)
      (order : ClientOrder C) (profile : ClientProfile) (stored : c.orders d ≡ some order)
      (registered : c.device d ≡ some profile) (covered : IsCovered c)
      (same : order.client ≡ o.client) (two : order.client ≢ d) (sender : ParaId) (at : ℕ) where
    open C.currency use {exists, repatriate_reserved}

    pub handled_done :
        C.codec.decode done_blob ≡ some (XcmpMessage.order_done o.client d onoff)
        → handle_blob_message C sender at done_blob c ≡ (on_done C order.client d onoff c).1
    unfolding handle_blob_message handle_message
    handled_done reads = ground (arith, reads, same)

    handled_reject :
        C.codec.decode reject_blob ≡ some (XcmpMessage.order_reject o.client d onoff)
        → handle_blob_message C sender at reject_blob c ≡ (on_reject C order.client d onoff c).1
    unfolding handle_blob_message handle_message
    handled_reject reads = ground (arith, reads, same)

    -- A registered device in `Busy2` finishes the order of another chain, signed by the device. If
    -- the sender takes the message, `done` succeeds, sends that chain one message, removes the
    -- order and moves no money. When a client chain gets the message, it pays the fee of its own
    -- order of this device to the device, and gives the penalty to the device before the deadline
    -- and to the client from then on; the order is gone and no other balance changes. For this the
    -- client chain must read the blob, its orders must be covered, the device must be registered
    -- there and have an order there, of the client that the message names and other than the
    -- device, the device's account must exist there, and from the deadline on that of the client
    -- once the fee is taken from it. The currency must leave a payer what it has left, as the laws
    -- say.
    pub done-arrives :
        dev.state ≡ DeviceState.busy2
        → (T.sender.send_blob_message s.queue o.paraid done_blob ServiceQuality.ordered).0 ≡ ok tt
        → C.codec.decode done_blob ≡ some (XcmpMessage.order_done o.client d onoff)
        → exists c.ledger d ≡ true
        → (order.until ≤ c.now
            → exists (repatriate_reserved c.ledger order.client d order.fee free).1 order.client
              ≡ true)
        → (blob : Blob) × ((done T origin onoff s).0 ≡ ok tt)
          × IsAnswered s (done T origin onoff s).1 d o.paraid blob
          × IsSettled c
              (handle_blob_message C sender at blob c)
              d
              order
              profile
              (on_or_off onoff)
              d
              (if ltb c.now order.until then d else order.client)
    done-arrives working taken reads e f =
        let (success, answered) = done-IsAnswered working taken in
        (
          done_blob,
          success,
          answered,
          rw (handled_done reads)
              (on_done-IsSettled C client_laws c d order profile stored registered covered two onoff
                e f).1,
        )

    -- A registered device in `Busy` or `Busy2` rejects the order of another chain, signed by the
    -- device. If the sender takes the message, `accept` succeeds, sends that chain one message,
    -- removes the order and moves no money. When a client chain gets the message, it gives the fee
    -- of its own order of this device back to the client, and the penalty to the device before the
    -- deadline and to the client from then on; the order is gone and no other balance changes. For
    -- this the client chain must read the blob, its orders must be covered, the device must be
    -- registered there and have an order there, of the client that the message names and other than
    -- the device, and that client's account must exist there. The currency must leave a payer what
    -- it has left, as the laws say.
    pub reject-arrives :
        IsWorking dev.state
        → (T.sender.send_blob_message s.queue o.paraid reject_blob ServiceQuality.ordered).0 ≡ ok tt
        → C.codec.decode reject_blob ≡ some (XcmpMessage.order_reject o.client d onoff)
        → exists c.ledger order.client ≡ true
        → (blob : Blob) × ((accept T origin true onoff s).0 ≡ ok tt)
          × IsAnswered s (accept T origin true onoff s).1 d o.paraid blob
          × IsSettled c
              (handle_blob_message C sender at blob c)
              d
              order
              profile
              (on_or_off onoff)
              order.client
              (if ltb c.now order.until then d else order.client)
    reject-arrives working taken reads e =
        let (success, answered) = reject-IsAnswered working taken in
        (
          reject_blob,
          success,
          answered,
          rw (handled_reject reads)
              (on_reject-IsSettled C client_laws c d order profile stored registered covered two
                onoff e).1,
        )
