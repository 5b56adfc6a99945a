-- ===== src/Wire/Earned.antt =====
-- Which payments the service chain claims on the client chain.
use mathlib.Core.List.{Memᴰ}
use mathlib.Core.List.Memᴰ
use xcm_robobank_prototype.Prelude.{
  ℕ, ◌≡◌, ◌≢◌, refl, sym, ap, inl, inr, none, some, arith, [], ◌∷◌, Bool,
}
use xcm_robobank_prototype.Frame.{AccountId, ParaId, Blob, ok, CurrencyLaws, XcmpMessageSenderLaws}
use xcm_robobank_prototype.Common.{DeviceState, XcmpMessage}
use xcm_robobank_prototype.Service.State.{
  Config as ServiceConfig, State as ServiceState, OrderOf as ServiceOrder,
  DeviceProfile as ServiceProfile,
}
use xcm_robobank_prototype.Service.Answered.{IsFree, Tells, Sends}
use xcm_robobank_prototype.Service.Answered.Inputs.{deliver-Sends}
use xcm_robobank_prototype.Service.Runs as ServiceRuns
use xcm_robobank_prototype.Client.State.{Config as ClientConfig, State as ClientState}
use xcm_robobank_prototype.Client.Transitions.{Naming}
use xcm_robobank_prototype.Wire.Orders.{ReadsOrders}
use xcm_robobank_prototype.Wire.Network.{Run, Genuine, IsPart, Extends}
use xcm_robobank_prototype.Wire.Provenance.{ComesFrom, Run-ComesFrom}

-- The client chain reads the answers that the service chain writes.
pub record ReadsAnswers (C : ClientConfig) (T : ServiceConfig) : Type 0 where
  pub accepts :
      (who d : AccountId)
      → C.codec.decode (T.codec.encode (XcmpMessage.order_accept who d))
        ≡ some (XcmpMessage.order_accept who d)
  pub rejects :
      (who d : AccountId) (onoff : Bool)
      → C.codec.decode (T.codec.encode (XcmpMessage.order_reject who d onoff))
        ≡ some (XcmpMessage.order_reject who d onoff)
  pub dones :
      (who d : AccountId) (onoff : Bool)
      → C.codec.decode (T.codec.encode (XcmpMessage.order_done who d onoff))
        ≡ some (XcmpMessage.order_done who d onoff)

-- The service chain has told the client chain that device `d` has finished an order of `who`.
module _ (C : ClientConfig) (T : ServiceConfig) (client_para : ParaId) where
  abbrev pub Claims : ServiceState T → AccountId → AccountId → Bool → Type 0
  Claims s who d onoff =
      (blob : Blob) × Memᴰ (client_para, blob) (T.sender.sent s.queue)
      × (C.codec.decode blob ≡ some (XcmpMessage.order_done who d onoff))

module _ (C : ClientConfig) (T : ServiceConfig) (Names : Naming C) (client_para : ParaId)
    (payload : C.OrderPayload → T.OrderPayload) where
  -- In the run `r` the service chain was given a call of `done`, signed by device `d`, which was in
  -- `Busy2` with an order of `who`; and earlier in the run this order was placed on the client chain.
  pub record IsEarned {c₀ : ClientState C} {s₀ : ServiceState T} (c : ClientState C)
      (s : ServiceState T) (r : Run C T Names client_para c₀ s₀ c s) (who d : AccountId)
      (onoff : Bool) : Type 0 where
    pub client_then : ClientState C
    pub service_then : ServiceState T
    pub past : Run C T Names client_para c₀ s₀ client_then service_then
    pub call : ServiceRuns.Input T
    pub genuine : Genuine C T client_para client_then call
    pub in_run : IsPart C T Names client_para (Run.service past call genuine) c s r
    pub origin : T.OriginFor
    pub finished : call ≡ ServiceRuns.Input.done_call origin onoff
    pub signed : T.ensure_signed origin ≡ ok d
    pub order : ServiceOrder T
    pub stored : service_then.orders d ≡ some order
    pub its_client : order.client ≡ who
    pub dev : ServiceProfile
    pub known : service_then.device d ≡ some dev
    pub working : dev.state ≡ DeviceState.busy2
    pub gone : (ServiceRuns.deliver call service_then).orders d ≡ none
    pub comes_from : ComesFrom C T Names client_para payload client_then service_then past d order

  IsEarned-later :
      {c₀ : ClientState C} {s₀ : ServiceState T} {c c' : ClientState C} {s s' : ServiceState T}
      {r : Run C T Names client_para c₀ s₀ c s} {r' : Run C T Names client_para c₀ s₀ c' s'}
      {who d : AccountId} {onoff : Bool}
      → Extends C T Names client_para c s r c' s' r'
      → IsEarned c s r who d onoff
      → IsEarned c' s' r' who d onoff
  IsEarned-later goes_on w = record {
    client_then = w.client_then;
    service_then = w.service_then;
    past = w.past;
    call = w.call;
    genuine = w.genuine;
    in_run = goes_on _ _ _ w.in_run;
    origin = w.origin;
    finished = w.finished;
    signed = w.signed;
    order = w.order;
    stored = w.stored;
    its_client = w.its_client;
    dev = w.dev;
    known = w.known;
    working = w.working;
    gone = w.gone;
    comes_from = w.comes_from;
  }

  abbrev AllEarned :
      {c₀ : ClientState C} {s₀ : ServiceState T} (c : ClientState C) (s : ServiceState T)
      → Run C T Names client_para c₀ s₀ c s
      → ServiceState T
      → Type 0
  AllEarned c s r t =
      (who d : AccountId) (onoff : Bool)
      → Claims C T client_para t who d onoff
      → IsEarned c s r who d onoff

  module _ (reads_answers : ReadsAnswers C T) where
    -- A blob that does not claim a payment is not read as one that does.
    IsFree-unclaimed :
        (m : XcmpMessage AccountId ℕ T.OrderPayload ℕ) {who d : AccountId} {onoff : Bool}
        → IsFree m
        → C.codec.decode (T.codec.encode m) ≡ some (XcmpMessage.order_done who d onoff)
        → ⊥
    IsFree-unclaimed (XcmpMessage.order_accept who d) kind claimed =
        ground (arith, reads_answers.accepts who d, claimed)
    IsFree-unclaimed (XcmpMessage.order_reject who d onoff) kind claimed =
        ground (arith, reads_answers.rejects who d onoff, claimed)
    IsFree-unclaimed (XcmpMessage.new_order _ _) kind claimed = absurd kind
    IsFree-unclaimed (XcmpMessage.order_done _ _ _) kind claimed = absurd kind

    Tells-AllEarned :
        {c₀ : ClientState C} {s₀ : ServiceState T} {c' : ClientState C} {s' : ServiceState T}
        {r : Run C T Names client_para c₀ s₀ c' s'} (s t : ServiceState T)
        → Tells T s.queue t.queue
        → AllEarned c' s' r s
        → AllEarned c' s' r t
    Tells-AllEarned s t (Tells.quiet same) h =
        λ who d onoff (blob, sent, decoded). h who d onoff (blob, rw same at sent, decoded)
    Tells-AllEarned s t (Tells.told p m kind new) h = λ who d onoff (blob, sent, decoded).
        elim (Memᴰ.append_cases (T.sender.sent s.queue) (rw new at sent)) [
          | inl old ↦ h who d onoff (blob, old, decoded)
          | inr last ↦
              absurd (
                IsFree-unclaimed m kind (rw (ap (λ n. n.1) (Memᴰ.eq_of_singleton last)) at decoded))
        ]

    order_done-inj :
        {who who' d d' : AccountId} {onoff onoff' : Bool} {blob : Blob}
        → C.codec.decode blob ≡ some (XcmpMessage.order_done who d onoff)
        → C.codec.decode blob ≡ some (XcmpMessage.order_done who' d' onoff')
        → (who ≡ who') × (d ≡ d') × (onoff ≡ onoff')
    order_done-inj h k = ground (arith, h, k)

    -- The orders of the client chain that are stored come from it.
    abbrev AllCome :
        {c₀ : ClientState C} {s₀ : ServiceState T} (c : ClientState C) (s : ServiceState T)
        → Run C T Names client_para c₀ s₀ c s
        → Type 0
    AllCome c s r =
        (d : AccountId) (o : ServiceOrder T)
        → s.orders d ≡ some o
        → o.paraid ≡ client_para
        → ComesFrom C T Names client_para payload c s r d o

    Sends-AllEarned :
        {c₀ : ClientState C} {s₀ : ServiceState T} (c : ClientState C) (s : ServiceState T)
        (r : Run C T Names client_para c₀ s₀ c s) (i : ServiceRuns.Input T)
        (genuine : Genuine C T client_para c i)
        → AllCome c s r
        → Sends T i s (ServiceRuns.deliver i s)
        → AllEarned c (ServiceRuns.deliver i s) (Run.service r i genuine) s
        → AllEarned c (ServiceRuns.deliver i s) (Run.service r i genuine) (ServiceRuns.deliver i s)
    Sends-AllEarned c s r i genuine come (Sends.harmless tells) h =
        Tells-AllEarned s (ServiceRuns.deliver i s) tells h
    Sends-AllEarned c s r i genuine come
          (Sends.finishing origin d o dev onoff called signed stored known working gone new) h =
        λ who d' onoff' (blob, sent, decoded).
          elim (Memᴰ.append_cases (T.sender.sent s.queue) (rw new at sent)) [
            | inl old ↦ h who d' onoff' (blob, old, decoded)
            | inr last ↦
                let e = Memᴰ.eq_of_singleton last in
                let (same_client, same_device, same_onoff) =
                  order_done-inj (reads_answers.dones o.client d onoff)
                    (rw (ap (λ n. n.1) e) at decoded) in
                rw (sym same_client, sym same_device, sym same_onoff)
                  (record {
                    client_then = c;
                    service_then = s;
                    past = r;
                    call = i;
                    genuine = genuine;
                    in_run = IsPart.whole;
                    origin = origin;
                    finished = called;
                    signed = signed;
                    order = o;
                    stored = stored;
                    its_client = refl;
                    dev = dev;
                    known = known;
                    working = working;
                    gone = ground (arith, gone);
                    comes_from = come d o stored (sym (ap (λ n. n.0) e));
                  })
          ]

    module _ (client_laws : CurrencyLaws C.currency)
        (client_reliable : XcmpMessageSenderLaws C.sender)
        (reliable : XcmpMessageSenderLaws T.sender) (reads_orders : ReadsOrders C T payload)
        (garbled : T.codec.decode (0x00 ∷ 0x20 ∷ []) ≡ none) (c₀ : ClientState C)
        (s₀ : ServiceState T) (apart : T.self_para_id ≢ client_para)
        (empty : C.sender.sent c₀.queue ≡ []) (unanswered : T.sender.sent s₀.queue ≡ [])
        (fresh : (d : AccountId) (o : ServiceOrder T)
          → s₀.orders d ≡ some o
          → o.paraid ≢ client_para) where
      come :
          {c : ClientState C} {s : ServiceState T} (r : Run C T Names client_para c₀ s₀ c s)
          → AllCome c s r
      come =
          Run-ComesFrom C T Names client_para payload client_laws client_reliable reads_orders
            garbled apart empty fresh

      -- The two chains run together from states in which nothing has been sent and the service
      -- chain has no order of the client chain. Then for each message by which the service chain
      -- claims a payment on the client chain, the service chain was given a call of `done` earlier
      -- in the run, signed by the device that the message names, which was in `Busy2` with an order
      -- of the client that it names, and this order was then gone. Before that in the run, the order
      -- was placed on the client chain: by a call signed by this client, for this device, with the
      -- money of both reserved. So it is even if messages are lost, late, out of order or repeated,
      -- and whatever other chains send. Each chain must read what the other writes, and the service
      -- chain no message in the blob of `test`.
      pub Run-IsEarned :
          {c : ClientState C} {s : ServiceState T} (r : Run C T Names client_para c₀ s₀ c s)
          (who d : AccountId) (onoff : Bool)
          → Claims C T client_para s who d onoff
          → IsEarned c s r who d onoff
      Run-IsEarned Run.here =
          λ who d onoff (blob, sent, decoded). absurd (Memᴰ.not-nil (rw unanswered at sent))
      Run-IsEarned (Run.client r i allowed) = λ who d onoff claim.
          IsEarned-later (λ _ _ _ part. IsPart.client r i allowed part)
            (Run-IsEarned r who d onoff claim)
      Run-IsEarned (Run.client_elsewhere r later kept devices orders unsent) = λ who d onoff claim.
          IsEarned-later
            (λ _ _ _ part. IsPart.client_elsewhere r later kept devices orders unsent part)
            (Run-IsEarned r who d onoff claim)
      Run-IsEarned (Run.service {c} {s} r i genuine) =
          Sends-AllEarned c s r i genuine (come r) (deliver-Sends T reliable s i)
            (λ who d onoff claim.
              IsEarned-later (λ _ _ _ part. IsPart.service r i genuine part)
                (Run-IsEarned r who d onoff claim))
      Run-IsEarned (Run.service_elsewhere {s = s} {s'} r later kept devices orders unsent) =
          λ who d onoff (blob, sent, decoded).
            IsEarned-later
              (λ _ _ _ part. IsPart.service_elsewhere r later kept devices orders unsent part)
              (Run-IsEarned r who d onoff (blob, rw unsent at sent, decoded))
