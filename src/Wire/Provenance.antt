-- ===== src/Wire/Provenance.antt =====
-- Where the orders of the client chain on the service chain come from.
use mathlib.Core.List.Memᴰ
use xcm_robobank_prototype.Prelude.{◌≡◌, ◌≢◌, refl, sym, ap, inl, inr, none, some, arith, [], ◌∷◌}
use xcm_robobank_prototype.Frame.{AccountId, ParaId, Blob, ok, CurrencyLaws, XcmpMessageSenderLaws}
use xcm_robobank_prototype.Common.{XcmpMessage}
use xcm_robobank_prototype.Service.State.{
  Config as ServiceConfig, State as ServiceState, OrderOf as ServiceOrder,
  OrderBaseOf as ServiceOrderBase,
}
use xcm_robobank_prototype.Service.Orders.{placed}
use xcm_robobank_prototype.Service.Runs as ServiceRuns
use xcm_robobank_prototype.Service.Newcomers.{Brings, deliver-Comes}
use xcm_robobank_prototype.Client.State.{
  Config as ClientConfig, State as ClientState, OrderBaseOf as ClientOrderBase,
  DeviceProfile as ClientProfile,
}
use xcm_robobank_prototype.Client.Placed.{IsPlaced}
use xcm_robobank_prototype.Client.Posted.{Posts, deliver-Posts}
use xcm_robobank_prototype.Client.Runs as ClientRuns
use xcm_robobank_prototype.Client.Transitions.{Naming}
use xcm_robobank_prototype.Wire.Orders.{carried, ReadsOrders}
use xcm_robobank_prototype.Wire.Network.{HasSent, Genuine, Run, IsPart, Extends}

module _ (C : ClientConfig) (T : ServiceConfig) (Names : Naming C) (client_para : ParaId)
    (payload : C.OrderPayload → T.OrderPayload) where
  -- In the run `r` the client chain was given a call of `order`, signed by `who`, and placed the
  -- order: the money of both parties was reserved, and it was sent to the service chain.
  pub record WasPlaced {c₀ : ClientState C} {s₀ : ServiceState T} (c : ClientState C)
      (s : ServiceState T) (r : Run C T Names client_para c₀ s₀ c s) (who : AccountId)
      (b : ServiceOrderBase T) : Type 0 where
    pub client_then : ClientState C
    pub service_then : ServiceState T
    pub past : Run C T Names client_para c₀ s₀ client_then service_then
    pub call : ClientRuns.Input C
    pub allowed : ClientRuns.Allows Names call client_then
    pub in_run : IsPart C T Names client_para (Run.client past call allowed) c s r
    pub origin : C.OriginFor
    pub own : ClientOrderBase C
    pub ordered : call ≡ ClientRuns.Input.order_call origin own
    pub signed : C.ensure_signed origin ≡ ok who
    pub dev : ClientProfile
    pub is_placed : IsPlaced client_then (ClientRuns.deliver call client_then) own who dev
    pub here : dev.paraid ≡ T.self_para_id
    pub reads_as : b ≡ carried payload own

  -- An order of the client chain was placed there, by the client that it names and for the device.
  abbrev pub ComesFrom :
      {c₀ : ClientState C} {s₀ : ServiceState T} (c : ClientState C) (s : ServiceState T)
      → Run C T Names client_para c₀ s₀ c s
      → AccountId
      → ServiceOrder T
      → Type 0
  ComesFrom c s r d o =
      (b : ServiceOrderBase T) × WasPlaced c s r o.client b
      × (b.device ≡ d)
      × (o ≡ placed b o.client client_para)

  pub WasPlaced-later :
      {c₀ : ClientState C} {s₀ : ServiceState T} {c c' : ClientState C} {s s' : ServiceState T}
      {r : Run C T Names client_para c₀ s₀ c s} {r' : Run C T Names client_para c₀ s₀ c' s'}
      {who : AccountId} {b : ServiceOrderBase T}
      → Extends C T Names client_para c s r c' s' r'
      → WasPlaced c s r who b
      → WasPlaced c' s' r' who b
  WasPlaced-later goes_on w = record {
    client_then = w.client_then;
    service_then = w.service_then;
    past = w.past;
    call = w.call;
    allowed = w.allowed;
    in_run = goes_on _ _ _ w.in_run;
    origin = w.origin;
    own = w.own;
    ordered = w.ordered;
    signed = w.signed;
    dev = w.dev;
    is_placed = w.is_placed;
    here = w.here;
    reads_as = w.reads_as;
  }

  ComesFrom-later :
      {c₀ : ClientState C} {s₀ : ServiceState T} {c c' : ClientState C} {s s' : ServiceState T}
      {r : Run C T Names client_para c₀ s₀ c s} {r' : Run C T Names client_para c₀ s₀ c' s'}
      {d : AccountId} {o : ServiceOrder T}
      → Extends C T Names client_para c s r c' s' r'
      → ComesFrom c s r d o
      → ComesFrom c' s' r' d o
  ComesFrom-later goes_on (b, was_placed, for_device, same) =
      (b, WasPlaced-later goes_on was_placed, for_device, same)

  -- Every order that the service chain can read in what it was sent was placed.
  abbrev AllPlaced :
      {c₀ : ClientState C} {s₀ : ServiceState T} (c : ClientState C) (s : ServiceState T)
      → Run C T Names client_para c₀ s₀ c s
      → Type 0
  AllPlaced c s r =
      (blob : Blob) (who : AccountId) (b : ServiceOrderBase T)
      → HasSent C T client_para c blob
      → T.codec.decode blob ≡ some (XcmpMessage.new_order who b)
      → WasPlaced c s r who b

  module _ (client_laws : CurrencyLaws C.currency) (reliable : XcmpMessageSenderLaws C.sender)
      (reads : ReadsOrders C T payload) (garbled : T.codec.decode (0x00 ∷ 0x20 ∷ []) ≡ none) where
    new_order-inj :
        {who who' : AccountId} {b b' : ServiceOrderBase T} {blob : Blob}
        → T.codec.decode blob ≡ some (XcmpMessage.new_order who b)
        → T.codec.decode blob ≡ some (XcmpMessage.new_order who' b')
        → (who ≡ who') × (b ≡ b')
    new_order-inj h k = ground (arith, h, k)

    Posts-AllPlaced :
        {c₀ : ClientState C} {s₀ : ServiceState T} (c : ClientState C) (s : ServiceState T)
        (r : Run C T Names client_para c₀ s₀ c s) (i : ClientRuns.Input C)
        (allowed : ClientRuns.Allows Names i c)
        → Posts i c (ClientRuns.deliver i c)
        → AllPlaced c s r
        → AllPlaced (ClientRuns.deliver i c) s (Run.client r i allowed)
    Posts-AllPlaced c s r i allowed (Posts.quiet same) h blob who b sent decoded =
        WasPlaced-later (λ _ _ _ part. IsPart.client r i allowed part)
          (h blob who b (rw same at sent) decoded)
    Posts-AllPlaced c s r i allowed (Posts.tested new) h blob who b sent decoded =
        elim (Memᴰ.append_cases (C.sender.sent c.queue) (rw new at sent)) [
          | inl old ↦
              WasPlaced-later (λ _ _ _ part. IsPart.client r i allowed part)
                (h blob who b old decoded)
          | inr last ↦
              absurd (ground (arith, garbled, ap (λ m. m.1) (Memᴰ.eq_of_singleton last), decoded))
        ]
    Posts-AllPlaced c s r i allowed (Posts.ordered origin o client dev called signed is_placed) h
          blob who b sent decoded =
        elim (Memᴰ.append_cases (C.sender.sent c.queue) (rw is_placed.sent at sent)) [
          | inl old ↦
              WasPlaced-later (λ _ _ _ part. IsPart.client r i allowed part)
                (h blob who b old decoded)
          | inr last ↦
              let e = Memᴰ.eq_of_singleton last in
              let (same_client, same_order) =
                new_order-inj (rw (ap (λ m. m.1) e) at decoded) (reads client o) in
              record {
                client_then = c;
                service_then = s;
                past = r;
                call = i;
                allowed = allowed;
                in_run = IsPart.whole;
                origin = origin;
                own = o;
                ordered = called;
                signed = rw same_client signed;
                dev = dev;
                is_placed = rw same_client is_placed;
                here = sym (ap (λ m. m.0) e);
                reads_as = same_order;
              }
        ]

    Run-AllPlaced :
        {c₀ : ClientState C} {s₀ : ServiceState T} {c : ClientState C} {s : ServiceState T}
        → C.sender.sent c₀.queue ≡ []
        → (r : Run C T Names client_para c₀ s₀ c s) → AllPlaced c s r
    Run-AllPlaced empty Run.here =
        λ blob who b sent decoded. absurd (Memᴰ.not-nil (rw empty at sent))
    Run-AllPlaced empty (Run.client {c} {s} r i allowed) =
        Posts-AllPlaced c s r i allowed (deliver-Posts C client_laws reliable c i)
          (Run-AllPlaced empty r)
    Run-AllPlaced empty (Run.client_elsewhere r later kept devices orders unsent) =
        λ blob who b sent decoded.
          WasPlaced-later
            (λ _ _ _ part. IsPart.client_elsewhere r later kept devices orders unsent part)
            (Run-AllPlaced empty r blob who b (rw unsent at sent) decoded)
    Run-AllPlaced empty (Run.service r i genuine) = λ blob who b sent decoded.
        WasPlaced-later (λ _ _ _ part. IsPart.service r i genuine part)
          (Run-AllPlaced empty r blob who b sent decoded)
    Run-AllPlaced empty (Run.service_elsewhere r later kept devices orders unsent) =
        λ blob who b sent decoded.
          WasPlaced-later
            (λ _ _ _ part. IsPart.service_elsewhere r later kept devices orders unsent part)
            (Run-AllPlaced empty r blob who b sent decoded)

    -- An order that an input of the service chain brings in the name of the client chain.
    Brings-ComesFrom :
        {c₀ : ClientState C} {s₀ : ServiceState T} (c : ClientState C) (s : ServiceState T)
        (r : Run C T Names client_para c₀ s₀ c s) {d : AccountId} {o : ServiceOrder T}
        (i : ServiceRuns.Input T)
        → T.self_para_id ≢ client_para
        → AllPlaced c s r
        → Genuine C T client_para c i
        → Brings T i d o
        → o.paraid ≡ client_para
        → ComesFrom c s r d o
    Brings-ComesFrom c s r i apart all genuine (Brings.signed origin b who signed) from =
        absurd (apart from)
    Brings-ComesFrom c s r i apart all genuine (Brings.sent sender at blob client b decoded) from =
        (b, all blob client b (genuine from) decoded, refl, ap (λ p. placed b client p) from)

    -- The two chains run together, and the service chain has no order of the client chain at the
    -- start, where nothing has been sent yet. Then each order that a device of the service chain
    -- has for the client chain was placed there earlier in the run: the client chain was given a
    -- call of `order` for this device and on these terms, signed by the client that the order
    -- names, and it reserved the money of both parties and sent the order. So it is even if
    -- messages are lost, late, out of order or repeated, and whatever other chains send. The
    -- service chain must read the orders that the client chain writes, and no message in the blob
    -- of `test`.
    pub Run-ComesFrom :
        {c₀ : ClientState C} {s₀ : ServiceState T} {c : ClientState C} {s : ServiceState T}
        → T.self_para_id ≢ client_para
        → C.sender.sent c₀.queue ≡ []
        → ((d : AccountId) (o : ServiceOrder T) → s₀.orders d ≡ some o → o.paraid ≢ client_para)
        → (r : Run C T Names client_para c₀ s₀ c s) (d : AccountId) (o : ServiceOrder T)
        → s.orders d ≡ some o
        → o.paraid ≡ client_para
        → ComesFrom c s r d o
    Run-ComesFrom apart empty fresh Run.here = λ d o stored from. absurd (fresh d o stored from)
    Run-ComesFrom apart empty fresh (Run.client r i allowed) = λ d o stored from.
        ComesFrom-later (λ _ _ _ part. IsPart.client r i allowed part)
          (Run-ComesFrom apart empty fresh r d o stored from)
    Run-ComesFrom apart empty fresh (Run.client_elsewhere r later kept devices orders unsent) =
        λ d o stored from.
          ComesFrom-later
            (λ _ _ _ part. IsPart.client_elsewhere r later kept devices orders unsent part)
            (Run-ComesFrom apart empty fresh r d o stored from)
    Run-ComesFrom apart empty fresh (Run.service {c} {s} r i genuine) = λ d o stored from.
        ComesFrom-later (λ _ _ _ part. IsPart.service r i genuine part)
          (elim (deliver-Comes T s d i o stored) [
            | inl old ↦ Run-ComesFrom apart empty fresh r d o old from
            | inr new ↦ Brings-ComesFrom c s r i apart (Run-AllPlaced empty r) genuine new from
          ])
    Run-ComesFrom apart empty fresh (Run.service_elsewhere r later kept devices orders unsent) =
        λ d o stored from.
          ComesFrom-later
            (λ _ _ _ part. IsPart.service_elsewhere r later kept devices orders unsent part)
            (Run-ComesFrom apart empty fresh r d o (rw orders at stored) from)
