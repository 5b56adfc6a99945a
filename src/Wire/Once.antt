-- ===== src/Wire/Once.antt =====
-- How often an order can be paid, if no message arrives twice.
use xcm_robobank_prototype.Prelude.{
  ℕ, ◌≡◌, ◌≢◌, ◌≤◌, ◌+◌, ◌⊎◌, refl, inl, inr, Option, none, some, arith, List, [], ◌∷◌, ◌++◌, ◌==◌,
  if◌then◌else◌, ap, Option-cases,
}
use xcm_robobank_prototype.Frame.{AccountId, ParaId, Blob, XcmpMessageSenderLaws}
use xcm_robobank_prototype.Common.{XcmpMessage}
use xcm_robobank_prototype.Service.State.{
  Config as ServiceConfig, State as ServiceState, OrderOf as ServiceOrder,
}
use xcm_robobank_prototype.Service.Runs as ServiceRuns
use xcm_robobank_prototype.Service.Newcomers.{Brings, deliver-Comes}
use xcm_robobank_prototype.Service.Answered.{IsFree, Tells, Sends}
use xcm_robobank_prototype.Service.Answered.Inputs.{deliver-Sends}
use xcm_robobank_prototype.Client.State.{Config as ClientConfig, State as ClientState}
use xcm_robobank_prototype.Wire.Earned.{ReadsAnswers}
use xcm_robobank_prototype.Wire.Flow.{
  IsElsewhere, Flow, total-++, as_order, as_claim, orders_in, claims_in, held, brought, claims_of,
}

module _ (C : ClientConfig) (T : ServiceConfig) (client_para : ParaId) (who d : AccountId) where
  Brings-brought :
      (i : ServiceRuns.Input T) (o : ServiceOrder T)
      → T.self_para_id ≢ client_para
      → Brings T i d o
      → held C T client_para who d (some o) ≤ brought C T client_para who d i
  Brings-brought i o apart (Brings.signed origin b client signed) = ground (arith, apart)
  Brings-brought i o apart (Brings.sent sender at blob client b decoded) = ground (arith, decoded)

  held-deliver_le :
      (i : ServiceRuns.Input T) (s : ServiceState T)
      → T.self_para_id ≢ client_para
      → held C T client_para who d ((ServiceRuns.deliver i s).orders d)
        ≤ held C T client_para who d (s.orders d) + brought C T client_para who d i
  held-deliver_le i s apart = elim (Option-cases ((ServiceRuns.deliver i s).orders d)) [
    | inl gone ↦ rw gone (omega arith)
    | inr (o, now) ↦ elim (deliver-Comes T s d i o now) [
      | inl before ↦ rw (now, before) (omega arith)
      | inr brings ↦ rw now (omega (arith, Brings-brought i o apart brings))
    ]
  ]

  module _ (reads_answers : ReadsAnswers C T) where
    IsFree-as_claim :
        (m : XcmpMessage AccountId ℕ T.OrderPayload ℕ)
        → IsFree m
        → as_claim C T client_para who d (C.codec.decode (T.codec.encode m)) ≡ 0
    IsFree-as_claim (XcmpMessage.order_accept client device) kind =
        ground (arith, reads_answers.accepts client device)
    IsFree-as_claim (XcmpMessage.order_reject client device onoff) kind =
        ground (arith, reads_answers.rejects client device onoff)
    IsFree-as_claim (XcmpMessage.new_order _ _) kind = absurd kind
    IsFree-as_claim (XcmpMessage.order_done _ _ _) kind = absurd kind

    claims_in-snoc :
        (l : List (ParaId × Blob)) (p : ParaId) (blob : Blob)
        → claims_in C T client_para who d (l ++ (p, blob) ∷ [])
          ≡ claims_in C T client_para who d l
            + (if p == client_para then as_claim C T client_para who d (C.codec.decode blob) else 0)
    claims_in-snoc l p blob = omega (
      arith,
      total-++
          (λ (m : ParaId × Blob).
            if m.0 == client_para then as_claim C T client_para who d (C.codec.decode m.1) else 0)
          l ((p, blob) ∷ []),
    )

    Tells-claims :
        (s t : ServiceState T)
        → Tells T s.queue t.queue
        → claims_of C T client_para who d t ≡ claims_of C T client_para who d s
    Tells-claims s t (Tells.quiet same) = ap (claims_in C T client_para who d) same
    Tells-claims s t (Tells.told p m kind new) = rw new (
        ground (
          arith,
          claims_in-snoc (T.sender.sent s.queue) p (T.codec.encode m),
          IsFree-as_claim m kind,
        ))

    -- What is sent claims nothing, or the order of the device, which is then gone.
    Sends-claims :
        {i : ServiceRuns.Input T} (s t : ServiceState T)
        → Sends T i s t
        → (claims_of C T client_para who d t ≡ claims_of C T client_para who d s)
          ⊎ ((claims_of C T client_para who d t
                ≡ claims_of C T client_para who d s + held C T client_para who d (s.orders d))
              × (t.orders d ≡ none))
    Sends-claims s t (Sends.harmless tells) = inl (Tells-claims s t tells)
    Sends-claims s t
          (Sends.finishing origin device o dev onoff called signed stored known working gone new) =
        rw new (
          ground (
            arith,
            claims_in-snoc (T.sender.sent s.queue) o.paraid
                (T.codec.encode (XcmpMessage.order_done o.client device onoff)),
            reads_answers.dones o.client device onoff,
            stored,
            gone,
          ))

    -- One input of the service chain.
    deliver-claims_le :
        XcmpMessageSenderLaws T.sender
        → T.self_para_id ≢ client_para
        → (i : ServiceRuns.Input T) (s : ServiceState T)
        → let t = ServiceRuns.deliver i s in
          claims_of C T client_para who d t + held C T client_para who d (t.orders d)
          ≤ claims_of C T client_para who d s
            + held C T client_para who d (s.orders d)
            + brought C T client_para who d i
    deliver-claims_le reliable apart i s =
        elim (Sends-claims s (ServiceRuns.deliver i s) (deliver-Sends T reliable s i)) [
          | inl same ↦ omega (arith, same, held-deliver_le i s apart)
          | inr (more, gone) ↦ rw (more, gone) (omega arith)
        ]

    orders_in-arrived :
        (before after : List (ParaId × Blob)) (blob : Blob)
        → orders_in C T client_para who d (before ++ (T.self_para_id, blob) ∷ after)
          ≡ orders_in C T client_para who d (before ++ after)
            + as_order C T client_para who d (T.codec.decode blob)
    orders_in-arrived before after blob =
        let f = λ (m : ParaId × Blob).
          if m.0 == T.self_para_id
          then as_order C T client_para who d (T.codec.decode m.1)
          else 0 in
        ground (arith, total-++ f before ((T.self_para_id, blob) ∷ after), total-++ f before after)

    IsElsewhere-brought :
        (i : ServiceRuns.Input T)
        → IsElsewhere C T client_para i
        → brought C T client_para who d i ≡ 0
    IsElsewhere-brought (ServiceRuns.Input.blob_received sender at blob) far = ground (arith, far)
    IsElsewhere-brought i far = refl

    module _ (reliable : XcmpMessageSenderLaws T.sender) (apart : T.self_para_id ≢ client_para)
        (c₀ : ClientState C) (s₀ : ServiceState T) (unanswered : T.sender.sent s₀.queue ≡ [])
        (fresh : (o : ServiceOrder T) → s₀.orders d ≡ some o → o.paraid ≢ client_para) where
      fresh-held :
          (o : Option (ServiceOrder T)) → s₀.orders d ≡ o → held C T client_para who d o ≡ 0
      fresh-held none stored = refl
      fresh-held (some o) stored = ground (arith, fresh o stored)

      -- What was claimed, what is held C T client_para who d and what is on its way has all been sent.
      Flow-balance :
          {c : ClientState C} {ps : List (ParaId × Blob)} {s : ServiceState T}
          → Flow C T client_para c₀ s₀ c ps s
          → claims_of C T client_para who d s
              + held C T client_para who d (s.orders d)
              + orders_in C T client_para who d ps
            ≤ orders_in C T client_para who d (C.sender.sent c.queue)
      Flow-balance Flow.start =
          omega
            (arith, ap (claims_in C T client_para who d) unanswered, fresh-held (s₀.orders d) refl)
      Flow-balance (Flow.client_input {c} {ps} r i new e) = omega (
        arith,
        Flow-balance r,
        ap (orders_in C T client_para who d) e,
        total-++
            (λ (m : ParaId × Blob).
              if m.0 == T.self_para_id
              then as_order C T client_para who d (T.codec.decode m.1)
              else 0)
            ps new,
        total-++
            (λ (m : ParaId × Blob).
              if m.0 == T.self_para_id
              then as_order C T client_para who d (T.codec.decode m.1)
              else 0)
            (C.sender.sent c.queue) new,
      )
      Flow-balance (Flow.client_elsewhere r e) =
          omega (arith, Flow-balance r, ap (orders_in C T client_para who d) e)
      Flow-balance (Flow.arrival {s = s} before after blob at r) = ground (
        arith,
        Flow-balance r,
        orders_in-arrived before after blob,
        deliver-claims_le reliable apart (ServiceRuns.Input.blob_received client_para at blob) s,
      )
      Flow-balance (Flow.service_input {s = s} r i far) =
          omega
            (arith, Flow-balance r, deliver-claims_le reliable apart i s, IsElsewhere-brought i far)
      Flow-balance (Flow.service_elsewhere r orders sent) = omega (
        arith,
        Flow-balance r,
        ap (claims_in C T client_para who d) sent,
        ap (λ (m : AccountId → Option (ServiceOrder T)). held C T client_para who d (m d)) orders,
      )

      -- If no message of the client chain arrives twice on the service chain, then the service chain
      -- claims at most as many payments by a client to a device as the client chain has sent orders
      -- of this client for this device; those that the device has not finished are not among them.
      -- At the start the service chain has sent nothing, and the device has no order of the client
      -- chain. The client chain must read the answers that the service chain writes.
      pub Flow-claims_le :
          {c : ClientState C} {ps : List (ParaId × Blob)} {s : ServiceState T}
          → Flow C T client_para c₀ s₀ c ps s
          → claims_of C T client_para who d s + held C T client_para who d (s.orders d)
            ≤ orders_in C T client_para who d (C.sender.sent c.queue)
      Flow-claims_le r = omega (arith, Flow-balance r)
