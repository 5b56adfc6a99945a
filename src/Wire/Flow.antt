-- ===== src/Wire/Flow.antt =====
-- Both chains as they run together when no message arrives twice, and how many orders and claims a
-- list of messages holds.
use xcm_robobank_prototype.Prelude.{
  ℕ, ◌≡◌, ◌≢◌, ◌+◌, Option, none, some, arith, List, [], ◌∷◌, ◌++◌, ◌==◌, if◌then◌else◌,
}
use xcm_robobank_prototype.Frame.{AccountId, ParaId, Blob}
use xcm_robobank_prototype.Common.{XcmpMessage}
use xcm_robobank_prototype.Service.State.{
  Config as ServiceConfig, State as ServiceState, OrderOf as ServiceOrder,
}
use xcm_robobank_prototype.Service.Runs as ServiceRuns
use xcm_robobank_prototype.Client.State.{Config as ClientConfig, State as ClientState}
use xcm_robobank_prototype.Client.Runs as ClientRuns

-- Both chains as they run together, with the messages of the client chain that have not arrived yet:
-- each arrives once at most, in any order, and can be lost by never arriving.
module _ (C : ClientConfig) (T : ServiceConfig) (client_para : ParaId) where
  abbrev pub IsElsewhere : ServiceRuns.Input T → Type 0
  IsElsewhere (ServiceRuns.Input.blob_received sender _ _) = sender ≢ client_para
  IsElsewhere _ = Unit

  pub data Flow (c₀ : ClientState C) (s₀ : ServiceState T)
      : ClientState C → List (ParaId × Blob) → ServiceState T → Type 0 where
    start : Flow c₀ s₀ c₀ [] s₀
    -- What the input sends is on its way from then on.
    client_input :
        {c : ClientState C} {ps : List (ParaId × Blob)} {s : ServiceState T}
        → Flow c₀ s₀ c ps s
        → (i : ClientRuns.Input C) (new : List (ParaId × Blob))
        → C.sender.sent (ClientRuns.deliver i c).queue ≡ C.sender.sent c.queue ++ new
        → Flow c₀ s₀ (ClientRuns.deliver i c) (ps ++ new) s
    client_elsewhere :
        {c c' : ClientState C} {ps : List (ParaId × Blob)} {s : ServiceState T}
        → Flow c₀ s₀ c ps s
        → C.sender.sent c'.queue ≡ C.sender.sent c.queue
        → Flow c₀ s₀ c' ps s
    arrival :
        {c : ClientState C} {s : ServiceState T} (before after : List (ParaId × Blob)) (blob : Blob)
        (at : ℕ)
        → Flow c₀ s₀ c (before ++ (T.self_para_id, blob) ∷ after) s
        → Flow c₀ s₀ c
            (before ++ after)
            (ServiceRuns.deliver (ServiceRuns.Input.blob_received client_para at blob) s)
    service_input :
        {c : ClientState C} {ps : List (ParaId × Blob)} {s : ServiceState T}
        → Flow c₀ s₀ c ps s
        → (i : ServiceRuns.Input T) → IsElsewhere i
        → Flow c₀ s₀ c ps (ServiceRuns.deliver i s)
    service_elsewhere :
        {c : ClientState C} {ps : List (ParaId × Blob)} {s s' : ServiceState T}
        → Flow c₀ s₀ c ps s
        → s'.orders ≡ s.orders
        → T.sender.sent s'.queue ≡ T.sender.sent s.queue
        → Flow c₀ s₀ c ps s'

-- A sum over a list.
abbrev pub total {ℓ} : {A : Type ℓ} → (A → ℕ) → List A → ℕ
total f [] = 0
total f (a ∷ rest) = f a + total f rest

pub total-++ {ℓ} :
    {A : Type ℓ} (f : A → ℕ) (l m : List A) → total f (l ++ m) ≡ total f l + total f m
total-++ f [] m = omega arith
total-++ f (a ∷ l) m = omega (arith, total-++ f l m)

module _ (C : ClientConfig) (T : ServiceConfig) (client_para : ParaId) (who d : AccountId) where
  -- 1 for an order of `who` for device `d`, and 0 for the rest.
  abbrev pub as_order : Option (XcmpMessage AccountId ℕ T.OrderPayload ℕ) → ℕ
  as_order (some (XcmpMessage.new_order client b)) =
      if client == who then (if b.device == d then 1 else 0) else 0
  as_order _ = 0

  -- 1 for the claim that device `d` has finished an order of `who`, and 0 for the rest.
  abbrev pub as_claim : Option (XcmpMessage AccountId ℕ C.OrderPayload ℕ) → ℕ
  as_claim (some (XcmpMessage.order_done client device _)) =
      if client == who then (if device == d then 1 else 0) else 0
  as_claim _ = 0

  -- How many orders of `who` for device `d` are in a list of messages to the service chain, and how
  -- many claims in one of messages to the client chain.
  abbrev pub orders_in : List (ParaId × Blob) → ℕ
  orders_in = total (λ m. if m.0 == T.self_para_id then as_order (T.codec.decode m.1) else 0)

  abbrev pub claims_in : List (ParaId × Blob) → ℕ
  claims_in = total (λ m. if m.0 == client_para then as_claim (C.codec.decode m.1) else 0)

  -- 1 if the device has an order of `who` from the client chain.
  abbrev pub held : Option (ServiceOrder T) → ℕ
  held none = 0
  held (some o) = if o.client == who then (if o.paraid == client_para then 1 else 0) else 0

  -- What an input brings of such orders.
  abbrev pub brought : ServiceRuns.Input T → ℕ
  brought (ServiceRuns.Input.blob_received sender _ blob) =
      if sender == client_para then as_order (T.codec.decode blob) else 0
  brought _ = 0

  abbrev pub claims_of : ServiceState T → ℕ
  claims_of s = claims_in (T.sender.sent s.queue)
