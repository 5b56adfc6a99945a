-- ===== src/Wire/Network.antt =====
-- Both chains as they run together, with the messages between them: a message that a chain gets from
-- the client chain is one that the client chain has sent. It may be lost, come late, out of order or
-- more than once. Messages to the client chain, and those of other chains, can be any.
use mathlib.Core.List.{Memᴰ}
use xcm_robobank_prototype.Prelude.{◌≡◌, refl, ◌≤◌}
use xcm_robobank_prototype.Frame.{AccountId, ParaId, Blob}
use xcm_robobank_prototype.Service.State.{Config as ServiceConfig, State as ServiceState}
use xcm_robobank_prototype.Service.Runs as ServiceRuns
use xcm_robobank_prototype.Service.Escrow.{reserved_of as service_reserved}
use xcm_robobank_prototype.Client.State.{Config as ClientConfig, State as ClientState}
use xcm_robobank_prototype.Client.Runs as ClientRuns
use xcm_robobank_prototype.Client.Transitions.{Naming}
use xcm_robobank_prototype.Client.Escrow.{reserved_of as client_reserved}

module _ (C : ClientConfig) (T : ServiceConfig) (client_para : ParaId) where
  abbrev pub HasSent : ClientState C → Blob → Type 0
  HasSent c blob = Memᴰ (T.self_para_id, blob) (C.sender.sent c.queue)

  -- A message from the client chain has been sent by it.
  abbrev pub Genuine : ClientState C → ServiceRuns.Input T → Type 0
  Genuine c (ServiceRuns.Input.blob_received sender _ blob) = sender ≡ client_para → HasSent c blob
  Genuine c _ = Unit

module _ (C : ClientConfig) (T : ServiceConfig) (Names : Naming C) (client_para : ParaId) where
  -- The states that the two chains reach together. The other pallets of the chains do not use the
  -- senders of blobs.
  pub data Run (c₀ : ClientState C) (s₀ : ServiceState T)
      : ClientState C → ServiceState T → Type 0 where
    here : Run c₀ s₀ c₀ s₀
    client :
        {c : ClientState C} {s : ServiceState T}
        → Run c₀ s₀ c s
        → (i : ClientRuns.Input C) → ClientRuns.Allows Names i c
        → Run c₀ s₀ (ClientRuns.deliver i c) s
    client_elsewhere :
        {c c' : ClientState C} {s : ServiceState T}
        → Run c₀ s₀ c s
        → c.now ≤ c'.now
        → ((a : AccountId) → client_reserved c a ≤ client_reserved c' a)
        → c'.device ≡ c.device
        → c'.orders ≡ c.orders
        → C.sender.sent c'.queue ≡ C.sender.sent c.queue
        → Run c₀ s₀ c' s
    service :
        {c : ClientState C} {s : ServiceState T}
        → Run c₀ s₀ c s
        → (i : ServiceRuns.Input T) → Genuine C T client_para c i
        → Run c₀ s₀ c (ServiceRuns.deliver i s)
    service_elsewhere :
        {c : ClientState C} {s s' : ServiceState T}
        → Run c₀ s₀ c s
        → s.now ≤ s'.now
        → ((a : AccountId) → service_reserved s a ≤ service_reserved s' a)
        → s'.device ≡ s.device
        → s'.orders ≡ s.orders
        → T.sender.sent s'.queue ≡ T.sender.sent s.queue
        → Run c₀ s₀ c s'

  -- `past` is an earlier part of a run, or the whole of it.
  pub data IsPart {c₀ : ClientState C} {s₀ : ServiceState T} {c₁ : ClientState C}
      {s₁ : ServiceState T} (past : Run c₀ s₀ c₁ s₁)
      : (c : ClientState C) (s : ServiceState T) → Run c₀ s₀ c s → Type 0 where
    whole : IsPart past c₁ s₁ past
    client :
        {c : ClientState C} {s : ServiceState T} (r : Run c₀ s₀ c s) (i : ClientRuns.Input C)
        (allowed : ClientRuns.Allows Names i c)
        → IsPart past c s r
        → IsPart past (ClientRuns.deliver i c) s (Run.client r i allowed)
    client_elsewhere :
        {c c' : ClientState C} {s : ServiceState T} (r : Run c₀ s₀ c s) (later : c.now ≤ c'.now)
        (kept : (a : AccountId) → client_reserved c a ≤ client_reserved c' a)
        (devices : c'.device ≡ c.device) (orders : c'.orders ≡ c.orders)
        (unsent : C.sender.sent c'.queue ≡ C.sender.sent c.queue)
        → IsPart past c s r
        → IsPart past c' s (Run.client_elsewhere r later kept devices orders unsent)
    service :
        {c : ClientState C} {s : ServiceState T} (r : Run c₀ s₀ c s) (i : ServiceRuns.Input T)
        (genuine : Genuine C T client_para c i)
        → IsPart past c s r
        → IsPart past c (ServiceRuns.deliver i s) (Run.service r i genuine)
    service_elsewhere :
        {c : ClientState C} {s s' : ServiceState T} (r : Run c₀ s₀ c s) (later : s.now ≤ s'.now)
        (kept : (a : AccountId) → service_reserved s a ≤ service_reserved s' a)
        (devices : s'.device ≡ s.device) (orders : s'.orders ≡ s.orders)
        (unsent : T.sender.sent s'.queue ≡ T.sender.sent s.queue)
        → IsPart past c s r
        → IsPart past c s' (Run.service_elsewhere r later kept devices orders unsent)

  -- What is a part of the first run is a part of the second.
  abbrev pub Extends :
      {c₀ : ClientState C} {s₀ : ServiceState T} (c : ClientState C) (s : ServiceState T)
      → Run c₀ s₀ c s
      → (c' : ClientState C) (s' : ServiceState T) → Run c₀ s₀ c' s'
      → Type 0
  Extends {c₀} {s₀} c s r c' s' r' =
      (c₁ : ClientState C) (s₁ : ServiceState T) (past : Run c₀ s₀ c₁ s₁)
      → IsPart past c s r
      → IsPart past c' s' r'

  -- What each chain goes through by itself.
  pub Run-client :
      {c₀ : ClientState C} {s₀ : ServiceState T} {c : ClientState C} {s : ServiceState T}
      → Run c₀ s₀ c s
      → ClientRuns.Reach Names c₀ c
  Run-client Run.here = ClientRuns.Reach.here
  Run-client (Run.client r i allowed) =
      ClientRuns.Reach.next (Run-client r) (ClientRuns.Step.delivered i allowed refl)
  Run-client (Run.client_elsewhere r later kept devices orders unsent) =
      ClientRuns.Reach.next (Run-client r) (ClientRuns.Step.elsewhere later kept devices orders)
  Run-client (Run.service r i genuine) = Run-client r
  Run-client (Run.service_elsewhere r later kept devices orders unsent) = Run-client r

  pub Run-service :
      {c₀ : ClientState C} {s₀ : ServiceState T} {c : ClientState C} {s : ServiceState T}
      → Run c₀ s₀ c s
      → ServiceRuns.Reach s₀ s
  Run-service Run.here = ServiceRuns.Reach.here
  Run-service (Run.client r i allowed) = Run-service r
  Run-service (Run.client_elsewhere r later kept devices orders unsent) = Run-service r
  Run-service (Run.service r i genuine) =
      ServiceRuns.Reach.next (Run-service r) (ServiceRuns.Step.delivered i refl)
  Run-service (Run.service_elsewhere r later kept devices orders unsent) =
      ServiceRuns.Reach.next (Run-service r) (ServiceRuns.Step.elsewhere later kept devices orders)
