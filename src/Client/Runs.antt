-- ===== src/Client/Runs.antt =====
-- The client chain as it runs: extrinsics and messages reach the pallet in any order, and the rest
-- of the chain acts between them.
use native.Mathlib.Nat.{le_trans}
use xcm_robobank_prototype.Prelude.{ℕ, ◌≤◌, ◌≡◌, Bool}
use xcm_robobank_prototype.Frame.{AccountId, ParaId, Balance, Moment, Blob, CurrencyLaws}
use xcm_robobank_prototype.Client.State.{Config, OrderBaseOf, State}
use xcm_robobank_prototype.Client.Calls.{test, order, cancel, register}
use xcm_robobank_prototype.Client.Hooks.{on_killed_account, handle_xcm_message, handle_blob_message}
use xcm_robobank_prototype.Client.Transitions.{Naming, Transition, Permits}
use xcm_robobank_prototype.Client.Transitions.Calls.{
  test-transition, order-transition, cancel-transition, register-transition,
}
use xcm_robobank_prototype.Client.Transitions.Hooks.{
  on_killed_account-transition, handle_xcm_message-transition, handle_blob_message-transition,
}
use xcm_robobank_prototype.Client.Tracked.{IsTracked, Transition-IsTracked}
use xcm_robobank_prototype.Client.Escrow.{IsCovered, Honest, reserved_of}
use xcm_robobank_prototype.Client.Covered.{Transition-IsCovered}

-- What can reach the pallet: its calls, with their origins, and its hooks.
pub data Input (T : Config) : Type 0 where
  test_call : T.OriginFor → Input T
  order_call : T.OriginFor → OrderBaseOf T → Input T
  cancel_call : T.OriginFor → AccountId → Input T
  register_call : T.OriginFor → ParaId → Balance → Moment → Bool → Input T
  killed : AccountId → Input T
  xcm_received : ParaId → ℕ → T.xcm.VersionedXcm → Input T
  blob_received : ParaId → ℕ → Blob → Input T

-- The state that an input leaves, also when its call fails.
unfoldable pub deliver : {T : Config} → Input T → State T → State T
deliver {T} (test_call origin) s = (test T origin s).1
deliver {T} (order_call origin o) s = (order T origin o s).1
deliver {T} (cancel_call origin d) s = (cancel T origin d s).1
deliver {T} (register_call origin paraid penalty wcd onoff) s =
    (register T origin paraid penalty wcd onoff s).1
deliver {T} (killed who) s = on_killed_account T who s
deliver {T} (xcm_received sender at xcm) s = handle_xcm_message T sender at xcm s
deliver {T} (blob_received sender at blob) s = handle_blob_message T sender at blob s

module _ {T : Config} (Names : Naming T) where
  -- A blob names as the client whom `Names` allows; the other inputs are free.
  abbrev pub Allows : Input T → State T → Type 0
  Allows (blob_received _ _ blob) s = Permits Names s (T.codec.decode blob)
  Allows _ _ = Unit

  pub deliver-transition :
      (i : Input T) (s : State T) → Allows i s → Transition Names s (deliver i s)
  unfolding deliver
  deliver-transition (test_call origin) s allowed = test-transition T Names s origin
  deliver-transition (order_call origin o) s allowed = order-transition T Names s origin o
  deliver-transition (cancel_call origin d) s allowed = cancel-transition T Names s origin d
  deliver-transition (register_call origin paraid penalty wcd onoff) s allowed =
      register-transition T Names s origin paraid penalty wcd onoff
  deliver-transition (killed who) s allowed = on_killed_account-transition T Names s who
  deliver-transition (xcm_received sender at xcm) s allowed =
      handle_xcm_message-transition T Names s sender at xcm
  deliver-transition (blob_received sender at blob) s allowed =
      handle_blob_message-transition T Names s sender at blob allowed

  -- One step of the chain. Elsewhere time passes, messages leave and money moves, but no other
  -- pallet takes from what is reserved, and none writes the maps of this one.
  pub data Step (s t : State T) : Type 0 where
    delivered : (i : Input T) → Allows i s → t ≡ deliver i s → Step s t
    elsewhere :
        s.now ≤ t.now
        → ((a : AccountId) → reserved_of s a ≤ reserved_of t a)
        → t.device ≡ s.device
        → t.orders ≡ s.orders
        → Step s t

  pub data Reach (s : State T) : State T → Type 0 where
    here : Reach s s
    next : {t u : State T} → Reach s t → Step t u → Reach s u

  Step-IsTracked : {s t : State T} → Step s t → IsTracked s → IsTracked t
  Step-IsTracked {s} (delivered i allowed e) h =
      rw e (Transition-IsTracked T (deliver-transition i s allowed) h)
  Step-IsTracked (elsewhere later kept devices orders) h = rw (devices, orders) h

  -- In every state that the chain reaches from one with the property, by any messages at all, each
  -- device with an order is registered and in the state `Ready`, `Busy` or `Timewait`.
  pub Reach-IsTracked : {s t : State T} → Reach s t → IsTracked s → IsTracked t
  Reach-IsTracked here h = h
  Reach-IsTracked (next r step) h = Step-IsTracked step (Reach-IsTracked r h)

module _ {T : Config} where
  Step-IsCovered :
      {s t : State T} → CurrencyLaws T.currency → Step Honest s t → IsCovered s → IsCovered t
  Step-IsCovered {s} laws (Step.delivered i allowed e) h =
      rw e (Transition-IsCovered T laws (deliver-transition Honest i s allowed) h)
  Step-IsCovered {s} {t} laws (Step.elsewhere later kept devices orders) h =
      λ a ks distinct. rw (devices, orders) (le_trans (h a ks distinct) (kept a))

  -- In every state that the chain reaches from one with the property, what the stored orders claim
  -- of an account, over any devices, is reserved there: provided that the answers about an order
  -- name its client, and that the client's account outlives the payment of the fee.
  pub Reach-IsCovered :
      {s t : State T} → CurrencyLaws T.currency → Reach Honest s t → IsCovered s → IsCovered t
  Reach-IsCovered laws Reach.here h = h
  Reach-IsCovered laws (Reach.next r step) h = Step-IsCovered laws step (Reach-IsCovered laws r h)
