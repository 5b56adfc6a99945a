-- ===== src/Service/Runs.antt =====
-- The service chain as it runs: extrinsics and messages reach the pallet in any order, and the rest
-- of the chain acts between them.
use xcm_robobank_prototype.Prelude.{ℕ, ◌≤◌, ◌≡◌, Bool}
use xcm_robobank_prototype.Frame.{AccountId, ParaId, Balance, Moment, Blob, CurrencyLaws}
use xcm_robobank_prototype.Service.State.{Config, OrderBaseOf, State}
use xcm_robobank_prototype.Service.Calls.{order, cancel, accept, done, register, set_state}
use xcm_robobank_prototype.Service.Hooks.{
  on_killed_account, handle_xcm_message, handle_blob_message,
}
use xcm_robobank_prototype.Service.Transitions.{Transition}
use xcm_robobank_prototype.Service.Transitions.Calls.{
  order-transition, cancel-transition, accept-transition,
}
use xcm_robobank_prototype.Service.Transitions.Devices.{
  done-transition, register-transition, set_state-transition,
}
use xcm_robobank_prototype.Service.Transitions.Hooks.{
  on_killed_account-transition, handle_xcm_message-transition, handle_blob_message-transition,
}
use xcm_robobank_prototype.Service.Engaged.{IsEngaged, Engages, Transition-IsEngaged}
use xcm_robobank_prototype.Service.Escrow.{IsBacked, reserved_of}
use xcm_robobank_prototype.Service.Backed.{Transition-IsBacked}
use native.Mathlib.Nat.{le_trans}

-- What can reach the pallet: its calls, with their origins, and its hooks.
pub data Input (T : Config) : Type 0 where
  order_call : T.OriginFor → OrderBaseOf T → Input T
  cancel_call : T.OriginFor → AccountId → Input T
  accept_call : T.OriginFor → Bool → Bool → Input T
  done_call : T.OriginFor → Bool → Input T
  register_call : T.OriginFor → Balance → Moment → Bool → Input T
  set_state_call : T.OriginFor → Bool → Input T
  killed : AccountId → Input T
  xcm_received : ParaId → ℕ → T.xcm.VersionedXcm → Input T
  blob_received : ParaId → ℕ → Blob → Input T

-- The state that an input leaves, also when its call fails.
unfoldable pub deliver : {T : Config} → Input T → State T → State T
deliver {T} (order_call origin o) s = (order T origin o s).1
deliver {T} (cancel_call origin d) s = (cancel T origin d s).1
deliver {T} (accept_call origin reject onoff) s = (accept T origin reject onoff s).1
deliver {T} (done_call origin onoff) s = (done T origin onoff s).1
deliver {T} (register_call origin penalty wcd onoff) s = (register T origin penalty wcd onoff s).1
deliver {T} (set_state_call origin onoff) s = (set_state T origin onoff s).1
deliver {T} (killed who) s = on_killed_account T who s
deliver {T} (xcm_received sender at xcm) s = handle_xcm_message T sender at xcm s
deliver {T} (blob_received sender at blob) s = handle_blob_message T sender at blob s

pub deliver-transition : {T : Config} (i : Input T) (s : State T) → Transition s (deliver i s)
unfolding deliver
deliver-transition {T} (order_call origin o) s = order-transition T s origin o
deliver-transition {T} (cancel_call origin d) s = cancel-transition T s origin d
deliver-transition {T} (accept_call origin reject onoff) s =
    accept-transition T s origin reject onoff
deliver-transition {T} (done_call origin onoff) s = done-transition T s origin onoff
deliver-transition {T} (register_call origin penalty wcd onoff) s =
    register-transition T s origin penalty wcd onoff
deliver-transition {T} (set_state_call origin onoff) s = set_state-transition T s origin onoff
deliver-transition {T} (killed who) s = on_killed_account-transition T s who
deliver-transition {T} (xcm_received sender at xcm) s =
    handle_xcm_message-transition T s sender at xcm
deliver-transition {T} (blob_received sender at blob) s =
    handle_blob_message-transition T s sender at blob

-- One step of the chain. Elsewhere time passes, messages leave and money moves, but no other
-- pallet takes from what is reserved, and none writes the maps of this one.
pub data Step {T : Config} (s t : State T) : Type 0 where
  delivered : (i : Input T) → t ≡ deliver i s → Step s t
  elsewhere :
      s.now ≤ t.now
      → ((a : AccountId) → reserved_of s a ≤ reserved_of t a)
      → t.device ≡ s.device
      → t.orders ≡ s.orders
      → Step s t

pub data Reach {T : Config} (s : State T) : State T → Type 0 where
  here : Reach s s
  next : {t u : State T} → Reach s t → Step t u → Reach s u

module _ {T : Config} where
  Step-IsEngaged : {s t : State T} → Engages T → Step s t → IsEngaged s → IsEngaged t
  Step-IsEngaged {s} engages (delivered i e) h =
      rw e (Transition-IsEngaged T engages (deliver-transition i s) h)
  Step-IsEngaged engages (elsewhere later kept devices orders) h = rw (devices, orders) h

  -- In every state that the chain reaches from one with the property, each device with an order is
  -- registered and in the state `Busy` or `Busy2`, provided that `on_received` answers only so.
  pub Reach-IsEngaged : {s t : State T} → Engages T → Reach s t → IsEngaged s → IsEngaged t
  Reach-IsEngaged engages here h = h
  Reach-IsEngaged engages (next r step) h =
      Step-IsEngaged engages step (Reach-IsEngaged engages r h)

  Step-IsBacked : {s t : State T} → CurrencyLaws T.currency → Step s t → IsBacked s → IsBacked t
  Step-IsBacked {s} laws (delivered i e) h =
      rw e (Transition-IsBacked T laws (deliver-transition i s) h)
  Step-IsBacked {s} {t} laws (elsewhere later kept devices orders) h =
      λ a ks distinct. rw (devices, orders) (le_trans (h a ks distinct) (kept a))

  -- In every state that the chain reaches from one with the property, what the stored orders of
  -- this chain claim of an account, over any devices, is reserved there.
  pub Reach-IsBacked :
      {s t : State T} → CurrencyLaws T.currency → Reach s t → IsBacked s → IsBacked t
  Reach-IsBacked laws here h = h
  Reach-IsBacked laws (next r step) h = Step-IsBacked laws step (Reach-IsBacked laws r h)
