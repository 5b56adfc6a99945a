-- ===== src/Client/Tracked.antt =====
-- The invariant that links the two maps of the client pallet: the states that a device with an order
-- can be in.
use xcm_robobank_prototype.Prelude.{◌≡◌, ◌⊎◌, inl, inr, Bool, Option, none, some, arith}
use xcm_robobank_prototype.Frame.{AccountId, Moment, DispatchError, Result, Result-cases}
use xcm_robobank_prototype.Common.{DeviceState}
use xcm_robobank_prototype.Client.State.{Config, OrderOf, OrderBaseOf, DeviceProfile, Error, State}
use xcm_robobank_prototype.Client.Orders.{lock_funds, send_order, place_order, order_reject}
use xcm_robobank_prototype.Client.Messages.{on_done}
use xcm_robobank_prototype.Client.Placement.{
  lock_funds-frame, sending, send_order-sent, send_order-unsent, Placing, placing,
}
use xcm_robobank_prototype.Client.Transitions.{Naming, Transition}

abbrev pub HasWork : DeviceState → Type 0
HasWork state =
    (state ≡ DeviceState.ready) ⊎ (state ≡ DeviceState.busy) ⊎ (state ≡ DeviceState.timewait)

-- What the entries of one device in the two maps have to do with one another.
abbrev pub Matches : {O : Type 0} → Option O → Option DeviceProfile → Type 0
Matches none _ = Unit
Matches (some _) none = ⊥
Matches (some _) (some dev) = HasWork dev.state

-- Every device with an order is registered, and is `Ready`, `Busy` or `Timewait`.
abbrev pub IsTracked : {T : Config} → State T → Type 0
IsTracked s = (d : AccountId) → Matches (s.orders d) (s.device d)

module _ (T : Config) where
  order_reject-IsTracked :
      (who : AccountId) (o : OrderOf T) (now : Moment) (d : AccountId) (dev : DeviceProfile)
      (s : State T)
      → IsTracked s
      → IsTracked (order_reject T who o now d dev s).1
  unfolding order_reject
  order_reject-IsTracked who o now d dev s h k = ground (arith, h k)

  on_done-IsTracked :
      (who d : AccountId) (onoff : Bool) (s : State T)
      → IsTracked s
      → IsTracked (on_done T who d onoff s).1
  unfolding on_done
  on_done-IsTracked who d onoff s h k = ground (arith, h k)

  send_order-IsTracked :
      (o : OrderBaseOf T) (who : AccountId) (dev : DeviceProfile) (s : State T)
      → s.device o.device ≡ some dev
      → dev.state ≡ DeviceState.ready
      → IsTracked s
      → IsTracked (send_order T o who dev s).1
  send_order-IsTracked o who dev s known ready h = elim (Result-cases (sending T o who dev s)) [
    | inl (_, sent) ↦ rw (send_order-sent T o who dev s sent) (λ k. ground (arith, h k))
    | inr (code, unsent) ↦ rw (send_order-unsent T o who dev s unsent) (λ k. ground (arith, h k))
  ]

  lock_funds-IsTracked :
      (o : OrderBaseOf T) (who : AccountId) (dev : DeviceProfile) (s : State T)
      → IsTracked s
      → IsTracked (lock_funds T o who dev s).1
  lock_funds-IsTracked o who dev s h = rw (lock_funds-frame T o who dev s) h

  device-lock_funds :
      (o : OrderBaseOf T) (who : AccountId) (dev : DeviceProfile) (s : State T)
      → (lock_funds T o who dev s).1.device ≡ s.device
  device-lock_funds o who dev s = rw (lock_funds-frame T o who dev s)

  Placing-IsTracked :
      {o : OrderBaseOf T} {who : AccountId} {s : State T}
      (r : Result (DispatchError Error) (Unit {0}) × State T)
      → Placing T o who s r
      → IsTracked s
      → IsTracked r.1
  Placing-IsTracked r (Placing.refused e eq) h = rw eq h
  Placing-IsTracked {o} {who} {s} r (Placing.unfunded dev e passes failed eq) h =
      rw eq (lock_funds-IsTracked o who dev s h)
  Placing-IsTracked {o} {who} {s} r (Placing.stored dev passes funded eq) h = rw eq (
      send_order-IsTracked o who dev (lock_funds T o who dev s).1
        (rw (device-lock_funds o who dev s) passes.registered) passes.ready
        (lock_funds-IsTracked o who dev s h))

  pub Transition-IsTracked :
      {Names : Naming T} {s t : State T} → Transition Names s t → IsTracked s → IsTracked t
  Transition-IsTracked (Transition.idle e) h = rw e h
  Transition-IsTracked (Transition.noted v e) h = rw e h
  Transition-IsTracked (Transition.queued q e) h = rw e h
  Transition-IsTracked {Names} {s} (Transition.placed o who e) h =
      rw e (Placing-IsTracked (place_order T o who s) (placing T o who s) h)
  Transition-IsTracked {Names} {s} (Transition.cancelled o d dev stored known e) h =
      rw e (order_reject-IsTracked o.client o s.now d dev s h)
  Transition-IsTracked {Names} {s} (Transition.rejected who o d dev state stored known named e) h =
      rw e (order_reject-IsTracked who o s.now d (record dev { state = state }) s h)
  Transition-IsTracked {Names} {s} (Transition.completed who o d dev onoff stored known named e) h =
      rw e (on_done-IsTracked who d onoff s h)
  Transition-IsTracked (Transition.registered d dev v free e) h = rw e (λ k. ground (arith, h k))
  Transition-IsTracked (Transition.reaped d dev known off e) h = rw e (λ k. ground (arith, h k))
  Transition-IsTracked (Transition.abandoned d dev known e) h = rw e (λ k. ground (arith, h k))
