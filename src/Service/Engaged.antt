-- ===== src/Service/Engaged.antt =====
-- The invariant that links the two maps of the service pallet: the states that a device with an order
-- can be in.
use xcm_robobank_prototype.Prelude.{◌≡◌, ◌⊎◌, Bool, Option, none, some, arith}
use xcm_robobank_prototype.Frame.{AccountId, Moment, DispatchError, Result, remove}
use xcm_robobank_prototype.Common.{DeviceState}
use xcm_robobank_prototype.Service.State.{Config, OrderOf, DeviceProfile, Error, State}
use xcm_robobank_prototype.Service.Orders.{
  order_received, order_accept, order_reject, order_done, store_order, lock_funds,
}
use xcm_robobank_prototype.Service.Locking.{lock_funds-frame}
use xcm_robobank_prototype.Service.Received.{Reception, reception}
use xcm_robobank_prototype.Service.Transitions.{Transition}
use xcm_robobank_prototype.Service.Storing.{store_order-frame}

abbrev pub IsWorking : DeviceState → Type 0
IsWorking state = (state ≡ DeviceState.busy) ⊎ (state ≡ DeviceState.busy2)

-- What the entries of one device in the two maps have to do with one another.
abbrev pub Matches : {O : Type 0} → Option O → Option DeviceProfile → Type 0
Matches none _ = Unit
Matches (some _) none = ⊥
Matches (some _) (some dev) = IsWorking dev.state

-- Every device with an order is registered, and is `Busy` or `Busy2`.
abbrev pub IsEngaged : {T : Config} → State T → Type 0
IsEngaged s = (d : AccountId) → Matches (s.orders d) (s.device d)

-- What `order_received` asserts of `on_received` in a debug build.
abbrev pub Engages : Config → Type 0
Engages T =
    (d : AccountId) (o : OrderOf T) (state : DeviceState)
    → T.on_received d o ≡ some state
    → IsWorking state

module _ (T : Config) where
  order_accept-IsEngaged :
      (o : OrderOf T) (now : Moment) (d : AccountId) (dev : DeviceProfile) (s : State T)
      → IsEngaged s
      → IsEngaged (order_accept T o now d dev s).1
  unfolding order_accept
  order_accept-IsEngaged o now d dev s h k = ground (arith, h k)

  order_reject-IsEngaged :
      (o : Option (OrderOf T)) (now : Moment) (d : AccountId) (dev : DeviceProfile) (onoff : Bool)
      (s : State T)
      → IsEngaged s
      → IsEngaged (order_reject T o now d dev onoff s).1
  unfolding order_reject
  order_reject-IsEngaged o now d dev onoff s h k = ground (arith, h k)

  order_done-IsEngaged :
      (o : OrderOf T) (now : Moment) (d : AccountId) (dev : DeviceProfile) (onoff : Bool)
      (s : State T)
      → IsEngaged s
      → IsEngaged (order_done T o now d dev onoff (record s { orders = remove d s.orders })).1
  unfolding order_done
  order_done-IsEngaged o now d dev onoff s h k = ground (arith, h k)

  store_order-IsEngaged :
      (o : OrderOf T) (d : AccountId) (dev : DeviceProfile) (s : State T)
      → IsWorking dev.state
      → IsEngaged s
      → IsEngaged (store_order T o d dev s).1
  store_order-IsEngaged o d dev s working h =
      rw (store_order-frame T o d dev s) (λ k. ground (arith, h k))

  lock_funds-IsEngaged :
      (o : OrderOf T) (d : AccountId) (dev : DeviceProfile) (s : State T)
      → IsEngaged s
      → IsEngaged (lock_funds T o d dev s).1
  lock_funds-IsEngaged o d dev s h = rw (lock_funds-frame T o d dev s) h

  Reception-IsEngaged :
      {o : OrderOf T} {d : AccountId} {s : State T}
      (r : Result (DispatchError Error) (Unit {0}) × State T)
      → Engages T
      → Reception T o d s r
      → IsEngaged s
      → IsEngaged r.1
  Reception-IsEngaged r engages (Reception.refused e eq) h = rw eq h
  Reception-IsEngaged {o} {d} {s} r engages (Reception.unfunded dev e passes failed eq) h =
      rw eq (lock_funds-IsEngaged o d dev s h)
  Reception-IsEngaged {o} {d} {s} r engages (Reception.stored dev passes funded eq) h = rw eq (
      store_order-IsEngaged o d dev (lock_funds T o d dev s).1
        (engages d o dev.state passes.willing) (lock_funds-IsEngaged o d dev s h))

  pub Transition-IsEngaged :
      {s t : State T} → Engages T → Transition s t → IsEngaged s → IsEngaged t
  Transition-IsEngaged engages (Transition.idle e) h = rw e h
  Transition-IsEngaged engages (Transition.noted v e) h = rw e h
  Transition-IsEngaged {s} engages (Transition.received o d e) h =
      rw e (Reception-IsEngaged (order_received T o d s) engages (reception T o d s) h)
  Transition-IsEngaged {s} engages (Transition.rejected o d p state onoff ordered known e) h =
      rw e (order_reject-IsEngaged o s.now d (record p { state = state }) onoff s h)
  Transition-IsEngaged {s} engages (Transition.accepted o d dev ordered known state in_time e) h =
      rw e (order_accept-IsEngaged o s.now d dev s h)
  Transition-IsEngaged {s} engages (Transition.finished o d dev onoff ordered known state e) h =
      rw e (order_done-IsEngaged o s.now d dev onoff s h)
  Transition-IsEngaged engages (Transition.cleared d free e) h = rw e (λ k. ground (arith, h k))
  Transition-IsEngaged engages (Transition.registered d dev v free e) h =
      rw e (λ k. ground (arith, h k))
  Transition-IsEngaged engages (Transition.turned d dev state known idle e) h =
      rw e (λ k. ground (arith, h k))
  Transition-IsEngaged engages (Transition.reaped d dev known off e) h =
      rw e (λ k. ground (arith, h k))
