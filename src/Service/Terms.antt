-- ===== src/Service/Terms.antt =====
-- One input of the service pallet, a stored order, and the terms of the device on which it was
-- placed.
use xcm_robobank_prototype.Prelude.{◌≡◌, Bool, Option, none, some, arith}
use xcm_robobank_prototype.Frame.{AccountId, DispatchError, Result, remove}
use xcm_robobank_prototype.Common.{DeviceState}
use xcm_robobank_prototype.Service.State.{Config, OrderOf, DeviceProfile, Error, State}
use xcm_robobank_prototype.Service.Orders.{
  order_received, order_accept, order_reject, order_done, lock_funds,
}
use xcm_robobank_prototype.Service.Locking.{lock_funds-frame}
use xcm_robobank_prototype.Service.Received.{Reception, reception}
use xcm_robobank_prototype.Service.Storing.{store_order-frame}
use xcm_robobank_prototype.Service.Transitions.{Transition}
use xcm_robobank_prototype.Service.Engaged.{IsWorking}
use xcm_robobank_prototype.Service.Runs.{Input, deliver, deliver-transition}

-- The device is still registered, with the same penalty and work cycle.
abbrev pub KeepsTerms : DeviceProfile → Option DeviceProfile → Type 0
KeepsTerms dev none = ⊥
KeepsTerms dev (some now) = (now.penalty ≡ dev.penalty) × (now.wcd ≡ dev.wcd)

-- There is no order any more, or it is the same, on the same terms.
abbrev pub Persists : {O : Type 0} → O → DeviceProfile → Option O → Option DeviceProfile → Type 0
Persists o dev none _ = Unit
Persists o dev (some now) profile = (now ≡ o) × KeepsTerms dev profile

module _ (T : Config) (k : AccountId) (o : OrderOf T) (dev : DeviceProfile) where
  abbrev Holds : State T → Type 0
  Holds s = Persists o dev (s.orders k) (s.device k)

  module _ (s : State T) (ordered : s.orders k ≡ some o) (known : s.device k ≡ some dev)
      (working : IsWorking dev.state) where
    still : Holds s
    still = ground arith

    Reception-Persists :
        {o' : OrderOf T} {d : AccountId} (r : Result (DispatchError Error) (Unit {0}) × State T)
        → Reception T o' d s r
        → Holds r.1
    Reception-Persists r (Reception.refused e eq) = rw eq still
    Reception-Persists {o'} {d} r (Reception.unfunded p e passes failed eq) =
        rw (eq, lock_funds-frame T o' d p s) still
    Reception-Persists {o'} {d} r (Reception.stored p passes funded eq) =
        rw (eq, store_order-frame T o' d p (lock_funds T o' d p s).1, lock_funds-frame T o' d p s)
          (ground (arith, passes.unordered))

    rejected-Persists :
        (o' : Option (OrderOf T)) (d : AccountId) (p : DeviceProfile) (state : DeviceState)
        (onoff : Bool)
        → s.device d ≡ some p
        → Holds (order_reject T o' s.now d (record p { state = state }) onoff s).1
    unfolding order_reject
    rejected-Persists o' d p state onoff found = ground arith

    accepted-Persists :
        (o' : OrderOf T) (d : AccountId) (p : DeviceProfile)
        → s.device d ≡ some p
        → Holds (order_accept T o' s.now d p s).1
    unfolding order_accept
    accepted-Persists o' d p found = ground arith

    finished-Persists :
        (o' : OrderOf T) (d : AccountId) (p : DeviceProfile) (onoff : Bool)
        → s.device d ≡ some p
        → Holds (order_done T o' s.now d p onoff (record s { orders = remove d s.orders })).1
    unfolding order_done
    finished-Persists o' d p onoff found = ground arith

    Transition-Persists : {t : State T} → Transition s t → Holds t
    Transition-Persists (Transition.idle e) = rw e still
    Transition-Persists (Transition.noted v e) = rw e still
    Transition-Persists (Transition.received o' d e) =
        rw e (Reception-Persists (order_received T o' d s) (reception T o' d s))
    Transition-Persists (Transition.rejected o' d p state onoff stored found e) =
        rw e (rejected-Persists o' d p state onoff found)
    Transition-Persists (Transition.accepted o' d p stored found busy in_time e) =
        rw e (accepted-Persists o' d p found)
    Transition-Persists (Transition.finished o' d p onoff stored found busy e) =
        rw e (finished-Persists o' d p onoff found)
    Transition-Persists (Transition.cleared d free e) = rw e (ground arith)
    Transition-Persists (Transition.registered d p v free e) = rw e (ground arith)
    Transition-Persists (Transition.turned d p state found idle e) = rw e (ground arith)
    Transition-Persists (Transition.reaped d p found off e) = rw e (ground arith)

    -- While a device is `Busy` or `Busy2` with an order, no call and no message replaces the order
    -- or changes the penalty or the work cycle of the device: after it the order is gone, or all of
    -- them are as they were.
    pub deliver-Persists :
        (i : Input T) → Persists o dev ((deliver i s).orders k) ((deliver i s).device k)
    deliver-Persists i = Transition-Persists (deliver-transition i s)
