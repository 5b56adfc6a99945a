-- ===== src/Service/Received.antt =====
-- The parts of `order_received`: what the tests decide, what the reservations do, and how the
-- whole ends.
use xcm_robobank_prototype.Prelude.{◌≡◌, inl, inr, ◌≤◌, ◌<◌, none, some, arith}
use xcm_robobank_prototype.Frame.{
  AccountId, DispatchError, Result, ok, err, Result-cases, add_moments,
}
use xcm_robobank_prototype.Common.{DeviceState}
use xcm_robobank_prototype.Service.State.{Config, OrderOf, DeviceProfile, State, Error}
use xcm_robobank_prototype.Service.Orders.{check_order, lock_funds, store_order, order_received}

module _ (T : Config) (o : OrderOf T) (d : AccountId) (s : State T) where
  -- The conditions under which an order passes the tests, with `dev` for the profile of the device
  -- in its new state: the order is in time and leaves the device its work cycle, and the device is
  -- registered, ready, free of orders and willing.
  pub record Passes (dev : DeviceProfile) : Type 0 where
    pub in_time : s.now < o.until
    pub unordered : s.orders d ≡ none
    pub registered : s.device d ≡ some (record dev { state = DeviceState.ready })
    pub roomy : add_moments s.now dev.wcd ≤ o.until
    pub willing : T.on_received d o ≡ some dev.state

  pub check_order-state : (check_order T o d s).1 ≡ s
  unfolding check_order
  check_order-state = ground arith

  check_order-Passes : {dev : DeviceProfile} → (check_order T o d s).0 ≡ ok dev → Passes dev
  unfolding check_order
  check_order-Passes h = ground arith

  pub Passes-check_order : {dev : DeviceProfile} → Passes dev → (check_order T o d s).0 ≡ ok dev
  unfolding check_order
  Passes-check_order h = ground arith

  -- How the reception of an order can end: at the tests, at the reservations, or with the order
  -- stored.
  pub data Reception (r : Result (DispatchError Error) (Unit {0}) × State T) : Type 0 where
    refused : (e : DispatchError Error) → r ≡ (err e, s) → Reception r
    unfunded :
        (dev : DeviceProfile) (e : DispatchError Error)
        → Passes dev
        → (lock_funds T o d dev s).0 ≡ err e
        → r ≡ (err e, (lock_funds T o d dev s).1)
        → Reception r
    stored :
        (dev : DeviceProfile)
        → Passes dev
        → (lock_funds T o d dev s).0 ≡ ok tt
        → r ≡ store_order T o d dev (lock_funds T o d dev s).1
        → Reception r

  pub reception : Reception (order_received T o d s)
  unfolding order_received
  reception = elim (Result-cases (check_order T o d s).0) [
    | inr (e, failed) ↦ Reception.refused e (ground (arith, check_order-state))
    | inl (dev, passed) ↦ elim (Result-cases (lock_funds T o d dev s).0) [
      | inr (e, failed) ↦
          Reception.unfunded dev e (check_order-Passes passed) failed
            (ground (arith, check_order-state))
      | inl (_, funded) ↦
          Reception.stored dev (check_order-Passes passed) funded
            (ground (arith, check_order-state))
    ]
  ]
