-- ===== src/Tests/ServiceRuns.antt =====
-- The scenarios of pallets/service/src/tests.rs, by evaluation.
use xcm_robobank_prototype.Prelude.{◌≡◌, refl, none, some, true, false, ◌+◌}
use xcm_robobank_prototype.Frame.{err, DispatchError, ok}
use xcm_robobank_prototype.Service.State.{State, Error}
use xcm_robobank_prototype.Service.Calls.{order, accept, register, done, cancel}
use xcm_robobank_prototype.Tests.ServiceSample.{
  sample, genesis, dev1, cl1, penalty, default_wcd, order_for,
}
use xcm_robobank_prototype.Service.Orders.{
  order_received, check_order, lock_funds, store_order, order_accept, order_done, order_reject,
}
use xcm_robobank_prototype.Common.{DeviceState}

unfoldable pub registered : State sample
unfolding register
registered = (register sample (some dev1) penalty default_wcd true genesis).1

unfoldable pub ordered : State sample
unfolding registered order order_received check_order lock_funds store_order order_accept
ordered = (order sample (some cl1) (order_for dev1 3000) registered).1

unfoldable pub accepted : State sample
unfolding ordered accept
accepted = (accept sample (some dev1) false true ordered).1

-- `order_rush`
order_rush :
    (order sample (some cl1) (order_for dev1 999) registered).0
    ≡ err (DispatchError.pallet Error.bad_order_details)
unfolding ordered
order_rush = refl

-- `full_circle`
full_circle :
    let s = (done sample (some dev1) true (record accepted { now = 2000 })).1 in
    (s.ledger.free dev1 ≡ 100_100_000) × (s.ledger.free cl1 ≡ 99_900_000) × (s.orders dev1 ≡ none)
unfolding accepted done order_done
full_circle = (refl, refl, refl)

-- `order_cancel`
order_cancel :
    let s = (cancel sample (some cl1) dev1 (record accepted { now = 11_000 })).1 in
    (s.ledger.free cl1 ≡ 100_010_000)
    × (s.orders dev1 ≡ none)
    × (s.device dev1
        ≡ some (record { state = DeviceState.busy2; penalty = penalty; wcd = default_wcd }))
unfolding accepted cancel order_reject
order_cancel = (refl, refl, refl)

-- `delay_accept`
delay_accept :
    let late : State sample = record ordered { now = 11_000 } in
    let (r, t) = accept sample (some dev1) true false late in
    ((accept sample (some dev1) false true late).0 ≡ err (DispatchError.pallet Error.overdue))
    × (r ≡ ok tt)
    × (t.ledger.free dev1 ≡ 99_990_000)
unfolding accepted order_reject
delay_accept = (refl, refl, refl)

-- `device_reregister`
device_reregister :
    (register sample (some dev1) (penalty + penalty) 2000 true accepted).0
    ≡ err (DispatchError.pallet Error.device_exists)
unfolding accepted
device_reregister = refl
