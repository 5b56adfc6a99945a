-- ===== src/Tests/ServiceExamples.antt =====
-- The theorems about the service pallet at concrete inputs.
use xcm_robobank_prototype.Prelude.{◌≡◌, refl, some, true, false, arith, inl, ℕ}
use xcm_robobank_prototype.Prelude.Sums.{Bounds-zero}
use xcm_robobank_prototype.Frame.{ok, DispatchError}
use xcm_robobank_prototype.Common.{DeviceState}
use xcm_robobank_prototype.Service.State.{State, OrderOf, DeviceProfile, Error}
use xcm_robobank_prototype.Service.Orders.{placed, order_received}
use xcm_robobank_prototype.Service.Calls.{order, done, accept}
use xcm_robobank_prototype.Service.Engaged.{IsEngaged, Engages}
use xcm_robobank_prototype.Service.Escrow.{IsBacked, claim}
use xcm_robobank_prototype.Service.Runs.{
  order_call, register_call, accept_call, deliver, Reach, Step, Reach-IsEngaged, Reach-IsBacked,
}
use xcm_robobank_prototype.Service.Atomic.{order-atomic}
use xcm_robobank_prototype.Service.Settlement.{IsSettled}
use xcm_robobank_prototype.Service.Payments.{done-IsSettled, reject-IsSettled}
use xcm_robobank_prototype.Service.Placement.{IsPlaced, order_received-IsPlaced, order_received-ok}
use xcm_robobank_prototype.Tests.Ledgers.{simple_currency_laws}
use xcm_robobank_prototype.Tests.ServiceSample.{
  sample, genesis, dev1, cl1, penalty, default_wcd, order_for,
}
use xcm_robobank_prototype.Tests.ServiceRuns.{registered, ordered, accepted}

pub sample-Engages : Engages sample
sample-Engages d o state h = ground arith

pub genesis-IsBacked : IsBacked genesis
genesis-IsBacked a = Bounds-zero (claim genesis a) 0 (λ k. refl)

ordered-reached : Reach genesis ordered
unfolding ordered deliver
ordered-reached =
    Reach.next
      (Reach.next Reach.here
        (Step.delivered (register_call (some dev1) penalty default_wcd true) refl))
      (Step.delivered (order_call (some cl1) (order_for dev1 3000)) refl)

pub accepted-reached : Reach genesis accepted
unfolding accepted deliver
accepted-reached =
    Reach.next ordered-reached (Step.delivered (accept_call (some dev1) false true) refl)

Reach-IsEngaged_example : IsEngaged ordered
Reach-IsEngaged_example = Reach-IsEngaged sample-Engages ordered-reached (λ d. tt)

Reach-IsBacked_example : IsBacked accepted
Reach-IsBacked_example = Reach-IsBacked simple_currency_laws accepted-reached genesis-IsBacked

-- A client with no money: the order fails, and nothing is left of it.
order-atomic_example : (order sample (some 203) (order_for dev1 3000) registered).1 ≡ registered
order-atomic_example =
    order-atomic sample simple_currency_laws (some 203) 203 (order_for dev1 3000) registered
      {e = DispatchError.pallet Error.device_low_bail} refl (omega arith) (unfold ordered in refl)

abbrev pub stored_order : OrderOf sample
stored_order = placed (order_for dev1 3000) cl1 0

abbrev pub profile : DeviceState → DeviceProfile
profile state = record { state = state; penalty = penalty; wcd = default_wcd }

abbrev pub at : ℕ → State sample → State sample
at time s = record s { now = time }

done-IsSettled_example :
    let r = done sample (some dev1) true (at 2000 accepted) in
    (r.0 ≡ ok tt)
    × IsSettled
        (at 2000 accepted)
        r.1
        dev1
        stored_order
        (profile DeviceState.busy2)
        DeviceState.ready
        dev1
        dev1
unfolding accepted
done-IsSettled_example =
    done-IsSettled sample simple_currency_laws (at 2000 accepted) dev1 stored_order
      (profile DeviceState.busy2) refl refl
      (Reach-IsBacked simple_currency_laws accepted-reached genesis-IsBacked) refl (omega arith)
      (some dev1) true refl refl refl (λ late. refl)

reject-IsSettled_example :
    let r = accept sample (some dev1) true false (at 11_000 ordered) in
    (r.0 ≡ ok tt)
    × IsSettled
        (at 11_000 ordered)
        r.1
        dev1
        stored_order
        (profile DeviceState.busy)
        DeviceState.off
        cl1
        cl1
unfolding ordered
reject-IsSettled_example =
    reject-IsSettled sample simple_currency_laws (at 11_000 ordered) dev1 stored_order
      (profile DeviceState.busy) refl refl
      (Reach-IsBacked simple_currency_laws ordered-reached genesis-IsBacked) refl (omega arith)
      (some dev1) false refl (inl refl) refl

order_received-IsPlaced_example :
    (dev : DeviceProfile) × IsPlaced registered
      (order_received sample stored_order dev1 registered).1
      stored_order
      dev1
      dev
order_received-IsPlaced_example =
    order_received-IsPlaced sample simple_currency_laws stored_order dev1 registered
      (unfold ordered in refl)

order_received-ok_example :
    let r = order_received sample stored_order dev1 registered in
    (r.0 ≡ ok tt) × IsPlaced registered r.1 stored_order dev1 (profile DeviceState.busy)
unfolding registered
order_received-ok_example =
    order_received-ok sample simple_currency_laws stored_order dev1 (profile DeviceState.busy)
      registered
      (record {
        in_time = omega arith;
        unordered = refl;
        registered = refl;
        roomy = omega arith;
        willing = refl;
      })
      (omega arith) refl refl
