-- ===== src/Tests/ClientExamples.antt =====
-- The theorems about the client pallet at concrete inputs.
use xcm_robobank_prototype.Prelude.{◌⊎◌, ◌≡◌, refl, some, true, arith, ℕ, ◌+◌, [], ◌∷◌, false}
use xcm_robobank_prototype.Prelude.Sums.{Bounds-zero}
use xcm_robobank_prototype.Frame.{ForeignError, AccountId, ok, err, DispatchError, insert}
use xcm_robobank_prototype.Common.{DeviceState}
use xcm_robobank_prototype.Client.State.{State, OrderOf, DeviceProfile, Error}
use xcm_robobank_prototype.Client.Calls.{order}
use xcm_robobank_prototype.Client.Messages.{on_reject, on_done}
use xcm_robobank_prototype.Client.Tracked.{IsTracked}
use xcm_robobank_prototype.Client.Escrow.{IsCovered, Honest, claim, stake, reserved_of}
use xcm_robobank_prototype.Client.Placement.{Passes, sending}
use xcm_robobank_prototype.Client.Placed.{IsPlaced}
use xcm_robobank_prototype.Client.Ordering.{order-IsPlaced, order-atomic_reached, order-outcome}
use xcm_robobank_prototype.Client.Runs.{
  order_call, register_call, blob_received, deliver, Reach, Step, Reach-IsTracked, Reach-IsCovered,
}
use xcm_robobank_prototype.Client.Settlement.{IsSettled, on_done-IsSettled, on_reject-IsSettled}
use xcm_robobank_prototype.Tests.Ledgers.{simple_currency_laws, simple_sender_laws, unreachable}
use xcm_robobank_prototype.Tests.ServiceSample.{dev1, cl1, penalty, default_wcd}
use xcm_robobank_prototype.Tests.ClientSample.{
  client_sample, client_genesis, client_registered, client_ordered, client_order, client_stored,
  client_profile, service_para, later,
}

pub client_genesis-IsCovered : IsCovered client_genesis
client_genesis-IsCovered a = Bounds-zero (claim client_genesis a) 0 (λ k. refl)

pub client_ordered-reached :
    (Names : State client_sample → AccountId → OrderOf client_sample → AccountId → Type 0)
    → Reach Names client_genesis client_ordered
unfolding client_ordered deliver
client_ordered-reached Names =
    Reach.next
      (Reach.next Reach.here
        (Step.delivered (register_call (some dev1) service_para penalty default_wcd true) tt refl))
      (Step.delivered (order_call (some cl1) client_order) tt refl)

-- Any sibling may say that the order is done, for any client.
abbrev done_blob : ℕ → State client_sample → State client_sample
done_blob who s = deliver (blob_received 5 0 (3 ∷ who ∷ dev1 ∷ 1 ∷ [])) s

Reach-IsTracked_example : IsTracked (done_blob 7 client_ordered)
Reach-IsTracked_example =
    Reach-IsTracked (λ _ _ _ _. Unit)
      (Reach.next (client_ordered-reached (λ _ _ _ _. Unit))
        (Step.delivered (blob_received 5 0 (3 ∷ 7 ∷ dev1 ∷ 1 ∷ [])) (λ o _. tt) refl))
      (λ d. tt)

covered : IsCovered client_ordered
covered =
    Reach-IsCovered simple_currency_laws (client_ordered-reached Honest) client_genesis-IsCovered

Reach-IsCovered_example : IsCovered client_ordered
Reach-IsCovered_example =
    Reach-IsCovered simple_currency_laws (client_ordered-reached Honest) client_genesis-IsCovered

pub later-IsCovered : (time : ℕ) → IsCovered (later time)
unfolding client_ordered
later-IsCovered time a ks distinct = covered a ks distinct

order-IsPlaced_example :
    (dev : DeviceProfile) × IsPlaced
      (client_registered service_para)
      client_ordered
      client_order
      cl1
      dev
unfolding client_ordered
order-IsPlaced_example =
    order-IsPlaced client_sample simple_currency_laws client_order cl1
      (client_registered service_para) (some cl1) refl simple_sender_laws refl

-- A client with no money: the order fails, and nothing is left of it.
order-atomic_reached_example :
    (order client_sample (some 203) client_order (client_registered service_para)).1
    ≡ client_registered service_para
order-atomic_reached_example =
    order-atomic_reached client_sample simple_currency_laws client_order 203
      (client_registered service_para) (some 203) refl
      {e = DispatchError.pallet Error.device_low_bail} (omega arith) (unfold client_ordered in refl)
      (λ h. ground arith)

pub sample-Passes :
    (paraid : ℕ)
    → Passes client_sample client_order cl1
        (client_registered paraid)
        (client_profile DeviceState.ready paraid)
unfolding client_registered
sample-Passes paraid = record {
  in_time = omega arith;
  unordered = refl;
  registered = refl;
  ready = refl;
  roomy = omega arith;
  able = refl;
}

-- The chain of the device cannot be reached.
order-outcome_example :
    let s = client_registered unreachable in
    let dev = client_profile DeviceState.ready unreachable in
    let r = order client_sample (some cl1) client_order s in
    ((sending client_sample client_order cl1 dev s ≡ ok tt)
      × (r.0 ≡ ok tt)
      × ((dev' : DeviceProfile) × IsPlaced s r.1 client_order cl1 dev'))
    ⊎ ((code : ForeignError) × (sending client_sample client_order cl1 dev s ≡ err code)
        × (r.0 ≡ err (DispatchError.pallet Error.cannot_reach_destination))
        × (r.1.orders ≡ insert dev1 client_stored s.orders)
        × (r.1.device ≡ s.device)
        × ((a : AccountId)
            → reserved_of r.1 a
              ≡ reserved_of s a + stake client_sample (some client_stored) (some dev) a dev1))
unfolding client_registered
order-outcome_example =
    order-outcome client_sample simple_currency_laws client_order cl1
      (client_registered unreachable) (some cl1) refl simple_sender_laws
      (client_profile DeviceState.ready unreachable) (sample-Passes unreachable) (omega arith) refl

on_done-IsSettled_example :
    let r = on_done client_sample cl1 dev1 true (later 11_000) in
    (r.0 ≡ ok tt)
    × IsSettled
        (later 11_000)
        r.1
        dev1
        client_stored
        (client_profile DeviceState.busy service_para)
        DeviceState.ready
        dev1
        cl1
unfolding client_ordered
on_done-IsSettled_example =
    on_done-IsSettled client_sample simple_currency_laws (later 11_000) dev1 client_stored
      (client_profile DeviceState.busy service_para) refl refl (later-IsCovered 11_000)
      (omega arith) true refl (λ late. refl)

on_reject-IsSettled_example :
    let r = on_reject client_sample cl1 dev1 false (later 2000) in
    (r.0 ≡ ok tt)
    × IsSettled
        (later 2000)
        r.1
        dev1
        client_stored
        (client_profile DeviceState.busy service_para)
        DeviceState.off
        cl1
        dev1
unfolding client_ordered
on_reject-IsSettled_example =
    on_reject-IsSettled client_sample simple_currency_laws (later 2000) dev1 client_stored
      (client_profile DeviceState.busy service_para) refl refl (later-IsCovered 2000) (omega arith)
      false refl
