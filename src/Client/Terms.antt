-- ===== src/Client/Terms.antt =====
-- One input of the client pallet, a stored order, and the terms of the device on which it was
-- placed.
use xcm_robobank_prototype.Prelude.{ℕ, ◌≡◌, ◌≢◌, ap, inl, inr, Bool, Option, none, some, arith}
use xcm_robobank_prototype.Frame.{AccountId, DispatchError, Result, Result-cases}
use xcm_robobank_prototype.Common.{DeviceState, XcmpMessage}
use xcm_robobank_prototype.Client.State.{Config, OrderOf, OrderBaseOf, DeviceProfile, Error, State}
use xcm_robobank_prototype.Client.Orders.{lock_funds, send_order, place_order, order_reject}
use xcm_robobank_prototype.Client.Messages.{on_done}
use xcm_robobank_prototype.Client.Placement.{
  Passes, lock_funds-frame, sending, send_order-sent, send_order-unsent, Placing, placing,
}
use xcm_robobank_prototype.Client.Transitions.{Naming, Transition, Permits}
use xcm_robobank_prototype.Client.Runs.{Input, Allows, deliver, deliver-transition}

-- The device is still registered, with the same penalty, work cycle and parachain.
abbrev pub KeepsTerms : DeviceProfile → Option DeviceProfile → Type 0
KeepsTerms dev none = ⊥
KeepsTerms dev (some now) =
    (now.penalty ≡ dev.penalty) × (now.wcd ≡ dev.wcd) × (now.paraid ≡ dev.paraid)

-- There is no order any more, or it is the same, on the same terms.
abbrev pub Persists : {O : Type 0} → O → DeviceProfile → Option O → Option DeviceProfile → Type 0
Persists o dev none _ = Unit
Persists o dev (some now) profile = (now ≡ o) × KeepsTerms dev profile

-- Without a condition on the clients that answers name, every input is allowed.
module _ {T : Config} where
  permitted :
      (s : State T) (m : Option (XcmpMessage AccountId ℕ T.OrderPayload ℕ))
      → Permits (λ _ _ _ _. Unit) s m
  permitted s none = tt
  permitted s (some (XcmpMessage.new_order _ _)) = tt
  permitted s (some (XcmpMessage.order_accept _ _)) = tt
  permitted s (some (XcmpMessage.order_reject _ _ _)) = λ o h. tt
  permitted s (some (XcmpMessage.order_done _ _ _)) = λ o h. tt

  allowed : (i : Input T) (s : State T) → Allows (λ _ _ _ _. Unit) i s
  allowed (Input.test_call _) s = tt
  allowed (Input.order_call _ _) s = tt
  allowed (Input.cancel_call _ _) s = tt
  allowed (Input.register_call _ _ _ _ _) s = tt
  allowed (Input.killed _) s = tt
  allowed (Input.xcm_received _ _ _) s = tt
  allowed (Input.blob_received _ _ blob) s = permitted s (T.codec.decode blob)

module _ (T : Config) (k : AccountId) (o : OrderOf T) (dev : DeviceProfile) where
  abbrev Holds : State T → Type 0
  Holds s = Persists o dev (s.orders k) (s.device k)

  module _ (s : State T) (ordered : s.orders k ≡ some o) (known : s.device k ≡ some dev)
      (working : dev.state ≢ DeviceState.off) where
    still : Holds s
    still = ground arith

    sent-Persists :
        (o' : OrderBaseOf T) (who : AccountId) (p : DeviceProfile) (u : State T)
        → Passes T o' who s p
        → u.orders ≡ s.orders
        → u.device ≡ s.device
        → Holds (send_order T o' who p u).1
    sent-Persists o' who p u passes orders devices = elim (Result-cases (sending T o' who p u)) [
      | inl (_, sent) ↦
          rw (send_order-sent T o' who p u sent, orders, devices) (ground (arith, passes.unordered))
      | inr (code, unsent) ↦
          rw (send_order-unsent T o' who p u unsent, orders, devices)
            (ground (arith, passes.unordered))
    ]

    Placing-Persists :
        {o' : OrderBaseOf T} {who : AccountId}
        (r : Result (DispatchError Error) (Unit {0}) × State T)
        → Placing T o' who s r
        → Holds r.1
    Placing-Persists r (Placing.refused e eq) = rw eq still
    Placing-Persists {o'} {who} r (Placing.unfunded p e passes failed eq) =
        rw (eq, lock_funds-frame T o' who p s) still
    Placing-Persists {o'} {who} r (Placing.stored p passes funded eq) = rw eq (
        sent-Persists o' who p (lock_funds T o' who p s).1 passes
          (ap (λ (v : State T). v.orders) (lock_funds-frame T o' who p s))
          (ap (λ (v : State T). v.device) (lock_funds-frame T o' who p s)))

    rejected-Persists :
        (who : AccountId) (o' : OrderOf T) (d : AccountId) (p : DeviceProfile) (state : DeviceState)
        → s.device d ≡ some p
        → Holds (order_reject T who o' s.now d (record p { state = state }) s).1
    unfolding order_reject
    rejected-Persists who o' d p state found = ground arith

    completed-Persists : (who d : AccountId) (onoff : Bool) → Holds (on_done T who d onoff s).1
    unfolding on_done
    completed-Persists who d onoff = ground arith

    Transition-Persists : (Names : Naming T) {t : State T} → Transition Names s t → Holds t
    Transition-Persists Names (Transition.idle e) = rw e still
    Transition-Persists Names (Transition.noted v e) = rw e still
    Transition-Persists Names (Transition.queued q e) = rw e still
    Transition-Persists Names (Transition.placed o' who e) =
        rw e (Placing-Persists (place_order T o' who s) (placing T o' who s))
    Transition-Persists Names (Transition.cancelled o' d p stored found e) =
        rw e (rejected-Persists o'.client o' d p p.state found)
    Transition-Persists Names (Transition.rejected who o' d p state stored found named e) =
        rw e (rejected-Persists who o' d p state found)
    Transition-Persists Names (Transition.completed who o' d p onoff stored found named e) =
        rw e (completed-Persists who d onoff)
    Transition-Persists Names (Transition.registered d p v free e) = rw e (ground arith)
    Transition-Persists Names (Transition.reaped d p found off e) = rw e (ground arith)
    Transition-Persists Names (Transition.abandoned d p found e) = rw e (ground arith)

    -- While a device that is not `Off` has an order, no call and no message, whatever it says,
    -- replaces the order or changes the penalty, the work cycle or the parachain of the device:
    -- after it the order is gone, or all of them are as they were.
    pub deliver-Persists_client :
        (i : Input T) → Persists o dev ((deliver i s).orders k) ((deliver i s).device k)
    deliver-Persists_client i =
        Transition-Persists (λ _ _ _ _. Unit)
          (deliver-transition (λ _ _ _ _. Unit) i s (allowed i s))
