-- ===== src/Client/Covered.antt =====
-- The transitions of the client pallet and the collateral of its orders, also where a transition ends
-- in an error.
use xcm_robobank_prototype.Prelude.{◌+◌, ◌≡◌, inl, inr, some, arith, ◌==◌, if◌then◌else◌, Bool}
use xcm_robobank_prototype.Frame.{AccountId, DispatchError, Result, Result-cases, ok, CurrencyLaws}
use xcm_robobank_prototype.Common.{DeviceState}
use xcm_robobank_prototype.Client.State.{Config, OrderOf, OrderBaseOf, DeviceProfile, Error, State}
use xcm_robobank_prototype.Client.Orders.{lock_funds, send_order, place_order, order_reject}
use xcm_robobank_prototype.Client.Messages.{on_done}
use xcm_robobank_prototype.Client.Placement.{
  Passes, lock_funds-frame, sending, send_order-sent, send_order-unsent, reserved-lock_funds,
  reserved-lock_funds_le, Placing, placing,
}
use xcm_robobank_prototype.Client.Transitions.{Transition}
use xcm_robobank_prototype.Client.Escrow.{
  claim, reserved_of, IsCovered, Honest, Follows, Follows-IsCovered, order_reject-Follows,
  on_done-Follows,
}

module _ (T : Config) (laws : CurrencyLaws T.currency) where
  claim-lock_funds :
      (o : OrderBaseOf T) (who : AccountId) (dev : DeviceProfile) (s : State T) (a k : AccountId)
      → claim (lock_funds T o who dev s).1 a k ≡ claim s a k
  claim-lock_funds o who dev s a k = rw (lock_funds-frame T o who dev s)

  unfunded-Follows :
      (o : OrderBaseOf T) (who : AccountId) (dev : DeviceProfile) (s : State T)
      → Follows s (lock_funds T o who dev s).1 o.device
  unfunded-Follows o who dev s = record {
    others = λ a k ne. claim-lock_funds o who dev s a k;
    follows = λ a h. omega (
      arith,
      claim-lock_funds o who dev s a o.device,
      reserved-lock_funds_le T o who dev s laws a,
    );
  }

  -- Sent or not, the order claims what it will claim, of a device with the same penalty.
  claim-send_order :
      (o : OrderBaseOf T) (who : AccountId) (dev : DeviceProfile) (s : State T) (a k : AccountId)
      → s.device o.device ≡ some dev
      → claim (send_order T o who dev s).1 a k ≡ (
          if o.device == k
          then (if o.device == a then dev.penalty else 0) + (if who == a then o.fee else 0)
          else claim s a k)
  claim-send_order o who dev s a k known = elim (Result-cases (sending T o who dev s)) [
    | inl (_, sent) ↦ rw (send_order-sent T o who dev s sent) (ground arith)
    | inr (code, unsent) ↦ rw (send_order-unsent T o who dev s unsent) (ground arith)
  ]

  reserved-send_order :
      (o : OrderBaseOf T) (who : AccountId) (dev : DeviceProfile) (s : State T) (a : AccountId)
      → reserved_of (send_order T o who dev s).1 a ≡ reserved_of s a
  reserved-send_order o who dev s a = elim (Result-cases (sending T o who dev s)) [
    | inl (_, sent) ↦ rw (send_order-sent T o who dev s sent)
    | inr (code, unsent) ↦ rw (send_order-unsent T o who dev s unsent)
  ]

  device-lock_funds :
      (o : OrderBaseOf T) (who : AccountId) (dev : DeviceProfile) (s : State T)
      → (lock_funds T o who dev s).1.device ≡ s.device
  device-lock_funds o who dev s = rw (lock_funds-frame T o who dev s)

  stored-Follows :
      (o : OrderBaseOf T) (who : AccountId) (dev : DeviceProfile) (s : State T)
      → Passes T o who s dev
      → (lock_funds T o who dev s).0 ≡ ok tt
      → Follows s (send_order T o who dev (lock_funds T o who dev s).1).1 o.device
  stored-Follows o who dev s passes funded =
      let u = (lock_funds T o who dev s).1 in
      let known : u.device o.device ≡ some dev =
        rw (device-lock_funds o who dev s) passes.registered in
      record {
        others = λ a k ne.
            ground
              (arith, claim-send_order o who dev u a k known, claim-lock_funds o who dev s a k);
        follows = λ a h. ground (
          arith,
          claim-send_order o who dev u a o.device known,
          reserved-send_order o who dev u a,
          reserved-lock_funds T o who dev s laws a funded,
        );
      }

  Placing-IsCovered :
      {o : OrderBaseOf T} {who : AccountId} {s : State T}
      (r : Result (DispatchError Error) (Unit {0}) × State T)
      → Placing T o who s r
      → IsCovered s
      → IsCovered r.1
  Placing-IsCovered r (Placing.refused e eq) h = rw eq h
  Placing-IsCovered {o} {who} {s} r (Placing.unfunded dev e passes failed eq) h =
      rw eq (Follows-IsCovered (unfunded-Follows o who dev s) h)
  Placing-IsCovered {o} {who} {s} r (Placing.stored dev passes funded eq) h =
      rw eq (Follows-IsCovered (stored-Follows o who dev s passes funded) h)

  rejected-IsCovered :
      (who : AccountId) (o : OrderOf T) (d : AccountId) (dev : DeviceProfile) (state : DeviceState)
      (s : State T)
      → s.orders d ≡ some o
      → s.device d ≡ some dev
      → who ≡ o.client
      → IsCovered s
      → IsCovered (order_reject T who o s.now d (record dev { state = state }) s).1
  rejected-IsCovered who o d dev state s stored known right h =
      rw right
        (Follows-IsCovered (order_reject-Follows T laws o s.now d dev state s stored known) h)

  completed-IsCovered :
      (who : AccountId) (o : OrderOf T) (d : AccountId) (dev : DeviceProfile) (onoff : Bool)
      (s : State T)
      → s.orders d ≡ some o
      → s.device d ≡ some dev
      → Honest s who o d
      → IsCovered s
      → IsCovered (on_done T who d onoff s).1
  completed-IsCovered who o d dev onoff s stored known honest h = rw honest.0 (
      Follows-IsCovered
        (on_done-Follows T laws o d dev onoff s stored known (rw honest.0 at honest.1)) h)

  pub Transition-IsCovered : {s t : State T} → Transition Honest s t → IsCovered s → IsCovered t
  Transition-IsCovered (Transition.idle e) h = rw e h
  Transition-IsCovered (Transition.noted v e) h = rw e h
  Transition-IsCovered (Transition.queued q e) h = rw e h
  Transition-IsCovered {s} (Transition.placed o who e) h =
      rw e (Placing-IsCovered (place_order T o who s) (placing T o who s) h)
  Transition-IsCovered {s} (Transition.cancelled o d dev stored known e) h =
      rw e
        (Follows-IsCovered (order_reject-Follows T laws o s.now d dev dev.state s stored known) h)
  Transition-IsCovered {s} (Transition.rejected who o d dev state stored known named e) h =
      rw e (rejected-IsCovered who o d dev state s stored known named.0 h)
  Transition-IsCovered {s} (Transition.completed who o d dev onoff stored known named e) h =
      rw e (completed-IsCovered who o d dev onoff s stored known named h)
  Transition-IsCovered {s} {t} (Transition.registered d dev v free e) h =
      Follows-IsCovered {s = s} {t = t} {d = d}
        (rw e (record { others = λ a k ne. ground arith; follows = λ a g. ground arith })) h
  Transition-IsCovered {s} {t} (Transition.reaped d dev known off e) h =
      Follows-IsCovered {s = s} {t = t} {d = d}
        (rw e (record { others = λ a k ne. ground arith; follows = λ a g. ground arith })) h
  Transition-IsCovered {s} {t} (Transition.abandoned d dev known e) h =
      Follows-IsCovered {s = s} {t = t} {d = d}
        (rw e (record { others = λ a k ne. ground arith; follows = λ a g. ground arith })) h
