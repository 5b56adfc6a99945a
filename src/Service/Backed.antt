-- ===== src/Service/Backed.antt =====
-- The transitions of the service pallet and the collateral of the orders of this chain, also where a
-- transition ends in an error.
use xcm_robobank_prototype.Prelude.{arith}
use xcm_robobank_prototype.Frame.{AccountId, CurrencyLaws, DispatchError, Result}
use xcm_robobank_prototype.Service.State.{Config, OrderOf, Error, State}
use xcm_robobank_prototype.Service.Orders.{order_received}
use xcm_robobank_prototype.Service.Received.{Reception, reception}
use xcm_robobank_prototype.Service.Transitions.{Transition}
use xcm_robobank_prototype.Service.Escrow.{
  IsBacked, Follows-IsBacked, order_accept-Follows, order_reject-Follows, order_done-Follows,
  unfunded-Follows, stored-Follows,
}

module _ (T : Config) (laws : CurrencyLaws T.currency) where
  Reception-IsBacked :
      {o : OrderOf T} {d : AccountId} {s : State T}
      (r : Result (DispatchError Error) (Unit {0}) × State T)
      → Reception T o d s r
      → IsBacked s
      → IsBacked r.1
  Reception-IsBacked r (Reception.refused e eq) h = rw eq h
  Reception-IsBacked {o} {d} {s} r (Reception.unfunded dev e passes failed eq) h =
      rw eq (Follows-IsBacked (unfunded-Follows T laws o d dev s) h)
  Reception-IsBacked {o} {d} {s} r (Reception.stored dev passes funded eq) h =
      rw eq (Follows-IsBacked (stored-Follows T laws o d dev s passes.unordered funded) h)

  pub Transition-IsBacked : {s t : State T} → Transition s t → IsBacked s → IsBacked t
  Transition-IsBacked (Transition.idle e) h = rw e h
  Transition-IsBacked (Transition.noted v e) h = rw e h
  Transition-IsBacked {s} (Transition.received o d e) h =
      rw e (Reception-IsBacked (order_received T o d s) (reception T o d s) h)
  Transition-IsBacked {s} (Transition.rejected o d p state onoff ordered known e) h =
      rw e
        (Follows-IsBacked (order_reject-Follows T laws o s.now d p state onoff s ordered known) h)
  Transition-IsBacked {s} (Transition.accepted o d dev ordered known state in_time e) h =
      rw e (Follows-IsBacked (order_accept-Follows T laws o s.now d dev s known) h)
  Transition-IsBacked {s} (Transition.finished o d dev onoff ordered known state e) h =
      rw e (Follows-IsBacked (order_done-Follows T laws o s.now d dev onoff s ordered known) h)
  Transition-IsBacked {s} {t} (Transition.cleared d free e) h =
      Follows-IsBacked {s = s} {t = t} {d = d}
        (rw e (record { others = λ a k ne. ground arith; follows = λ a g. ground arith })) h
  Transition-IsBacked {s} {t} (Transition.registered d dev v free e) h =
      Follows-IsBacked {s = s} {t = t} {d = d}
        (rw e (record { others = λ a k ne. ground arith; follows = λ a g. ground arith })) h
  Transition-IsBacked {s} {t} (Transition.turned d dev state known idle e) h =
      Follows-IsBacked {s = s} {t = t} {d = d}
        (rw e (record { others = λ a k ne. ground arith; follows = λ a g. ground arith })) h
  Transition-IsBacked {s} {t} (Transition.reaped d dev known off e) h =
      Follows-IsBacked {s = s} {t = t} {d = d}
        (rw e (record { others = λ a k ne. ground arith; follows = λ a g. ground arith })) h
