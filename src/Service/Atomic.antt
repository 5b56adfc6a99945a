-- ===== src/Service/Atomic.antt =====
-- What a failed call of `order` leaves on the service chain (pallets/service/src/lib.rs).
use xcm_robobank_prototype.Prelude.{◌≡◌, ◌≢◌, arith}
use xcm_robobank_prototype.Frame.{AccountId, DispatchError, Result, ok, err, CurrencyLaws}
use xcm_robobank_prototype.Service.State.{Config, OrderOf, OrderBaseOf, Error, State}
use xcm_robobank_prototype.Service.Orders.{lock_funds, order_received, placed}
use xcm_robobank_prototype.Service.Received.{Reception, reception}
use xcm_robobank_prototype.Service.Locking.{lock_funds-atomic}
use xcm_robobank_prototype.Service.Storing.{store_order-frame}
use xcm_robobank_prototype.Service.Calls.{order}

module _ (T : Config) (laws : CurrencyLaws T.currency) where
  Reception-atomic :
      {o : OrderOf T} {d : AccountId} {s : State T} {e : DispatchError Error}
      (r : Result (DispatchError Error) (Unit {0}) × State T)
      → o.client ≢ d
      → Reception T o d s r
      → r.0 ≡ err e
      → r.1 ≡ s
  Reception-atomic r ne (Reception.refused e eq) failed = rw eq
  Reception-atomic {o} {d} {s} r ne (Reception.unfunded dev e passes unfunded eq) failed =
      rw eq (lock_funds-atomic T o d dev s laws ne unfunded)
  Reception-atomic {o} {d} {s} r ne (Reception.stored dev passes funded eq) failed =
      cc (store_order-frame T o d dev (lock_funds T o d dev s).1)

  order_lem :
      {origin : T.OriginFor} {who : AccountId} (o : OrderBaseOf T) (s : State T)
      → T.ensure_signed origin ≡ ok who
      → order T origin o s ≡ order_received T (placed o who T.self_para_id) o.device s
  unfolding order
  order_lem o s signed = ground arith

  -- A call of `order` that fails, by an account other than the device, leaves the whole state as it
  -- was, on every error path.
  pub order-atomic :
      (origin : T.OriginFor) (who : AccountId) (o : OrderBaseOf T) (s : State T)
      {e : DispatchError Error}
      → T.ensure_signed origin ≡ ok who
      → who ≢ o.device
      → (order T origin o s).0 ≡ err e
      → (order T origin o s).1 ≡ s
  order-atomic origin who o s signed ne failed =
      let o' : OrderOf T = placed o who T.self_para_id in
      rw (order_lem o s signed) (
        Reception-atomic (order_received T o' o.device s) ne (reception T o' o.device s)
          (rw (order_lem o s signed) at failed))
