-- ===== src/Service/Settlement.antt =====
-- How `order_done` and `order_reject` settle an order of this chain.
use xcm_robobank_prototype.Prelude.{
  ◌≤◌, ◌≡◌, ◌≢◌, Bool, true, false, some, arith, ltb, ◌==◌, [], ◌∷◌, refl,
}
use xcm_robobank_prototype.Frame.{
  AccountId, ok, CurrencyLaws, insert, remove, free, Result, DispatchError,
}
use xcm_robobank_prototype.Frame.Settlement.{
  Settles, pay_in_time, pay_late, refund_in_time, refund_late,
}
use xcm_robobank_prototype.Common.{DeviceState, on_or_off}
use xcm_robobank_prototype.Service.State.{Config, OrderOf, DeviceProfile, State, Error}
use xcm_robobank_prototype.Service.Orders.{order_done, order_reject}
use xcm_robobank_prototype.Service.Escrow.{IsBacked, reserved_of}

-- The order of `d` is gone, the device is in `state`, and the fee and the penalty have gone to
-- `fee_to` and `penalty_to`. The other entries of the maps are as they were.
pub record IsSettled {T : Config} (s t : State T) (d : AccountId) (o : OrderOf T)
    (dev : DeviceProfile) (state : DeviceState) (fee_to penalty_to : AccountId) : Type 0 where
  pub order_gone : t.orders ≡ remove d s.orders
  pub device_kept : t.device ≡ insert d (record dev { state = state }) s.device
  pub money : Settles T.currency s.ledger t.ledger o.client d fee_to penalty_to o.fee dev.penalty

module _ (T : Config) (laws : CurrencyLaws T.currency) (s : State T) (d : AccountId) (o : OrderOf T)
    (dev : DeviceProfile) (ordered : s.orders d ≡ some o) (known : s.device d ≡ some dev)
    (backed : IsBacked s) (here : (o.paraid == T.self_para_id) ≡ true) (two : o.client ≢ d) where
  open T.currency use {exists, repatriate_reserved, unreserve}

  fee_covered : o.fee ≤ reserved_of s o.client
  fee_covered = ground (arith, backed o.client (d ∷ []) (tt, tt))

  penalty_covered : dev.penalty ≤ reserved_of s d
  penalty_covered = ground (arith, backed d (d ∷ []) (tt, tt))

  -- A call that stores the profile, drops the order and leaves the ledger `l` settles the order.
  settled :
      (r : Result (DispatchError Error) (Unit {0}) × State T) (state : DeviceState)
      (fee_to penalty_to : AccountId) (l : T.currency.Ledger)
      → r ≡ (
        ok tt,
        record r.1 {
          device = insert d (record dev { state = state }) s.device;
          orders = remove d s.orders;
          ledger = l;
        },
      )
      → Settles T.currency s.ledger l o.client d fee_to penalty_to o.fee dev.penalty
      → (r.0 ≡ ok tt) × IsSettled s r.1 d o dev state fee_to penalty_to
  settled r state fee_to penalty_to l e money =
      rw e (refl, record { order_gone = refl; device_kept = refl; money = money })

  pub order_done-IsSettled_early :
      (onoff : Bool)
      → exists s.ledger d ≡ true
      → ltb s.now o.until ≡ true
      → let r = order_done T o s.now d dev onoff (record s { orders = remove d s.orders }) in
        (r.0 ≡ ok tt) × IsSettled s r.1 d o dev (on_or_off onoff) d d
  unfolding order_done
  order_done-IsSettled_early onoff e early =
      settled (order_done T o s.now d dev onoff (record s { orders = remove d s.orders }))
        (on_or_off onoff) d d
        (unreserve (repatriate_reserved s.ledger o.client d o.fee free).1 d dev.penalty).1
        (ground (arith, laws.repatriate_ok s.ledger o.client d o.fee e))
        (pay_in_time T.currency laws s.ledger o.client d o.fee dev.penalty two fee_covered
          penalty_covered e)

  pub order_done-IsSettled_late :
      (onoff : Bool)
      → exists s.ledger d ≡ true
      → exists (repatriate_reserved s.ledger o.client d o.fee free).1 o.client ≡ true
      → ltb s.now o.until ≡ false
      → let r = order_done T o s.now d dev onoff (record s { orders = remove d s.orders }) in
        (r.0 ≡ ok tt) × IsSettled s r.1 d o dev (on_or_off onoff) d o.client
  unfolding order_done
  order_done-IsSettled_late onoff e f late =
      let l = (repatriate_reserved s.ledger o.client d o.fee free).1 in
      settled (order_done T o s.now d dev onoff (record s { orders = remove d s.orders }))
        (on_or_off onoff) d o.client (repatriate_reserved l d o.client dev.penalty free).1
        (ground (
          arith,
          laws.repatriate_ok s.ledger o.client d o.fee e,
          laws.repatriate_ok l d o.client dev.penalty f,
        ))
        (pay_late T.currency laws s.ledger o.client d o.fee dev.penalty two fee_covered
          penalty_covered e f)

  pub order_reject-IsSettled_early :
      (state : DeviceState) (onoff : Bool)
      → ltb s.now o.until ≡ true
      → let r = order_reject T (some o) s.now d (record dev { state = state }) onoff s in
        (r.0 ≡ ok tt) × IsSettled s r.1 d o dev state o.client d
  unfolding order_reject
  order_reject-IsSettled_early state onoff early =
      settled (order_reject T (some o) s.now d (record dev { state = state }) onoff s) state
        o.client d (unreserve (unreserve s.ledger o.client o.fee).1 d dev.penalty).1 (ground arith)
        (refund_in_time T.currency laws s.ledger o.client d o.fee dev.penalty two fee_covered
          penalty_covered)

  pub order_reject-IsSettled_late :
      (state : DeviceState) (onoff : Bool)
      → exists s.ledger o.client ≡ true
      → ltb s.now o.until ≡ false
      → let r = order_reject T (some o) s.now d (record dev { state = state }) onoff s in
        (r.0 ≡ ok tt) × IsSettled s r.1 d o dev state o.client o.client
  unfolding order_reject
  order_reject-IsSettled_late state onoff e late =
      let l = (unreserve s.ledger o.client o.fee).1 in
      settled (order_reject T (some o) s.now d (record dev { state = state }) onoff s) state
        o.client o.client (repatriate_reserved l d o.client dev.penalty free).1
        (ground (
          arith,
          laws.repatriate_ok l d o.client dev.penalty
              (laws.exists-unreserve s.ledger o.client o.client o.fee e),
        ))
        (refund_late T.currency laws s.ledger o.client d o.fee dev.penalty two fee_covered
          penalty_covered e)
