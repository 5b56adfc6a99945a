-- ===== src/Client/Settlement.antt =====
-- What the ends of an order do to the money of its client and its device.
use xcm_robobank_prototype.Prelude.{
  ◌≤◌, ◌≡◌, ◌≢◌, refl, inl, inr, Bool, Bool-cases, true, false, some, arith, ltb, [], ◌∷◌,
  if◌then◌else◌,
}
use xcm_robobank_prototype.Frame.{
  AccountId, DispatchError, Result, ok, CurrencyLaws, insert, remove, free,
}
use xcm_robobank_prototype.Frame.Settlement.{
  Settles, pay_in_time, pay_late, refund_in_time, refund_late,
}
use xcm_robobank_prototype.Common.{DeviceState, on_or_off}
use xcm_robobank_prototype.Client.State.{Config, OrderOf, DeviceProfile, Error, State}
use xcm_robobank_prototype.Client.Orders.{order_reject}
use xcm_robobank_prototype.Client.Messages.{on_reject, on_done}
use xcm_robobank_prototype.Client.Calls.{cancel}
use xcm_robobank_prototype.Client.Escrow.{IsCovered, reserved_of}

-- The order of `d` is gone, the device is in `state`, and the fee and the penalty have gone to
-- `fee_to` and `penalty_to`. The other entries of the maps are as they were.
pub record IsSettled {T : Config} (s t : State T) (d : AccountId) (o : OrderOf T)
    (dev : DeviceProfile) (state : DeviceState) (fee_to penalty_to : AccountId) : Type 0 where
  pub order_gone : t.orders ≡ remove d s.orders
  pub device_kept : t.device ≡ insert d (record dev { state = state }) s.device
  pub money : Settles T.currency s.ledger t.ledger o.client d fee_to penalty_to o.fee dev.penalty

module _ (T : Config) (laws : CurrencyLaws T.currency) (s : State T) (d : AccountId) (o : OrderOf T)
    (dev : DeviceProfile) (ordered : s.orders d ≡ some o) (known : s.device d ≡ some dev)
    (covered : IsCovered s) (two : o.client ≢ d) where
  open T.currency use {exists, repatriate_reserved, unreserve}

  fee_covered : o.fee ≤ reserved_of s o.client
  fee_covered = ground (arith, covered o.client (d ∷ []) (tt, tt))

  penalty_covered : dev.penalty ≤ reserved_of s d
  penalty_covered = ground (arith, covered d (d ∷ []) (tt, tt))

  -- A call that stores the profile, drops the order and leaves the ledger `l` settles the order.
  settled :
      (r : Result (DispatchError Error) (Unit {0}) × State T) (state : DeviceState)
      (fee_to penalty_to : AccountId) (l : T.currency.Ledger)
      → r ≡ (
        ok tt,
        record r.1 {
          device = insert d (record dev { state = state }) s.device;
          orders = remove d s.orders;
          ledger = l;
        },
      )
      → Settles T.currency s.ledger l o.client d fee_to penalty_to o.fee dev.penalty
      → (r.0 ≡ ok tt) × IsSettled s r.1 d o dev state fee_to penalty_to
  settled r state fee_to penalty_to l e money =
      rw e (refl, record { order_gone = refl; device_kept = refl; money = money })

  refunded_in_time :
      (state : DeviceState)
      → ltb s.now o.until ≡ true
      → let r = order_reject T o.client o s.now d (record dev { state = state }) s in
        (r.0 ≡ ok tt) × IsSettled s r.1 d o dev state o.client d
  unfolding order_reject
  refunded_in_time state early =
      settled (order_reject T o.client o s.now d (record dev { state = state }) s) state o.client d
        (unreserve (unreserve s.ledger o.client o.fee).1 d dev.penalty).1 (ground arith)
        (refund_in_time T.currency laws s.ledger o.client d o.fee dev.penalty two fee_covered
          penalty_covered)

  refunded_late :
      (state : DeviceState)
      → exists s.ledger o.client ≡ true
      → ltb s.now o.until ≡ false
      → let r = order_reject T o.client o s.now d (record dev { state = state }) s in
        (r.0 ≡ ok tt) × IsSettled s r.1 d o dev state o.client o.client
  unfolding order_reject
  refunded_late state e late =
      let l = (unreserve s.ledger o.client o.fee).1 in
      settled (order_reject T o.client o s.now d (record dev { state = state }) s) state o.client
        o.client (repatriate_reserved l d o.client dev.penalty free).1
        (ground (
          arith,
          laws.repatriate_ok l d o.client dev.penalty
              (laws.exists-unreserve s.ledger o.client o.client o.fee e),
        ))
        (refund_late T.currency laws s.ledger o.client d o.fee dev.penalty two fee_covered
          penalty_covered e)

  on_reject_lem :
      (onoff : Bool)
      → on_reject T o.client d onoff s
        ≡ order_reject T o.client o s.now d (record dev { state = on_or_off onoff }) s
  unfolding on_reject
  on_reject_lem onoff = ground arith

  -- An answer `OrderReject` that names the client of the order gives the fee back to the client.
  -- The penalty goes back to the device before the deadline, and to the client from the deadline
  -- on. The order is gone and the device is `Ready` or `Off`, as the answer says. The client's
  -- account must exist.
  pub on_reject-IsSettled :
      (onoff : Bool)
      → exists s.ledger o.client ≡ true
      → let r = on_reject T o.client d onoff s in
        (r.0 ≡ ok tt)
        × IsSettled s r.1 d o dev
            (on_or_off onoff)
            o.client
            (if ltb s.now o.until then d else o.client)
  on_reject-IsSettled onoff e = elim (Bool-cases (ltb s.now o.until)) [
    | inl early ↦ rw (on_reject_lem onoff, early) (refunded_in_time (on_or_off onoff) early)
    | inr late ↦ rw (on_reject_lem onoff, late) (refunded_late (on_or_off onoff) e late)
  ]

  cancel_lem :
      (origin : T.OriginFor)
      → T.ensure_signed origin ≡ ok o.client
      → o.until ≤ s.now
      → cancel T origin d s ≡ order_reject T o.client o s.now d dev s
  unfolding cancel
  cancel_lem origin signed late = ground arith

  -- The client who cancels from the deadline on gets back the fee and the penalty of the device.
  -- The order is gone, and the device keeps its state. The client's account must exist.
  pub cancel-IsSettled_client :
      (origin : T.OriginFor)
      → T.ensure_signed origin ≡ ok o.client
      → o.until ≤ s.now
      → exists s.ledger o.client ≡ true
      → let r = cancel T origin d s in
        (r.0 ≡ ok tt) × IsSettled s r.1 d o dev dev.state o.client o.client
  cancel-IsSettled_client origin signed late e =
      rw (cancel_lem origin signed late) (refunded_late dev.state e (ground arith))

  done_early :
      (onoff : Bool)
      → exists s.ledger d ≡ true
      → ltb s.now o.until ≡ true
      → let r = on_done T o.client d onoff s in
        (r.0 ≡ ok tt) × IsSettled s r.1 d o dev (on_or_off onoff) d d
  unfolding on_done
  done_early onoff e early =
      settled (on_done T o.client d onoff s) (on_or_off onoff) d d
        (unreserve (repatriate_reserved s.ledger o.client d o.fee free).1 d dev.penalty).1
        (ground (arith, laws.repatriate_ok s.ledger o.client d o.fee e))
        (pay_in_time T.currency laws s.ledger o.client d o.fee dev.penalty two fee_covered
          penalty_covered e)

  done_late :
      (onoff : Bool)
      → exists s.ledger d ≡ true
      → exists (repatriate_reserved s.ledger o.client d o.fee free).1 o.client ≡ true
      → ltb s.now o.until ≡ false
      → let r = on_done T o.client d onoff s in
        (r.0 ≡ ok tt) × IsSettled s r.1 d o dev (on_or_off onoff) d o.client
  unfolding on_done
  done_late onoff e f late =
      let l = (repatriate_reserved s.ledger o.client d o.fee free).1 in
      settled (on_done T o.client d onoff s) (on_or_off onoff) d o.client
        (repatriate_reserved l d o.client dev.penalty free).1
        (ground (
          arith,
          laws.repatriate_ok s.ledger o.client d o.fee e,
          laws.repatriate_ok l d o.client dev.penalty f,
        ))
        (pay_late T.currency laws s.ledger o.client d o.fee dev.penalty two fee_covered
          penalty_covered e f)

  -- In a state whose orders are covered, a registered device has an order of a client other than
  -- the device. If an answer `OrderDone` names this client, the device's account exists, and from
  -- the deadline on the client's account still exists once the fee is taken from it, then `on_done`
  -- succeeds: the device is paid the fee, and the penalty goes to it before the deadline and to the
  -- client from then on. The order is gone, the device is `Ready` or `Off` as the answer says, and
  -- no other balance changes. The currency must leave a payer what it has left, as the laws say.
  pub on_done-IsSettled :
      (onoff : Bool)
      → exists s.ledger d ≡ true
      → (o.until ≤ s.now
          → exists (repatriate_reserved s.ledger o.client d o.fee free).1 o.client ≡ true)
      → let r = on_done T o.client d onoff s in
        (r.0 ≡ ok tt)
        × IsSettled s r.1 d o dev (on_or_off onoff) d (if ltb s.now o.until then d else o.client)
  on_done-IsSettled onoff e f = elim (Bool-cases (ltb s.now o.until)) [
    | inl early ↦ rw early (done_early onoff e early)
    | inr late ↦ rw late (done_late onoff e (f (ground arith)) late)
  ]
