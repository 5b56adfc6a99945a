-- ===== src/Service/Locking.antt =====
-- What the reservations of `order_received` do to the ledger.
use xcm_robobank_prototype.Prelude.{◌≡◌, ◌≢◌, ◌+◌, ◌≤◌, true, false, arith, ◌==◌, if◌then◌else◌}
use xcm_robobank_prototype.Frame.{
  AccountId, DispatchError, ok, err, CurrencyLaws, reserve_unchanged, reserved-reserve_le,
}
use xcm_robobank_prototype.Service.State.{Config, OrderOf, DeviceProfile, State, Error}
use xcm_robobank_prototype.Service.Orders.{lock_funds}

module _ (T : Config) (o : OrderOf T) (d : AccountId) (dev : DeviceProfile) (s : State T) where
  -- Only the ledger changes.
  pub lock_funds-frame :
      (lock_funds T o d dev s).1 ≡ record s { ledger = (lock_funds T o d dev s).1.ledger }
  unfolding lock_funds
  lock_funds-frame = ground arith

  -- An order of another chain locks nothing here.
  pub lock_funds-remote : (o.paraid == T.self_para_id) ≡ false → lock_funds T o d dev s ≡ (ok tt, s)
  unfolding lock_funds
  lock_funds-remote h = ground arith

  module _ (laws : CurrencyLaws T.currency) where
    open T.currency use {reserve, reserved_balance, free_balance}

    -- What both parties put up is reserved from their free balances.
    pub reserved-lock_funds :
        (a : AccountId)
        → (o.paraid == T.self_para_id) ≡ true
        → (lock_funds T o d dev s).0 ≡ ok tt
        → reserved_balance (lock_funds T o d dev s).1.ledger a
          ≡ reserved_balance s.ledger a
            + (if d == a then dev.penalty else 0)
            + (if o.client == a then o.fee else 0)
    unfolding lock_funds
    reserved-lock_funds a here h = ground (
      arith,
      laws.reserved-reserve s.ledger d a dev.penalty,
      laws.reserved-reserve (reserve s.ledger d dev.penalty).1 o.client a o.fee,
    )

    pub free-lock_funds :
        (a : AccountId)
        → (o.paraid == T.self_para_id) ≡ true
        → (lock_funds T o d dev s).0 ≡ ok tt
        → free_balance (lock_funds T o d dev s).1.ledger a
            + (if d == a then dev.penalty else 0)
            + (if o.client == a then o.fee else 0)
          ≡ free_balance s.ledger a
    unfolding lock_funds
    free-lock_funds a here h = ground (
      arith,
      laws.free-reserve s.ledger d a dev.penalty,
      laws.free-reserve (reserve s.ledger d dev.penalty).1 o.client a o.fee,
    )

    -- A failure leaves at most too much reserved.
    pub reserved-lock_funds_le :
        (a : AccountId)
        → reserved_balance s.ledger a ≤ reserved_balance (lock_funds T o d dev s).1.ledger a
    unfolding lock_funds
    reserved-lock_funds_le a = ground (
      arith,
      reserved-reserve_le T.currency laws s.ledger d a dev.penalty,
      reserved-reserve_le T.currency laws (reserve s.ledger d dev.penalty).1 o.client a o.fee,
    )

    -- With two parties a failure changes nothing: the second reservation was tested first.
    pub lock_funds-atomic :
        {e : DispatchError Error}
        → o.client ≢ d
        → (lock_funds T o d dev s).0 ≡ err e
        → (lock_funds T o d dev s).1 ≡ s
    unfolding lock_funds
    lock_funds-atomic ne h = ground (
      arith,
      ne,
      reserve_unchanged T.currency laws s.ledger d dev.penalty,
      laws.reserve_ok (reserve s.ledger d dev.penalty).1 o.client o.fee,
      laws.can_reserve-reserve_ne s.ledger d o.client dev.penalty o.fee,
    )
