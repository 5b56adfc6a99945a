-- ===== src/Client/Placement.antt =====
-- The parts of `order`: what the tests decide, what the reservations and the sending do, and how
-- the whole ends.
use xcm_robobank_prototype.Prelude.{
  ◌≡◌, ◌≢◌, inl, inr, ◌+◌, ◌≤◌, ◌<◌, true, none, some, arith, ◌==◌, if◌then◌else◌, [], ◌∷◌, ◌++◌,
}
use xcm_robobank_prototype.Frame.{
  AccountId, ForeignError, DispatchError, Result, ok, err, Result-cases, CurrencyLaws, add_moments,
  insert, ServiceQuality, reserve_unchanged, reserved-reserve_le, Balance, Moment, ParaId,
}
use xcm_robobank_prototype.Common.{DeviceState, XcmpMessage, OrderBase, Order}
use xcm_robobank_prototype.Client.State.{Config, OrderBaseOf, DeviceProfile, Event, State, Error}
use xcm_robobank_prototype.Client.Orders.{check_order, lock_funds, send_order, place_order}

-- The stored form of an order of `who`.
abbrev pub stored_form :
    {P : Type 0}
    → OrderBase P Balance Moment AccountId
    → AccountId
    → Order P Balance Moment AccountId ParaId
stored_form o who = record {
  until = o.until;
  payload = o.payload;
  fee = o.fee;
  client = who;
  paraid = 0;
}

module _ (T : Config) (o : OrderBaseOf T) (who : AccountId) (s : State T) where
  -- The conditions under which an order of `who` passes the tests: it is in time and leaves the
  -- device its work cycle, the device is registered, ready and free of orders, and the client can
  -- put up the fee.
  pub record Passes (dev : DeviceProfile) : Type 0 where
    pub in_time : s.now < o.until
    pub unordered : s.orders o.device ≡ none
    pub registered : s.device o.device ≡ some dev
    pub ready : dev.state ≡ DeviceState.ready
    pub roomy : add_moments s.now dev.wcd ≤ o.until
    pub able : T.currency.can_reserve s.ledger who o.fee ≡ true

  pub check_order-state : (check_order T o who s).1 ≡ s
  unfolding check_order
  check_order-state = ground arith

  pub check_order-Passes : {dev : DeviceProfile} → (check_order T o who s).0 ≡ ok dev → Passes dev
  unfolding check_order
  check_order-Passes h = ground arith

  pub Passes-check_order : {dev : DeviceProfile} → Passes dev → (check_order T o who s).0 ≡ ok dev
  unfolding check_order
  Passes-check_order h = ground arith

module _ (T : Config) (o : OrderBaseOf T) (who : AccountId) (dev : DeviceProfile)
    (s : State T) where
  -- Only the ledger changes.
  pub lock_funds-frame :
      (lock_funds T o who dev s).1 ≡ record s { ledger = (lock_funds T o who dev s).1.ledger }
  unfolding lock_funds
  lock_funds-frame = ground arith

  -- The order is stored whether or not it can be sent; the device is busy only if it was sent.
  abbrev pub sending : Result ForeignError (Unit {0})
  sending =
      (T.sender.send_blob_message s.queue dev.paraid (T.codec.encode (XcmpMessage.new_order who o))
        ServiceQuality.ordered).0

  pub send_order-sent :
      sending ≡ ok tt
      → send_order T o who dev s ≡ (
        ok tt,
        record s {
          device = insert o.device (record dev { state = DeviceState.busy }) s.device;
          orders = insert o.device (stored_form o who) s.orders;
          queue = (send_order T o who dev s).1.queue;
          events = s.events ++ Event.new_order who o.device ∷ [];
        },
      )
  unfolding send_order
  send_order-sent h = ground arith

  pub send_order-unsent :
      {code : ForeignError}
      → sending ≡ err code
      → send_order T o who dev s ≡ (
        err (DispatchError.pallet Error.cannot_reach_destination),
        record s {
          orders = insert o.device (stored_form o who) s.orders;
          queue = (send_order T o who dev s).1.queue;
        },
      )
  unfolding send_order
  send_order-unsent h = ground arith

  module _ (laws : CurrencyLaws T.currency) where
    open T.currency use {reserve, reserved_balance, free_balance}

    -- What both parties put up is reserved from their free balances.
    pub reserved-lock_funds :
        (a : AccountId)
        → (lock_funds T o who dev s).0 ≡ ok tt
        → reserved_balance (lock_funds T o who dev s).1.ledger a
          ≡ reserved_balance s.ledger a
            + ((if o.device == a then dev.penalty else 0) + (if who == a then o.fee else 0))
    unfolding lock_funds
    reserved-lock_funds a h = ground (
      arith,
      laws.reserved-reserve s.ledger o.device a dev.penalty,
      laws.reserved-reserve (reserve s.ledger o.device dev.penalty).1 who a o.fee,
    )

    pub free-lock_funds :
        (a : AccountId)
        → (lock_funds T o who dev s).0 ≡ ok tt
        → free_balance (lock_funds T o who dev s).1.ledger a
            + ((if o.device == a then dev.penalty else 0) + (if who == a then o.fee else 0))
          ≡ free_balance s.ledger a
    unfolding lock_funds
    free-lock_funds a h = ground (
      arith,
      laws.free-reserve s.ledger o.device a dev.penalty,
      laws.free-reserve (reserve s.ledger o.device dev.penalty).1 who a o.fee,
    )

    -- A failure leaves at most too much reserved.
    pub reserved-lock_funds_le :
        (a : AccountId)
        → reserved_balance s.ledger a ≤ reserved_balance (lock_funds T o who dev s).1.ledger a
    unfolding lock_funds
    reserved-lock_funds_le a = ground (
      arith,
      reserved-reserve_le T.currency laws s.ledger o.device a dev.penalty,
      reserved-reserve_le T.currency laws (reserve s.ledger o.device dev.penalty).1 who a o.fee,
    )

    -- With two parties a failure changes nothing: the second reservation was tested first.
    pub lock_funds-atomic :
        {e : DispatchError Error}
        → who ≢ o.device
        → T.currency.can_reserve s.ledger who o.fee ≡ true
        → (lock_funds T o who dev s).0 ≡ err e
        → (lock_funds T o who dev s).1 ≡ s
    unfolding lock_funds
    lock_funds-atomic ne able h = ground (
      arith,
      ne,
      reserve_unchanged T.currency laws s.ledger o.device dev.penalty,
      laws.reserve_ok (reserve s.ledger o.device dev.penalty).1 who o.fee,
      laws.can_reserve-reserve_ne s.ledger o.device who dev.penalty o.fee,
    )

-- How the placing of an order can end: at the tests, at the reservations, at the sender of
-- messages, or with the order stored and sent.
module _ (T : Config) (o : OrderBaseOf T) (who : AccountId) (s : State T) where
  abbrev locked : DeviceProfile → State T
  locked dev = (lock_funds T o who dev s).1

  pub data Placing (r : Result (DispatchError Error) (Unit {0}) × State T) : Type 0 where
    refused : (e : DispatchError Error) → r ≡ (err e, s) → Placing r
    unfunded :
        (dev : DeviceProfile) (e : DispatchError Error)
        → Passes T o who s dev
        → (lock_funds T o who dev s).0 ≡ err e
        → r ≡ (err e, locked dev)
        → Placing r
    stored :
        (dev : DeviceProfile)
        → Passes T o who s dev
        → (lock_funds T o who dev s).0 ≡ ok tt
        → r ≡ send_order T o who dev (locked dev)
        → Placing r

  pub placing : Placing (place_order T o who s)
  unfolding place_order
  placing = elim (Result-cases (check_order T o who s).0) [
    | inr (e, failed) ↦ Placing.refused e (ground (arith, check_order-state T o who s))
    | inl (dev, passed) ↦ elim (Result-cases (lock_funds T o who dev s).0) [
      | inr (e, failed) ↦
          Placing.unfunded dev e (check_order-Passes T o who s passed) failed
            (ground (arith, check_order-state T o who s))
      | inl (_, funded) ↦
          Placing.stored dev (check_order-Passes T o who s passed) funded
            (ground (arith, check_order-state T o who s))
    ]
  ]
