-- ===== src/Service/Placement.antt =====
-- When an order is stored, and what that changes.
use xcm_robobank_prototype.Prelude.{
  ◌+◌, ◌≡◌, ◌≢◌, inl, inr, Bool-cases, true, some, arith, ◌==◌, ℕ, ap, sym, refl,
}
use xcm_robobank_prototype.Frame.{AccountId, DispatchError, Result, ok, CurrencyLaws, insert}
use xcm_robobank_prototype.Service.State.{Config, OrderOf, DeviceProfile, Error, State}
use xcm_robobank_prototype.Service.Orders.{lock_funds, store_order, order_received}
use xcm_robobank_prototype.Service.Received.{
  Passes, Passes-check_order, check_order-state, Reception, reception,
}
use xcm_robobank_prototype.Service.Locking.{lock_funds-frame, lock_funds-remote, free-lock_funds}
use xcm_robobank_prototype.Service.Storing.{store_order-frame}
use xcm_robobank_prototype.Service.Escrow.{stake, reserved_of, stored-follows}

abbrev pub free_of : {T : Config} → State T → AccountId → ℕ
free_of {T} s a = T.currency.free_balance s.ledger a

-- The order and the profile are stored under the device, and what the order claims of an account
-- has gone from its free balance to its reserve.
pub record IsPlaced {T : Config} (s t : State T) (o : OrderOf T) (d : AccountId)
    (dev : DeviceProfile) : Type 0 where
  pub passes : Passes T o d s dev
  pub order_stored : t.orders ≡ insert d o s.orders
  pub device_stored : t.device ≡ insert d dev s.device
  pub reserved :
      (a : AccountId) → reserved_of t a ≡ reserved_of s a + stake T (some o) (some dev) a d
  pub taken : (a : AccountId) → free_of t a + stake T (some o) (some dev) a d ≡ free_of s a

module _ (T : Config) (laws : CurrencyLaws T.currency) where
  stored-taken :
      (o : OrderOf T) (d a : AccountId) (dev : DeviceProfile) (s : State T)
      → (lock_funds T o d dev s).0 ≡ ok tt
      → free_of (lock_funds T o d dev s).1 a + stake T (some o) (some dev) a d ≡ free_of s a
  stored-taken o d a dev s funded = elim (Bool-cases (o.paraid == T.self_para_id)) [
    | inl here ↦ ground (arith, free-lock_funds T o d dev s laws a here funded)
    | inr elsewhere ↦ ground (arith, lock_funds-remote T o d dev s elsewhere)
  ]

  stored-IsPlaced :
      (o : OrderOf T) (d : AccountId) (dev : DeviceProfile) (s : State T)
      → Passes T o d s dev
      → (lock_funds T o d dev s).0 ≡ ok tt
      → IsPlaced s (store_order T o d dev (lock_funds T o d dev s).1).1 o d dev
  stored-IsPlaced o d dev s passes funded =
      rw (store_order-frame T o d dev (lock_funds T o d dev s).1) (record {
        passes = passes;
        order_stored = ap (λ (u : State T). insert d o u.orders) (lock_funds-frame T o d dev s);
        device_stored = ap (λ (u : State T). insert d dev u.device) (lock_funds-frame T o d dev s);
        reserved = λ a. sym (stored-follows T laws o d a dev s funded);
        taken = λ a. stored-taken o d a dev s funded;
      })

  Reception-IsPlaced :
      {o : OrderOf T} {d : AccountId} {s : State T}
      (r : Result (DispatchError Error) (Unit {0}) × State T)
      → Reception T o d s r
      → r.0 ≡ ok tt
      → (dev : DeviceProfile) × IsPlaced s r.1 o d dev
  Reception-IsPlaced r (Reception.refused e eq) h = absurd (cc)
  Reception-IsPlaced r (Reception.unfunded dev e passes failed eq) h = absurd (cc)
  Reception-IsPlaced {o} {d} {s} r (Reception.stored dev passes funded eq) h =
      (dev, rw eq (stored-IsPlaced o d dev s passes funded))

  -- An order whose reception succeeds has passed all the tests, is stored with the new profile of
  -- its device, and has reserved exactly what it claims of each account; no other entry changes.
  pub order_received-IsPlaced :
      (o : OrderOf T) (d : AccountId) (s : State T)
      → (order_received T o d s).0 ≡ ok tt
      → (dev : DeviceProfile) × IsPlaced s (order_received T o d s).1 o d dev
  order_received-IsPlaced o d s h =
      Reception-IsPlaced (order_received T o d s) (reception T o d s) h

  funded :
      (o : OrderOf T) (d : AccountId) (dev : DeviceProfile) (s : State T)
      → o.client ≢ d
      → T.currency.can_reserve s.ledger d dev.penalty ≡ true
      → T.currency.can_reserve s.ledger o.client o.fee ≡ true
      → (lock_funds T o d dev s).0 ≡ ok tt
  unfolding lock_funds
  funded o d dev s two rich able = ground (
    arith,
    laws.reserve_ok s.ledger d dev.penalty,
    laws.reserve_ok (T.currency.reserve s.ledger d dev.penalty).1 o.client o.fee,
    laws.can_reserve-reserve_ne s.ledger d o.client dev.penalty o.fee,
  )

  order_received-stored :
      (o : OrderOf T) (d : AccountId) (dev : DeviceProfile) (s : State T)
      → Passes T o d s dev
      → (lock_funds T o d dev s).0 ≡ ok tt
      → order_received T o d s ≡ store_order T o d dev (lock_funds T o d dev s).1
  unfolding order_received
  order_received-stored o d dev s passes locked =
      ground (arith, Passes-check_order T o d s passes, check_order-state T o d s, locked)

  -- The reception of an order that passes the tests, with `dev` for the profile of the device in its
  -- new state, succeeds if device and client are two accounts and each can reserve its part. The
  -- order is stored then, with that profile, and has reserved exactly what it claims of each
  -- account; no other entry changes.
  pub order_received-ok :
      (o : OrderOf T) (d : AccountId) (dev : DeviceProfile) (s : State T)
      → Passes T o d s dev
      → o.client ≢ d
      → T.currency.can_reserve s.ledger d dev.penalty ≡ true
      → T.currency.can_reserve s.ledger o.client o.fee ≡ true
      → let r = order_received T o d s in (r.0 ≡ ok tt) × IsPlaced s r.1 o d dev
  order_received-ok o d dev s passes two rich able =
      let locked = funded o d dev s two rich able in
      rw (order_received-stored o d dev s passes locked) (
        rw (store_order-frame T o d dev (lock_funds T o d dev s).1) refl,
        stored-IsPlaced o d dev s passes locked,
      )
