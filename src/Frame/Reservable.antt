-- ===== src/Frame/Reservable.antt =====
-- `frame_support::traits::ReservableCurrency`, which the balances pallet implements.
use xcm_robobank_prototype.Prelude.{
  ℕ, ◌+◌, ◌-◌, min, ◌≡◌, ◌≢◌, ◌≤◌, ◌<◌, Bool, true, inl, inr, ◌==◌, if◌then◌else◌, arith,
}
use xcm_robobank_prototype.Frame.Outcome.{ForeignError, Result, ok, err, Result-cases}
use xcm_robobank_prototype.Frame.Storage.{AccountId}

pub data BalanceStatus : Type 0 where
  free reserved : BalanceStatus

-- The operations, over a ledger that the currency keeps. `free_balance`, `reserved_balance` and
-- `exists` observe it.
pub record Currency : Type 1 where
  pub Ledger : Type 0
  pub free_balance : Ledger → AccountId → ℕ
  pub reserved_balance : Ledger → AccountId → ℕ
  pub exists : Ledger → AccountId → Bool
  pub can_reserve : Ledger → AccountId → ℕ → Bool
  pub reserve : Ledger → AccountId → ℕ → Result ForeignError (Unit {0}) × Ledger
  -- What could not be unreserved, and the ledger.
  pub unreserve : Ledger → AccountId → ℕ → ℕ × Ledger
  pub repatriate_reserved :
      Ledger → AccountId → AccountId → ℕ → BalanceStatus → Result ForeignError ℕ × Ledger

-- The documented behaviour of the operations, for a currency in which a payer keeps what it has
-- left. `pallet_balances` keeps it as long as no payer falls below the existential deposit with a
-- rest above zero: else it removes the account, and the rest, also where it is reserved, is lost
-- (`ExistentialDeposit` is 500 and `DustRemoval` is `()` in runtime/src/lib.rs).
pub record CurrencyLaws (c : Currency) : Type 0 where
  -- `reserve` succeeds exactly if `can_reserve` says so, and a failure changes nothing.
  pub reserve_ok :
      (l : c.Ledger) (a : AccountId) (x : ℕ)
      → c.can_reserve l a x ≡ true
      → (c.reserve l a x).0 ≡ ok tt
  pub can_reserve_of_ok :
      (l : c.Ledger) (a : AccountId) (x : ℕ)
      → (c.reserve l a x).0 ≡ ok tt
      → c.can_reserve l a x ≡ true
  pub reserve_err :
      (l : c.Ledger) (a : AccountId) (x : ℕ) (e : ForeignError)
      → (c.reserve l a x).0 ≡ err e
      → (c.reserve l a x).1 ≡ l
  -- Whether an account can reserve is a matter of that account alone.
  pub can_reserve-reserve_ne :
      (l : c.Ledger) (a b : AccountId) (x y : ℕ)
      → a ≢ b
      → c.can_reserve (c.reserve l a x).1 b y ≡ c.can_reserve l b y
  pub reserved-reserve :
      (l : c.Ledger) (a b : AccountId) (x : ℕ)
      → (c.reserve l a x).0 ≡ ok tt
      → c.reserved_balance (c.reserve l a x).1 b
        ≡ c.reserved_balance l b + (if a == b then x else 0)
  pub free-reserve :
      (l : c.Ledger) (a b : AccountId) (x : ℕ)
      → (c.reserve l a x).0 ≡ ok tt
      → c.free_balance (c.reserve l a x).1 b + (if a == b then x else 0) ≡ c.free_balance l b
  -- `unreserve` moves as much as is reserved, up to the amount.
  pub reserved-unreserve :
      (l : c.Ledger) (a b : AccountId) (x : ℕ)
      → c.reserved_balance (c.unreserve l a x).1 b
        ≡ c.reserved_balance l b - (if a == b then x else 0)
  pub free-unreserve :
      (l : c.Ledger) (a b : AccountId) (x : ℕ)
      → c.free_balance (c.unreserve l a x).1 b
        ≡ c.free_balance l b + (if a == b then min x (c.reserved_balance l a) else 0)
  -- So does `repatriate_reserved`, to the free balance of the beneficiary, which must exist.
  pub repatriate_ok :
      (l : c.Ledger) (a b : AccountId) (x : ℕ)
      → c.exists l b ≡ true
      → (c.repatriate_reserved l a b x free).0 ≡ ok (x - c.reserved_balance l a)
  pub repatriate_err :
      (l : c.Ledger) (a b : AccountId) (x : ℕ) (e : ForeignError)
      → (c.repatriate_reserved l a b x free).0 ≡ err e
      → (c.repatriate_reserved l a b x free).1 ≡ l
  pub reserved-repatriate :
      (l : c.Ledger) (a b k : AccountId) (x r : ℕ)
      → (c.repatriate_reserved l a b x free).0 ≡ ok r
      → c.reserved_balance (c.repatriate_reserved l a b x free).1 k
        ≡ c.reserved_balance l k - (if a == k then x else 0)
  pub free-repatriate :
      (l : c.Ledger) (a b k : AccountId) (x r : ℕ)
      → (c.repatriate_reserved l a b x free).0 ≡ ok r
      → c.free_balance (c.repatriate_reserved l a b x free).1 k
        ≡ c.free_balance l k + (if b == k then min x (c.reserved_balance l a) else 0)
  -- An account that has a balance exists, and goes away only when money is taken from it.
  pub exists_of_reserved :
      (l : c.Ledger) (a : AccountId) → 0 < c.reserved_balance l a → c.exists l a ≡ true
  pub exists-unreserve :
      (l : c.Ledger) (a b : AccountId) (x : ℕ)
      → c.exists l b ≡ true
      → c.exists (c.unreserve l a x).1 b ≡ true
  pub exists-repatriate :
      (l : c.Ledger) (a b k : AccountId) (x : ℕ)
      → a ≢ k
      → c.exists l k ≡ true
      → c.exists (c.repatriate_reserved l a b x free).1 k ≡ true

-- What holds of an operation however it ends.
module _ (c : Currency) (laws : CurrencyLaws c) where
  open c use {Ledger, reserved_balance, reserve, repatriate_reserved}

  pub reserve_unchanged :
      (l : Ledger) (a : AccountId) (x : ℕ) → (reserve l a x).0 ≢ ok tt → (reserve l a x).1 ≡ l
  reserve_unchanged l a x h = elim (Result-cases (reserve l a x).0) [
    | inl (_, e) ↦ absurd (h e)
    | inr (code, e) ↦ laws.reserve_err l a x code e
  ]

  pub reserved-reserve_le :
      (l : Ledger) (a b : AccountId) (x : ℕ)
      → reserved_balance l b ≤ reserved_balance (reserve l a x).1 b
  reserved-reserve_le l a b x = elim (Result-cases (reserve l a x).0) [
    | inl (_, e) ↦ rw (laws.reserved-reserve l a b x e) (ground arith)
    | inr (code, e) ↦ rw (laws.reserve_err l a x code e) (omega arith)
  ]

  pub reserved-repatriate_le :
      (l : Ledger) (a b k : AccountId) (x : ℕ)
      → reserved_balance l k
        ≤ reserved_balance (repatriate_reserved l a b x free).1 k + (if a == k then x else 0)
  reserved-repatriate_le l a b k x = elim (Result-cases (repatriate_reserved l a b x free).0) [
    | inl (r, e) ↦ rw (laws.reserved-repatriate l a b k x r e) (omega arith)
    | inr (code, e) ↦ rw (laws.repatriate_err l a b x code e) (omega arith)
  ]
