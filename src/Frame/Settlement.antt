-- ===== src/Frame/Settlement.antt =====
-- The ways in which the pallets settle an order between its client and its device: the fee and the
-- penalty are released, and each goes to one of the two.
use xcm_robobank_prototype.Prelude.{
  ℕ, ◌+◌, ◌-◌, min, ◌≤◌, ◌≡◌, ◌≢◌, true, arith, ◌==◌, if◌then◌else◌,
}
use xcm_robobank_prototype.Frame.Storage.{AccountId}
use xcm_robobank_prototype.Frame.Reservable.{Currency, CurrencyLaws, free}

-- From `l` to `l'` the fee leaves the reserve of the client for the free balance of `fee_to`, and
-- the penalty that of the device for the free balance of `penalty_to`. Nothing else moves.
pub record Settles (c : Currency) (l l' : c.Ledger) (client device fee_to penalty_to : AccountId)
    (fee penalty : ℕ) : Type 0 where
  pub released :
      (a : AccountId)
      → c.reserved_balance l' a
          + (if client == a then fee else 0)
          + (if device == a then penalty else 0)
        ≡ c.reserved_balance l a
  pub given :
      (a : AccountId)
      → c.free_balance l' a
        ≡ c.free_balance l a
          + (if fee_to == a then fee else 0)
          + (if penalty_to == a then penalty else 0)

module _ (c : Currency) (laws : CurrencyLaws c) where
  open c use {unreserve, repatriate_reserved, exists, reserved_balance, free_balance, Ledger}

  -- One transfer of at most `x` from the reserve of `a` to the free balance of `b`.
  record Moves (l l' : Ledger) (a b : AccountId) (x : ℕ) : Type 0 where
    from_reserve :
        (k : AccountId) → reserved_balance l' k ≡ reserved_balance l k - (if a == k then x else 0)
    to_free :
        (k : AccountId)
        → free_balance l' k
          ≡ free_balance l k + (if b == k then min x (reserved_balance l a) else 0)

  unreserve-Moves : (l : Ledger) (a : AccountId) (x : ℕ) → Moves l (unreserve l a x).1 a a x
  unreserve-Moves l a x = record {
    from_reserve = λ k. laws.reserved-unreserve l a k x;
    to_free = λ k. laws.free-unreserve l a k x;
  }

  repatriate-Moves :
      (l : Ledger) (a b : AccountId) (x : ℕ)
      → exists l b ≡ true
      → Moves l (repatriate_reserved l a b x free).1 a b x
  repatriate-Moves l a b x e =
      let paid = laws.repatriate_ok l a b x e in
      record {
        from_reserve = λ k. laws.reserved-repatriate l a b k x _ paid;
        to_free = λ k. laws.free-repatriate l a b k x _ paid;
      }

  module _ (l : Ledger) (client device : AccountId) (fee penalty : ℕ) (two : client ≢ device)
      (fee_covered : fee ≤ reserved_balance l client)
      (penalty_covered : penalty ≤ reserved_balance l device) where
    Moves-Settles :
        (l₁ l₂ : Ledger) (fee_to penalty_to : AccountId)
        → Moves l l₁ client fee_to fee
        → Moves l₁ l₂ device penalty_to penalty
        → Settles c l l₂ client device fee_to penalty_to fee penalty
    Moves-Settles l₁ l₂ fee_to penalty_to m n = record {
      released = λ a. ground (arith, m.from_reserve a, n.from_reserve a);
      given = λ a. ground (arith, m.to_free a, n.to_free a, m.from_reserve device);
    }

    -- Done in time: the device is paid and gets its penalty back.
    pub pay_in_time :
        exists l device ≡ true
        → let l₁ = (repatriate_reserved l client device fee free).1 in
          Settles c l (unreserve l₁ device penalty).1 client device device device fee penalty
    pay_in_time e =
        Moves-Settles _ _ device device (repatriate-Moves l client device fee e)
          (unreserve-Moves _ device penalty)

    -- Done late: the device is paid, and the client gets the penalty.
    pub pay_late :
        exists l device ≡ true
        → let l₁ = (repatriate_reserved l client device fee free).1 in
          exists l₁ client ≡ true
          → Settles c l
              (repatriate_reserved l₁ device client penalty free).1
              client
              device
              device
              client
              fee
              penalty
    pay_late e f =
        Moves-Settles _ _ device client (repatriate-Moves l client device fee e)
          (repatriate-Moves _ device client penalty f)

    -- Rejected in time: both get back what is theirs.
    pub refund_in_time :
        let l₁ = (unreserve l client fee).1 in
        Settles c l (unreserve l₁ device penalty).1 client device client device fee penalty
    refund_in_time =
        Moves-Settles _ _ client device (unreserve-Moves l client fee)
          (unreserve-Moves _ device penalty)

    -- Rejected late: the client gets both.
    pub refund_late :
        exists l client ≡ true
        → let l₁ = (unreserve l client fee).1 in
          Settles c l
            (repatriate_reserved l₁ device client penalty free).1
            client
            device
            client
            client
            fee
            penalty
    refund_late e =
        Moves-Settles _ _ client client (unreserve-Moves l client fee)
          (repatriate-Moves _ device client penalty (laws.exists-unreserve l client client fee e))
