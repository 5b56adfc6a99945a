-- ===== src/Service/Mock/Laws.antt =====
-- The accounts of the tests and their identifiers (pallets/service/src/mock.rs).
use xcm_robobank_prototype.Prelude.{
  ℕ, ◌^◌, ◌≤◌, ◌<◌, ◌≡◌, refl, some, List, [], ◌∷◌, ◌++◌, map, arith,
}
use xcm_robobank_prototype.Prelude.Sums.{NotIn, Distinct}
use xcm_robobank_prototype.Prelude.Lists.{
  length, replicate, take, drop, take-append, drop-append, length-append,
}
use xcm_robobank_prototype.Service.Mock.{
  Bytes, copy_nonoverlapping, account, genesis_balances, initial_balance,
}

-- What `u64::to_ne_bytes` and `u64::from_ne_bytes` promise, in either byte order.
pub record BytesLaws (to_ne_bytes : ℕ → Bytes) (from_ne_bytes : Bytes → ℕ) : Type 0 where
  pub length-to : (id : ℕ) → length (to_ne_bytes id) ≡ 8
  pub from-to : (id : ℕ) → id < 2 ^ 64 → from_ne_bytes (to_ne_bytes id) ≡ id

copy_lem :
    (src dst : Bytes)
    → length src ≤ length dst
    → copy_nonoverlapping src dst ≡ some (src ++ drop (length src) dst)
unfolding copy_nonoverlapping
copy_lem [] dst h = refl
copy_lem (b ∷ src) [] h = ground arith
copy_lem (b ∷ src) (old ∷ dst) h = rw (copy_lem src dst (omega arith))

abbrev AllSmall : List ℕ → Type 0
AllSmall [] = Unit
AllSmall (id ∷ ids) = (id < 2 ^ 64) × AllSmall ids

module _ {A B : Type 0} (f : A → B) where
  NotIn-map : (a : A) (l : List A) → NotIn (f a) (map f l) → NotIn a l
  NotIn-map a [] h = tt
  NotIn-map a (b ∷ l) h = (λ e. h.0 (rw e), NotIn-map a l h.1)

  Distinct-map : (l : List A) → Distinct (map f l) → Distinct l
  Distinct-map [] h = tt
  Distinct-map (a ∷ l) h = (NotIn-map a l h.0, Distinct-map l h.1)

module _ (to_ne_bytes : ℕ → Bytes) (from_ne_bytes : Bytes → ℕ)
    (laws : BytesLaws to_ne_bytes from_ne_bytes) where
  account_lem : (id : ℕ) → account to_ne_bytes id ≡ some (to_ne_bytes id ++ replicate 24 0)
  unfolding account
  account_lem id =
      rw (copy_lem (to_ne_bytes id) (replicate 32 0) (omega (arith, laws.length-to id)))
        (rw (laws.length-to id))

  head_lem : (id : ℕ) → take 8 (to_ne_bytes id ++ replicate 24 0) ≡ to_ne_bytes id
  head_lem id = rw (laws.length-to id) at (take-append (to_ne_bytes id) (replicate 24 0))

  -- The account of a 64-bit identifier can be built without a write out of bounds. It has 32 bytes,
  -- of which the first eight give the identifier back, and the others are zero.
  pub from_ne_bytes-account :
      (id : ℕ)
      → id < 2 ^ 64
      → (who : Bytes) × (account to_ne_bytes id ≡ some who)
        × (length who ≡ 32)
        × (from_ne_bytes (take 8 who) ≡ id)
        × (drop 8 who ≡ replicate 24 0)
  from_ne_bytes-account id small = (
    to_ne_bytes id ++ replicate 24 0,
    account_lem id,
    omega (arith, length-append (to_ne_bytes id) (replicate 24 0), laws.length-to id),
    rw (head_lem id) (laws.from-to id small),
    rw (laws.length-to id) at (drop-append (to_ne_bytes id) (replicate 24 0)),
  )

  genesis_balances_lem :
      (ids : List ℕ)
      → AllSmall ids
      → (accounts : List Bytes) × (genesis_balances to_ne_bytes ids
          ≡ some (map (λ who. (who, initial_balance)) accounts))
        × (map (λ who. from_ne_bytes (take 8 who)) accounts ≡ ids)
  unfolding genesis_balances
  genesis_balances_lem [] small = ([], refl, refl)
  genesis_balances_lem (id ∷ ids) small =
      let (accounts, listed, back) = genesis_balances_lem ids small.1 in
      let (who, built, _, given, _) = from_ne_bytes-account id small.0 in
      (who ∷ accounts, rw (built, listed), rw (given, back))

  -- The tests start with the same balance for each of their identifiers, in order, and no account
  -- twice, if no identifier is listed twice.
  pub genesis_balances-Distinct :
      (ids : List ℕ)
      → AllSmall ids
      → Distinct ids
      → (accounts : List Bytes) × (genesis_balances to_ne_bytes ids
          ≡ some (map (λ who. (who, initial_balance)) accounts))
        × (map (λ who. from_ne_bytes (take 8 who)) accounts ≡ ids)
        × Distinct accounts
  genesis_balances-Distinct ids small distinct =
      let (accounts, listed, back) = genesis_balances_lem ids small in
      (
        accounts,
        listed,
        back,
        Distinct-map (λ who. from_ne_bytes (take 8 who)) accounts (rw back distinct),
      )
