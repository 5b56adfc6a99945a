-- ===== src/Service/Mock.antt =====
-- pallets/service/src/mock.rs: the accounts of the tests, and the balances that the tests start
-- with. How the machine writes a `u64` in memory is a parameter.
pub mod Laws
use xcm_robobank_prototype.Prelude.{ℕ, Option, none, some, List, [], ◌∷◌}
use xcm_robobank_prototype.Prelude.Lists.{replicate}
use xcm_robobank_prototype.Frame.{Balance}

-- The bytes of an account (`AccountId32`).
abbrev pub Bytes : Type 0
Bytes = List ℕ

infixl 5 ◌>>=◌
abbrev ◌>>=◌ : {A B : Type 0} → Option A → (A → Option B) → Option B
none >>= f = none
some a >>= f = f a

-- `std::ptr::copy_nonoverlapping` of all bytes of `src` to the start of `dst`. A write past the end
-- of `dst`, which is undefined behaviour, is `none`.
unfoldable pub copy_nonoverlapping : Bytes → Bytes → Option Bytes
copy_nonoverlapping [] dst = some dst
copy_nonoverlapping (b ∷ src) [] = none
copy_nonoverlapping (b ∷ src) (old ∷ dst) = do rest ← copy_nonoverlapping src dst; some (b ∷ rest)

abbrev pub init_data : List ℕ
init_data = 1 ∷ 2 ∷ 100 ∷ 101 ∷ 200 ∷ 201 ∷ []

abbrev pub initial_balance : Balance
initial_balance = 100_000_000

module _ (to_ne_bytes : ℕ → Bytes) where
  unfoldable pub account : ℕ → Option Bytes
  account id = copy_nonoverlapping (to_ne_bytes id) (replicate 32 0)

  -- The `balances` that `new_test_ext` gives to the genesis of the balances pallet.
  unfoldable pub genesis_balances : List ℕ → Option (List (Bytes × Balance))
  genesis_balances [] = some []
  genesis_balances (id ∷ ids) = do
    who ← account id
    rest ← genesis_balances ids
    some ((who, initial_balance) ∷ rest)
