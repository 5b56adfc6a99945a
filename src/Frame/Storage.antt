-- ===== src/Frame/Storage.antt =====
-- A `StorageMap` with `OptionQuery`: a map from accounts to values, as a function. Accounts and
-- parachain identifiers are only compared, so they are numbers.
use xcm_robobank_prototype.Prelude.{
  ℕ, Bool, true, false, Option, none, some, ◌==◌, if◌then◌else◌, ◌≡◌, arith,
}

abbrev pub AccountId : Type 0
AccountId = ℕ

abbrev pub StorageMap : Type 0 → Type 0
StorageMap V = AccountId → Option V

module _ {V : Type 0} where
  abbrev pub insert : AccountId → V → StorageMap V → StorageMap V
  insert k v m j = if k == j then some v else m j

  abbrev pub remove : AccountId → StorageMap V → StorageMap V
  remove k m j = if k == j then none else m j

abbrev pub is_some : {V : Type 0} → Option V → Bool
is_some none = false
is_some (some _) = true

-- `contains_key`
abbrev pub contains_key : {V : Type 0} → AccountId → StorageMap V → Bool
contains_key k m = is_some (m k)

pub insert_self : {V : Type 0} (k : AccountId) (v : V) (m : StorageMap V) → insert k v m k ≡ some v
insert_self k v m = ground arith
