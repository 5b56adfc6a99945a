-- ===== src/Tests/MockExamples.antt =====
-- The accounts of the tests on a little-endian machine.
use xcm_robobank_prototype.Prelude.{
  ℕ, zero, suc, ◌+◌, ◌*◌, ◌/◌, ◌%◌, ◌<◌, ◌≡◌, refl, some, [], ◌∷◌, arith,
}
use xcm_robobank_prototype.Prelude.Lists.{length, replicate, take, drop}
use xcm_robobank_prototype.Service.Mock.{Bytes, copy_nonoverlapping, account}
use xcm_robobank_prototype.Service.Mock.Laws.{BytesLaws, from_ne_bytes-account}

abbrev to_bytes : ℕ → ℕ → Bytes
to_bytes zero x = []
to_bytes (suc n) x = x % 256 ∷ to_bytes n (x / 256)

abbrev from_bytes : Bytes → ℕ
from_bytes [] = 0
from_bytes (b ∷ rest) = b + 256 * from_bytes rest

abbrev room : ℕ → ℕ
room zero = 1
room (suc n) = 256 * room n

from_bytes-to_bytes : (n x : ℕ) → x < room n → from_bytes (to_bytes n x) ≡ x
from_bytes-to_bytes zero x h = omega arith
from_bytes-to_bytes (suc n) x h = omega (arith, from_bytes-to_bytes n (x / 256) (omega arith))

abbrev to_le_bytes : ℕ → Bytes
to_le_bytes = to_bytes 8

le-BytesLaws : BytesLaws to_le_bytes from_bytes
le-BytesLaws = record { length-to = λ id. refl; from-to = λ id h. from_bytes-to_bytes 8 id h }

-- The account 201 of the tests.
account_201 : account to_le_bytes 201 ≡ some (201 ∷ replicate 31 0)
unfolding account copy_nonoverlapping
account_201 = refl

from_ne_bytes-account_example :
    (who : Bytes) × (account to_le_bytes 1000 ≡ some who)
    × (length who ≡ 32)
    × (from_bytes (take 8 who) ≡ 1000)
    × (drop 8 who ≡ replicate 24 0)
from_ne_bytes-account_example =
    from_ne_bytes-account to_le_bytes from_bytes le-BytesLaws 1000 (omega arith)
