-- ===== src/Prelude/Lists.antt =====
-- The list functions that count, over the native numbers.
use Prim.Native.Nat.{ℕ, zero, suc, ◌+◌}
use mathlib.Core.Path.{◌≡◌, refl}
use mathlib.Core.List.{List, [], ◌∷◌, ◌++◌}
use native.Mathlib.Omega.{arith}

abbrev pub length {ℓ} : {A : Type ℓ} → List A → ℕ
length [] = 0
length (a ∷ l) = suc (length l)

abbrev pub replicate {ℓ} : {A : Type ℓ} → ℕ → A → List A
replicate zero a = []
replicate (suc n) a = a ∷ replicate n a

abbrev pub take {ℓ} : {A : Type ℓ} → ℕ → List A → List A
take zero l = []
take (suc n) [] = []
take (suc n) (a ∷ l) = a ∷ take n l

abbrev pub drop {ℓ} : {A : Type ℓ} → ℕ → List A → List A
drop zero l = l
drop (suc n) [] = []
drop (suc n) (a ∷ l) = drop n l

pub take-append {ℓ} : {A : Type ℓ} (l k : List A) → take (length l) (l ++ k) ≡ l
take-append [] k = refl
take-append (a ∷ l) k = rw (take-append l k)

pub length-append {ℓ} : {A : Type ℓ} (l k : List A) → length (l ++ k) ≡ length l + length k
length-append [] k = omega arith
length-append (a ∷ l) k = omega (arith, length-append l k)

pub drop-append {ℓ} : {A : Type ℓ} (l k : List A) → drop (length l) (l ++ k) ≡ k
drop-append [] k = refl
drop-append (a ∷ l) k = drop-append l k
