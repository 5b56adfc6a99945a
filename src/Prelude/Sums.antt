-- ===== src/Prelude/Sums.antt =====
-- Sums over duplicate-free lists of keys, and what one changed summand does to them.
use Prim.Native.Nat.{ℕ, ◌+◌, ◌≤◌}
use mathlib.Core.Path.{◌≡◌}
use mathlib.Core.Logic.{◌≢◌, ◌⊎◌, inl, inr}
use mathlib.Core.List.{List, [], ◌∷◌}
use native.Mathlib.Omega.{arith}
use native.Mathlib.Decide.{ℕ_discrete}

abbrev pub NotIn {ℓ} : {A : Type ℓ} → A → List A → Type ℓ
NotIn d [] = Unit
NotIn d (k ∷ ks) = (k ≢ d) × NotIn d ks

abbrev pub Distinct {ℓ} : {A : Type ℓ} → List A → Type ℓ
Distinct [] = Unit
Distinct (k ∷ ks) = NotIn k ks × Distinct ks

abbrev pub sum_over : (ℕ → ℕ) → List ℕ → ℕ
sum_over f [] = 0
sum_over f (k ∷ ks) = f k + sum_over f ks

-- `total` bounds what `f` adds up to over distinct keys.
abbrev pub Bounds : (ℕ → ℕ) → ℕ → Type 0
Bounds f total = (ks : List ℕ) → Distinct ks → sum_over f ks ≤ total

module _ (f g : ℕ → ℕ) (d : ℕ) (same : (k : ℕ) → k ≢ d → g k ≡ f k) where
  sum_over_same : (ks : List ℕ) → NotIn d ks → sum_over g ks ≡ sum_over f ks
  sum_over_same [] h = omega arith
  sum_over_same (k ∷ ks) h = omega (arith, same k h.0, sum_over_same ks h.1)

  sum_over_changed :
      (ks : List ℕ) → Distinct ks → (sum_over g ks + f d ≡ sum_over f ks + g d) ⊎ NotIn d ks
  sum_over_changed [] h = inr tt
  sum_over_changed (k ∷ ks) h = elim (ℕ_discrete k d) [
    | yes e ↦ inl (ground (arith, sum_over_same ks, h.0, e))
    | no ne ↦ elim (sum_over_changed ks h.1) [
      | inl moved ↦ inl (omega (arith, same k ne, moved))
      | inr absent ↦ inr (ne, absent)
    ]
  ]

  -- A bound survives a change at one key that the total follows.
  pub Bounds-change :
      (total total' : ℕ)
      → (f d ≤ total → total + g d ≤ total' + f d)
      → Bounds f total
      → Bounds g total'
  Bounds-change total total' step bound ks h = elim (sum_over_changed ks h) [
    | inl moved ↦ omega (arith, step, bound (d ∷ []) (tt, tt), bound ks h, moved)
    | inr absent ↦
        omega (
          arith,
          step,
          bound (d ∷ []) (tt, tt),
          bound (d ∷ ks) (absent, h),
          sum_over_same ks absent,
        )
  ]

pub Bounds-zero : (f : ℕ → ℕ) (total : ℕ) → ((k : ℕ) → f k ≡ 0) → Bounds f total
Bounds-zero f total zeros [] h = omega arith
Bounds-zero f total zeros (k ∷ ks) h = omega (arith, zeros k, Bounds-zero f total zeros ks h.1)
