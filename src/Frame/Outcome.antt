-- ===== src/Frame/Outcome.antt =====
-- Results of dispatchable calls, and the state that a call leaves behind. A failed call keeps what
-- it has written so far: the calls are not marked transactional.
use xcm_robobank_prototype.Prelude.{
  ℕ, ◌≡◌, refl, ◌⊎◌, inl, inr, Bool, Option, none, some, if◌then◌else◌,
}

-- The code of an error that another pallet raises, or of a bad origin.
abbrev pub ForeignError : Type 0
ForeignError = ℕ

-- An error of the pallet itself (`Error::<T>::X.into()`), or one that `?` passes on.
pub data DispatchError (E : Type 0) : Type 0 where
  pallet : E → DispatchError E
  foreign : ForeignError → DispatchError E

pub data Result (E A : Type 0) : Type 0 where
  ok : A → Result E A
  err : E → Result E A

pub Result-cases :
    {E A : Type 0} (r : Result E A) → ((a : A) × (r ≡ ok a)) ⊎ ((e : E) × (r ≡ err e))
Result-cases (ok a) = inl (a, refl)
Result-cases (err e) = inr (e, refl)

-- A call on a state `S` that may fail with an error of the pallet's `E`.
abbrev pub Action : Type 0 → Type 0 → Type 0 → Type 0
Action S E A = S → Result (DispatchError E) A × S

module _ {S E : Type 0} where
  infixl 5 ◌>>=◌ ◌>>◌
  abbrev pub ◌>>=◌ : {A B : Type 0} → Action S E A → (A → Action S E B) → Action S E B
  ◌>>=◌ m f s = let (r, t) = m s in elim r [ ok a ↦ f a t | err e ↦ (err e, t) ]

  abbrev pub ◌>>◌ : {A B : Type 0} → Action S E A → Action S E B → Action S E B
  m >> k = m >>= λ _. k

  abbrev pub pure : {A : Type 0} → A → Action S E A
  pure a s = (ok a, s)

  abbrev pub gets : {A : Type 0} → (S → A) → Action S E A
  gets f s = (ok (f s), s)

  -- `if c { return Err(e.into()) }`
  abbrev pub fail_if : Bool → E → Action S E (Unit {0})
  fail_if c e s = (if c then err (DispatchError.pallet e) else ok tt, s)

  -- `o.ok_or(e)?`
  abbrev pub ok_or : {A : Type 0} → Option A → E → Action S E A
  ok_or none e s = (err (DispatchError.pallet e), s)
  ok_or (some a) e s = (ok a, s)

  -- `r?` for a result of code outside the pallet.
  abbrev pub propagate : {A : Type 0} → Result ForeignError A → Action S E A
  propagate (ok a) s = (ok a, s)
  propagate (err e) s = (err (DispatchError.foreign e), s)

  -- `r.map_err(|_| e)?`
  abbrev pub map_err : {A : Type 0} → Result ForeignError A → E → Action S E A
  map_err (ok a) e s = (ok a, s)
  map_err (err _) e s = (err (DispatchError.pallet e), s)
