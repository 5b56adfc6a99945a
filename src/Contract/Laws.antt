-- ===== src/Contract/Laws.antt =====
-- What follows from the contract alone, for every pallet that keeps to it.
use native.Mathlib.Nat.{le_trans}
use xcm_robobank_prototype.Prelude.{
  ◌≡◌, ◌≢◌, ◌⊎◌, inl, inr, ◌≤◌, ◌<◌, ◌∙◌, sym, none, some, Bool-cases, arith, ◌==◌,
}
use xcm_robobank_prototype.Frame.{AccountId, Moment}
use xcm_robobank_prototype.Common.{DeviceState}
use xcm_robobank_prototype.Contract.{Rules, Life, Board, Move, Step, Reach}

eq-cases : (a b : AccountId) → (a ≡ b) ⊎ (a ≢ b)
eq-cases a b = elim (Bool-cases (a == b)) [
  | inl same ↦ inl (ground arith)
  | inr other ↦ inr (ground arith)
]

-- `P` holds of the order of a device and its phase, if there is an order.
abbrev pub AllLife : {O : Type 0} → (O → DeviceState → Type 0) → Life O → Type 0
AllLife P none = Unit
AllLife P (some (o, a)) = P o a

module _ {O : Type 0} (R : Rules O) where
  -- What holds of an order when it starts and stays while its phase goes on.
  module _ (P : O → DeviceState → Type 0)
      (from_start : (d : AccountId) (o : O) (a : DeviceState) → R.starts d o a → P o a)
      (along : (now : Moment) (o : O) (a b : DeviceState) → R.goes now o a b → P o a → P o b) where
    Move-All :
        {now : Moment} {d : AccountId} {a b : Life O} → Move R now d a b → AllLife P a → AllLife P b
    Move-All (Move.rest same) h = rw same h
    Move-All {d = d} (Move.start o a vacant early begun now) h = rw now (from_start d o a begun)
    Move-All {now = now} (Move.go o from to had gone has) h =
        rw has (along now o from to gone (rw had at h))
    Move-All (Move.end gone) h = rw gone tt

    Step-All :
        {s t : Board O}
        → Step R s t
        → ((k : AccountId) → AllLife P (s.life k))
        → (k : AccountId) → AllLife P (t.life k)
    Step-All {s} {t} (Step.moves d m others now) h k = elim (eq-cases k d) [
      | inl same ↦ rw same (Move-All m (h d))
      | inr other ↦ rw (others k other) (h k)
    ]
    Step-All (Step.passes later same) h k = rw same (h k)

    pub Reach-All :
        {s t : Board O}
        → Reach R s t
        → ((k : AccountId) → AllLife P (s.life k))
        → (k : AccountId) → AllLife P (t.life k)
    Reach-All Reach.here h = h
    Reach-All (Reach.next r st) h = Step-All st (Reach-All r h)

  Step-now : {s t : Board O} → Step R s t → s.now ≤ t.now
  Step-now (Step.moves d m others now) = omega (arith, now)
  Step-now (Step.passes later same) = later

  pub Reach-now : {s t : Board O} → Reach R s t → s.now ≤ t.now
  Reach-now Reach.here = omega arith
  Reach-now (Reach.next r st) = le_trans (Reach-now r) (Step-now st)

  -- Of a contract under which a phase goes on only before the deadline.
  module _
      (timely : (now : Moment) (o : O) (a b : DeviceState) → R.goes now o a b → now < R.until o)
      (o : O) (b : DeviceState) (d : AccountId) where
    Move-timely :
        {now : Moment} {x y : Life O}
        → Move R now d x y
        → y ≡ some (o, b)
        → (x ≡ some (o, b)) ⊎ (now < R.until o)
    Move-timely (Move.rest same) h = inl (sym same ∙ h)
    Move-timely (Move.start o' a vacant early begun has) h = inr (ground (arith, sym has ∙ h))
    Move-timely {now} (Move.go o' from to had gone has) h =
        inr (ground (arith, sym has ∙ h, timely now o' from to gone))
    Move-timely (Move.end gone) h = absurd (ground (arith, sym gone ∙ h))

    Step-timely :
        {s t : Board O}
        → Step R s t
        → t.life d ≡ some (o, b)
        → (s.life d ≡ some (o, b)) ⊎ (s.now < R.until o)
    Step-timely {s} {t} (Step.moves k m others now) h = elim (eq-cases d k) [
      | inl same ↦ Move-timely (rw same m) h
      | inr other ↦ inl (sym (others d other) ∙ h)
    ]
    Step-timely (Step.passes later same) h = inl (rw same at h)

    -- From the deadline on an order comes into no phase that it was not in.
    pub Reach-timely :
        {s t : Board O}
        → Reach R s t
        → t.life d ≡ some (o, b)
        → (s.life d ≡ some (o, b)) ⊎ (s.now < R.until o)
    Reach-timely Reach.here h = inl h
    Reach-timely {s} (Reach.next {t} r st) h = elim (Step-timely st h) [
      | inl before ↦ Reach-timely r before
      | inr early ↦ inr (omega (arith, Reach-now r))
    ]
