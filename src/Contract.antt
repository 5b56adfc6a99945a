-- ===== src/Contract.antt =====
-- What the two pallets promise about the life of an order, with no ledger, messages or events: each
-- device has at most one order, with a phase, and a clock runs. The rules of a chain say how an
-- order starts and how its phase goes on.
pub mod Laws
use xcm_robobank_prototype.Prelude.{◌≡◌, ◌≢◌, ◌≤◌, ◌<◌, ◌⊎◌, inl, inr, Option, none, some}
use xcm_robobank_prototype.Frame.{AccountId, Moment}
use xcm_robobank_prototype.Common.{DeviceState}

-- `starts` and `goes` are for a device; `until` is the deadline.
pub record Rules (O : Type 0) : Type 1 where
  pub until : O → Moment
  pub starts : AccountId → O → DeviceState → Type 0
  pub goes : Moment → O → DeviceState → DeviceState → Type 0

-- The order of a device and the state that the device has with it.
abbrev pub Life : Type 0 → Type 0
Life O = Option (O × DeviceState)

-- The entries of a device in two maps, of which the second gives a state.
abbrev pub life_of : {O D : Type 0} → (D → DeviceState) → Option O → Option D → Life O
life_of state none _ = none
life_of state (some o) none = none
life_of state (some o) (some dev) = some (o, state dev)

pub record Board (O : Type 0) : Type 0 where
  pub now : Moment
  pub life : AccountId → Life O

module _ {O : Type 0} (R : Rules O) where
  -- What can become of one device while the clock shows `now`.
  pub data Move (now : Moment) (d : AccountId) (a b : Life O) : Type 0 where
    rest : b ≡ a → Move now d a b
    start :
        (o : O) (state : DeviceState)
        → a ≡ none
        → now < R.until o
        → R.starts d o state
        → b ≡ some (o, state)
        → Move now d a b
    go :
        (o : O) (from to : DeviceState)
        → a ≡ some (o, from)
        → R.goes now o from to
        → b ≡ some (o, to)
        → Move now d a b
    end : b ≡ none → Move now d a b

  pub ends : {now : Moment} {d : AccountId} (a b : Life O) → (b ≡ none) ⊎ (b ≡ a) → Move now d a b
  ends a b (inl gone) = Move.end gone
  ends a b (inr same) = Move.rest same

  -- One device moves, or time passes.
  pub data Step (s t : Board O) : Type 0 where
    moves :
        (d : AccountId)
        → Move s.now d (s.life d) (t.life d)
        → ((k : AccountId) → k ≢ d → t.life k ≡ s.life k)
        → t.now ≡ s.now
        → Step s t
    passes : s.now ≤ t.now → t.life ≡ s.life → Step s t

  pub data Reach (s : Board O) : Board O → Type 0 where
    here : Reach s s
    next : {t u : Board O} → Reach s t → Step t u → Reach s u
