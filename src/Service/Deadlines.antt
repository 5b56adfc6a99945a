-- ===== src/Service/Deadlines.antt =====
-- What the contract of orders says of the runs of the service pallet.
use xcm_robobank_prototype.Prelude.{◌≡◌, ◌≤◌, inl, inr, Option, none, some, arith, refl}
use xcm_robobank_prototype.Frame.{AccountId}
use xcm_robobank_prototype.Common.{DeviceState}
use xcm_robobank_prototype.Service.State.{Config, OrderOf, DeviceProfile, State}
use xcm_robobank_prototype.Service.Engaged.{IsEngaged, Engages}
use xcm_robobank_prototype.Service.Runs.{Reach}
use xcm_robobank_prototype.Service.Contract.{rules, state_of, Reach-refines}
use xcm_robobank_prototype.Contract.{life_of}
use xcm_robobank_prototype.Contract.Laws.{Reach-timely}

life-known :
    {O : Type 0} (o : O) (state : DeviceState) (order : Option O) (dev : Option DeviceProfile)
    → life_of state_of order dev ≡ some (o, state)
    → (order ≡ some o) × (p : DeviceProfile) × (dev ≡ some p) × (p.state ≡ state)
life-known o state none dev h = absurd (ground arith)
life-known o state (some o') none h = absurd (ground arith)
life-known o state (some o') (some p) h = (ground arith, p, refl, ground arith)

module _ {T : Config} where
  -- From the deadline of an order on, the pallet neither takes the order nor accepts it: if a device
  -- has it in a later state of the chain, then it had it before, and was in the same state.
  pub Reach-late :
      {s t : State T} (d : AccountId) (o : OrderOf T) (dev : DeviceProfile)
      → Engages T
      → IsEngaged s
      → o.until ≤ s.now
      → Reach s t
      → t.orders d ≡ some o
      → t.device d ≡ some dev
      → (s.orders d ≡ some o) × (p : DeviceProfile) × (s.device d ≡ some p) × (p.state ≡ dev.state)
  Reach-late {s} d o dev engages h late r ordered known =
      elim (Reach-timely (rules T) (λ now o' a b goes. goes.2) o dev.state d
        (Reach-refines engages h r) (ground (arith, ordered, known))) [
          | inl before ↦ life-known o dev.state (s.orders d) (s.device d) before
          | inr early ↦ absurd (omega (arith, late, early))
        ]
