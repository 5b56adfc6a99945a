-- ===== src/Service/Authority/Rejected.antt =====
-- What a rejection does to the entries of a device.
use native.Mathlib.Decide.{ℕ_discrete}
use xcm_robobank_prototype.Prelude.{◌≡◌, ◌⊎◌, inl, Bool, Option, none, some, arith}
use xcm_robobank_prototype.Frame.{AccountId}
use xcm_robobank_prototype.Service.State.{Config, OrderOf, DeviceProfile, State}
use xcm_robobank_prototype.Service.Orders.{order_reject}
use xcm_robobank_prototype.Service.Authority.{Becomes, Same}

module _ (T : Config) (s : State T) (d : AccountId) where
  -- A rejection ends the order of its device, or changes nothing of it; other devices are not
  -- touched.
  pub order_reject-Becomes :
      (o : Option (OrderOf T)) (k : AccountId) (p : DeviceProfile) (onoff : Bool)
      → let t = (order_reject T o s.now k p onoff s).1 in
        Same T s d t ⊎ ((k ≡ d) × Becomes t d none (some p))
  unfolding order_reject
  order_reject-Becomes o k p onoff = elim (ℕ_discrete k d) [
    | no ne ↦ inl (record { order_after = ground arith; device_after = ground arith })
    | yes e ↦ rejected_here e
  ]
    where
      rejected_here :
          k ≡ d
          → let t = (order_reject T o s.now k p onoff s).1 in
            Same T s d t ⊎ ((k ≡ d) × Becomes t d none (some p))
      rejected_here e = ground arith
