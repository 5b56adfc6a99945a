-- ===== src/Service/Bounds.antt =====
-- The test of the work cycle, with the wrap-around of its sum.
use xcm_robobank_prototype.Prelude.{◌+◌, ◌^◌, ◌≤◌, ◌<◌, ◌≡◌, ◌⊎◌, arith, some}
use xcm_robobank_prototype.Frame.{AccountId, ok, CurrencyLaws, add_moments_le}
use xcm_robobank_prototype.Service.State.{Config, OrderOf, DeviceProfile, State}
use xcm_robobank_prototype.Service.Orders.{order_received}
use xcm_robobank_prototype.Service.Placement.{order_received-IsPlaced}

module _ (T : Config) (laws : CurrencyLaws T.currency) where
  -- An order that is taken is in time, and leaves its device the whole work cycle before the
  -- deadline, unless the sum of the time and the work cycle passes the largest moment.
  pub order_received-roomy :
      (o : OrderOf T) (d : AccountId) (s : State T)
      → (order_received T o d s).0 ≡ ok tt
      → (s.now < o.until)
        × (dev : DeviceProfile) × ((order_received T o d s).1.device d ≡ some dev)
        × ((s.now + dev.wcd ≤ o.until) ⊎ (2 ^ 64 ≤ s.now + dev.wcd))
  order_received-roomy o d s h =
      let (dev, placed) = order_received-IsPlaced T laws o d s h in
      (
        placed.passes.in_time,
        dev,
        ground (arith, placed.device_stored),
        add_moments_le s.now dev.wcd o.until placed.passes.roomy,
      )
