-- ===== src/Client/Bounds.antt =====
-- The test of the work cycle, with the wrap-around of its sum.
use xcm_robobank_prototype.Prelude.{◌+◌, ◌^◌, ◌≤◌, ◌<◌, ◌≡◌, ◌⊎◌, some}
use xcm_robobank_prototype.Frame.{
  AccountId, ok, CurrencyLaws, XcmpMessageSenderLaws, add_moments_le,
}
use xcm_robobank_prototype.Client.State.{Config, OrderBaseOf, DeviceProfile, State}
use xcm_robobank_prototype.Client.Calls.{order}
use xcm_robobank_prototype.Client.Ordering.{order-IsPlaced}

module _ (T : Config) (laws : CurrencyLaws T.currency) where
  -- A call of `order` that succeeds, signed by the client, is in time, and leaves its device, which
  -- is registered, the whole work cycle before the deadline, unless the sum of the time and the
  -- work cycle passes the largest moment.
  pub order-roomy :
      (o : OrderBaseOf T) (who : AccountId) (s : State T) (origin : T.OriginFor)
      → T.ensure_signed origin ≡ ok who
      → XcmpMessageSenderLaws T.sender
      → (order T origin o s).0 ≡ ok tt
      → (s.now < o.until)
        × (dev : DeviceProfile) × (s.device o.device ≡ some dev)
        × ((s.now + dev.wcd ≤ o.until) ⊎ (2 ^ 64 ≤ s.now + dev.wcd))
  order-roomy o who s origin signed reliable h =
      let (dev, placed) = order-IsPlaced T laws o who s origin signed reliable h in
      (
        placed.passes.in_time,
        dev,
        placed.passes.registered,
        add_moments_le s.now dev.wcd o.until placed.passes.roomy,
      )
