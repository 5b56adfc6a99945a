-- ===== src/Common/Convert.antt =====
-- The two conversions between the forms of an order (pallets/common/src/lib.rs).
use xcm_robobank_prototype.Prelude.{ℕ, ◌≡◌, refl}
use xcm_robobank_prototype.Common.{OrderBase, Order, to_order, to_base}

module _ {Payload Balance Moment AccountId ParaId : Type 0} (from : ℕ → ParaId) where
  -- Converting an order to the stored form and back, for the device that it names, gives the order
  -- that was sent; converting a stored order there and back, for its client, changes nothing but
  -- the parachain identifier, which becomes the one of 0.
  pub convert-convert :
      (b : OrderBase Payload Balance Moment AccountId)
      (o : Order Payload Balance Moment AccountId ParaId) (client device : AccountId)
      → (to_base (to_order from b client) b.device ≡ b)
        × (to_order from (to_base o device) o.client ≡ record o { paraid = from 0 })
  unfolding to_order to_base
  convert-convert b o client device = (refl, refl)
