-- ===== src/Service/Storing.antt =====
-- What `order_received` leaves behind once the money is reserved.
use xcm_robobank_prototype.Prelude.{◌≡◌, inl, inr, arith, ◌++◌, ◌∷◌, []}
use xcm_robobank_prototype.Frame.{AccountId, Moment, ok, insert}
use xcm_robobank_prototype.Common.{DeviceState, eq-cases}
use xcm_robobank_prototype.Service.State.{Config, OrderOf, DeviceProfile, State, Event}
use xcm_robobank_prototype.Service.Orders.{store_order, order_accept}

module _ (T : Config) (o : OrderOf T) (d : AccountId) (dev : DeviceProfile) where
  -- Accepting an order writes the profile, the queue and the events, and cannot fail.
  pub order_accept-frame :
      (now : Moment) (s : State T)
      → order_accept T o now d dev s ≡ (
        ok tt,
        record s {
          device = insert d (record dev { state = DeviceState.busy2 }) s.device;
          queue = (order_accept T o now d dev s).1.queue;
          events = s.events ++ Event.accept d ∷ [];
        },
      )
  unfolding order_accept
  order_accept-frame now s = ground arith

  -- Storing an order puts it and the profile under the device, and cannot fail.
  pub store_order-frame :
      (s : State T)
      → store_order T o d dev s ≡ (
        ok tt,
        record s {
          device = insert d dev s.device;
          orders = insert d o s.orders;
          queue = (store_order T o d dev s).1.queue;
          events = (store_order T o d dev s).1.events;
        },
      )
  unfolding store_order
  store_order-frame s = elim (eq-cases dev.state DeviceState.busy2) [
    | inl (test, same) ↦ rw test (
        ground (
          arith,
          order_accept-frame s.now (record s {
            orders = insert d o s.orders;
            events = s.events ++ Event.new_order d ∷ [];
          }),
        ))
    | inr (test, other) ↦ rw test
  ]
