-- ===== src/Client/Calls.antt =====
-- The dispatchable calls of the pallet (pallets/client/src/lib.rs).
use xcm_robobank_prototype.Prelude.{Bool, not, ◌||◌, [], ◌∷◌, ltb, ◌==◌}
use xcm_robobank_prototype.Frame.{
  AccountId, ParaId, Balance, Moment, ◌>>=◌, ◌>>◌, gets, fail_if, ok_or, propagate, map_err,
  contains_key, deposit_event, insert_device, send_blob_message,
}
use xcm_robobank_prototype.Common.{on_or_off}
use xcm_robobank_prototype.Client.State.{Config, OrderBaseOf, Event, Error, DispatchResult}
use xcm_robobank_prototype.Client.Orders.{place_order, order_reject}

module _ (T : Config) where
  -- The origin is not looked at.
  unfoldable pub test : T.OriginFor → DispatchResult T
  test origin = do
    r ← send_blob_message 200 (0x00 ∷ 0x20 ∷ [])
    map_err r Error.cannot_reach_destination

  unfoldable pub order : T.OriginFor → OrderBaseOf T → DispatchResult T
  order origin o = do who ← propagate (T.ensure_signed origin); place_order T o who

  -- The state of the device is left as it is.
  unfoldable pub cancel : T.OriginFor → AccountId → DispatchResult T
  cancel origin device = do
    who ← propagate (T.ensure_signed origin)
    order ← ok_or (← gets (λ s. s.orders device)) Error.no_order
    now ← gets (λ s. s.now)
    fail_if (ltb now order.until || not (order.client == who)) Error.prohibited
    dev ← ok_or (← gets (λ s. s.device device)) Error.no_device
    order_reject T who order now device dev

  -- A device with no order can be in any state here.
  unfoldable pub register : T.OriginFor → ParaId → Balance → Moment → Bool → DispatchResult T
  register origin paraid penalty wcd onoff = do
    id ← propagate (T.ensure_signed origin)
    taken ← gets (λ s. contains_key id s.orders)
    fail_if taken Error.device_exists
    insert_device id
        (record { wcd = wcd; penalty = penalty; state = on_or_off onoff; paraid = paraid })
    deposit_event (Event.new_device id)
