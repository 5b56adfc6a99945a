-- ===== src/Service/Calls.antt =====
-- The dispatchable calls of the pallet (pallets/service/src/lib.rs).
use xcm_robobank_prototype.Prelude.{
  Bool, true, false, not, ◌||◌, Option, none, some, ltb, leb, ◌==◌, if◌then◌else◌,
}
use xcm_robobank_prototype.Frame.{
  AccountId, Balance, Moment, DispatchError, Result, ok, err, ◌>>=◌, ◌>>◌, gets, fail_if, ok_or,
  propagate, contains_key, deposit_event, insert_device, take_order, try_mutate_device,
}
use xcm_robobank_prototype.Common.{DeviceState, eq, on_or_off}
use xcm_robobank_prototype.Service.State.{
  Config, OrderBaseOf, DeviceProfile, Event, Error, DispatchResult,
}
use xcm_robobank_prototype.Service.Orders.{
  order_received, order_accept, order_reject, order_done, placed,
}

module _ (T : Config) where
  unfoldable pub order : T.OriginFor → OrderBaseOf T → DispatchResult T
  order origin o = do
    who ← propagate (T.ensure_signed origin)
    order_received T (placed o who T.self_para_id) o.device

  -- The state of the device is left as it is.
  unfoldable pub cancel : T.OriginFor → AccountId → DispatchResult T
  cancel origin device = do
    who ← propagate (T.ensure_signed origin)
    order ← ok_or (← gets (λ s. s.orders device)) Error.no_order
    now ← gets (λ s. s.now)
    fail_if (ltb now order.until || not (order.client == who)) Error.prohibited
    dev ← ok_or (← gets (λ s. s.device device)) Error.no_device
    order_reject T (some order) now device dev false

  unfoldable pub accept : T.OriginFor → Bool → Bool → DispatchResult T
  accept origin reject onoff = do
    id ← propagate (T.ensure_signed origin)
    order ← gets (λ s. s.orders id)
    dev ← ok_or (← gets (λ s. s.device id)) Error.no_device
    now ← gets (λ s. s.now)
    if reject
        then (do
          fail_if (not (eq dev.state DeviceState.busy || eq dev.state DeviceState.busy2))
              Error.illegal_state
          order_reject T order now id (record dev { state = on_or_off onoff }) onoff)
        else (do
          fail_if (not (eq dev.state DeviceState.busy)) Error.illegal_state
          order ← ok_or order Error.no_order
          fail_if (leb order.until now) Error.overdue
          order_accept T order now id dev)

  unfoldable pub done : T.OriginFor → Bool → DispatchResult T
  done origin onoff = do
    id ← propagate (T.ensure_signed origin)
    dev ← ok_or (← gets (λ s. s.device id)) Error.no_device
    fail_if (not (eq dev.state DeviceState.busy2)) Error.illegal_state
    order ← ok_or (← take_order id) Error.no_order
    now ← gets (λ s. s.now)
    order_done T order now id dev onoff

  -- A device with no order can be in any state here.
  unfoldable pub register : T.OriginFor → Balance → Moment → Bool → DispatchResult T
  register origin penalty wcd onoff = do
    id ← propagate (T.ensure_signed origin)
    taken ← gets (λ s. contains_key id s.orders)
    fail_if taken Error.device_exists
    insert_device id (record { wcd = wcd; penalty = penalty; state = on_or_off onoff })
    deposit_event (Event.new_device id)

-- The `match` of `set_state`: the state that a switch leads to, if it is legal.
unfoldable pub switched : Bool → DeviceState → Option DeviceState
switched false DeviceState.ready = some DeviceState.off
switched false DeviceState.off = some DeviceState.off
switched true DeviceState.off = some DeviceState.ready
switched _ _ = none

-- The closure of `set_state`.
unfoldable pub set_profile :
    Bool → Option DeviceProfile → Result (DispatchError Error) (Option DeviceProfile)
unfolding switched
set_profile onoff none = err (DispatchError.pallet Error.no_device)
set_profile onoff (some dev) = elim (switched onoff dev.state) [
  | none ↦ err (DispatchError.pallet Error.illegal_state)
  | some state ↦ ok (some (record dev { state = state }))
]

unfoldable pub set_state : (T : Config) → T.OriginFor → Bool → DispatchResult T
unfolding set_profile
set_state T origin onoff = do
  id ← propagate (T.ensure_signed origin)
  try_mutate_device id (set_profile onoff)
