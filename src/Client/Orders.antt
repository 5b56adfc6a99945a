-- ===== src/Client/Orders.antt =====
-- The parts of `order`, and `order_reject` (pallets/client/src/lib.rs).
use xcm_robobank_prototype.Prelude.{not, ltb, leb, if◌then◌else◌}
use xcm_robobank_prototype.Frame.{
  AccountId, Moment, ◌>>=◌, ◌>>◌, pure, gets, fail_if, ok_or, map_err, contains_key, add_moments,
  deposit_event, insert_device, insert_order, remove_order, can_reserve, reserve, unreserve,
  repatriate_reserved, send_blob_message,
}
use xcm_robobank_prototype.Common.{DeviceState, eq, XcmpMessage, to_order, to_base}
use xcm_robobank_prototype.Client.State.{
  Config, OrderOf, OrderBaseOf, DeviceProfile, Event, Error, Call, DispatchResult,
}

module _ (T : Config) where
  -- `order` up to the reservations: the tests that an order passes, and the device's profile.
  unfoldable pub check_order : OrderBaseOf T → AccountId → Call T DeviceProfile
  check_order order who = do
    now ← gets (λ s. s.now)
    fail_if (leb order.until now) Error.overdue
    taken ← gets (λ s. contains_key order.device s.orders)
    fail_if taken Error.illegal_state
    dev ← ok_or (← gets (λ s. s.device order.device)) Error.no_device
    fail_if (not (eq dev.state DeviceState.ready)) Error.illegal_state
    fail_if (ltb order.until (add_moments now dev.wcd)) Error.bad_order_details
    reservable ← can_reserve who order.fee
    fail_if (not reservable) Error.device_low_bail
    pure dev

  -- Both sides put up their money.
  unfoldable pub lock_funds : OrderBaseOf T → AccountId → DeviceProfile → DispatchResult T
  lock_funds order who dev = do reserve order.device dev.penalty; reserve who order.fee

  -- The rest: the order is stored, then sent, and the device is busy once it has been sent.
  unfoldable pub send_order : OrderBaseOf T → AccountId → DeviceProfile → DispatchResult T
  unfolding to_order to_base
  send_order base who dev = do
    let device : AccountId = base.device
    let order : OrderOf T = to_order (λ n. n) base who
    insert_order device order
    r ←
        send_blob_message dev.paraid
          (T.codec.encode (XcmpMessage.new_order who (to_base order device)))
    map_err r Error.cannot_reach_destination
    insert_device device (record dev { state = DeviceState.busy })
    deposit_event (Event.new_order who device)

  -- `order` for the account that signed it.
  unfoldable pub place_order : OrderBaseOf T → AccountId → DispatchResult T
  place_order order who = do
    dev ← check_order order who
    lock_funds order who dev
    send_order order who dev

  -- `dev` already carries the new state; it is stored at the end.
  unfoldable pub order_reject :
      AccountId → OrderOf T → Moment → AccountId → DeviceProfile → DispatchResult T
  order_reject who order now device dev = do
    unreserve who order.fee
    if ltb now order.until
        then unreserve device dev.penalty
        else (do repatriate_reserved device order.client dev.penalty; pure tt)
    remove_order device
    insert_device device dev
    deposit_event (Event.reject who device)
