-- ===== src/Service/Orders.antt =====
-- The functions behind the calls: an order is received, accepted, rejected and done
-- (pallets/service/src/lib.rs).
use xcm_robobank_prototype.Prelude.{Bool, not, Option, none, some, ltb, leb, ◌==◌, if◌then◌else◌}
use xcm_robobank_prototype.Frame.{
  AccountId, Moment, ◌>>=◌, ◌>>◌, pure, gets, fail_if, ok_or, map_err, contains_key, add_moments,
  deposit_event, insert_device, insert_order, remove_order, can_reserve, reserve, unreserve,
  repatriate_reserved, send_blob_message, ParaId, Balance,
}
use xcm_robobank_prototype.Common.{DeviceState, eq, XcmpMessage, on_or_off, OrderBase}
use xcm_robobank_prototype.Service.State.{
  Config, OrderOf, DeviceProfile, Event, Error, Call, DispatchResult, OrderFor,
}

-- The stored form of an order, as `order` and `handle_blob_message` build it.
abbrev pub placed :
    {P : Type 0} → OrderBase P Balance Moment AccountId → AccountId → ParaId → OrderFor P
placed o client paraid = record {
  until = o.until;
  payload = o.payload;
  fee = o.fee;
  client = client;
  paraid = paraid;
}

module _ (T : Config) where
  -- The result of the message sender is dropped: an acceptance that cannot be sent is not an error.
  unfoldable pub order_accept : OrderOf T → Moment → AccountId → DeviceProfile → DispatchResult T
  order_accept order now device dev = do
    insert_device device (record dev { state = DeviceState.busy2 })
    if order.paraid == T.self_para_id then pure tt else (do
      send_blob_message order.paraid (T.codec.encode (XcmpMessage.order_accept order.client device))
      pure tt)
    deposit_event (Event.accept device)

  -- `dev` already carries the new state; it is stored at the end.
  unfoldable pub order_reject :
      Option (OrderOf T) → Moment → AccountId → DeviceProfile → Bool → DispatchResult T
  order_reject order now device dev onoff = do
    elim order [
      | none ↦ pure tt
      | some o ↦
          if o.paraid == T.self_para_id
          then (do
            unreserve o.client o.fee
            if ltb now o.until
                then unreserve device dev.penalty
                else (do repatriate_reserved device o.client dev.penalty; pure tt))
          else (do
            r ←
                send_blob_message o.paraid
                  (T.codec.encode (XcmpMessage.order_reject o.client device onoff))
            map_err r Error.cannot_reach_destination)
    ]
    remove_order device
    insert_device device dev
    deposit_event (Event.reject device)

  unfoldable pub order_done :
      OrderOf T → Moment → AccountId → DeviceProfile → Bool → DispatchResult T
  order_done order now device dev onoff = do
    insert_device device (record dev { state = on_or_off onoff })
    if order.paraid == T.self_para_id
        then (do
          repatriate_reserved order.client device order.fee
          if ltb now order.until
              then unreserve device dev.penalty
              else (do repatriate_reserved device order.client dev.penalty; pure tt))
        else (do
          r ←
              send_blob_message order.paraid
                (T.codec.encode (XcmpMessage.order_done order.client device onoff))
          map_err r Error.cannot_reach_destination)
    deposit_event (Event.done device)

  -- `order_received` up to its assertion: the tests that an order passes, and the profile of the
  -- device with its new state. A `debug_assert!` is not compiled into a release build.
  unfoldable pub check_order : OrderOf T → AccountId → Call T DeviceProfile
  check_order order device = do
    now ← gets (λ s. s.now)
    fail_if (leb order.until now) Error.overdue
    taken ← gets (λ s. contains_key device s.orders)
    fail_if taken Error.illegal_state
    dev ← ok_or (← gets (λ s. s.device device)) Error.no_device
    fail_if (not (eq dev.state DeviceState.ready)) Error.illegal_state
    fail_if (ltb order.until (add_moments now dev.wcd)) Error.bad_order_details
    state ← ok_or (T.on_received device order) Error.illegal_state
    pure (record dev { state = state })

  -- The part for an order of this chain: both sides put up their money.
  unfoldable pub lock_funds : OrderOf T → AccountId → DeviceProfile → DispatchResult T
  lock_funds order device dev =
      if order.paraid == T.self_para_id
      then (do
        reservable ← can_reserve order.client order.fee
        fail_if (not reservable) Error.device_low_bail
        reserve device dev.penalty
        reserve order.client order.fee)
      else pure tt

  -- The rest: the order is stored, and accepted at once if the device says so.
  unfoldable pub store_order : OrderOf T → AccountId → DeviceProfile → DispatchResult T
  store_order order device dev = do
    now ← gets (λ s. s.now)
    insert_order device order
    deposit_event (Event.new_order device)
    if eq dev.state DeviceState.busy2
        then order_accept order now device dev
        else insert_device device dev

  unfoldable pub order_received : OrderOf T → AccountId → DispatchResult T
  order_received order device = do
    dev ← check_order order device
    lock_funds order device dev
    store_order order device dev
