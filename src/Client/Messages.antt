-- ===== src/Client/Messages.antt =====
-- What the answers of the service chain do (pallets/client/src/lib.rs): `on_accept`, `on_reject`
-- and `on_done`. The client is the one that the message names.
use xcm_robobank_prototype.Prelude.{Bool, ltb, if◌then◌else◌}
use xcm_robobank_prototype.Frame.{
  AccountId, ◌>>=◌, ◌>>◌, pure, gets, ok_or, deposit_event, insert_device, remove_order, unreserve,
  repatriate_reserved,
}
use xcm_robobank_prototype.Client.State.{Config, Event, Error, DispatchResult}
use xcm_robobank_prototype.Client.Orders.{order_reject}
use xcm_robobank_prototype.Common.{on_or_off}

module _ (T : Config) where
  unfoldable pub on_accept : AccountId → AccountId → DispatchResult T
  on_accept who device = deposit_event (Event.accept who device)

  unfoldable pub on_reject : AccountId → AccountId → Bool → DispatchResult T
  on_reject who device onoff = do
    order ← ok_or (← gets (λ s. s.orders device)) Error.no_order
    now ← gets (λ s. s.now)
    dev ← ok_or (← gets (λ s. s.device device)) Error.no_device
    order_reject T who order now device (record dev { state = on_or_off onoff })

  unfoldable pub on_done : AccountId → AccountId → Bool → DispatchResult T
  on_done who device onoff = do
    order ← ok_or (← gets (λ s. s.orders device)) Error.no_order
    now ← gets (λ s. s.now)
    dev ← ok_or (← gets (λ s. s.device device)) Error.no_device
    repatriate_reserved who device order.fee
    if ltb now order.until
        then unreserve device dev.penalty
        else (do repatriate_reserved device who dev.penalty; pure tt)
    remove_order device
    insert_device device (record dev { state = on_or_off onoff })
    deposit_event (Event.done who device)
