-- ===== src/Tests/StaleAnswers.antt =====
-- A late answer settles a later order: it names a client and a device, but no order
-- (pallets/client/src/lib.rs, `on_done`).
use xcm_robobank_prototype.Prelude.{refl, some, none, true, ◌≡◌, ◌+◌, ◌-◌}
use xcm_robobank_prototype.Common.{XcmpMessage}
use xcm_robobank_prototype.Client.State.{State, OrderBaseOf}
use xcm_robobank_prototype.Client.Orders.{
  place_order, check_order, lock_funds, send_order, order_reject,
}
use xcm_robobank_prototype.Client.Calls.{order, cancel, register}
use xcm_robobank_prototype.Client.Messages.{on_done}
use xcm_robobank_prototype.Client.Hooks.{handle_blob_message}
use xcm_robobank_prototype.Tests.ServiceSample.{dev1, cl1, penalty, default_wcd}
use xcm_robobank_prototype.Tests.ClientSample.{client_sample, client_ordered, service_para}

-- The client cancels the first order after its deadline, and the device registers again.
abbrev cancelled : State client_sample
cancelled = (cancel client_sample (some cl1) dev1 (record client_ordered { now = 3000 })).1

abbrev registered_again : State client_sample
registered_again =
    (register client_sample (some dev1) service_para penalty default_wcd true cancelled).1

-- The second order has a fee of its own.
abbrev second_order : OrderBaseOf client_sample
second_order = record { until = 9000; payload = 8; fee = 777; device = dev1 }

abbrev ordered_again : State client_sample
ordered_again = (order client_sample (some cl1) second_order registered_again).1

-- The answer to the first order comes in now.
abbrev answered : State client_sample
answered =
    handle_blob_message client_sample service_para 0
      (client_sample.codec.encode (XcmpMessage.order_done cl1 dev1 true)) ordered_again

-- The first order was given back, with the penalty of the device, and the second one is paid.
second_paid :
    (cancelled.ledger.reserved cl1 ≡ 0)
    × (ordered_again.ledger.reserved cl1 ≡ 777)
    × (answered.orders dev1 ≡ none)
    × (answered.ledger.reserved cl1 ≡ 0)
    × (answered.ledger.free cl1 ≡ 100_000_000 + penalty - 777)
unfolding client_ordered cancel order_reject register order place_order check_order lock_funds
    send_order handle_blob_message on_done
second_paid = (refl, refl, refl, refl, refl)
