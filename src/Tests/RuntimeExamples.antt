-- ===== src/Tests/RuntimeExamples.antt =====
-- The theorems about the runtime with the service pallet at concrete inputs.
use xcm_robobank_prototype.Prelude.{refl, Option, some, none, [], ◌≡◌}
use xcm_robobank_prototype.Frame.{AccountId}
use xcm_robobank_prototype.Common.{DeviceState}
use xcm_robobank_prototype.Service.State.{Config, State}
use xcm_robobank_prototype.Service.Orders.{
  order_received, check_order, lock_funds, store_order, order_accept, placed,
}
use xcm_robobank_prototype.Runtime.Service.{service_config, accept_on_receive, Reach-busy2}
use xcm_robobank_prototype.Tests.Ledgers.{simple_currency, simple_sender}
use xcm_robobank_prototype.Tests.Codecs.{simple_codec, simple_xcm}
use xcm_robobank_prototype.Tests.ServiceSample.{
  ensure_signed, balances, dev1, cl1, penalty, default_wcd, order_for,
}
use xcm_robobank_prototype.Service.Runs.{deliver, order_call, Reach, Step}
use xcm_robobank_prototype.Service.Calls.{order}

abbrev pub runtime : Config
runtime =
    service_config (Option AccountId) ensure_signed simple_currency simple_sender simple_codec
      simple_xcm 100

-- One device is ready.
abbrev pub waiting : State runtime
waiting = record {
  now = 0;
  device = λ _. some (record { state = DeviceState.ready; penalty = penalty; wcd = default_wcd });
  orders = λ _. none;
  ledger = balances;
  queue = [];
  events = [];
}

-- A client of the chain itself orders from the device.
abbrev ordered : State runtime
ordered = deliver (order_call (some cl1) (order_for dev1 3000)) waiting

Reach-busy2_example : ◌≡◌ {A = DeviceState} DeviceState.busy2 DeviceState.busy2
unfolding deliver order order_received check_order lock_funds store_order order_accept
    accept_on_receive
Reach-busy2_example =
    Reach-busy2 (Option AccountId) ensure_signed simple_currency simple_sender simple_codec
      simple_xcm 100 {s = waiting} {t = ordered} dev1 (placed (order_for dev1 3000) cl1 100)
      (record { state = DeviceState.busy2; penalty = penalty; wcd = default_wcd }) (λ k. refl)
      (Reach.next Reach.here (Step.delivered (order_call (some cl1) (order_for dev1 3000)) refl))
      refl refl
