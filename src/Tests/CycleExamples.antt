-- ===== src/Tests/CycleExamples.antt =====
-- The whole cycle at concrete inputs: the service chain is parachain 100, the client chain 300.
use xcm_robobank_prototype.Prelude.{refl, some, true, arith}
use xcm_robobank_prototype.Common.{DeviceState, XcmpMessage}
use xcm_robobank_prototype.Service.Orders.{
  order_received, check_order, lock_funds, store_order, order_accept,
}
use xcm_robobank_prototype.Service.Hooks.{handle_blob_message}
use xcm_robobank_prototype.Runtime.Service.{accept_on_receive}
use xcm_robobank_prototype.Client.Escrow.{IsCovered, claim}
use xcm_robobank_prototype.Client.Orders.{
  place_order, check_order as client_check, lock_funds as client_lock, send_order,
}
use xcm_robobank_prototype.Client.Calls.{order}
use xcm_robobank_prototype.Prelude.Sums.{Bounds-zero}
use xcm_robobank_prototype.Wire.Cycle.{IsCompleted, cycle-IsCompleted}
use xcm_robobank_prototype.Tests.Ledgers.{simple_currency_laws, simple_sender_laws}
use xcm_robobank_prototype.Tests.ServiceSample.{dev1, cl1, penalty, default_wcd}
use xcm_robobank_prototype.Tests.ClientSample.{
  client_sample, client_registered, client_order, client_profile,
}
use xcm_robobank_prototype.Tests.ClientExamples.{sample-Passes}
use xcm_robobank_prototype.Tests.RuntimeExamples.{runtime, waiting}
use xcm_robobank_prototype.Tests.Codecs.{simple_codec-DecodesEncoded}

registered-IsCovered : IsCovered (client_registered 100)
unfolding client_registered
registered-IsCovered a = Bounds-zero (claim (client_registered 100) a) 0 (λ k. refl)

cycle-IsCompleted_example :
    IsCompleted client_sample runtime
      (λ n. n)
      client_order
      cl1
      (some cl1)
      (client_registered 100)
      waiting
      300
      100
      0
      0
      (some dev1)
      true
      2000
      (client_profile DeviceState.ready 100)
unfolding client_registered order place_order client_check client_lock send_order
    handle_blob_message order_received check_order lock_funds store_order order_accept
    accept_on_receive
cycle-IsCompleted_example =
    cycle-IsCompleted client_sample runtime (λ n. n) client_order cl1 (some cl1)
      (client_registered 100) waiting 300 100 0 0 (some dev1) true 2000 simple_currency_laws
      simple_currency_laws simple_sender_laws simple_sender_laws (λ who o. refl)
      (λ who d onoff. simple_codec-DecodesEncoded (XcmpMessage.order_done who d onoff))
      (client_profile DeviceState.ready 100)
      (record { state = DeviceState.busy2; penalty = penalty; wcd = default_wcd }) refl refl
      (omega arith) registered-IsCovered (sample-Passes 100) refl refl
      (record {
        in_time = omega arith;
        unordered = refl;
        registered = refl;
        roomy = omega arith;
        willing = refl;
      })
      refl refl refl refl (λ late. refl)
