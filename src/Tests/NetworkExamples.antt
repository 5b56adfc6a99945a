-- ===== src/Tests/NetworkExamples.antt =====
-- Both chains running together, at concrete inputs: the service chain is parachain 100, the client
-- chain 300.
use mathlib.Core.List.{Memᴰ}
use xcm_robobank_prototype.Prelude.{refl, some, true, arith, List, [], ◌∷◌, ◌+◌, ◌≤◌, ◌≡◌}
use xcm_robobank_prototype.Common.{XcmpMessage}
use xcm_robobank_prototype.Service.State.{State as ServiceState, OrderOf as ServiceOrder}
use xcm_robobank_prototype.Service.Orders.{
  placed, order_received, check_order, lock_funds, store_order, order_accept, order_done,
}
use xcm_robobank_prototype.Service.Hooks.{handle_blob_message}
use xcm_robobank_prototype.Service.Runs as ServiceRuns
use xcm_robobank_prototype.Runtime.Service.{accept_on_receive}
use xcm_robobank_prototype.Client.State.{State as ClientState}
use xcm_robobank_prototype.Client.Orders.{
  place_order, check_order as client_check, lock_funds as client_lock, send_order,
}
use xcm_robobank_prototype.Client.Calls.{order}
use xcm_robobank_prototype.Client.Runs as ClientRuns
use xcm_robobank_prototype.Client.Transitions.{Naming}
use xcm_robobank_prototype.Wire.Orders.{carried}
use xcm_robobank_prototype.Wire.Network.{Run}
use xcm_robobank_prototype.Wire.Provenance.{ComesFrom, Run-ComesFrom}
use xcm_robobank_prototype.Tests.Ledgers.{simple_currency_laws, simple_sender_laws}
use xcm_robobank_prototype.Tests.ServiceSample.{dev1, cl1}
use xcm_robobank_prototype.Tests.ClientSample.{client_sample, client_registered, client_order}
use xcm_robobank_prototype.Tests.RuntimeExamples.{runtime, waiting}
use xcm_robobank_prototype.Wire.Flow.{Flow, claims_of, held, orders_in}
use xcm_robobank_prototype.Wire.Once.{Flow-claims_le}
use xcm_robobank_prototype.Frame.{ParaId, Blob}
use xcm_robobank_prototype.Wire.Earned.{ReadsAnswers, Claims, IsEarned, Run-IsEarned}
use xcm_robobank_prototype.Tests.Codecs.{simple_codec-DecodesEncoded}
use xcm_robobank_prototype.Service.Calls.{done}

abbrev anyone : Naming client_sample
anyone s who o d = Unit

-- The order is placed, and its message comes in.
abbrev placing : ClientRuns.Input client_sample
placing = ClientRuns.Input.order_call (some cl1) client_order

abbrev arrival : ServiceRuns.Input runtime
arrival =
    ServiceRuns.Input.blob_received 300 0
      (client_sample.codec.encode (XcmpMessage.new_order cl1 client_order))

abbrev client_after : ClientState client_sample
client_after = ClientRuns.deliver placing (client_registered 100)

abbrev service_after : ServiceState runtime
service_after = ServiceRuns.deliver arrival waiting

abbrev arrived : ServiceOrder runtime
arrived = placed (carried (λ n. n) client_order) cl1 300

both :
    Run client_sample runtime anyone 300 (client_registered 100) waiting client_after service_after
unfolding client_registered ClientRuns.deliver order place_order client_check client_lock send_order
both = Run.service (Run.client Run.here placing tt) arrival (λ from. Memᴰ.head refl)

Run-ComesFrom_example :
    ComesFrom client_sample runtime anyone 300 (λ n. n) client_after service_after both dev1 arrived
unfolding client_registered ServiceRuns.deliver handle_blob_message order_received check_order
    lock_funds store_order order_accept accept_on_receive
Run-ComesFrom_example =
    Run-ComesFrom client_sample runtime anyone 300 (λ n. n) simple_currency_laws simple_sender_laws
      (λ who o. refl) refl (λ e. absurd (omega (arith, e))) refl
      (λ d o stored. absurd (ground (arith, stored))) both dev1 arrived refl refl

-- The device finishes it.
abbrev finish : ServiceRuns.Input runtime
finish = ServiceRuns.Input.done_call (some dev1) true

abbrev service_done : ServiceState runtime
service_done = ServiceRuns.deliver finish service_after

claimed : Claims client_sample runtime 300 service_done cl1 dev1 true
unfolding ServiceRuns.deliver handle_blob_message order_received check_order lock_funds store_order
    order_accept accept_on_receive done order_done
claimed =
    (runtime.codec.encode (XcmpMessage.order_done cl1 dev1 true), Memᴰ.tail (Memᴰ.head refl), refl)

abbrev answers : ReadsAnswers client_sample runtime
answers = record {
  accepts = λ who d. refl;
  rejects = λ who d onoff. simple_codec-DecodesEncoded (XcmpMessage.order_reject who d onoff);
  dones = λ who d onoff. simple_codec-DecodesEncoded (XcmpMessage.order_done who d onoff);
}

Run-IsEarned_example :
    IsEarned client_sample runtime anyone 300
      (λ n. n)
      client_after
      service_done
      (Run.service both finish tt)
      cl1
      dev1
      true
unfolding client_registered
Run-IsEarned_example =
    Run-IsEarned client_sample runtime anyone 300 (λ n. n) answers simple_currency_laws
      simple_sender_laws simple_sender_laws (λ who o. refl) refl (client_registered 100) waiting
      (λ e. absurd (omega (arith, e))) refl refl (λ d o stored. absurd (ground (arith, stored)))
      (Run.service both finish tt) cl1 dev1 true claimed

-- The same run, with the message on its way and then arrived.
abbrev on_its_way : List (ParaId × Blob)
on_its_way = (100, client_sample.codec.encode (XcmpMessage.new_order cl1 client_order)) ∷ []

flowed :
    Flow client_sample runtime 300
      (client_registered 100)
      waiting
      client_after
      []
      (ServiceRuns.deliver finish service_after)
unfolding client_registered ClientRuns.deliver order place_order client_check client_lock send_order
flowed =
    Flow.service_input
      (Flow.arrival [] [] (client_sample.codec.encode (XcmpMessage.new_order cl1 client_order)) 0
        (Flow.client_input Flow.start placing on_its_way refl))
      finish tt

Flow-claims_le_example :
    claims_of client_sample runtime 300 cl1 dev1 service_done
      + held client_sample runtime 300 cl1 dev1 (service_done.orders dev1)
    ≤ orders_in client_sample runtime 300 cl1 dev1 (client_sample.sender.sent client_after.queue)
unfolding client_registered
Flow-claims_le_example =
    Flow-claims_le client_sample runtime 300 cl1 dev1 answers simple_sender_laws
      (λ e. absurd (omega (arith, e))) (client_registered 100) waiting refl
      (λ o stored. absurd (ground (arith, stored))) flowed

-- One order was sent, and one payment is claimed.
claimed_once :
    (claims_of client_sample runtime 300 cl1 dev1 service_done ≡ 1)
    × (orders_in client_sample runtime 300 cl1 dev1 (client_sample.sender.sent client_after.queue)
        ≡ 1)
unfolding client_registered ClientRuns.deliver order place_order client_check client_lock send_order
    ServiceRuns.deliver handle_blob_message order_received check_order lock_funds store_order
    order_accept accept_on_receive done order_done
claimed_once = (refl, refl)
