-- ===== src/Tests/ContractExamples.antt =====
-- The theorems about the contract of orders, and its bounds, at concrete inputs.
use xcm_robobank_prototype.Prelude.{◌+◌, ◌^◌, ◌≤◌, ◌<◌, ◌≡◌, ◌⊎◌, refl, some, true, arith}
use xcm_robobank_prototype.Common.{DeviceState}
use xcm_robobank_prototype.Service.State.{State, DeviceProfile}
use xcm_robobank_prototype.Service.Orders.{order_received}
use xcm_robobank_prototype.Service.Runs as Runs
use xcm_robobank_prototype.Service.Contract.{rules, board, Reach-refines}
use xcm_robobank_prototype.Service.Deadlines.{Reach-late}
use xcm_robobank_prototype.Service.Bounds.{order_received-roomy}
use xcm_robobank_prototype.Client.Contract.{
  rules as client_rules, board as client_board, Reach-refines_client,
}
use xcm_robobank_prototype.Client.State.{DeviceProfile as ClientProfile}
use xcm_robobank_prototype.Client.Bounds.{order-roomy}
use xcm_robobank_prototype.Client.Escrow.{Honest}
use xcm_robobank_prototype.Contract.{Reach}
use xcm_robobank_prototype.Tests.Ledgers.{simple_currency_laws, simple_sender_laws}
use xcm_robobank_prototype.Tests.ServiceSample.{sample, genesis, dev1, cl1}
use xcm_robobank_prototype.Tests.ServiceRuns.{registered, ordered, accepted}
use xcm_robobank_prototype.Tests.ServiceExamples.{
  sample-Engages, accepted-reached, stored_order, profile, at,
}
use xcm_robobank_prototype.Tests.ClientSample.{
  client_sample, client_genesis, client_registered, client_ordered, client_order, service_para,
}
use xcm_robobank_prototype.Tests.ClientExamples.{client_ordered-reached}

Reach-refines_example : Reach (rules sample) (board genesis) (board accepted)
Reach-refines_example = Reach-refines sample-Engages (λ d. tt) accepted-reached

Reach-refines_client_example :
    Reach (client_rules client_sample) (client_board client_genesis) (client_board client_ordered)
Reach-refines_client_example = Reach-refines_client Honest (λ d. tt) (client_ordered-reached Honest)

-- Another device registers after the deadline.
abbrev joined : State sample
joined = Runs.deliver (Runs.Input.register_call (some 101) 5 5 true) (at 11_000 accepted)

Reach-late_example :
    ((at 11_000 accepted).orders dev1 ≡ some stored_order)
    × (p : DeviceProfile) × ((at 11_000 accepted).device dev1 ≡ some p)
    × (p.state ≡ DeviceState.busy2)
unfolding accepted Runs.deliver
Reach-late_example =
    Reach-late {s = at 11_000 accepted} {t = joined} dev1 stored_order (profile DeviceState.busy2)
      sample-Engages (Runs.Reach-IsEngaged sample-Engages accepted-reached (λ d. tt)) (omega arith)
      (Runs.Reach.next Runs.Reach.here
        (Runs.Step.delivered (Runs.Input.register_call (some 101) 5 5 true) refl))
      refl refl

order_received-roomy_example :
    let r = order_received sample stored_order dev1 registered in
    (0 < stored_order.until)
    × (dev : DeviceProfile) × (r.1.device dev1 ≡ some dev)
    × ((0 + dev.wcd ≤ stored_order.until) ⊎ (2 ^ 64 ≤ 0 + dev.wcd))
unfolding registered
order_received-roomy_example =
    order_received-roomy sample simple_currency_laws stored_order dev1 registered
      (unfold ordered in refl)

order-roomy_example :
    (0 < client_order.until)
    × (dev : ClientProfile) × ((client_registered service_para).device dev1 ≡ some dev)
    × ((0 + dev.wcd ≤ client_order.until) ⊎ (2 ^ 64 ≤ 0 + dev.wcd))
unfolding client_ordered
order-roomy_example =
    order-roomy client_sample simple_currency_laws client_order cl1 (client_registered service_para)
      (some cl1) refl simple_sender_laws refl
