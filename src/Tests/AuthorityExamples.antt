-- ===== src/Tests/AuthorityExamples.antt =====
-- Who can change an order, and its recovery, at concrete inputs.
use xcm_robobank_prototype.Prelude.{true, ◌≡◌, refl, some, arith}
use xcm_robobank_prototype.Frame.{ok, DispatchError}
use xcm_robobank_prototype.Service.State.{DeviceProfile, Error}
use xcm_robobank_prototype.Service.Calls.{cancel}
use xcm_robobank_prototype.Service.Settlement.{IsSettled}
use xcm_robobank_prototype.Service.Runs as Runs
use xcm_robobank_prototype.Service.Authority.{Change}
use xcm_robobank_prototype.Service.Authority.Inputs.{deliver-Change}
use xcm_robobank_prototype.Service.Failures.{result, SameMaps, deliver-SameMaps}
use xcm_robobank_prototype.Service.Recovery.{Reach-recovers}
use xcm_robobank_prototype.Client.State.{DeviceProfile as ClientProfile}
use xcm_robobank_prototype.Client.Calls.{cancel as client_cancel}
use xcm_robobank_prototype.Client.Settlement.{IsSettled as IsSettledThere}
use xcm_robobank_prototype.Client.Runs as ClientRuns
use xcm_robobank_prototype.Client.Escrow.{Honest}
use xcm_robobank_prototype.Client.Authority.{Change as ClientChange}
use xcm_robobank_prototype.Client.Authority.Inputs.{deliver-Change_client}
use xcm_robobank_prototype.Client.Recovery.{Reach-recovers_client}
use xcm_robobank_prototype.Tests.Ledgers.{simple_currency_laws}
use xcm_robobank_prototype.Tests.ServiceSample.{sample, genesis, dev1, cl1}
use xcm_robobank_prototype.Tests.ServiceRuns.{accepted}
use xcm_robobank_prototype.Tests.ServiceExamples.{
  sample-Engages, accepted-reached, genesis-IsBacked, stored_order, at,
}
use xcm_robobank_prototype.Tests.ClientSample.{
  client_sample, client_genesis, client_ordered, client_stored, later,
}
use xcm_robobank_prototype.Tests.ClientExamples.{client_ordered-reached, client_genesis-IsCovered}

-- The client cancels a late order.
abbrev pub cancelled : Runs.Input sample
cancelled = Runs.Input.cancel_call (some cl1) dev1

deliver-Change_example :
    Change (at 11_000 accepted) (Runs.deliver cancelled (at 11_000 accepted)) dev1 cancelled
deliver-Change_example = deliver-Change sample (at 11_000 accepted) dev1 cancelled

Reach-recovers_example :
    let r = cancel sample (some cl1) dev1 (at 11_000 accepted) in
    (dev : DeviceProfile) × (accepted.device dev1 ≡ some dev)
    × (r.0 ≡ ok tt)
    × Runs.Reach genesis r.1
    × IsSettled (at 11_000 accepted) r.1 dev1 stored_order dev dev.state cl1 cl1
unfolding accepted
Reach-recovers_example =
    Reach-recovers simple_currency_laws sample-Engages accepted-reached (λ d. tt) genesis-IsBacked
      dev1 stored_order refl refl (omega arith) (omega arith) (some cl1) refl 11_000 (omega arith)
      (omega arith)

abbrev pub client_cancelled : ClientRuns.Input client_sample
client_cancelled = ClientRuns.Input.cancel_call (some cl1) dev1

deliver-Change_client_example :
    ClientChange
      (later 11_000)
      (ClientRuns.deliver client_cancelled (later 11_000))
      dev1
      client_cancelled
deliver-Change_client_example =
    deliver-Change_client client_sample (later 11_000) dev1 client_cancelled

Reach-recovers_client_example :
    let r = client_cancel client_sample (some cl1) dev1 (later 11_000) in
    (dev : ClientProfile) × (client_ordered.device dev1 ≡ some dev)
    × (r.0 ≡ ok tt)
    × ClientRuns.Reach Honest client_genesis r.1
    × IsSettledThere (later 11_000) r.1 dev1 client_stored dev dev.state cl1 cl1
unfolding client_ordered
Reach-recovers_client_example =
    Reach-recovers_client simple_currency_laws (client_ordered-reached Honest) (λ d. tt)
      client_genesis-IsCovered dev1 client_stored refl (omega arith) (omega arith) (some cl1) refl
      11_000 (omega arith) (omega arith)

-- The device tries to lower its penalty while it has an order.
abbrev lowered : Runs.Input sample
lowered = Runs.Input.register_call (some dev1) 0 1 true

deliver-SameMaps_example : SameMaps accepted (Runs.deliver lowered accepted)
deliver-SameMaps_example =
    deliver-SameMaps sample accepted lowered {e = DispatchError.pallet Error.device_exists}
      (unfold accepted result in refl) refl
