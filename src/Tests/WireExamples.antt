-- ===== src/Tests/WireExamples.antt =====
-- The theorems about both chains at concrete inputs: the client chain is parachain 300.
use xcm_robobank_prototype.Prelude.{ℕ, ◌≡◌, refl, some, true, false, arith, inl, [], ◌∷◌, ◌++◌}
use xcm_robobank_prototype.Frame.{Blob, ok}
use xcm_robobank_prototype.Common.{DeviceState}
use xcm_robobank_prototype.Service.State.{State, OrderOf, DeviceProfile}
use xcm_robobank_prototype.Service.Orders.{
  placed, order_received, check_order, lock_funds, store_order, order_accept,
}
use xcm_robobank_prototype.Service.Calls.{done, accept}
use xcm_robobank_prototype.Service.Hooks.{handle_blob_message}
use xcm_robobank_prototype.Service.Placement.{IsPlaced as IsReceived}
use xcm_robobank_prototype.Client.State.{DeviceProfile as ClientProfile}
use xcm_robobank_prototype.Client.Calls.{order}
use xcm_robobank_prototype.Client.Placed.{IsPlaced}
use xcm_robobank_prototype.Client.Hooks.{handle_blob_message as handle_answer}
use xcm_robobank_prototype.Client.Settlement.{IsSettled}
use xcm_robobank_prototype.Wire.Orders.{ReadsOrders, carried, order-arrives}
use xcm_robobank_prototype.Wire.Answers.{IsAnswered, done-arrives, reject-arrives}
use xcm_robobank_prototype.Tests.Ledgers.{simple_currency_laws, simple_sender_laws}
use xcm_robobank_prototype.Tests.ServiceSample.{sample, dev1, cl1, penalty, default_wcd}
use xcm_robobank_prototype.Tests.ServiceRuns.{registered}
use xcm_robobank_prototype.Tests.ClientSample.{
  client_sample, client_registered, client_ordered, client_order, client_stored, client_profile,
  service_para, later,
}
use xcm_robobank_prototype.Tests.ClientExamples.{later-IsCovered}

abbrev client_para : ℕ
client_para = 300

sample-ReadsOrders : ReadsOrders client_sample sample (λ n. n)
sample-ReadsOrders who o = refl

abbrev remote_order : OrderOf sample
remote_order = placed (carried (λ n. n) client_order) cl1 client_para

abbrev profile : DeviceState → DeviceProfile
profile state = record { state = state; penalty = penalty; wcd = default_wcd }

order-arrives_example :
    let c = client_registered service_para in
    let t = (order client_sample (some cl1) client_order c).1 in
    (p : ClientProfile) × (blob : Blob) × IsPlaced c t client_order cl1 p
    × (t.queue ≡ c.queue ++ (p.paraid, blob) ∷ [])
    × (dev : DeviceProfile) × IsReceived registered
        (handle_blob_message sample client_para 0 blob registered)
        remote_order
        dev1
        dev
unfolding client_ordered registered
order-arrives_example =
    order-arrives client_sample simple_currency_laws simple_sender_laws sample simple_currency_laws
      (λ n. n) sample-ReadsOrders client_order cl1 (client_registered service_para) (some cl1)
      registered (profile DeviceState.busy) client_para 0 refl refl
      (record {
        in_time = omega arith;
        unordered = refl;
        registered = refl;
        roomy = omega arith;
        willing = refl;
      })
      refl

-- The service chain after the order has come in, and after the device has accepted it.
unfoldable received : State sample
unfolding registered handle_blob_message order_received check_order lock_funds store_order
received =
    handle_blob_message sample client_para 0 (0 ∷ cl1 ∷ 3000 ∷ 7 ∷ 100_000 ∷ dev1 ∷ []) registered

unfoldable working : State sample
unfolding received accept order_accept
working = (accept sample (some dev1) false true received).1

done-arrives_example :
    (blob : Blob) × ((done sample (some dev1) true working).0 ≡ ok tt)
    × IsAnswered working (done sample (some dev1) true working).1 dev1 client_para blob
    × IsSettled
        (later 2000)
        (handle_answer client_sample 5 0 blob (later 2000))
        dev1
        client_stored
        (client_profile DeviceState.busy service_para)
        DeviceState.ready
        dev1
        dev1
unfolding working client_ordered
done-arrives_example =
    done-arrives sample simple_sender_laws working dev1 remote_order (profile DeviceState.busy2)
      refl refl refl (some dev1) refl true client_sample simple_currency_laws (later 2000)
      client_stored (client_profile DeviceState.busy service_para) refl refl (later-IsCovered 2000)
      refl (omega arith) 5 0 refl refl refl refl (λ late. refl)

reject-arrives_example :
    (blob : Blob) × ((accept sample (some dev1) true false received).0 ≡ ok tt)
    × IsAnswered received (accept sample (some dev1) true false received).1 dev1 client_para blob
    × IsSettled
        (later 5000)
        (handle_answer client_sample 5 0 blob (later 5000))
        dev1
        client_stored
        (client_profile DeviceState.busy service_para)
        DeviceState.off
        cl1
        cl1
unfolding received client_ordered
reject-arrives_example =
    reject-arrives sample simple_sender_laws received dev1 remote_order (profile DeviceState.busy)
      refl refl refl (some dev1) refl false client_sample simple_currency_laws (later 5000)
      client_stored (client_profile DeviceState.busy service_para) refl refl (later-IsCovered 5000)
      refl (omega arith) 5 0 (inl refl) refl refl refl
