-- ===== src/Tests/ClientSample.antt =====
-- A client chain as in pallets/client/src/mock.rs, with the accounts of the service chain, and the
-- states that it goes through when device 100 takes an order of account 200.
use xcm_robobank_prototype.Prelude.{ℕ, Option, none, some, true, [], ◌≡◌, refl, ◌∷◌}
use xcm_robobank_prototype.Frame.{err, DispatchError, AccountId}
use xcm_robobank_prototype.Common.{DeviceState}
use xcm_robobank_prototype.Client.State.{Config, State, OrderBaseOf, DeviceProfile, Error, OrderOf}
use xcm_robobank_prototype.Client.Orders.{check_order, lock_funds, send_order, place_order}
use xcm_robobank_prototype.Client.Calls.{order, register, cancel}
use xcm_robobank_prototype.Client.Placement.{stored_form}
use xcm_robobank_prototype.Client.Messages.{on_done}
use xcm_robobank_prototype.Tests.Ledgers.{simple_currency, simple_sender}
use xcm_robobank_prototype.Tests.Codecs.{simple_codec, simple_xcm}
use xcm_robobank_prototype.Tests.ServiceSample.{
  ensure_signed, balances, dev1, cl1, penalty, default_wcd, default_fee,
}

abbrev pub client_sample : Config
client_sample = record {
  OriginFor = Option AccountId;
  ensure_signed = ensure_signed;
  OrderPayload = ℕ;
  currency = simple_currency;
  sender = simple_sender;
  codec = simple_codec;
  xcm = simple_xcm;
}

abbrev pub client_genesis : State client_sample
client_genesis = record {
  now = 0;
  device = λ _. none;
  orders = λ _. none;
  ledger = balances;
  queue = [];
  events = [];
}

-- The parachain of the device.
abbrev pub service_para : ℕ
service_para = 200

abbrev pub client_order : OrderBaseOf client_sample
client_order = record { until = 3000; payload = 7; fee = default_fee; device = dev1 }

abbrev pub client_stored : OrderOf client_sample
client_stored = stored_form client_order cl1

abbrev pub client_profile : DeviceState → ℕ → DeviceProfile
client_profile state paraid = record {
  state = state;
  penalty = penalty;
  wcd = default_wcd;
  paraid = paraid;
}

unfoldable pub client_registered : ℕ → State client_sample
unfolding register
client_registered paraid =
    (register client_sample (some dev1) paraid penalty default_wcd true client_genesis).1

unfoldable pub client_ordered : State client_sample
unfolding client_registered order place_order check_order lock_funds send_order
client_ordered = (order client_sample (some cl1) client_order (client_registered service_para)).1

abbrev pub later : ℕ → State client_sample
unfolding client_ordered
later time = record client_ordered { now = time }

-- The order leaves for the chain of the device, which is busy from then on.
order_sent :
    (client_ordered.device dev1 ≡ some (client_profile DeviceState.busy service_para))
    × (client_ordered.orders dev1 ≡ some client_stored)
    × (client_ordered.queue ≡ (service_para, 0 ∷ cl1 ∷ 3000 ∷ 7 ∷ default_fee ∷ dev1 ∷ []) ∷ [])
unfolding client_ordered
order_sent = (refl, refl, refl)

-- The device is paid, and gets its penalty back.
order_paid :
    let s = (on_done client_sample cl1 dev1 true (later 2000)).1 in
    (s.ledger.free dev1 ≡ 100_100_000) × (s.ledger.free cl1 ≡ 99_900_000) × (s.orders dev1 ≡ none)
unfolding client_ordered on_done
order_paid = (refl, refl, refl)

-- A device cannot be given another profile while it has an order.
device_reregister_refused :
    (register client_sample (some dev1) 7 1 1 true client_ordered).0
    ≡ err (DispatchError.pallet Error.device_exists)
unfolding client_ordered
device_reregister_refused = refl

-- The client cannot cancel before the deadline.
cancel_refused :
    (cancel client_sample (some cl1) dev1 (later 2999)).0
    ≡ err (DispatchError.pallet Error.prohibited)
unfolding client_ordered cancel
cancel_refused = refl
