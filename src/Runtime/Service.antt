-- ===== src/Runtime/Service.antt =====
-- The runtime with the service pallet (runtime/src/lib.rs). The balances pallet, the parachain
-- system, the parachain's identifier and the codec are other repositories' code, so parameters.
use xcm_robobank_prototype.Prelude.{
  ℕ, refl, ◌≡◌, ◌++◌, [], ◌∷◌, false, Option, some, arith, ◌==◌, none,
}
use xcm_robobank_prototype.Frame.{
  AccountId, ParaId, Balance, Moment, ForeignError, Result, DispatchError, ok, Currency,
  XcmpMessageSender, XcmpMessageSenderLaws, ServiceQuality, Codec, XcmFormat, Blob,
}
use xcm_robobank_prototype.Common.{DeviceState, XcmpMessage}
use xcm_robobank_prototype.Service.State.{Config, State, OrderFor, OrderOf, DeviceProfile, Error}
use xcm_robobank_prototype.Service.Orders.{store_order, order_received, order_accept}
use xcm_robobank_prototype.Service.Received.{Passes, Reception, reception}
use xcm_robobank_prototype.Service.Locking.{lock_funds-remote}
use xcm_robobank_prototype.Service.Engaged.{Engages}
use xcm_robobank_prototype.Service.Runs.{Reach}
use xcm_robobank_prototype.Service.Contract.{board, rules, Reach-refines}
use xcm_robobank_prototype.Contract.Laws.{AllLife, Reach-All}

-- `AcceptOnReceive`: every order is accepted as soon as it comes in.
unfoldable pub accept_on_receive :
    {Payload : Type 0} → AccountId → OrderFor Payload → Option DeviceState
accept_on_receive device order = some DeviceState.busy2

-- What the runtime takes from elsewhere.
module _ (OriginFor : Type 0) (ensure_signed : OriginFor → Result ForeignError AccountId)
    (balances : Currency) (parachain_system : XcmpMessageSender)
    (codec : Codec (XcmpMessage AccountId Balance ℕ Moment)) (xcm : XcmFormat)
    (parachain_id : ParaId) where
  -- `impl pallet_service::Config for Runtime`
  abbrev pub service_config : Config
  service_config = record {
    OriginFor = OriginFor;
    ensure_signed = ensure_signed;
    OrderPayload = ℕ;
    currency = balances;
    sender = parachain_system;
    codec = codec;
    xcm = xcm;
    self_para_id = parachain_id;
    on_received = accept_on_receive;
  }

  runtime-Engages : Engages service_config
  unfolding accept_on_receive
  runtime-Engages d o state h = ground arith

  willing_busy :
      {o : OrderOf service_config} {d : AccountId} {s : State service_config} {dev : DeviceProfile}
      → Passes service_config o d s dev
      → dev.state ≡ DeviceState.busy2
  unfolding accept_on_receive
  willing_busy passes = ground (arith, passes.willing)

  -- What is left by the reception of an order for an answer to `paraid`.
  pub record IsAccepted (s t : State service_config) (d : AccountId) (paraid : ParaId) (blob : Blob)
      : Type 0 where
    pub device_busy :
        (dev : DeviceProfile) × (t.device d ≡ some dev) × (dev.state ≡ DeviceState.busy2)
    pub answer_sent :
        (parachain_system.send_blob_message s.queue paraid blob ServiceQuality.ordered).0 ≡ ok tt
        → parachain_system.sent t.queue ≡ parachain_system.sent s.queue ++ (paraid, blob) ∷ []

  store_order-IsAccepted :
      (o : OrderOf service_config) (d : AccountId) (dev : DeviceProfile) (s : State service_config)
      → XcmpMessageSenderLaws parachain_system
      → dev.state ≡ DeviceState.busy2
      → (o.paraid == parachain_id) ≡ false
      → IsAccepted s
          (store_order service_config o d dev s).1
          d
          o.paraid
          (codec.encode (XcmpMessage.order_accept o.client d))
  unfolding store_order order_accept
  store_order-IsAccepted o d dev s reliable busy far = record {
    device_busy = (record dev { state = DeviceState.busy2 }, ground arith, refl);
    answer_sent = λ taken. ground (
      arith,
      reliable.sent_ok s.queue o.paraid (codec.encode (XcmpMessage.order_accept o.client d))
          ServiceQuality.ordered taken,
    );
  }

  Reception-IsAccepted :
      {o : OrderOf service_config} {d : AccountId} {s : State service_config}
      (r : Result (DispatchError Error) (Unit {0}) × State service_config)
      → XcmpMessageSenderLaws parachain_system
      → (o.paraid == parachain_id) ≡ false
      → Reception service_config o d s r
      → r.0 ≡ ok tt
      → IsAccepted s r.1 d o.paraid (codec.encode (XcmpMessage.order_accept o.client d))
  Reception-IsAccepted r reliable far (Reception.refused e eq) h = absurd cc
  Reception-IsAccepted r reliable far (Reception.unfunded dev e passes failed eq) h = absurd cc
  Reception-IsAccepted {o} {d} {s} r reliable far (Reception.stored dev passes funded eq) h =
      rw (eq, lock_funds-remote service_config o d dev s far)
        (store_order-IsAccepted o d dev s reliable (willing_busy passes) far)

  -- An order from another chain that the service chain of the runtime takes is accepted at once:
  -- the device is in `Busy2`, and the acceptance has been sent to the chain of the client, if the
  -- sender takes it.
  pub order_received-IsAccepted :
      (o : OrderOf service_config) (d : AccountId) (s : State service_config)
      → XcmpMessageSenderLaws parachain_system
      → (o.paraid == parachain_id) ≡ false
      → (order_received service_config o d s).0 ≡ ok tt
      → IsAccepted s
          (order_received service_config o d s).1
          d
          o.paraid
          (codec.encode (XcmpMessage.order_accept o.client d))
  order_received-IsAccepted o d s reliable far success =
      Reception-IsAccepted (order_received service_config o d s) reliable far
        (reception service_config o d s) success

  vacant-AllLife :
      (s : State service_config) (P : OrderOf service_config → DeviceState → Type 0) (k : AccountId)
      → s.orders k ≡ none
      → AllLife P ((board s).life k)
  vacant-AllLife s P k free = rw free tt

  start_busy2 :
      (state : DeviceState) → some DeviceState.busy2 ≡ some state → state ≡ DeviceState.busy2
  start_busy2 state h = ground arith

  -- On the service chain of the runtime, in every state that is reached from one without orders,
  -- each device with an order is in `Busy2`: no order ever waits to be accepted.
  pub Reach-busy2 :
      {s t : State service_config} (d : AccountId) (o : OrderOf service_config)
      (dev : DeviceProfile)
      → ((k : AccountId) → s.orders k ≡ none)
      → Reach s t
      → t.orders d ≡ some o
      → t.device d ≡ some dev
      → dev.state ≡ DeviceState.busy2
  unfolding accept_on_receive
  Reach-busy2 {s} {t} d o dev empty r ordered known =
      let lives : AllLife (λ o' state. state ≡ DeviceState.busy2) ((board t).life d) =
        Reach-All (rules service_config) (λ o' state. state ≡ DeviceState.busy2)
          (λ d' o' state starts. start_busy2 state starts) (λ now o' a b goes h. goes.1)
          (Reach-refines runtime-Engages (λ k. ground (arith, empty k)) r)
          (λ k. vacant-AllLife s (λ o' state. state ≡ DeviceState.busy2) k (empty k)) d in
      rw (ordered, known) at lives
