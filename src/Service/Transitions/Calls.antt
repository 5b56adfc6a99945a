-- ===== src/Service/Transitions/Calls.antt =====
-- `order`, `cancel` and `accept` of the service pallet as transitions.
use xcm_robobank_prototype.Prelude.{
  ◌≡◌, refl, ◌⊎◌, inl, inr, ◌<◌, Bool, true, false, some, arith, Option-cases,
}
use xcm_robobank_prototype.Frame.{AccountId, ok, Result-cases}
use xcm_robobank_prototype.Common.{DeviceState, on_or_off}
use xcm_robobank_prototype.Service.State.{Config, OrderOf, OrderBaseOf, DeviceProfile, State}
use xcm_robobank_prototype.Service.Orders.{order_accept, order_reject}
use xcm_robobank_prototype.Service.Calls.{order, cancel, accept}
use xcm_robobank_prototype.Service.Transitions.{Transition}

module _ (T : Config) (s : State T) where
  pub order-transition :
      (origin : T.OriginFor) (o : OrderBaseOf T) → Transition s (order T origin o s).1
  unfolding order
  order-transition origin o = elim (Result-cases (T.ensure_signed origin)) [
    | inr (e, bad) ↦ Transition.idle (ground arith)
    | inl (who, signed) ↦
        Transition.received
          (record {
            until = o.until;
            payload = o.payload;
            fee = o.fee;
            client = who;
            paraid = T.self_para_id;
          })
          o.device (ground arith)
  ]

  pub cancel-ends :
      (origin : T.OriginFor) {d : AccountId} {o : OrderOf T} {dev : DeviceProfile}
      → s.orders d ≡ some o
      → s.device d ≡ some dev
      → ((cancel T origin d s).1 ≡ s)
        ⊎ ((cancel T origin d s).1 ≡ (order_reject T (some o) s.now d dev false s).1)
  unfolding cancel
  cancel-ends origin ordered known = ground arith

  pub cancel-transition :
      (origin : T.OriginFor) (d : AccountId) → Transition s (cancel T origin d s).1
  unfolding cancel
  cancel-transition origin d = elim (Option-cases (s.orders d)) [
    | inl missing ↦ Transition.idle (ground arith)
    | inr (o, ordered) ↦ elim (Option-cases (s.device d)) [
      | inl missing ↦ Transition.idle (ground arith)
      | inr (dev, known) ↦ elim (cancel-ends origin ordered known) [
        | inl same ↦ Transition.idle same
        | inr e ↦ Transition.rejected (some o) d dev dev.state false ordered known e
      ]
    ]
  ]

  pub accept-ends_rejecting :
      (origin : T.OriginFor) (onoff : Bool) {id : AccountId} {dev : DeviceProfile}
      → T.ensure_signed origin ≡ ok id
      → s.device id ≡ some dev
      → ((accept T origin true onoff s).1 ≡ s)
        ⊎ ((accept T origin true onoff s).1
            ≡ (order_reject T
                (s.orders id)
                s.now
                id
                (record dev { state = on_or_off onoff })
                onoff
                s).1)
  unfolding accept
  accept-ends_rejecting origin onoff signed known = ground arith

  pub accept-ends_accepting :
      (origin : T.OriginFor) (onoff : Bool) {id : AccountId} {dev : DeviceProfile} {o : OrderOf T}
      → T.ensure_signed origin ≡ ok id
      → s.device id ≡ some dev
      → s.orders id ≡ some o
      → ((accept T origin false onoff s).1 ≡ s)
        ⊎ ((dev.state ≡ DeviceState.busy)
            × (s.now < o.until)
            × ((accept T origin false onoff s).1 ≡ (order_accept T o s.now id dev s).1))
  unfolding accept
  accept-ends_accepting origin onoff signed known ordered = ground arith

  accept-transition_accepting :
      (origin : T.OriginFor) (onoff : Bool) {id : AccountId} {dev : DeviceProfile}
      → T.ensure_signed origin ≡ ok id
      → s.device id ≡ some dev
      → Transition s (accept T origin false onoff s).1
  unfolding accept
  accept-transition_accepting origin onoff {id} {dev} signed known =
      elim (Option-cases (s.orders id)) [
        | inl missing ↦ Transition.idle (ground arith)
        | inr (o, ordered) ↦ elim (accept-ends_accepting origin onoff signed known ordered) [
          | inl same ↦ Transition.idle same
          | inr (state, in_time, e) ↦ Transition.accepted o id dev ordered known state in_time e
        ]
      ]

  accept-transition_known :
      (origin : T.OriginFor) (reject onoff : Bool) {id : AccountId} {dev : DeviceProfile}
      → T.ensure_signed origin ≡ ok id
      → s.device id ≡ some dev
      → Transition s (accept T origin reject onoff s).1
  accept-transition_known origin false onoff signed known =
      accept-transition_accepting origin onoff signed known
  accept-transition_known origin true onoff {id} {dev} signed known =
      elim (accept-ends_rejecting origin onoff signed known) [
        | inl same ↦ Transition.idle same
        | inr e ↦ Transition.rejected (s.orders id) id dev (on_or_off onoff) onoff refl known e
      ]

  pub accept-transition :
      (origin : T.OriginFor) (reject onoff : Bool) → Transition s (accept T origin reject onoff s).1
  unfolding accept
  accept-transition origin reject onoff = elim (Result-cases (T.ensure_signed origin)) [
    | inr (e, bad) ↦ Transition.idle (ground arith)
    | inl (id, signed) ↦ elim (Option-cases (s.device id)) [
      | inl missing ↦ Transition.idle (ground arith)
      | inr (dev, known) ↦ accept-transition_known origin reject onoff signed known
    ]
  ]
