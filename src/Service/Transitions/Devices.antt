-- ===== src/Service/Transitions/Devices.antt =====
-- `done`, `register` and `set_state` of the service pallet as transitions.
use xcm_robobank_prototype.Prelude.{◌≡◌, ◌⊎◌, inl, inr, Bool, none, some, arith, Option-cases}
use xcm_robobank_prototype.Frame.{AccountId, Balance, Moment, ok, Result-cases, insert, remove}
use xcm_robobank_prototype.Common.{DeviceState, on_or_off}
use xcm_robobank_prototype.Service.State.{Config, OrderOf, DeviceProfile, Event, State}
use xcm_robobank_prototype.Service.Orders.{order_done}
use xcm_robobank_prototype.Service.Calls.{done, register, set_state}
use xcm_robobank_prototype.Service.Transitions.{Transition}

module _ (T : Config) (s : State T) where
  pub done-ends :
      (origin : T.OriginFor) (onoff : Bool) {id : AccountId} {dev : DeviceProfile} {o : OrderOf T}
      → T.ensure_signed origin ≡ ok id
      → s.device id ≡ some dev
      → s.orders id ≡ some o
      → ((done T origin onoff s).1 ≡ s)
        ⊎ ((dev.state ≡ DeviceState.busy2)
            × ((done T origin onoff s).1
                ≡ (order_done T o s.now id dev onoff (record s { orders = remove id s.orders })).1))
  unfolding done
  done-ends origin onoff signed known ordered = ground arith

  pub done-ends_unordered :
      (origin : T.OriginFor) (onoff : Bool) {id : AccountId} {dev : DeviceProfile}
      → T.ensure_signed origin ≡ ok id
      → s.device id ≡ some dev
      → s.orders id ≡ none
      → ((done T origin onoff s).1 ≡ s)
        ⊎ ((done T origin onoff s).1 ≡ record s { orders = remove id s.orders })
  unfolding done
  done-ends_unordered origin onoff signed known ordered = ground arith

  done-transition_known :
      (origin : T.OriginFor) (onoff : Bool) {id : AccountId} {dev : DeviceProfile}
      → T.ensure_signed origin ≡ ok id
      → s.device id ≡ some dev
      → Transition s (done T origin onoff s).1
  done-transition_known origin onoff {id} {dev} signed known = elim (Option-cases (s.orders id)) [
    | inl missing ↦ elim (done-ends_unordered origin onoff signed known missing) [
      | inl same ↦ Transition.idle same
      | inr e ↦ Transition.cleared id missing e
    ]
    | inr (o, ordered) ↦ elim (done-ends origin onoff signed known ordered) [
      | inl same ↦ Transition.idle same
      | inr (state, e) ↦ Transition.finished o id dev onoff ordered known state e
    ]
  ]

  pub done-transition :
      (origin : T.OriginFor) (onoff : Bool) → Transition s (done T origin onoff s).1
  unfolding done
  done-transition origin onoff = elim (Result-cases (T.ensure_signed origin)) [
    | inr (e, bad) ↦ Transition.idle (ground arith)
    | inl (id, signed) ↦ elim (Option-cases (s.device id)) [
      | inl missing ↦ Transition.idle (ground arith)
      | inr (dev, known) ↦ done-transition_known origin onoff signed known
    ]
  ]

  pub register-transition :
      (origin : T.OriginFor) (penalty : Balance) (wcd : Moment) (onoff : Bool)
      → Transition s (register T origin penalty wcd onoff s).1
  unfolding register
  register-transition origin penalty wcd onoff = elim (Result-cases (T.ensure_signed origin)) [
    | inr (e, bad) ↦ Transition.idle (ground arith)
    | inl (id, signed) ↦ elim (Option-cases (s.orders id)) [
      | inr (o, ordered) ↦ Transition.idle (ground arith)
      | inl free ↦
          Transition.registered id
            (record { wcd = wcd; penalty = penalty; state = on_or_off onoff }) (Event.new_device id)
            free (ground arith)
    ]
  ]

  set_state-ends :
      (origin : T.OriginFor) (onoff : Bool) {id : AccountId} {dev : DeviceProfile}
      → T.ensure_signed origin ≡ ok id
      → s.device id ≡ some dev
      → ((set_state T origin onoff s).1 ≡ s)
        ⊎ (((dev.state ≡ DeviceState.ready) ⊎ (dev.state ≡ DeviceState.off))
            × ((set_state T origin onoff s).1 ≡ record s {
              device = insert id (record dev { state = on_or_off onoff }) s.device;
            }))
  unfolding set_state
  set_state-ends origin onoff signed known = ground arith

  pub set_state-transition :
      (origin : T.OriginFor) (onoff : Bool) → Transition s (set_state T origin onoff s).1
  unfolding set_state
  set_state-transition origin onoff = elim (Result-cases (T.ensure_signed origin)) [
    | inr (e, bad) ↦ Transition.idle (ground arith)
    | inl (id, signed) ↦ elim (Option-cases (s.device id)) [
      | inl missing ↦ Transition.idle (ground arith)
      | inr (dev, known) ↦ elim (set_state-ends origin onoff signed known) [
        | inl same ↦ Transition.idle same
        | inr (state, e) ↦ Transition.turned id dev (on_or_off onoff) known state e
      ]
    ]
  ]
