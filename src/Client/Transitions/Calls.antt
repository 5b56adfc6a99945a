-- ===== src/Client/Transitions/Calls.antt =====
-- The calls of the client pallet as transitions.
use xcm_robobank_prototype.Prelude.{◌≡◌, ◌⊎◌, inl, inr, Bool, some, arith, Option-cases}
use xcm_robobank_prototype.Frame.{AccountId, ParaId, Balance, Moment, Result-cases}
use xcm_robobank_prototype.Common.{on_or_off}
use xcm_robobank_prototype.Client.State.{Config, OrderOf, OrderBaseOf, DeviceProfile, Event, State}
use xcm_robobank_prototype.Client.Orders.{order_reject}
use xcm_robobank_prototype.Client.Calls.{test, order, cancel, register}
use xcm_robobank_prototype.Client.Transitions.{Naming, Transition}

module _ (T : Config) (Names : Naming T) (s : State T) where
  pub test-transition : (origin : T.OriginFor) → Transition Names s (test T origin s).1
  unfolding test
  test-transition origin = Transition.queued (test T origin s).1.queue (ground arith)

  pub order-transition :
      (origin : T.OriginFor) (o : OrderBaseOf T) → Transition Names s (order T origin o s).1
  unfolding order
  order-transition origin o = elim (Result-cases (T.ensure_signed origin)) [
    | inr (e, bad) ↦ Transition.idle (ground arith)
    | inl (who, signed) ↦ Transition.placed o who (ground arith)
  ]

  cancel-ends :
      (origin : T.OriginFor) {d : AccountId} {o : OrderOf T} {dev : DeviceProfile}
      → s.orders d ≡ some o
      → s.device d ≡ some dev
      → ((cancel T origin d s).1 ≡ s)
        ⊎ ((cancel T origin d s).1 ≡ (order_reject T o.client o s.now d dev s).1)
  unfolding cancel
  cancel-ends origin ordered known = ground arith

  pub cancel-transition :
      (origin : T.OriginFor) (d : AccountId) → Transition Names s (cancel T origin d s).1
  unfolding cancel
  cancel-transition origin d = elim (Option-cases (s.orders d)) [
    | inl missing ↦ Transition.idle (ground arith)
    | inr (o, stored) ↦ elim (Option-cases (s.device d)) [
      | inl missing ↦ Transition.idle (ground arith)
      | inr (dev, known) ↦ elim (cancel-ends origin stored known) [
        | inl same ↦ Transition.idle same
        | inr e ↦ Transition.cancelled o d dev stored known e
      ]
    ]
  ]

  pub register-transition :
      (origin : T.OriginFor) (paraid : ParaId) (penalty : Balance) (wcd : Moment) (onoff : Bool)
      → Transition Names s (register T origin paraid penalty wcd onoff s).1
  unfolding register
  register-transition origin paraid penalty wcd onoff =
      elim (Result-cases (T.ensure_signed origin)) [
        | inr (e, bad) ↦ Transition.idle (ground arith)
        | inl (id, signed) ↦ elim (Option-cases (s.orders id)) [
          | inr (o, stored) ↦ Transition.idle (ground arith)
          | inl free ↦
              Transition.registered id
                (record { wcd = wcd; penalty = penalty; state = on_or_off onoff; paraid = paraid })
                (Event.new_device id) free (ground arith)
        ]
      ]
