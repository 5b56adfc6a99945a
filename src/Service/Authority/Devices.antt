-- ===== src/Service/Authority/Devices.antt =====
-- `done`, `register` and `set_state` of the service pallet, and what they do to the entries of a
-- device.
use xcm_robobank_prototype.Prelude.{◌≡◌, ◌⊎◌, inl, inr, Bool, none, some, arith, Option-cases}
use xcm_robobank_prototype.Frame.{AccountId, Balance, Moment, ok, Result-cases, remove}
use xcm_robobank_prototype.Common.{DeviceState, on_or_off}
use xcm_robobank_prototype.Service.State.{Config, OrderOf, DeviceProfile, State}
use xcm_robobank_prototype.Service.Orders.{order_done}
use xcm_robobank_prototype.Service.Calls.{done, register, set_state, set_profile, switched}
use xcm_robobank_prototype.Service.Transitions.Devices.{done-ends, done-ends_unordered}
use xcm_robobank_prototype.Service.Runs.{Input}
use xcm_robobank_prototype.Service.Authority.{Becomes, Change, Same, still}

module _ (T : Config) (s : State T) (d : AccountId) where
  done-idle :
      (origin : T.OriginFor) (onoff : Bool) {id : AccountId}
      → T.ensure_signed origin ≡ ok id
      → s.device id ≡ none
      → (done T origin onoff s).1 ≡ s
  unfolding done
  done-idle origin onoff signed missing = ground arith

  order_done-Becomes :
      (o : OrderOf T) (k : AccountId) (p : DeviceProfile) (onoff : Bool)
      → let t = (order_done T o s.now k p onoff (record s { orders = remove k s.orders })).1 in
        Same T s d t ⊎ ((k ≡ d) × Becomes t d none (some (record p { state = on_or_off onoff })))
  unfolding order_done
  order_done-Becomes o k p onoff = ground arith

  cleared-Same :
      (k : AccountId) → s.orders k ≡ none → Same T s d (record s { orders = remove k s.orders })
  cleared-Same k missing = ground arith

  finished_by :
      (origin : T.OriginFor) (onoff : Bool) (t : State T) {id : AccountId} {dev : DeviceProfile}
      {o : OrderOf T}
      → T.ensure_signed origin ≡ ok id
      → s.device id ≡ some dev
      → s.orders id ≡ some o
      → dev.state ≡ DeviceState.busy2
      → Same T s d t ⊎ ((id ≡ d) × Becomes t d none (some (record dev { state = on_or_off onoff })))
      → Change s t d (Input.done_call origin onoff)
  finished_by origin onoff t signed known ordered working (inl same) = Change.unchanged _ same
  finished_by origin onoff t {dev = dev} {o} signed known ordered working (inr (e, gone)) =
      Change.finished origin onoff o dev (rw e at signed) (rw e at ordered) (rw e at known) working
        gone

  done-Change_known :
      (origin : T.OriginFor) (onoff : Bool) {id : AccountId} {dev : DeviceProfile}
      → T.ensure_signed origin ≡ ok id
      → s.device id ≡ some dev
      → Change s (done T origin onoff s).1 d (Input.done_call origin onoff)
  done-Change_known origin onoff {id} {dev} signed known = elim (Option-cases (s.orders id)) [
    | inl missing ↦ elim (done-ends_unordered T s origin onoff signed known missing) [
      | inl same ↦ Change.unchanged _ (still T s d _ same)
      | inr e ↦ rw e (Change.unchanged _ (cleared-Same id missing))
    ]
    | inr (o, ordered) ↦ elim (done-ends T s origin onoff signed known ordered) [
      | inl same ↦ Change.unchanged _ (still T s d _ same)
      | inr (working, e) ↦ rw e (
          finished_by origin onoff
            (order_done T o s.now id dev onoff (record s { orders = remove id s.orders })).1 signed
            known ordered working (order_done-Becomes o id dev onoff))
    ]
  ]

  pub done-Change :
      (origin : T.OriginFor) (onoff : Bool)
      → Change s (done T origin onoff s).1 d (Input.done_call origin onoff)
  unfolding done
  done-Change origin onoff = elim (Result-cases (T.ensure_signed origin)) [
    | inr (e, bad) ↦ Change.unchanged _ (still T s d _ (ground (arith, bad)))
    | inl (id, signed) ↦ elim (Option-cases (s.device id)) [
      | inl missing ↦ Change.unchanged _ (still T s d _ (done-idle origin onoff signed missing))
      | inr (dev, known) ↦ done-Change_known origin onoff signed known
    ]
  ]

  register-Becomes :
      (origin : T.OriginFor) (penalty : Balance) (wcd : Moment) (onoff : Bool) {id : AccountId}
      → T.ensure_signed origin ≡ ok id
      → let t = (register T origin penalty wcd onoff s).1 in
        Same T s d t
        ⊎ ((id ≡ d)
            × (s.orders d ≡ none)
            × Becomes t d none
                (some (record { wcd = wcd; penalty = penalty; state = on_or_off onoff })))
  unfolding register
  register-Becomes origin penalty wcd onoff signed = ground arith

  pub register-Change :
      (origin : T.OriginFor) (penalty : Balance) (wcd : Moment) (onoff : Bool)
      → Change s
          (register T origin penalty wcd onoff s).1
          d
          (Input.register_call origin penalty wcd onoff)
  unfolding register
  register-Change origin penalty wcd onoff = elim (Result-cases (T.ensure_signed origin)) [
    | inr (e, bad) ↦ Change.unchanged _ (still T s d _ (ground (arith, bad)))
    | inl (id, signed) ↦ elim (register-Becomes origin penalty wcd onoff signed) [
      | inl same ↦ Change.unchanged _ same
      | inr (e, free, new) ↦ Change.registered origin penalty wcd onoff (rw e at signed) free new
    ]
  ]

  set_state-Becomes :
      (origin : T.OriginFor) (onoff : Bool) {id : AccountId} {dev : DeviceProfile}
      → T.ensure_signed origin ≡ ok id
      → s.device id ≡ some dev
      → let t = (set_state T origin onoff s).1 in
        Same T s d t
        ⊎ ((id ≡ d)
            × ((dev.state ≡ DeviceState.ready) ⊎ (dev.state ≡ DeviceState.off))
            × Becomes t d (s.orders d) (some (record dev { state = on_or_off onoff })))
  unfolding set_state set_profile switched
  set_state-Becomes origin onoff signed known = ground arith

  pub set_state-Change :
      (origin : T.OriginFor) (onoff : Bool)
      → Change s (set_state T origin onoff s).1 d (Input.set_state_call origin onoff)
  unfolding set_state set_profile switched
  set_state-Change origin onoff = elim (Result-cases (T.ensure_signed origin)) [
    | inr (e, bad) ↦ Change.unchanged _ (still T s d _ (ground (arith, bad)))
    | inl (id, signed) ↦ elim (Option-cases (s.device id)) [
      | inl missing ↦ Change.unchanged _ (still T s d _ (ground (arith, signed, missing)))
      | inr (dev, known) ↦ elim (set_state-Becomes origin onoff signed known) [
        | inl same ↦ Change.unchanged _ same
        | inr (e, idle, turned) ↦
            Change.switched origin onoff dev (rw e at signed) (rw e at known) idle turned
      ]
    ]
  ]
