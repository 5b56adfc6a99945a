-- ===== src/Service/Authority/Answers.antt =====
-- `accept` of the service pallet, and what it does to the entries of a device.
use xcm_robobank_prototype.Prelude.{
  ◌≡◌, refl, ◌⊎◌, inl, inr, ◌<◌, Bool, true, false, none, some, arith, Option-cases, ◌∙◌,
}
use xcm_robobank_prototype.Frame.{AccountId, ok, Result-cases}
use xcm_robobank_prototype.Common.{DeviceState, on_or_off}
use xcm_robobank_prototype.Service.State.{Config, OrderOf, DeviceProfile, State}
use xcm_robobank_prototype.Service.Orders.{order_accept, order_reject}
use xcm_robobank_prototype.Service.Calls.{accept}
use xcm_robobank_prototype.Service.Transitions.Calls.{accept-ends_accepting}
use xcm_robobank_prototype.Service.Engaged.{IsWorking}
use xcm_robobank_prototype.Service.Runs.{Input}
use xcm_robobank_prototype.Service.Authority.{Becomes, Change, Same, still}
use xcm_robobank_prototype.Service.Authority.Rejected.{order_reject-Becomes}

module _ (T : Config) (s : State T) (d : AccountId) where
  accept-idle :
      (origin : T.OriginFor) (reject onoff : Bool) {id : AccountId}
      → T.ensure_signed origin ≡ ok id
      → s.device id ≡ none
      → (accept T origin reject onoff s).1 ≡ s
  unfolding accept
  accept-idle origin reject onoff signed missing = ground arith

  reject-ends :
      (origin : T.OriginFor) (onoff : Bool) {id : AccountId} {dev : DeviceProfile}
      → T.ensure_signed origin ≡ ok id
      → s.device id ≡ some dev
      → let t = (accept T origin true onoff s).1 in
        (t ≡ s)
        ⊎ (IsWorking dev.state
            × (t
                ≡ (order_reject T
                    (s.orders id)
                    s.now
                    id
                    (record dev { state = on_or_off onoff })
                    onoff
                    s).1))
  unfolding accept
  reject-ends origin onoff signed known = ground arith

  rejected_by :
      (origin : T.OriginFor) (onoff : Bool) (t : State T) {id : AccountId} {dev : DeviceProfile}
      → T.ensure_signed origin ≡ ok id
      → s.device id ≡ some dev
      → IsWorking dev.state
      → Same T s d t ⊎ ((id ≡ d) × Becomes t d none (some (record dev { state = on_or_off onoff })))
      → Change s t d (Input.accept_call origin true onoff)
  rejected_by origin onoff t signed known working (inl same) = Change.unchanged _ same
  rejected_by origin onoff t {dev = dev} signed known working (inr (e, gone)) =
      Change.rejected origin onoff dev (rw e at signed) (rw e at known) working gone

  reject-Change :
      (origin : T.OriginFor) (onoff : Bool) {id : AccountId} {dev : DeviceProfile}
      → T.ensure_signed origin ≡ ok id
      → s.device id ≡ some dev
      → Change s (accept T origin true onoff s).1 d (Input.accept_call origin true onoff)
  reject-Change origin onoff {id} {dev} signed known =
      elim (reject-ends origin onoff signed known) [
        | inl same ↦ Change.unchanged _ (still T s d _ same)
        | inr (working, e) ↦
            let p : DeviceProfile = record dev { state = on_or_off onoff } in
            rw e (
              rejected_by origin onoff (order_reject T (s.orders id) s.now id p onoff s).1 signed
                known working (order_reject-Becomes T s d (s.orders id) id p onoff))
      ]

  order_accept-Becomes :
      (o : OrderOf T) (k : AccountId) (p : DeviceProfile)
      → let t = (order_accept T o s.now k p s).1 in
        Same T s d t
        ⊎ ((k ≡ d) × Becomes t d (s.orders d) (some (record p { state = DeviceState.busy2 })))
  unfolding order_accept
  order_accept-Becomes o k p = ground arith

  agree-ends :
      (origin : T.OriginFor) (onoff : Bool) {id : AccountId} {dev : DeviceProfile}
      → T.ensure_signed origin ≡ ok id
      → s.device id ≡ some dev
      → (t : State T) → t ≡ (accept T origin false onoff s).1
      → (t ≡ s)
        ⊎ ((o : OrderOf T) × (s.orders id ≡ some o)
            × (dev.state ≡ DeviceState.busy)
            × (s.now < o.until)
            × (t ≡ (order_accept T o s.now id dev s).1))
  unfolding accept
  agree-ends origin onoff {id} {dev} signed known t e = elim (Option-cases (s.orders id)) [
    | inl missing ↦ inl (ground (arith, e, signed, known, missing))
    | inr (o, ordered) ↦ elim (accept-ends_accepting T s origin onoff signed known ordered) [
      | inl same ↦ inl (e ∙ same)
      | inr (busy, in_time, f) ↦ inr (o, ordered, busy, in_time, e ∙ f)
    ]
  ]

  accepted_by :
      (origin : T.OriginFor) (onoff : Bool) (t : State T) {id : AccountId} {dev : DeviceProfile}
      {o : OrderOf T}
      → T.ensure_signed origin ≡ ok id
      → s.device id ≡ some dev
      → s.orders id ≡ some o
      → dev.state ≡ DeviceState.busy
      → s.now < o.until
      → Same T s d t
        ⊎ ((id ≡ d) × Becomes t d (s.orders d) (some (record dev { state = DeviceState.busy2 })))
      → Change s t d (Input.accept_call origin false onoff)
  accepted_by origin onoff t signed known ordered busy in_time (inl same) = Change.unchanged _ same
  accepted_by origin onoff t {dev = dev} {o} signed known ordered busy in_time (inr (e, taken)) =
      Change.accepted origin onoff o dev (rw e at signed) (rw e at ordered) (rw e at known) busy
        in_time
        (record {
          order_after = taken.order_after ∙ (rw e at ordered);
          device_after = taken.device_after;
        })

  agree-Change :
      (origin : T.OriginFor) (onoff : Bool) {id : AccountId} {dev : DeviceProfile}
      → T.ensure_signed origin ≡ ok id
      → s.device id ≡ some dev
      → Change s (accept T origin false onoff s).1 d (Input.accept_call origin false onoff)
  agree-Change origin onoff {id} {dev} signed known =
      elim (agree-ends origin onoff signed known (accept T origin false onoff s).1 refl) [
        | inl same ↦ Change.unchanged _ (still T s d _ same)
        | inr (o, ordered, busy, in_time, e) ↦ rw e (
            accepted_by origin onoff (order_accept T o s.now id dev s).1 signed known ordered busy
              in_time (order_accept-Becomes o id dev))
      ]

  pub accept-Change :
      (origin : T.OriginFor) (reject onoff : Bool)
      → Change s (accept T origin reject onoff s).1 d (Input.accept_call origin reject onoff)
  unfolding accept
  accept-Change origin reject onoff = elim (Result-cases (T.ensure_signed origin)) [
    | inr (e, bad) ↦ Change.unchanged _ (still T s d _ (ground (arith, bad)))
    | inl (id, signed) ↦ elim (Option-cases (s.device id)) [
      | inl missing ↦
          Change.unchanged _ (still T s d _ (accept-idle origin reject onoff signed missing))
      | inr (dev, known) ↦ accept-Change_known reject signed known
    ]
  ]
    where
      accept-Change_known :
          (reject : Bool) {id : AccountId} {dev : DeviceProfile}
          → T.ensure_signed origin ≡ ok id
          → s.device id ≡ some dev
          → Change s (accept T origin reject onoff s).1 d (Input.accept_call origin reject onoff)
      accept-Change_known true signed known = reject-Change origin onoff signed known
      accept-Change_known false signed known = agree-Change origin onoff signed known
