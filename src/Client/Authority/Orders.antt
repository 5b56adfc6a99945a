-- ===== src/Client/Authority/Orders.antt =====
-- `order` and `cancel` of the client pallet, and what they do to the entries of a device.
use native.Mathlib.Decide.{ℕ_discrete}
use xcm_robobank_prototype.Prelude.{◌≡◌, refl, ◌⊎◌, inl, inr, ◌≤◌, none, some, arith, Option-cases}
use xcm_robobank_prototype.Frame.{AccountId, DispatchError, Result, ok, Result-cases}
use xcm_robobank_prototype.Client.State.{Config, OrderOf, OrderBaseOf, DeviceProfile, Error, State}
use xcm_robobank_prototype.Client.Orders.{place_order, order_reject, lock_funds}
use xcm_robobank_prototype.Client.Placement.{
  lock_funds-frame, sending, send_order-sent, send_order-unsent, Placing, placing,
}
use xcm_robobank_prototype.Client.Calls.{order, cancel}
use xcm_robobank_prototype.Client.Runs.{Input}
use xcm_robobank_prototype.Client.Authority.{Starts, Becomes, Change, Same, still}

module _ (T : Config) (s : State T) (d : AccountId) where
  -- An order that is placed with a device is refused, or taken by it; other devices are not touched.
  Placing-Starts :
      (o : OrderBaseOf T) (who : AccountId) (r : Result (DispatchError Error) (Unit {0}) × State T)
      → Placing T o who s r
      → Same T s d r.1 ⊎ ((dev : DeviceProfile) × (o.device ≡ d) × Starts s r.1 o who dev)
  Placing-Starts o who r (Placing.refused e ends) = rw ends (inl (still T s d s refl))
  Placing-Starts o who r (Placing.unfunded dev e passes failed ends) =
      rw (ends, lock_funds-frame T o who dev s)
        (inl (record { order_after = refl; device_after = refl }))
  Placing-Starts o who r (Placing.stored dev passes funded ends) =
      let u = (lock_funds T o who dev s).1 in
      rw ends (elim (Result-cases (sending T o who dev u)) [
        | inl (_, sent) ↦
            rw (send_order-sent T o who dev u sent, lock_funds-frame T o who dev s)
              (elim (ℕ_discrete o.device d) [
                | no ne ↦ inl (record { order_after = ground arith; device_after = ground arith })
                | yes e ↦ inr (
                  dev,
                  e,
                  record {
                    free = passes.unordered;
                    known = passes.registered;
                    ready = passes.ready;
                    in_time = passes.in_time;
                    order_after = ground arith;
                    device_after = inl (ground arith);
                  },
                )
              ])
        | inr (code, unsent) ↦
            rw (send_order-unsent T o who dev u unsent, lock_funds-frame T o who dev s)
              (elim (ℕ_discrete o.device d) [
                | no ne ↦ inl (record { order_after = ground arith; device_after = ground arith })
                | yes e ↦ inr (
                  dev,
                  e,
                  record {
                    free = passes.unordered;
                    known = passes.registered;
                    ready = passes.ready;
                    in_time = passes.in_time;
                    order_after = ground arith;
                    device_after = inr passes.registered;
                  },
                )
              ])
      ])

  pub order-Change :
      (origin : T.OriginFor) (b : OrderBaseOf T)
      → Change s (order T origin b s).1 d (Input.order_call origin b)
  unfolding order
  order-Change origin b = elim (Result-cases (T.ensure_signed origin)) [
    | inr (e, bad) ↦ Change.unchanged _ (still T s d _ (ground (arith, bad)))
    | inl (who, signed) ↦
        rw signed (elim (Placing-Starts b who (place_order T b who s) (placing T b who s)) [
          | inl same ↦ Change.unchanged _ same
          | inr (dev, found, starts) ↦ Change.ordered origin b who dev signed found starts
        ])
  ]

  cancel-idle :
      (origin : T.OriginFor) (k : AccountId)
      → (s.orders k ≡ none) ⊎ (s.device k ≡ none)
      → (cancel T origin k s).1 ≡ s
  unfolding cancel
  cancel-idle origin k missing = ground arith

  cancel-ends_signed :
      (origin : T.OriginFor) (k : AccountId) {o : OrderOf T} {dev : DeviceProfile}
      → s.orders k ≡ some o
      → s.device k ≡ some dev
      → let t = (cancel T origin k s).1 in
        Same T s d t
        ⊎ ((T.ensure_signed origin ≡ ok o.client)
            × (o.until ≤ s.now)
            × (k ≡ d)
            × Becomes t d none (some dev))
  unfolding cancel order_reject
  cancel-ends_signed origin k ordered known = ground arith

  pub cancel-Change :
      (origin : T.OriginFor) (k : AccountId)
      → Change s (cancel T origin k s).1 d (Input.cancel_call origin k)
  cancel-Change origin k = elim (Option-cases (s.orders k)) [
    | inl missing ↦ Change.unchanged _ (still T s d _ (cancel-idle origin k (inl missing)))
    | inr (o, ordered) ↦ elim (Option-cases (s.device k)) [
      | inl missing ↦ Change.unchanged _ (still T s d _ (cancel-idle origin k (inr missing)))
      | inr (dev, known) ↦ elim (cancel-ends_signed origin k ordered known) [
        | inl same ↦ Change.unchanged _ same
        | inr (signed, late, e, gone) ↦ rw e (
            Change.cancelled origin o (rw e at ordered) signed late
              (rw (rw e at known) (rw e at gone)))
      ]
    ]
  ]
