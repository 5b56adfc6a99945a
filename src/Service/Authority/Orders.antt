-- ===== src/Service/Authority/Orders.antt =====
-- `order` and `cancel` of the service pallet, and what they do to the entries of a device.
use native.Mathlib.Decide.{ℕ_discrete}
use xcm_robobank_prototype.Prelude.{
  ◌≡◌, refl, ◌⊎◌, inl, inr, ◌≤◌, false, none, some, arith, Option-cases,
}
use xcm_robobank_prototype.Frame.{AccountId, DispatchError, Result, ok, Result-cases}
use xcm_robobank_prototype.Service.State.{Config, OrderOf, OrderBaseOf, DeviceProfile, Error, State}
use xcm_robobank_prototype.Service.Orders.{placed, order_received, order_reject, lock_funds}
use xcm_robobank_prototype.Service.Locking.{lock_funds-frame}
use xcm_robobank_prototype.Service.Received.{Reception, reception}
use xcm_robobank_prototype.Service.Storing.{store_order-frame}
use xcm_robobank_prototype.Service.Calls.{order, cancel}
use xcm_robobank_prototype.Service.Runs.{Input}
use xcm_robobank_prototype.Service.Authority.{Starts, Becomes, Change, Same, still}
use xcm_robobank_prototype.Service.Authority.Rejected.{order_reject-Becomes}

module _ (T : Config) (s : State T) (d : AccountId) where
  -- An order that is received for a device is refused, or taken by it; other devices are not
  -- touched.
  pub Reception-Starts :
      (o : OrderOf T) (k : AccountId) (r : Result (DispatchError Error) (Unit {0}) × State T)
      → Reception T o k s r
      → Same T s d r.1 ⊎ ((dev : DeviceProfile) × (k ≡ d) × Starts s r.1 d o dev)
  Reception-Starts o k r (Reception.refused e ends) =
      rw ends (inl (record { order_after = refl; device_after = refl }))
  Reception-Starts o k r (Reception.unfunded p e passes failed ends) =
      rw (ends, lock_funds-frame T o k p s)
        (inl (record { order_after = refl; device_after = refl }))
  Reception-Starts o k r (Reception.stored p passes funded ends) =
      rw (ends, store_order-frame T o k p (lock_funds T o k p s).1, lock_funds-frame T o k p s)
        (elim (ℕ_discrete k d) [
          | no ne ↦ inl (record { order_after = ground arith; device_after = ground arith })
          | yes e ↦ inr (
            p,
            e,
            record {
              free = rw e at passes.unordered;
              ready = rw e at passes.registered;
              in_time = passes.in_time;
              willing = rw e at passes.willing;
              order_after = ground arith;
              device_after = ground arith;
            },
          )
        ])

  pub order-Change :
      (origin : T.OriginFor) (b : OrderBaseOf T)
      → Change s (order T origin b s).1 d (Input.order_call origin b)
  unfolding order
  order-Change origin b = elim (Result-cases (T.ensure_signed origin)) [
    | inr (e, bad) ↦
        rw bad (Change.unchanged _ (record { order_after = refl; device_after = refl }))
    | inl (who, signed) ↦
        rw signed
          (elim (Reception-Starts (placed b who T.self_para_id) b.device
            (order_received T (placed b who T.self_para_id) b.device s)
            (reception T (placed b who T.self_para_id) b.device s)) [
              | inl same ↦ Change.unchanged _ same
              | inr (dev, found, starts) ↦ Change.ordered origin b who dev signed found starts
            ])
  ]

  cancel-ends_signed :
      (origin : T.OriginFor) (k : AccountId) {o : OrderOf T} {dev : DeviceProfile}
      → s.orders k ≡ some o
      → s.device k ≡ some dev
      → ((cancel T origin k s).1 ≡ s)
        ⊎ ((T.ensure_signed origin ≡ ok o.client)
            × (o.until ≤ s.now)
            × ((cancel T origin k s).1 ≡ (order_reject T (some o) s.now k dev false s).1))
  unfolding cancel
  cancel-ends_signed origin k ordered known = ground arith

  cancel-idle :
      (origin : T.OriginFor) (k : AccountId)
      → (s.orders k ≡ none) ⊎ (s.device k ≡ none)
      → (cancel T origin k s).1 ≡ s
  unfolding cancel
  cancel-idle origin k missing = ground arith

  cancelled_by :
      (origin : T.OriginFor) (k : AccountId) (t : State T) (o : OrderOf T) (dev : DeviceProfile)
      → s.orders k ≡ some o
      → s.device k ≡ some dev
      → T.ensure_signed origin ≡ ok o.client
      → o.until ≤ s.now
      → Same T s d t ⊎ ((k ≡ d) × Becomes t d none (some dev))
      → Change s t d (Input.cancel_call origin k)
  cancelled_by origin k t o dev ordered known signed late (inl same) = Change.unchanged _ same
  cancelled_by origin k t o dev ordered known signed late (inr (e, gone)) =
      rw e (Change.cancelled origin o (rw e at ordered) signed late (rw (rw e at known) gone))

  pub cancel-Change :
      (origin : T.OriginFor) (k : AccountId)
      → Change s (cancel T origin k s).1 d (Input.cancel_call origin k)
  cancel-Change origin k = elim (Option-cases (s.orders k)) [
    | inl missing ↦ Change.unchanged _ (still T s d _ (cancel-idle origin k (inl missing)))
    | inr (o, ordered) ↦ elim (Option-cases (s.device k)) [
      | inl missing ↦ Change.unchanged _ (still T s d _ (cancel-idle origin k (inr missing)))
      | inr (dev, known) ↦ elim (cancel-ends_signed origin k ordered known) [
        | inl same ↦ Change.unchanged _ (still T s d _ same)
        | inr (signed, late, e) ↦ rw e (
            cancelled_by origin k (order_reject T (some o) s.now k dev false s).1 o dev ordered
              known signed late (order_reject-Becomes T s d (some o) k dev false))
      ]
    ]
  ]
