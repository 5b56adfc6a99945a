-- ===== src/Client/Recovery.antt =====
-- How the client of a late order of the client chain gets its money back (`cancel`,
-- pallets/client/src/lib.rs).
use native.Mathlib.Nat.{le_refl}
use xcm_robobank_prototype.Prelude.{◌≤◌, ◌<◌, ◌≡◌, ◌≢◌, refl, Option, none, some, arith, [], ◌∷◌}
use xcm_robobank_prototype.Frame.{AccountId, Moment, ok, CurrencyLaws}
use xcm_robobank_prototype.Client.State.{Config, OrderOf, DeviceProfile, State}
use xcm_robobank_prototype.Client.Calls.{cancel}
use xcm_robobank_prototype.Client.Escrow.{IsCovered, Honest, reserved_of}
use xcm_robobank_prototype.Client.Tracked.{IsTracked, Matches}
use xcm_robobank_prototype.Client.Settlement.{IsSettled, cancel-IsSettled_client}
use xcm_robobank_prototype.Client.Runs.{
  Input, deliver, Step, Reach, Reach-IsTracked, Reach-IsCovered,
}

tracked-known :
    {O : Type 0} (o : O) (known : Option DeviceProfile)
    → Matches (some o) known
    → (dev : DeviceProfile) × (known ≡ some dev)
tracked-known o none h = elim h [ ]
tracked-known o (some dev) h = (dev, refl)

module _ {T : Config} (laws : CurrencyLaws T.currency) {s t : State T} (run : Reach Honest s t)
    (tracked : IsTracked s) (covered : IsCovered s) (d : AccountId) (o : OrderOf T)
    (ordered : t.orders d ≡ some o) where
  open T.currency use {exists}

  known : (dev : DeviceProfile) × (t.device d ≡ some dev)
  known = tracked-known o (t.device d) (rw ordered at (Reach-IsTracked Honest run tracked d))

  fee_covered : o.fee ≤ reserved_of t o.client
  fee_covered =
      let (dev, e) = known in
      ground (arith, Reach-IsCovered laws run covered o.client (d ∷ []) (tt, tt))

  -- In every state that the chain reaches by honest answers from one whose orders are tracked and
  -- covered, and that holds an order of a client other than the device with a fee above zero: at
  -- any later time from the deadline on, with nothing else done in between, `cancel` by the client
  -- succeeds, the chain reaches the state after it, and there the order is gone, the device keeps
  -- its state, and the fee and the penalty of the device have gone to the client.
  pub Reach-recovers_client :
      o.client ≢ d
      → 0 < o.fee
      → (origin : T.OriginFor) → T.ensure_signed origin ≡ ok o.client
      → (late : Moment) → t.now ≤ late
      → o.until ≤ late
      → let waited = record t { now = late } in
        let r = cancel T origin d waited in
        (dev : DeviceProfile) × (t.device d ≡ some dev)
        × (r.0 ≡ ok tt)
        × Reach Honest s r.1
        × IsSettled waited r.1 d o dev dev.state o.client o.client
  unfolding deliver
  Reach-recovers_client two paid origin signed late later expired =
      let (dev, e) = known in
      let waited = record t { now = late } in
      let waiting : Reach Honest s waited =
        Reach.next {u = waited} run
          (Step.elsewhere later (λ a. le_refl (reserved_of t a)) refl refl) in
      let (done, settled) =
        cancel-IsSettled_client T laws waited d o dev ordered e
          (Reach-IsCovered laws waiting covered) two origin signed expired
          (laws.exists_of_reserved t.ledger o.client (ground (arith, fee_covered))) in
      (
        dev,
        e,
        done,
        Reach.next waiting (Step.delivered (Input.cancel_call origin d) tt refl),
        settled,
      )
