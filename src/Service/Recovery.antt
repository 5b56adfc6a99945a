-- ===== src/Service/Recovery.antt =====
-- How the client of a late order of the service chain gets its money back (`cancel`,
-- pallets/service/src/lib.rs).
use native.Mathlib.Nat.{le_refl}
use xcm_robobank_prototype.Prelude.{
  ◌≤◌, ◌<◌, ◌≡◌, ◌≢◌, refl, Option, none, some, arith, [], ◌∷◌, true, ◌==◌,
}
use xcm_robobank_prototype.Frame.{AccountId, Moment, ok, CurrencyLaws}
use xcm_robobank_prototype.Service.State.{Config, OrderOf, DeviceProfile, State}
use xcm_robobank_prototype.Service.Calls.{cancel}
use xcm_robobank_prototype.Service.Escrow.{IsBacked, reserved_of}
use xcm_robobank_prototype.Service.Engaged.{IsEngaged, Engages, Matches}
use xcm_robobank_prototype.Service.Settlement.{IsSettled}
use xcm_robobank_prototype.Service.Payments.{cancel-IsSettled}
use xcm_robobank_prototype.Service.Runs.{
  Input, deliver, Step, Reach, Reach-IsEngaged, Reach-IsBacked,
}

engaged-known :
    {O : Type 0} (o : O) (known : Option DeviceProfile)
    → Matches (some o) known
    → (dev : DeviceProfile) × (known ≡ some dev)
engaged-known o none h = elim h [ ]
engaged-known o (some dev) h = (dev, refl)

module _ {T : Config} (laws : CurrencyLaws T.currency) (engages : Engages T) {s t : State T}
    (run : Reach s t) (engaged : IsEngaged s) (backed : IsBacked s) (d : AccountId) (o : OrderOf T)
    (ordered : t.orders d ≡ some o) (here : (o.paraid == T.self_para_id) ≡ true) where
  open T.currency use {exists}

  known : (dev : DeviceProfile) × (t.device d ≡ some dev)
  known = engaged-known o (t.device d) (rw ordered at (Reach-IsEngaged engages run engaged d))

  fee_covered : o.fee ≤ reserved_of t o.client
  fee_covered =
      let (dev, e) = known in
      ground (arith, Reach-IsBacked laws run backed o.client (d ∷ []) (tt, tt))

  -- In every state that the chain reaches from one whose devices are engaged and whose orders are
  -- backed, where `on_received` answers `Busy` or `Busy2` only, and that holds an order of this
  -- chain, of a client other than the device, with a fee above zero: at
  -- any later time from the deadline on, with nothing else done in between, `cancel` by the client
  -- succeeds, the chain reaches the state after it, and there the order is gone, the device keeps
  -- its state, and the fee and the penalty of the device have gone to the client.
  pub Reach-recovers :
      o.client ≢ d
      → 0 < o.fee
      → (origin : T.OriginFor) → T.ensure_signed origin ≡ ok o.client
      → (late : Moment) → t.now ≤ late
      → o.until ≤ late
      → let waited = record t { now = late } in
        let r = cancel T origin d waited in
        (dev : DeviceProfile) × (t.device d ≡ some dev)
        × (r.0 ≡ ok tt)
        × Reach s r.1
        × IsSettled waited r.1 d o dev dev.state o.client o.client
  unfolding deliver
  Reach-recovers two paid origin signed late later expired =
      let (dev, e) = known in
      let waited = record t { now = late } in
      let waiting : Reach s waited =
        Reach.next {u = waited} run
          (Step.elsewhere later (λ a. le_refl (reserved_of t a)) refl refl) in
      let (done, settled) =
        cancel-IsSettled T laws waited d o dev ordered e (Reach-IsBacked laws waiting backed) here
          two origin signed expired
          (laws.exists_of_reserved t.ledger o.client (ground (arith, fee_covered))) in
      (dev, e, done, Reach.next waiting (Step.delivered (Input.cancel_call origin d) refl), settled)
