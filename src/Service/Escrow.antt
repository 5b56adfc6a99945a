-- ===== src/Service/Escrow.antt =====
-- The collateral of the orders of this chain: what they claim of an account, and what is reserved
-- there.
use xcm_robobank_prototype.Prelude.{
  ℕ, ◌+◌, ◌≤◌, ◌≡◌, ◌≢◌, Bool, Option, none, some, arith, ◌==◌, if◌then◌else◌, inl, inr, Bool-cases,
}
use xcm_robobank_prototype.Prelude.Sums.{Bounds, Bounds-change}
use xcm_robobank_prototype.Frame.{
  AccountId, Moment, CurrencyLaws, remove, reserved-repatriate_le, free, Result-cases, ok,
}
use xcm_robobank_prototype.Common.{DeviceState}
use xcm_robobank_prototype.Service.State.{Config, OrderOf, DeviceProfile, State}
use xcm_robobank_prototype.Service.Orders.{
  order_accept, order_reject, order_done, lock_funds, store_order,
}
use xcm_robobank_prototype.Service.Storing.{order_accept-frame, store_order-frame}
use xcm_robobank_prototype.Service.Locking.{
  lock_funds-frame, lock_funds-remote, reserved-lock_funds, reserved-lock_funds_le,
}

-- What the order of device `d` claims of account `a`: the penalty of the device and the fee of the
-- client, if the order is of this chain.
abbrev pub stake :
    (T : Config) → Option (OrderOf T) → Option DeviceProfile → AccountId → AccountId → ℕ
stake T none _ a d = 0
stake T (some o) none a d = 0
stake T (some o) (some dev) a d =
    if o.paraid == T.self_para_id
    then (if d == a then dev.penalty else 0) + (if o.client == a then o.fee else 0)
    else 0

abbrev pub claim : {T : Config} → State T → AccountId → AccountId → ℕ
claim {T} s a d = stake T (s.orders d) (s.device d) a d

abbrev pub reserved_of : {T : Config} → State T → AccountId → ℕ
reserved_of {T} s a = T.currency.reserved_balance s.ledger a

-- Of every account at least as much is reserved as the orders of all devices claim together.
abbrev pub IsBacked : {T : Config} → State T → Type 0
IsBacked s = (a : AccountId) → Bounds (claim s a) (reserved_of s a)

-- Only the claims by device `d` change, and of a covered account the reserve follows them.
pub record Follows {T : Config} (s t : State T) (d : AccountId) : Type 0 where
  pub others : (a k : AccountId) → k ≢ d → claim t a k ≡ claim s a k
  pub follows :
      (a : AccountId)
      → claim s a d ≤ reserved_of s a
      → reserved_of s a + claim t a d ≤ reserved_of t a + claim s a d

pub Follows-IsBacked :
    {T : Config} {s t : State T} {d : AccountId} → Follows s t d → IsBacked s → IsBacked t
Follows-IsBacked {s = s} {t} {d} f h a =
    Bounds-change (claim s a) (claim t a) d (f.others a) (reserved_of s a) (reserved_of t a)
      (f.follows a) (h a)

module _ (T : Config) (laws : CurrencyLaws T.currency) where
  open T.currency use {unreserve, reserved_balance, exists, repatriate_reserved}

  pub order_accept-Follows :
      (o : OrderOf T) (now : Moment) (d : AccountId) (dev : DeviceProfile) (s : State T)
      → s.device d ≡ some dev
      → Follows s (order_accept T o now d dev s).1 d
  order_accept-Follows o now d dev s known =
      rw (order_accept-frame T o d dev now s)
        (record { others = λ a k ne. ground arith; follows = λ a h. ground arith })

  order_reject-follows :
      (o : OrderOf T) (now : Moment) (d a : AccountId) (dev : DeviceProfile) (state : DeviceState)
      (onoff : Bool) (s : State T)
      → s.orders d ≡ some o
      → s.device d ≡ some dev
      → claim s a d ≤ reserved_of s a
      → let t = (order_reject T (some o) now d (record dev { state = state }) onoff s).1 in
        reserved_of s a + claim t a d ≤ reserved_of t a + claim s a d
  unfolding order_reject
  order_reject-follows o now d a dev state onoff s ordered known h =
      let l = (unreserve s.ledger o.client o.fee).1 in
      elim (Result-cases (repatriate_reserved l d o.client dev.penalty free).0) [
        | inl (r, paid) ↦ ground (
          arith,
          laws.reserved-unreserve s.ledger o.client a o.fee,
          laws.reserved-unreserve l d a dev.penalty,
          reserved-repatriate_le T.currency laws l d o.client a dev.penalty,
        )
        | inr (code, failed) ↦ ground (
          arith,
          laws.reserved-unreserve s.ledger o.client a o.fee,
          laws.reserved-unreserve l d a dev.penalty,
          laws.repatriate_err l d o.client dev.penalty code failed,
          laws.repatriate_ok l d o.client dev.penalty,
          laws.exists-unreserve s.ledger o.client o.client o.fee,
          laws.exists_of_reserved s.ledger o.client,
        )
      ]

  pub order_reject-Follows :
      (o : Option (OrderOf T)) (now : Moment) (d : AccountId) (dev : DeviceProfile)
      (state : DeviceState) (onoff : Bool) (s : State T)
      → s.orders d ≡ o
      → s.device d ≡ some dev
      → Follows s (order_reject T o now d (record dev { state = state }) onoff s).1 d
  unfolding order_reject
  order_reject-Follows none now d dev state onoff s unordered known = record {
    others = λ a k ne. ground arith;
    follows = λ a h. ground arith;
  }
  order_reject-Follows (some o) now d dev state onoff s ordered known = record {
    others = λ a k ne. ground arith;
    follows = λ a h. order_reject-follows o now d a dev state onoff s ordered known h;
  }

  pub order_done-Follows :
      (o : OrderOf T) (now : Moment) (d : AccountId) (dev : DeviceProfile) (onoff : Bool)
      (s : State T)
      → s.orders d ≡ some o
      → s.device d ≡ some dev
      → Follows s (order_done T o now d dev onoff (record s { orders = remove d s.orders })).1 d
  unfolding order_done
  order_done-Follows o now d dev onoff s ordered known =
      let l = (repatriate_reserved s.ledger o.client d o.fee free).1 in
      record {
        others = λ a k ne. ground arith;
        follows = λ a h. ground (
          arith,
          reserved-repatriate_le T.currency laws s.ledger o.client d a o.fee,
          laws.reserved-unreserve l d a dev.penalty,
          reserved-repatriate_le T.currency laws l d o.client a dev.penalty,
        );
      }

  claim-lock_funds :
      (o : OrderOf T) (d : AccountId) (dev : DeviceProfile) (s : State T) (a k : AccountId)
      → claim (lock_funds T o d dev s).1 a k ≡ claim s a k
  claim-lock_funds o d dev s a k = rw (lock_funds-frame T o d dev s)

  pub unfunded-Follows :
      (o : OrderOf T) (d : AccountId) (dev : DeviceProfile) (s : State T)
      → Follows s (lock_funds T o d dev s).1 d
  unfunded-Follows o d dev s = record {
    others = λ a k ne. claim-lock_funds o d dev s a k;
    follows = λ a h.
        omega (arith, claim-lock_funds o d dev s a d, reserved-lock_funds_le T o d dev s laws a);
  }

  -- What a stored order claims is what has just been reserved for it.
  pub stored-follows :
      (o : OrderOf T) (d a : AccountId) (dev : DeviceProfile) (s : State T)
      → (lock_funds T o d dev s).0 ≡ ok tt
      → reserved_of s a + stake T (some o) (some dev) a d ≡ reserved_of (lock_funds T o d dev s).1 a
  stored-follows o d a dev s funded = elim (Bool-cases (o.paraid == T.self_para_id)) [
    | inl here ↦ ground (arith, reserved-lock_funds T o d dev s laws a here funded)
    | inr elsewhere ↦ ground (arith, lock_funds-remote T o d dev s elsewhere)
  ]

  claim-store_order :
      (o : OrderOf T) (d : AccountId) (dev : DeviceProfile) (s : State T) (a k : AccountId)
      → claim (store_order T o d dev s).1 a k
        ≡ (if d == k then stake T (some o) (some dev) a k else claim s a k)
  claim-store_order o d dev s a k = rw (store_order-frame T o d dev s) (ground arith)

  reserved-store_order :
      (o : OrderOf T) (d : AccountId) (dev : DeviceProfile) (s : State T) (a : AccountId)
      → reserved_of (store_order T o d dev s).1 a ≡ reserved_of s a
  reserved-store_order o d dev s a = rw (store_order-frame T o d dev s)

  pub stored-Follows :
      (o : OrderOf T) (d : AccountId) (dev : DeviceProfile) (s : State T)
      → s.orders d ≡ none
      → (lock_funds T o d dev s).0 ≡ ok tt
      → Follows s (store_order T o d dev (lock_funds T o d dev s).1).1 d
  stored-Follows o d dev s unordered funded =
      let u = (lock_funds T o d dev s).1 in
      record {
        others = λ a k ne.
            ground (arith, claim-store_order o d dev u a k, claim-lock_funds o d dev s a k);
        follows = λ a h. ground (
          arith,
          claim-store_order o d dev u a d,
          reserved-store_order o d dev u a,
          stored-follows o d a dev s funded,
        );
      }
