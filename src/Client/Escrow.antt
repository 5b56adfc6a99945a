-- ===== src/Client/Escrow.antt =====
-- The collateral of orders: what they claim of an account, and what is reserved there.
use xcm_robobank_prototype.Prelude.{
  ℕ, ◌+◌, ◌≤◌, ◌≡◌, ◌≢◌, inl, inr, Bool, true, Option, none, some, arith, ◌==◌, if◌then◌else◌,
}
use xcm_robobank_prototype.Prelude.Sums.{Bounds, Bounds-change}
use xcm_robobank_prototype.Frame.{
  AccountId, Moment, Result-cases, free, CurrencyLaws, reserved-repatriate_le,
}
use xcm_robobank_prototype.Common.{DeviceState}
use xcm_robobank_prototype.Client.State.{Config, OrderOf, DeviceProfile, State}
use xcm_robobank_prototype.Client.Orders.{order_reject}
use xcm_robobank_prototype.Client.Messages.{on_done}

-- What the order of device `d` claims of account `a`: the penalty of the device and the fee of the
-- client.
abbrev pub stake :
    (T : Config) → Option (OrderOf T) → Option DeviceProfile → AccountId → AccountId → ℕ
stake T none _ a d = 0
stake T (some o) none a d = 0
stake T (some o) (some dev) a d =
    (if d == a then dev.penalty else 0) + (if o.client == a then o.fee else 0)

abbrev pub claim : {T : Config} → State T → AccountId → AccountId → ℕ
claim {T} s a d = stake T (s.orders d) (s.device d) a d

abbrev pub reserved_of : {T : Config} → State T → AccountId → ℕ
reserved_of {T} s a = T.currency.reserved_balance s.ledger a

-- Of every account at least as much is reserved as the orders of all devices claim together.
abbrev pub IsCovered : {T : Config} → State T → Type 0
IsCovered s = (a : AccountId) → Bounds (claim s a) (reserved_of s a)

-- An answer is honest if it names the client of the order. The client's account must also outlive
-- the payment of the fee.
abbrev pub Honest : {T : Config} → State T → AccountId → OrderOf T → AccountId → Type 0
Honest {T} s who o d =
    (who ≡ o.client)
    × (T.currency.exists (T.currency.repatriate_reserved s.ledger who d o.fee free).1 who ≡ true)

-- Only the claims by device `d` change, and of a covered account the reserve follows them.
pub record Follows {T : Config} (s t : State T) (d : AccountId) : Type 0 where
  pub others : (a k : AccountId) → k ≢ d → claim t a k ≡ claim s a k
  pub follows :
      (a : AccountId)
      → claim s a d ≤ reserved_of s a
      → reserved_of s a + claim t a d ≤ reserved_of t a + claim s a d

pub Follows-IsCovered :
    {T : Config} {s t : State T} {d : AccountId} → Follows s t d → IsCovered s → IsCovered t
Follows-IsCovered {s = s} {t} {d} f h a =
    Bounds-change (claim s a) (claim t a) d (f.others a) (reserved_of s a) (reserved_of t a)
      (f.follows a) (h a)

module _ (T : Config) (laws : CurrencyLaws T.currency) where
  open T.currency use {unreserve, reserved_balance, exists, repatriate_reserved}

  order_reject-follows :
      (o : OrderOf T) (now : Moment) (d a : AccountId) (dev : DeviceProfile) (state : DeviceState)
      (s : State T)
      → s.orders d ≡ some o
      → s.device d ≡ some dev
      → claim s a d ≤ reserved_of s a
      → let t = (order_reject T o.client o now d (record dev { state = state }) s).1 in
        reserved_of s a + claim t a d ≤ reserved_of t a + claim s a d
  unfolding order_reject
  order_reject-follows o now d a dev state s stored known h =
      let l = (unreserve s.ledger o.client o.fee).1 in
      elim (Result-cases (repatriate_reserved l d o.client dev.penalty free).0) [
        | inl (r, paid) ↦ ground (
          arith,
          laws.reserved-unreserve s.ledger o.client a o.fee,
          laws.reserved-unreserve l d a dev.penalty,
          reserved-repatriate_le T.currency laws l d o.client a dev.penalty,
        )
        | inr (code, failed) ↦ ground (
          arith,
          laws.reserved-unreserve s.ledger o.client a o.fee,
          laws.reserved-unreserve l d a dev.penalty,
          laws.repatriate_err l d o.client dev.penalty code failed,
          laws.repatriate_ok l d o.client dev.penalty,
          laws.exists-unreserve s.ledger o.client o.client o.fee,
          laws.exists_of_reserved s.ledger o.client,
        )
      ]

  pub order_reject-Follows :
      (o : OrderOf T) (now : Moment) (d : AccountId) (dev : DeviceProfile) (state : DeviceState)
      (s : State T)
      → s.orders d ≡ some o
      → s.device d ≡ some dev
      → Follows s (order_reject T o.client o now d (record dev { state = state }) s).1 d
  unfolding order_reject
  order_reject-Follows o now d dev state s stored known = record {
    others = λ a k ne. ground arith;
    follows = λ a h. order_reject-follows o now d a dev state s stored known h;
  }

  on_done-follows :
      (o : OrderOf T) (d a : AccountId) (dev : DeviceProfile) (onoff : Bool) (s : State T)
      → s.orders d ≡ some o
      → s.device d ≡ some dev
      → exists (repatriate_reserved s.ledger o.client d o.fee free).1 o.client ≡ true
      → claim s a d ≤ reserved_of s a
      → let t = (on_done T o.client d onoff s).1 in
        reserved_of s a + claim t a d ≤ reserved_of t a + claim s a d
  unfolding on_done
  on_done-follows o d a dev onoff s stored known alive h =
      let l = (repatriate_reserved s.ledger o.client d o.fee free).1 in
      elim (Result-cases (repatriate_reserved s.ledger o.client d o.fee free).0) [
        | inl (r, paid) ↦ ground (
          arith,
          laws.reserved-repatriate s.ledger o.client d a o.fee r paid,
          laws.reserved-unreserve l d a dev.penalty,
          reserved-repatriate_le T.currency laws l d o.client a dev.penalty,
          laws.repatriate_ok l d o.client dev.penalty alive,
        )
        | inr (code, failed) ↦
            ground (arith, laws.repatriate_err s.ledger o.client d o.fee code failed)
      ]

  pub on_done-Follows :
      (o : OrderOf T) (d : AccountId) (dev : DeviceProfile) (onoff : Bool) (s : State T)
      → s.orders d ≡ some o
      → s.device d ≡ some dev
      → exists (repatriate_reserved s.ledger o.client d o.fee free).1 o.client ≡ true
      → Follows s (on_done T o.client d onoff s).1 d
  unfolding on_done
  on_done-Follows o d dev onoff s stored known alive = record {
    others = λ a k ne. ground arith;
    follows = λ a h. on_done-follows o d a dev onoff s stored known alive h;
  }
