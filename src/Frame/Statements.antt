-- ===== src/Frame/Statements.antt =====
-- What a pallet reads and writes of its chain: the timestamp of the block, its maps of devices and
-- orders, the ledger of the currency, the queues of the message sender, and the events so far.
-- Below it, the statements by which the pallets change it.
use xcm_robobank_prototype.Prelude.{
  ℕ, ◌+◌, ◌%◌, ◌^◌, List, [], ◌∷◌, ◌++◌, Bool, Option, none, some, ◌≤◌, ◌⊎◌, inl, inr, arith,
  Bool-cases, ltb, ltb→lt,
}
use xcm_robobank_prototype.Frame.Outcome.{
  ForeignError, DispatchError, Result, ok, err, Action, propagate,
}
use xcm_robobank_prototype.Frame.Storage.{AccountId, StorageMap, insert, remove}
use xcm_robobank_prototype.Frame.Reservable.{Currency, BalanceStatus}
use xcm_robobank_prototype.Frame.Xcmp.{ParaId, Blob, ServiceQuality, XcmpMessageSender}

-- u128 in the runtime.
abbrev pub Balance : Type 0
Balance = ℕ

-- u64 in the runtime.
abbrev pub Moment : Type 0
Moment = ℕ

-- `+` on moments, with the wrap-around of a release build.
abbrev pub add_moments : Moment → Moment → Moment
add_moments a b = (a + b) % 2 ^ 64

pub record Chain (C : Currency) (X : XcmpMessageSender) (D O V : Type 0) : Type 0 where
  pub now : Moment
  pub device : StorageMap D
  pub orders : StorageMap O
  pub ledger : C.Ledger
  pub queue : X.Queue
  pub events : List V

module _ {C : Currency} {X : XcmpMessageSender} {D O V E : Type 0} where
  -- `Self::deposit_event(e)`
  abbrev pub deposit_event : V → Action (Chain C X D O V) E (Unit {0})
  deposit_event e s = (ok tt, record s { events = s.events ++ e ∷ [] })

  -- `Device::<T>::insert(k, d)` and `Device::<T>::remove(k)`
  abbrev pub insert_device : AccountId → D → Action (Chain C X D O V) E (Unit {0})
  insert_device k d s = (ok tt, record s { device = insert k d s.device })

  abbrev pub remove_device : AccountId → Action (Chain C X D O V) E (Unit {0})
  remove_device k s = (ok tt, record s { device = remove k s.device })

  -- `Orders::<T>::insert(k, o)` and `Orders::<T>::remove(k)`
  abbrev pub insert_order : AccountId → O → Action (Chain C X D O V) E (Unit {0})
  insert_order k o s = (ok tt, record s { orders = insert k o s.orders })

  abbrev pub remove_order : AccountId → Action (Chain C X D O V) E (Unit {0})
  remove_order k s = (ok tt, record s { orders = remove k s.orders })

  -- `Orders::<T>::take(k)`
  abbrev pub take_order : AccountId → Action (Chain C X D O V) E (Option O)
  take_order k s = (ok (s.orders k), record s { orders = remove k s.orders })

  -- `Device::<T>::try_mutate(k, f)`: what `f` makes of the entry is stored unless `f` fails.
  abbrev pub try_mutate_device :
      AccountId
      → (Option D → Result (DispatchError E) (Option D))
      → Action (Chain C X D O V) E (Unit {0})
  try_mutate_device k f s = elim (f (s.device k)) [
    | ok (some d) ↦ (ok tt, record s { device = insert k d s.device })
    | ok none ↦ (ok tt, record s { device = remove k s.device })
    | err e ↦ (err e, s)
  ]

  -- `T::Currency::can_reserve(a, x)`
  abbrev pub can_reserve : AccountId → Balance → Action (Chain C X D O V) E Bool
  can_reserve a x s = (ok (C.can_reserve s.ledger a x), s)

  -- `T::Currency::reserve(a, x)?`
  abbrev pub reserve : AccountId → Balance → Action (Chain C X D O V) E (Unit {0})
  reserve a x s = let (r, l) = C.reserve s.ledger a x in propagate r (record s { ledger = l })

  -- `T::Currency::unreserve(a, x);`
  abbrev pub unreserve : AccountId → Balance → Action (Chain C X D O V) E (Unit {0})
  unreserve a x s = (ok tt, record s { ledger = (C.unreserve s.ledger a x).1 })

  -- `T::Currency::repatriate_reserved(a, b, x, Free)?`
  abbrev pub repatriate_reserved : AccountId → AccountId → Balance → Action (Chain C X D O V) E ℕ
  repatriate_reserved a b x s =
      let (r, l) = C.repatriate_reserved s.ledger a b x BalanceStatus.free in
      propagate r (record s { ledger = l })

  -- `T::XcmpMessageSender::send_blob_message(p, b, ServiceQuality::Ordered)`, whose result the
  -- callers treat in different ways.
  abbrev pub send_blob_message :
      ParaId → Blob → Action (Chain C X D O V) E (Result ForeignError (Unit {0}))
  send_blob_message p b s =
      let (r, q) = X.send_blob_message s.queue p b ServiceQuality.ordered in
      (ok r, record s { queue = q })

-- A sum of moments that does not pass a bound is the true sum, or has wrapped.
pub add_moments_le :
    (a b bound : Moment) → add_moments a b ≤ bound → (a + b ≤ bound) ⊎ (2 ^ 64 ≤ a + b)
add_moments_le a b bound h = elim (Bool-cases (ltb (a + b) (2 ^ 64))) [
  | inl fits ↦ inl (omega (arith, ltb→lt (a + b) (2 ^ 64) fits))
  | inr wraps ↦ inr (ground arith)
]
