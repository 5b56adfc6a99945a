-- ===== src/Tests/Ledgers.antt =====
-- A currency and a message sender that keep to the laws of the interfaces, for the tests.
use xcm_robobank_prototype.Prelude.{
  ℕ, ◌+◌, ◌-◌, min, Bool, List, [], ◌∷◌, ◌++◌, arith, ltb, leb, ◌==◌, if◌then◌else◌,
}
use xcm_robobank_prototype.Frame.{
  AccountId, ParaId, Blob, ForeignError, Result, ok, err, Currency, CurrencyLaws, BalanceStatus,
  ServiceQuality, XcmpMessageSender, XcmpMessageSenderLaws,
}

pub record Balances : Type 0 where
  pub free : AccountId → ℕ
  pub reserved : AccountId → ℕ

abbrev pub add_to : AccountId → ℕ → (AccountId → ℕ) → AccountId → ℕ
add_to a x f b = f b + (if a == b then x else 0)

abbrev pub take_from : AccountId → ℕ → (AccountId → ℕ) → AccountId → ℕ
take_from a x f b = f b - (if a == b then x else 0)

-- An account exists while it holds anything.
abbrev pub holds : Balances → AccountId → Bool
holds l a = ltb 0 (l.free a + l.reserved a)

abbrev pub simple_reserve : Balances → AccountId → ℕ → Result ForeignError (Unit {0}) × Balances
simple_reserve l a x =
    if leb x (l.free a)
    then (ok tt, record { free = take_from a x l.free; reserved = add_to a x l.reserved })
    else (err 2, l)

abbrev pub simple_unreserve : Balances → AccountId → ℕ → ℕ × Balances
simple_unreserve l a x = (
  x - l.reserved a,
  record { free = add_to a (min x (l.reserved a)) l.free; reserved = take_from a x l.reserved },
)

abbrev pub simple_repatriate :
    Balances → AccountId → AccountId → ℕ → BalanceStatus → Result ForeignError ℕ × Balances
simple_repatriate l a b x _ =
    if holds l b
    then (
      ok (x - l.reserved a),
      record { free = add_to b (min x (l.reserved a)) l.free; reserved = take_from a x l.reserved },
    )
    else (err 3, l)

abbrev pub simple_currency : Currency
simple_currency = record {
  Ledger = Balances;
  free_balance = λ l. l.free;
  reserved_balance = λ l. l.reserved;
  exists = holds;
  can_reserve = λ l a x. leb x (l.free a);
  reserve = simple_reserve;
  unreserve = simple_unreserve;
  repatriate_reserved = simple_repatriate;
}

pub simple_currency_laws : CurrencyLaws simple_currency
simple_currency_laws = record {
  reserve_ok = λ l a x h. ground arith;
  can_reserve_of_ok = λ l a x h. ground arith;
  reserve_err = λ l a x e h. ground arith;
  can_reserve-reserve_ne = λ l a b x y h. ground arith;
  reserved-reserve = λ l a b x h. ground arith;
  free-reserve = λ l a b x h. ground arith;
  reserved-unreserve = λ l a b x. ground arith;
  free-unreserve = λ l a b x. ground arith;
  repatriate_ok = λ l a b x h. ground arith;
  repatriate_err = λ l a b x e h. ground arith;
  reserved-repatriate = λ l a b k x r h. ground arith;
  free-repatriate = λ l a b k x r h. ground arith;
  exists_of_reserved = λ l a h. ground arith;
  exists-unreserve = λ l a b x h. ground arith;
  exists-repatriate = λ l a b k x ne h. ground arith;
}

-- The one parachain that no channel leads to.
abbrev pub unreachable : ParaId
unreachable = 13

-- The queue is the list of the blobs that were accepted.
abbrev pub simple_send :
    List (ParaId × Blob)
    → ParaId
    → Blob
    → ServiceQuality
    → Result ForeignError (Unit {0}) × List (ParaId × Blob)
simple_send q p b _ = if p == unreachable then (err 4, q) else (ok tt, q ++ (p, b) ∷ [])

abbrev pub simple_sender : XcmpMessageSender
simple_sender = record {
  Queue = List (ParaId × Blob);
  sent = λ q. q;
  send_blob_message = simple_send;
}

pub simple_sender_laws : XcmpMessageSenderLaws simple_sender
simple_sender_laws = record {
  sent_ok = λ q p b s h. ground arith;
  sent_err = λ q p b s e h. ground arith;
}
