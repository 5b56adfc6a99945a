-- ===== src/Client/Placed.antt =====
-- What the placing of an order leaves when it succeeds and when it fails.
use xcm_robobank_prototype.Prelude.{
  ℕ, true, ◌∙◌, ◌≡◌, ◌≢◌, refl, ap, inl, inr, ◌+◌, some, arith, [], ◌∷◌, ◌++◌,
}
use xcm_robobank_prototype.Frame.{
  AccountId, ForeignError, DispatchError, Result, Result-cases, ok, err, CurrencyLaws,
  XcmpMessageSenderLaws, ServiceQuality, insert,
}
use xcm_robobank_prototype.Common.{DeviceState, XcmpMessage}
use xcm_robobank_prototype.Client.State.{Config, OrderBaseOf, DeviceProfile, Error, State}
use xcm_robobank_prototype.Client.Orders.{lock_funds, send_order, place_order}
use xcm_robobank_prototype.Client.Placement.{
  stored_form, Passes, Passes-check_order, check_order-state, lock_funds-frame, lock_funds-atomic,
  reserved-lock_funds, free-lock_funds, sending, send_order-sent, send_order-unsent, Placing,
  placing,
}
use xcm_robobank_prototype.Client.Escrow.{stake, reserved_of}

abbrev pub free_of : {T : Config} → State T → AccountId → ℕ
free_of {T} s a = T.currency.free_balance s.ledger a

-- The order is stored, the device is busy, what the order claims of an account has gone from its
-- free balance to its reserve, and the order is the last message to the chain of the device.
pub record IsPlaced {T : Config} (s t : State T) (o : OrderBaseOf T) (who : AccountId)
    (dev : DeviceProfile) : Type 0 where
  pub passes : Passes T o who s dev
  pub order_stored : t.orders ≡ insert o.device (stored_form o who) s.orders
  pub device_busy : t.device ≡ insert o.device (record dev { state = DeviceState.busy }) s.device
  pub reserved :
      (a : AccountId)
      → reserved_of t a ≡ reserved_of s a + stake T (some (stored_form o who)) (some dev) a o.device
  pub taken :
      (a : AccountId)
      → free_of t a + stake T (some (stored_form o who)) (some dev) a o.device ≡ free_of s a
  pub sent :
      T.sender.sent t.queue
      ≡ T.sender.sent s.queue ++ (dev.paraid, T.codec.encode (XcmpMessage.new_order who o)) ∷ []

module _ (T : Config) (laws : CurrencyLaws T.currency) (o : OrderBaseOf T) (who : AccountId)
    (s : State T) where
  sent-queue :
      (dev : DeviceProfile) (u : State T)
      → XcmpMessageSenderLaws T.sender
      → sending T o who dev u ≡ ok tt
      → T.sender.sent (send_order T o who dev u).1.queue
        ≡ T.sender.sent u.queue ++ (dev.paraid, T.codec.encode (XcmpMessage.new_order who o)) ∷ []
  unfolding send_order
  sent-queue dev u reliable h = ground (
    arith,
    reliable.sent_ok u.queue dev.paraid (T.codec.encode (XcmpMessage.new_order who o))
        ServiceQuality.ordered h,
  )

  sent-IsPlaced :
      (dev : DeviceProfile)
      → XcmpMessageSenderLaws T.sender
      → Passes T o who s dev
      → (lock_funds T o who dev s).0 ≡ ok tt
      → let u = (lock_funds T o who dev s).1 in
        sending T o who dev u ≡ ok tt → IsPlaced s (send_order T o who dev u).1 o who dev
  sent-IsPlaced dev reliable passes funded h =
      let u = (lock_funds T o who dev s).1 in
      let frame = lock_funds-frame T o who dev s in
      record {
        passes = passes;
        order_stored =
            rw (send_order-sent T o who dev u h)
              (ap (λ (v : State T). insert o.device (stored_form o who) v.orders) frame);
        device_busy = rw (send_order-sent T o who dev u h) (
            ap (λ (v : State T). insert o.device (record dev { state = DeviceState.busy }) v.device)
              frame);
        reserved = λ a.
            rw (send_order-sent T o who dev u h) (reserved-lock_funds T o who dev s laws a funded);
        taken =
            λ a. rw (send_order-sent T o who dev u h) (free-lock_funds T o who dev s laws a funded);
        sent =
            sent-queue dev u reliable h
            ∙ ap
                (λ (v : State T).
                  T.sender.sent v.queue
                  ++ (dev.paraid, T.codec.encode (XcmpMessage.new_order who o)) ∷ [])
                frame;
      }

  Placing-IsPlaced :
      (r : Result (DispatchError Error) (Unit {0}) × State T)
      → XcmpMessageSenderLaws T.sender
      → Placing T o who s r
      → r.0 ≡ ok tt
      → (dev : DeviceProfile) × IsPlaced s r.1 o who dev
  Placing-IsPlaced r reliable (Placing.refused e eq) h = absurd cc
  Placing-IsPlaced r reliable (Placing.unfunded dev e passes failed eq) h = absurd cc
  Placing-IsPlaced r reliable (Placing.stored dev passes funded eq) h =
      let u = (lock_funds T o who dev s).1 in
      elim (Result-cases (sending T o who dev u)) [
        | inl (_, sent) ↦ (dev, rw eq (sent-IsPlaced dev reliable passes funded sent))
        | inr (code, unsent) ↦ absurd (ground (arith, send_order-unsent T o who dev u unsent))
      ]

  pub place_order-IsPlaced :
      XcmpMessageSenderLaws T.sender
      → (place_order T o who s).0 ≡ ok tt
      → (dev : DeviceProfile) × IsPlaced s (place_order T o who s).1 o who dev
  place_order-IsPlaced reliable h =
      Placing-IsPlaced (place_order T o who s) reliable (placing T o who s) h

  Placing-atomic :
      {e : DispatchError Error} (r : Result (DispatchError Error) (Unit {0}) × State T)
      → who ≢ o.device
      → Placing T o who s r
      → r.0 ≡ err e
      → e ≢ DispatchError.pallet Error.cannot_reach_destination
      → r.1 ≡ s
  Placing-atomic r ne (Placing.refused e eq) failed reached = rw eq
  Placing-atomic r ne (Placing.unfunded dev e passes unfunded eq) failed reached =
      rw eq (lock_funds-atomic T o who dev s laws ne passes.able unfunded)
  Placing-atomic {e} r ne (Placing.stored dev passes funded eq) failed reached =
      let u = (lock_funds T o who dev s).1 in
      elim (Result-cases (sending T o who dev u)) [
        | inl (_, sent) ↦ absurd (ground (arith, send_order-sent T o who dev u sent))
        | inr (code, unsent) ↦
            absurd (reached (ground (arith, send_order-unsent T o who dev u unsent)))
      ]

  pub place_order-atomic :
      {e : DispatchError Error}
      → who ≢ o.device
      → (place_order T o who s).0 ≡ err e
      → e ≢ DispatchError.pallet Error.cannot_reach_destination
      → (place_order T o who s).1 ≡ s
  place_order-atomic ne failed reached =
      Placing-atomic (place_order T o who s) ne (placing T o who s) failed reached

  funded :
      (dev : DeviceProfile)
      → Passes T o who s dev
      → who ≢ o.device
      → T.currency.can_reserve s.ledger o.device dev.penalty ≡ true
      → (lock_funds T o who dev s).0 ≡ ok tt
  unfolding lock_funds
  funded dev passes ne rich = ground (
    arith,
    passes.able,
    laws.reserve_ok s.ledger o.device dev.penalty,
    laws.reserve_ok (T.currency.reserve s.ledger o.device dev.penalty).1 who o.fee,
    laws.can_reserve-reserve_ne s.ledger o.device who dev.penalty o.fee,
  )

  stored_lem :
      (dev : DeviceProfile)
      → Passes T o who s dev
      → (lock_funds T o who dev s).0 ≡ ok tt
      → place_order T o who s ≡ send_order T o who dev (lock_funds T o who dev s).1
  unfolding place_order
  stored_lem dev passes paid =
      ground (arith, Passes-check_order T o who s passes, check_order-state T o who s)

  sending-lock_funds :
      (dev : DeviceProfile)
      → sending T o who dev (lock_funds T o who dev s).1 ≡ sending T o who dev s
  sending-lock_funds dev =
      ap (λ (v : State T). sending T o who dev v) (lock_funds-frame T o who dev s)

  pub place_order-ok :
      (dev : DeviceProfile)
      → Passes T o who s dev
      → who ≢ o.device
      → T.currency.can_reserve s.ledger o.device dev.penalty ≡ true
      → sending T o who dev s ≡ ok tt
      → (place_order T o who s).0 ≡ ok tt
  place_order-ok dev passes ne rich sent = ground (
    arith,
    stored_lem dev passes (funded dev passes ne rich),
    send_order-sent T o who dev (lock_funds T o who dev s).1,
    sending-lock_funds dev,
  )

  pub place_order-unsent :
      (dev : DeviceProfile) {code : ForeignError}
      → Passes T o who s dev
      → who ≢ o.device
      → T.currency.can_reserve s.ledger o.device dev.penalty ≡ true
      → sending T o who dev s ≡ err code
      → let r = place_order T o who s in
        (r.0 ≡ err (DispatchError.pallet Error.cannot_reach_destination))
        × (r.1.orders ≡ insert o.device (stored_form o who) s.orders)
        × (r.1.device ≡ s.device)
        × ((a : AccountId)
            → reserved_of r.1 a
              ≡ reserved_of s a + stake T (some (stored_form o who)) (some dev) a o.device)
  place_order-unsent dev {code} passes ne rich unsent =
      let paid = funded dev passes ne rich in
      let u = (lock_funds T o who dev s).1 in
      let frame = lock_funds-frame T o who dev s in
      rw
        (
          stored_lem dev passes paid,
          send_order-unsent T o who dev u (sending-lock_funds dev ∙ unsent),
        )
        (
          refl,
          ap (λ (v : State T). insert o.device (stored_form o who) v.orders) frame,
          ap (λ (v : State T). v.device) frame,
          λ a. reserved-lock_funds T o who dev s laws a paid,
        )
