-- ===== src/Client/Ordering.antt =====
-- What the call `order` leaves when it succeeds and when it fails (pallets/client/src/lib.rs).
use xcm_robobank_prototype.Prelude.{true, ◌⊎◌, inl, inr, ◌≡◌, ◌≢◌, ◌+◌, some, arith}
use xcm_robobank_prototype.Frame.{
  AccountId, ForeignError, DispatchError, ok, err, CurrencyLaws, XcmpMessageSenderLaws, insert,
  Result-cases,
}
use xcm_robobank_prototype.Client.State.{Config, OrderBaseOf, DeviceProfile, Error, State}
use xcm_robobank_prototype.Client.Orders.{place_order}
use xcm_robobank_prototype.Client.Placement.{stored_form, Passes, sending}
use xcm_robobank_prototype.Client.Escrow.{stake, reserved_of}
use xcm_robobank_prototype.Client.Calls.{order}
use xcm_robobank_prototype.Client.Placed.{
  IsPlaced, place_order-IsPlaced, place_order-atomic, place_order-ok, place_order-unsent,
}

-- The call itself, for the account that signed it.
module _ (T : Config) (laws : CurrencyLaws T.currency) (o : OrderBaseOf T) (who : AccountId)
    (s : State T) (origin : T.OriginFor) (signed : T.ensure_signed origin ≡ ok who) where
  order_lem : order T origin o s ≡ place_order T o who s
  unfolding order
  order_lem = ground arith

  -- A call of `order` that succeeds, signed by the client, has passed all the tests: the order is
  -- stored, its device is busy, exactly what the order claims of each account has gone from its
  -- free balance to its reserve, and the order has been sent to the chain of the device. No other
  -- entry of the two maps changes.
  pub order-IsPlaced :
      XcmpMessageSenderLaws T.sender
      → (order T origin o s).0 ≡ ok tt
      → (dev : DeviceProfile) × IsPlaced s (order T origin o s).1 o who dev
  order-IsPlaced reliable h =
      rw order_lem (place_order-IsPlaced T laws o who s reliable (rw order_lem at h))

  -- A call of `order` that fails with any error but `CannotReachDestination`, by an account other
  -- than the device, leaves the whole state as it was.
  pub order-atomic_reached :
      {e : DispatchError Error}
      → who ≢ o.device
      → (order T origin o s).0 ≡ err e
      → e ≢ DispatchError.pallet Error.cannot_reach_destination
      → (order T origin o s).1 ≡ s
  order-atomic_reached ne failed reached =
      rw order_lem (place_order-atomic T laws o who s ne (rw order_lem at failed) reached)

  -- A call of `order` by an account other than the device that passes the tests, for a device that
  -- can put up its penalty, succeeds if the sender takes the message.
  pub order-ok :
      (dev : DeviceProfile)
      → Passes T o who s dev
      → who ≢ o.device
      → T.currency.can_reserve s.ledger o.device dev.penalty ≡ true
      → sending T o who dev s ≡ ok tt
      → (order T origin o s).0 ≡ ok tt
  order-ok dev passes ne rich sent =
      rw order_lem (place_order-ok T laws o who s dev passes ne rich sent)

  -- If the sender does not take the message, such a call fails with `CannotReachDestination`. The
  -- order is stored and the money of both parties reserved all the same, and the profile of the
  -- device is as it was.
  pub order-unsent :
      (dev : DeviceProfile) {code : ForeignError}
      → Passes T o who s dev
      → who ≢ o.device
      → T.currency.can_reserve s.ledger o.device dev.penalty ≡ true
      → sending T o who dev s ≡ err code
      → let r = order T origin o s in
        (r.0 ≡ err (DispatchError.pallet Error.cannot_reach_destination))
        × (r.1.orders ≡ insert o.device (stored_form o who) s.orders)
        × (r.1.device ≡ s.device)
        × ((a : AccountId)
            → reserved_of r.1 a
              ≡ reserved_of s a + stake T (some (stored_form o who)) (some dev) a o.device)
  order-unsent dev passes ne rich unsent =
      rw order_lem (place_order-unsent T laws o who s dev passes ne rich unsent)

  -- A call of `order` by an account other than the device that passes the tests, for a device that
  -- can put up its penalty, ends as the sending of the message does. If the sender takes it, the
  -- call succeeds: the order is stored, its device is busy, exactly what the order claims of each
  -- account has been reserved, and the order has been sent. If not, the call fails with
  -- `CannotReachDestination`: the order is stored and the same money reserved all the same, and the
  -- profile of the device is as it was.
  pub order-outcome :
      XcmpMessageSenderLaws T.sender
      → (dev : DeviceProfile) → Passes T o who s dev
      → who ≢ o.device
      → T.currency.can_reserve s.ledger o.device dev.penalty ≡ true
      → let r = order T origin o s in
        ((sending T o who dev s ≡ ok tt)
          × (r.0 ≡ ok tt)
          × ((dev' : DeviceProfile) × IsPlaced s r.1 o who dev'))
        ⊎ ((code : ForeignError) × (sending T o who dev s ≡ err code)
            × (r.0 ≡ err (DispatchError.pallet Error.cannot_reach_destination))
            × (r.1.orders ≡ insert o.device (stored_form o who) s.orders)
            × (r.1.device ≡ s.device)
            × ((a : AccountId)
                → reserved_of r.1 a
                  ≡ reserved_of s a + stake T (some (stored_form o who)) (some dev) a o.device))
  order-outcome reliable dev passes ne rich = elim (Result-cases (sending T o who dev s)) [
    | inl (_, sent) ↦
        let placed = order-ok dev passes ne rich sent in
        inl (sent, placed, order-IsPlaced reliable placed)
    | inr (code, unsent) ↦
        let (failed, stored, kept, reserved) = order-unsent dev passes ne rich unsent in
        inr (code, unsent, failed, stored, kept, reserved)
  ]
