-- ===== src/Service/Failures.antt =====
-- What a call of the service pallet leaves of the two maps when it fails
-- (pallets/service/src/lib.rs).
use xcm_robobank_prototype.Prelude.{ℕ, ◌≡◌, refl, Bool, true, false, arith, inl, inr}
use xcm_robobank_prototype.Frame.{AccountId, DispatchError, Result, ok, err, Result-cases}
use xcm_robobank_prototype.Service.State.{Config, OrderOf, OrderBaseOf, Error, State}
use xcm_robobank_prototype.Service.Orders.{
  order_received, order_reject, order_accept, lock_funds, placed,
}
use xcm_robobank_prototype.Service.Storing.{store_order-frame}
use xcm_robobank_prototype.Service.Locking.{lock_funds-frame}
use xcm_robobank_prototype.Service.Received.{Reception, reception}
use xcm_robobank_prototype.Service.Calls.{order, cancel, accept, done, register, set_state}
use xcm_robobank_prototype.Service.Runs.{Input, deliver}

-- How an input ends. The hooks do not fail.
unfoldable pub result : {T : Config} → Input T → State T → Result (DispatchError Error) (Unit {0})
result {T} (Input.order_call origin o) s = (order T origin o s).0
result {T} (Input.cancel_call origin d) s = (cancel T origin d s).0
result {T} (Input.accept_call origin reject onoff) s = (accept T origin reject onoff s).0
result {T} (Input.done_call origin onoff) s = (done T origin onoff s).0
result {T} (Input.register_call origin penalty wcd onoff) s =
    (register T origin penalty wcd onoff s).0
result {T} (Input.set_state_call origin onoff) s = (set_state T origin onoff s).0
result _ s = ok tt

abbrev pub is_done : {T : Config} → Input T → Bool
is_done (Input.done_call _ _) = true
is_done _ = false

-- The two maps are as they were.
pub record SameMaps {T : Config} (s t : State T) : Type 0 where
  pub same_orders : t.orders ≡ s.orders
  pub same_device : t.device ≡ s.device

module _ (T : Config) (s : State T) where
  cancel-kept :
      {e : DispatchError Error} (origin : T.OriginFor) (d : AccountId)
      → (cancel T origin d s).0 ≡ err e
      → SameMaps s (cancel T origin d s).1
  unfolding cancel order_reject
  cancel-kept origin d h = record { same_orders = ground arith; same_device = ground arith }

  accept-kept :
      {e : DispatchError Error} (origin : T.OriginFor) (reject onoff : Bool)
      → (accept T origin reject onoff s).0 ≡ err e
      → SameMaps s (accept T origin reject onoff s).1
  unfolding accept order_reject order_accept
  accept-kept origin reject onoff h = record {
    same_orders = ground arith;
    same_device = ground arith;
  }

  register-kept :
      {e : DispatchError Error} (origin : T.OriginFor) (penalty wcd : ℕ) (onoff : Bool)
      → (register T origin penalty wcd onoff s).0 ≡ err e
      → SameMaps s (register T origin penalty wcd onoff s).1
  unfolding register
  register-kept origin penalty wcd onoff h = record {
    same_orders = ground arith;
    same_device = ground arith;
  }

  set_state-kept :
      {e : DispatchError Error} (origin : T.OriginFor) (onoff : Bool)
      → (set_state T origin onoff s).0 ≡ err e
      → SameMaps s (set_state T origin onoff s).1
  unfolding set_state
  set_state-kept origin onoff h = record { same_orders = ground arith; same_device = ground arith }

  Reception-kept :
      {o : OrderOf T} {d : AccountId} {e : DispatchError Error}
      (r : Result (DispatchError Error) (Unit {0}) × State T)
      → Reception T o d s r
      → r.0 ≡ err e
      → SameMaps s r.1
  Reception-kept r (Reception.refused e eq) h =
      rw eq (record { same_orders = refl; same_device = refl })
  Reception-kept {o} {d} r (Reception.unfunded dev e passes failed eq) h =
      rw (eq, lock_funds-frame T o d dev s) (record { same_orders = refl; same_device = refl })
  Reception-kept {o} {d} r (Reception.stored dev passes funded eq) h =
      absurd (ground (arith, store_order-frame T o d dev (lock_funds T o d dev s).1))

  order-kept :
      {e : DispatchError Error} (origin : T.OriginFor) (o : OrderBaseOf T)
      → (order T origin o s).0 ≡ err e
      → SameMaps s (order T origin o s).1
  unfolding order
  order-kept origin o h = elim (Result-cases (T.ensure_signed origin)) [
    | inl (who, signed) ↦
        let placed_order = placed o who T.self_para_id in
        rw signed (
          Reception-kept (order_received T placed_order o.device s)
            (reception T placed_order o.device s) (rw signed at h))
    | inr (code, unsigned) ↦ rw unsigned (record { same_orders = refl; same_device = refl })
  ]

  -- A call of the service pallet that fails, with any error and in any state, leaves the two maps as
  -- they were, unless it is `done`.
  pub deliver-SameMaps :
      (i : Input T) {e : DispatchError Error}
      → result i s ≡ err e
      → is_done i ≡ false
      → SameMaps s (deliver i s)
  unfolding result deliver
  deliver-SameMaps (Input.order_call origin o) h other = order-kept origin o h
  deliver-SameMaps (Input.cancel_call origin d) h other = cancel-kept origin d h
  deliver-SameMaps (Input.accept_call origin reject onoff) h other =
      accept-kept origin reject onoff h
  deliver-SameMaps (Input.done_call origin onoff) h other = absurd cc
  deliver-SameMaps (Input.register_call origin penalty wcd onoff) h other =
      register-kept origin penalty wcd onoff h
  deliver-SameMaps (Input.set_state_call origin onoff) h other = set_state-kept origin onoff h
  deliver-SameMaps (Input.killed who) h other = absurd cc
  deliver-SameMaps (Input.xcm_received sender at xcm) h other = absurd cc
  deliver-SameMaps (Input.blob_received sender at blob) h other = absurd cc
