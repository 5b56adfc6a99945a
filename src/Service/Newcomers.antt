-- ===== src/Service/Newcomers.antt =====
-- Where the orders on the service chain come from.
use xcm_robobank_prototype.Prelude.{
  ℕ, ◌≡◌, refl, sym, ◌⊎◌, inl, inr, Bool, none, some, arith, Option-cases,
}
use xcm_robobank_prototype.Frame.{AccountId, ParaId, Blob, DispatchError, Result, ok, Result-cases}
use xcm_robobank_prototype.Common.{XcmpMessage}
use xcm_robobank_prototype.Service.State.{Config, OrderOf, OrderBaseOf, Error, State}
use xcm_robobank_prototype.Service.Orders.{
  placed, order_received, order_accept, order_reject, order_done, lock_funds,
}
use xcm_robobank_prototype.Service.Locking.{lock_funds-frame}
use xcm_robobank_prototype.Service.Received.{Reception, reception}
use xcm_robobank_prototype.Service.Storing.{store_order-frame}
use xcm_robobank_prototype.Service.Calls.{order, cancel, accept, done, register, set_state}
use xcm_robobank_prototype.Service.Hooks.{
  on_killed_account, handle_xcm_message, handle_message, handle_blob_message,
}
use xcm_robobank_prototype.Service.Runs.{Input, deliver}

-- The order that an input brings for a device: one that a client of this chain signed, or one in
-- a message, from the chain that the message came from.
pub data Brings (T : Config) : Input T → AccountId → OrderOf T → Type 0 where
  signed :
      (origin : T.OriginFor) (b : OrderBaseOf T) (who : AccountId)
      → T.ensure_signed origin ≡ ok who
      → Brings T (Input.order_call origin b) b.device (placed b who T.self_para_id)
  sent :
      (sender : ParaId) (at : ℕ) (blob : Blob) (client : AccountId) (b : OrderBaseOf T)
      → T.codec.decode blob ≡ some (XcmpMessage.new_order client b)
      → Brings T (Input.blob_received sender at blob) b.device (placed b client sender)

module _ (T : Config) (s : State T) (d : AccountId) where
  -- The entry of a device is as before, or gone.
  abbrev Keeps : State T → Type 0
  Keeps t = (t.orders d ≡ s.orders d) ⊎ (t.orders d ≡ none)

  Keeps-before : (t : State T) {o : OrderOf T} → Keeps t → t.orders d ≡ some o → s.orders d ≡ some o
  Keeps-before t kept now = ground (arith, kept, now)

  cancel-Keeps : (origin : T.OriginFor) (k : AccountId) → Keeps (cancel T origin k s).1
  unfolding cancel order_reject
  cancel-Keeps origin k = ground arith

  accept-Keeps :
      (origin : T.OriginFor) (reject onoff : Bool) → Keeps (accept T origin reject onoff s).1
  unfolding accept order_reject order_accept
  accept-Keeps origin reject onoff = ground arith

  done-Keeps : (origin : T.OriginFor) (onoff : Bool) → Keeps (done T origin onoff s).1
  unfolding done order_done
  done-Keeps origin onoff = ground arith

  register-Keeps :
      (origin : T.OriginFor) (penalty wcd : ℕ) (onoff : Bool)
      → Keeps (register T origin penalty wcd onoff s).1
  unfolding register
  register-Keeps origin penalty wcd onoff = ground arith

  set_state-Keeps : (origin : T.OriginFor) (onoff : Bool) → Keeps (set_state T origin onoff s).1
  unfolding set_state
  set_state-Keeps origin onoff = ground arith

  on_killed_account-Keeps : (who : AccountId) → Keeps (on_killed_account T who s)
  unfolding on_killed_account
  on_killed_account-Keeps who = ground arith

  handle_xcm_message-Keeps :
      (sender : ParaId) (at : ℕ) (xcm : T.xcm.VersionedXcm)
      → Keeps (handle_xcm_message T sender at xcm s)
  unfolding handle_xcm_message
  handle_xcm_message-Keeps sender at xcm = ground arith

  -- The entry of a device is as before, or what is received for it.
  Reception-orders :
      {o : OrderOf T} {k : AccountId} (r : Result (DispatchError Error) (Unit {0}) × State T)
      → Reception T o k s r
      → (r.1.orders d ≡ s.orders d) ⊎ ((k ≡ d) × (r.1.orders d ≡ some o))
  Reception-orders r (Reception.refused e eq) = rw eq (inl refl)
  Reception-orders {o} {k} r (Reception.unfunded p e passes failed eq) =
      rw (eq, lock_funds-frame T o k p s) (inl refl)
  Reception-orders {o} {k} r (Reception.stored p passes funded eq) =
      rw (eq, store_order-frame T o k p (lock_funds T o k p s).1, lock_funds-frame T o k p s)
        (ground arith)

  order_received-orders :
      (o : OrderOf T) (k : AccountId)
      → let t = (order_received T o k s).1 in
        (t.orders d ≡ s.orders d) ⊎ ((k ≡ d) × (t.orders d ≡ some o))
  order_received-orders o k = Reception-orders (order_received T o k s) (reception T o k s)

  -- What is there after an input was there before, or the input has brought it.
  abbrev Comes : Input T → Type 0
  Comes i =
      (o : OrderOf T) → (deliver i s).orders d ≡ some o → (s.orders d ≡ some o) ⊎ Brings T i d o

  received-Comes :
      (i : Input T) (o : OrderOf T) (k : AccountId)
      → (deliver i s).orders ≡ (order_received T o k s).1.orders
      → Brings T i k o
      → Comes i
  received-Comes i o k e brings o' now = elim (order_received-orders o k) [
    | inl same ↦ inl (ground (arith, e, same, now))
    | inr (found, new) ↦ inr (rw (sym found, brought e now new) brings)
  ]
    where
      brought :
          (deliver i s).orders ≡ (order_received T o k s).1.orders
          → (deliver i s).orders d ≡ some o'
          → (order_received T o k s).1.orders d ≡ some o
          → o' ≡ o
      brought e now new = ground (arith, e, now, new)

  order-Comes : (origin : T.OriginFor) (b : OrderBaseOf T) → Comes (Input.order_call origin b)
  unfolding deliver order
  order-Comes origin b = elim (Result-cases (T.ensure_signed origin)) [
    | inr (e, bad) ↦ λ o now. inl (ground (arith, bad, now))
    | inl (who, good) ↦
        received-Comes (Input.order_call origin b) (placed b who T.self_para_id) b.device
          (ground (arith, good)) (Brings.signed origin b who good)
  ]

  message-Comes :
      (sender : ParaId) (at : ℕ) (blob : Blob) (m : XcmpMessage AccountId ℕ T.OrderPayload ℕ)
      → T.codec.decode blob ≡ some m
      → Comes (Input.blob_received sender at blob)
  unfolding deliver handle_blob_message handle_message
  message-Comes sender at blob (XcmpMessage.new_order client b) decoded =
      received-Comes (Input.blob_received sender at blob) (placed b client sender) b.device
        (ground (arith, decoded)) (Brings.sent sender at blob client b decoded)
  message-Comes sender at blob m decoded = λ o now. inl (ground (arith, decoded, now))

  blob-Comes : (sender : ParaId) (at : ℕ) (blob : Blob) → Comes (Input.blob_received sender at blob)
  unfolding deliver handle_blob_message
  blob-Comes sender at blob = elim (Option-cases (T.codec.decode blob)) [
    | inl garbled ↦ λ o now. inl (ground (arith, garbled, now))
    | inr (m, decoded) ↦ message-Comes sender at blob m decoded
  ]

  kept-Comes : (i : Input T) → Keeps (deliver i s) → Comes i
  kept-Comes i kept o now = inl (Keeps-before (deliver i s) kept now)

  -- An order that a device has after an input was there before it, or the input has brought it: a
  -- client of the chain has signed the call, or it stood in a message of the chain that it names.
  pub deliver-Comes :
      (i : Input T) (o : OrderOf T)
      → (deliver i s).orders d ≡ some o
      → (s.orders d ≡ some o) ⊎ Brings T i d o
  unfolding deliver
  deliver-Comes (Input.order_call origin b) = order-Comes origin b
  deliver-Comes (Input.blob_received sender at blob) = blob-Comes sender at blob
  deliver-Comes (Input.cancel_call origin k) = kept-Comes _ (cancel-Keeps origin k)
  deliver-Comes (Input.accept_call origin reject onoff) =
      kept-Comes _ (accept-Keeps origin reject onoff)
  deliver-Comes (Input.done_call origin onoff) = kept-Comes _ (done-Keeps origin onoff)
  deliver-Comes (Input.register_call origin penalty wcd onoff) =
      kept-Comes _ (register-Keeps origin penalty wcd onoff)
  deliver-Comes (Input.set_state_call origin onoff) = kept-Comes _ (set_state-Keeps origin onoff)
  deliver-Comes (Input.killed who) = kept-Comes _ (on_killed_account-Keeps who)
  deliver-Comes (Input.xcm_received sender at xcm) =
      kept-Comes _ (handle_xcm_message-Keeps sender at xcm)
