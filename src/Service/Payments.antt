-- ===== src/Service/Payments.antt =====
-- How the calls settle an order of this chain: `done`, a rejection by `accept`, and `cancel`.
use xcm_robobank_prototype.Prelude.{
  ◌≤◌, ◌≡◌, ◌≢◌, inl, inr, Bool, Bool-cases, true, false, some, arith, ltb, ◌==◌, if◌then◌else◌,
}
use xcm_robobank_prototype.Frame.{AccountId, ok, CurrencyLaws, remove, free}
use xcm_robobank_prototype.Common.{DeviceState, on_or_off}
use xcm_robobank_prototype.Service.State.{Config, OrderOf, DeviceProfile, State}
use xcm_robobank_prototype.Service.Orders.{order_done, order_reject}
use xcm_robobank_prototype.Service.Calls.{done, accept, cancel}
use xcm_robobank_prototype.Service.Engaged.{IsWorking}
use xcm_robobank_prototype.Service.Escrow.{IsBacked}
use xcm_robobank_prototype.Service.Settlement.{
  IsSettled, order_done-IsSettled_early, order_done-IsSettled_late, order_reject-IsSettled_early,
  order_reject-IsSettled_late,
}

module _ (T : Config) (s : State T) {origin : T.OriginFor} {d : AccountId} {o : OrderOf T}
    {dev : DeviceProfile} where
  done_lem :
      (onoff : Bool)
      → T.ensure_signed origin ≡ ok d
      → s.orders d ≡ some o
      → s.device d ≡ some dev
      → dev.state ≡ DeviceState.busy2
      → done T origin onoff s
        ≡ order_done T o s.now d dev onoff (record s { orders = remove d s.orders })
  unfolding done
  done_lem onoff signed ordered known working = ground arith

  reject_lem :
      (onoff : Bool)
      → T.ensure_signed origin ≡ ok d
      → s.orders d ≡ some o
      → s.device d ≡ some dev
      → IsWorking dev.state
      → accept T origin true onoff s
        ≡ order_reject T (some o) s.now d (record dev { state = on_or_off onoff }) onoff s
  unfolding accept
  reject_lem onoff signed ordered known working = ground arith

  cancel_lem :
      T.ensure_signed origin ≡ ok o.client
      → s.orders d ≡ some o
      → s.device d ≡ some dev
      → o.until ≤ s.now
      → cancel T origin d s ≡ order_reject T (some o) s.now d dev false s
  unfolding cancel
  cancel_lem signed ordered known late = ground arith

module _ (T : Config) (laws : CurrencyLaws T.currency) (s : State T) (d : AccountId) (o : OrderOf T)
    (dev : DeviceProfile) (ordered : s.orders d ≡ some o) (known : s.device d ≡ some dev)
    (backed : IsBacked s) (here : (o.paraid == T.self_para_id) ≡ true) (two : o.client ≢ d) where
  open T.currency use {exists, repatriate_reserved}

  late_le : ltb s.now o.until ≡ false → o.until ≤ s.now
  late_le late = ground arith

  -- In a state whose orders are backed, a registered device has an order of the chain itself, of a
  -- client other than the device. If the device is in `Busy2` and its account exists, and from the
  -- deadline on the client's account still exists once the fee is taken from it, then `done`,
  -- signed by the device, succeeds: it is paid the fee, and the penalty goes to it before the
  -- deadline and to the client from then on. The order is gone, the device is `Ready` or `Off` as
  -- it asks, and no other balance changes. The currency must leave a payer what it has left, as the
  -- laws say.
  pub done-IsSettled :
      (origin : T.OriginFor) (onoff : Bool)
      → T.ensure_signed origin ≡ ok d
      → dev.state ≡ DeviceState.busy2
      → exists s.ledger d ≡ true
      → (o.until ≤ s.now
          → exists (repatriate_reserved s.ledger o.client d o.fee free).1 o.client ≡ true)
      → let r = done T origin onoff s in
        (r.0 ≡ ok tt)
        × IsSettled s r.1 d o dev (on_or_off onoff) d (if ltb s.now o.until then d else o.client)
  done-IsSettled origin onoff signed working e f = elim (Bool-cases (ltb s.now o.until)) [
    | inl early ↦
        rw (done_lem T s onoff signed ordered known working, early)
          (order_done-IsSettled_early T laws s d o dev ordered known backed here two onoff e early)
    | inr late ↦
        rw (done_lem T s onoff signed ordered known working, late)
          (order_done-IsSettled_late T laws s d o dev ordered known backed here two onoff e
            (f (late_le late)) late)
  ]

  -- In a state whose orders are backed, a registered device has an order of the chain itself, of a
  -- client other than the device, whose account exists. If the device is in `Busy` or `Busy2`, then
  -- a rejection by `accept`, signed by the device, succeeds: the client gets back the fee, and the
  -- penalty goes to the device before the deadline and to the client from then on. The order is
  -- gone, the device is `Ready` or `Off` as it asks, and no other balance changes. The currency
  -- must leave a payer what it has left, as the laws say.
  pub reject-IsSettled :
      (origin : T.OriginFor) (onoff : Bool)
      → T.ensure_signed origin ≡ ok d
      → IsWorking dev.state
      → exists s.ledger o.client ≡ true
      → let r = accept T origin true onoff s in
        (r.0 ≡ ok tt)
        × IsSettled s r.1 d o dev
            (on_or_off onoff)
            o.client
            (if ltb s.now o.until then d else o.client)
  reject-IsSettled origin onoff signed working e = elim (Bool-cases (ltb s.now o.until)) [
    | inl early ↦
        rw (reject_lem T s onoff signed ordered known working, early)
          (order_reject-IsSettled_early T laws s d o dev ordered known backed here two
            (on_or_off onoff) onoff early)
    | inr late ↦
        rw (reject_lem T s onoff signed ordered known working, late)
          (order_reject-IsSettled_late T laws s d o dev ordered known backed here two
            (on_or_off onoff) onoff e late)
  ]

  -- The client who cancels from the deadline on gets back the fee and the penalty of the device.
  -- The order is gone, and the device keeps its state.
  pub cancel-IsSettled :
      (origin : T.OriginFor)
      → T.ensure_signed origin ≡ ok o.client
      → o.until ≤ s.now
      → exists s.ledger o.client ≡ true
      → let r = cancel T origin d s in
        (r.0 ≡ ok tt) × IsSettled s r.1 d o dev dev.state o.client o.client
  cancel-IsSettled origin signed late e = rw (cancel_lem T s signed ordered known late) (
      order_reject-IsSettled_late T laws s d o dev ordered known backed here two dev.state false e
        (ground arith))
