-- ===== src/Service/Contract.antt =====
-- The service pallet and the contract of orders.
use xcm_robobank_prototype.Prelude.{◌≡◌, ◌≢◌, ◌⊎◌, refl, ◌<◌, Bool, Option, none, some, arith}
use xcm_robobank_prototype.Frame.{AccountId, DispatchError, Result, remove}
use xcm_robobank_prototype.Common.{DeviceState}
use xcm_robobank_prototype.Service.State.{Config, OrderOf, DeviceProfile, Error, State}
use xcm_robobank_prototype.Service.Orders.{
  order_received, order_accept, order_reject, order_done, lock_funds,
}
use xcm_robobank_prototype.Service.Locking.{lock_funds-frame}
use xcm_robobank_prototype.Service.Received.{Reception, reception}
use xcm_robobank_prototype.Service.Storing.{store_order-frame}
use xcm_robobank_prototype.Service.Transitions.{Transition}
use xcm_robobank_prototype.Service.Engaged.{IsEngaged, Engages}
use xcm_robobank_prototype.Service.Runs as Runs
use xcm_robobank_prototype.Contract.{Rules, Life, life_of, Board, Move, ends, Step, Reach}

-- An order starts in the state that `on_received` answers, and a busy device accepts it before its
-- deadline.
abbrev pub rules : (T : Config) → Rules (OrderOf T)
rules T = record {
  until = λ o. o.until;
  starts = λ d o state. T.on_received d o ≡ some state;
  goes = λ now o from to. (from ≡ DeviceState.busy) × (to ≡ DeviceState.busy2) × (now < o.until);
}

abbrev pub state_of : DeviceProfile → DeviceState
state_of dev = dev.state

abbrev pub board : {T : Config} → State T → Board (OrderOf T)
board s = record { now = s.now; life = λ d. life_of state_of (s.orders d) (s.device d) }

module _ (T : Config) where
  abbrev Simulates : State T → State T → Type 0
  Simulates s t = Step (rules T) (board s) (board t)

  abbrev lives : State T → AccountId → Life (OrderOf T)
  lives s d = life_of state_of (s.orders d) (s.device d)

  idles :
      (s t : State T) (d : AccountId)
      → t.now ≡ s.now
      → ((k : AccountId) → lives t k ≡ lives s k)
      → Simulates s t
  idles s t d now same = Step.moves d (Move.rest (same d)) (λ k ne. same k) now

  Reception-Simulates :
      {o : OrderOf T} {d : AccountId} {s : State T}
      (r : Result (DispatchError Error) (Unit {0}) × State T)
      → Reception T o d s r
      → Simulates s r.1
  Reception-Simulates {o} {d} {s} r (Reception.refused e eq) = rw eq (idles s s d refl (λ k. refl))
  Reception-Simulates {o} {d} {s} r (Reception.unfunded p e passes failed eq) =
      rw (eq, lock_funds-frame T o d p s) (Step.moves d (Move.rest refl) (λ k ne. refl) refl)
  Reception-Simulates {o} {d} {s} r (Reception.stored p passes funded eq) =
      rw (eq, store_order-frame T o d p (lock_funds T o d p s).1, lock_funds-frame T o d p s)
        (Step.moves d
          (Move.start o p.state (ground (arith, passes.unordered)) passes.in_time passes.willing
            (ground arith))
          (λ k ne. ground arith) refl)

  rejected-lives :
      (o : Option (OrderOf T)) (d : AccountId) (p : DeviceProfile) (state : DeviceState)
      (onoff : Bool) (s : State T)
      → let t = (order_reject T o s.now d (record p { state = state }) onoff s).1 in
        ((lives t d ≡ none) ⊎ (lives t d ≡ lives s d))
        × ((k : AccountId) → k ≢ d → lives t k ≡ lives s k)
        × (t.now ≡ s.now)
  unfolding order_reject
  rejected-lives o d p state onoff s = (ground arith, λ k ne. ground arith, ground arith)

  finished-lives :
      (o : OrderOf T) (d : AccountId) (p : DeviceProfile) (onoff : Bool) (s : State T)
      → let t = (order_done T o s.now d p onoff (record s { orders = remove d s.orders })).1 in
        (lives t d ≡ none) × ((k : AccountId) → k ≢ d → lives t k ≡ lives s k) × (t.now ≡ s.now)
  unfolding order_done
  finished-lives o d p onoff s = (ground arith, λ k ne. ground arith, ground arith)

  accepted-lives :
      (o : OrderOf T) (d : AccountId) (p : DeviceProfile) (s : State T)
      → s.orders d ≡ some o
      → let t = (order_accept T o s.now d p s).1 in
        (lives t d ≡ some (o, DeviceState.busy2))
        × ((k : AccountId) → k ≢ d → lives t k ≡ lives s k)
        × (t.now ≡ s.now)
  unfolding order_accept
  accepted-lives o d p s ordered = (ground arith, λ k ne. ground arith, ground arith)

  Transition-Simulates : {s t : State T} → IsEngaged s → Transition s t → Simulates s t
  Transition-Simulates {s} h (Transition.idle e) = rw e (idles s s 0 refl (λ k. refl))
  Transition-Simulates {s} h (Transition.noted v e) =
      rw e (Step.moves 0 (Move.rest refl) (λ k ne. refl) refl)
  Transition-Simulates {s} h (Transition.received o d e) =
      rw e (Reception-Simulates (order_received T o d s) (reception T o d s))
  Transition-Simulates {s} h (Transition.rejected o d p state onoff ordered known e) =
      let t = (order_reject T o s.now d (record p { state = state }) onoff s).1 in
      let (end, others, now) = rejected-lives o d p state onoff s in
      rw e (Step.moves d (ends (rules T) (lives s d) (lives t d) end) others now)
  Transition-Simulates {s} h (Transition.accepted o d p ordered known busy in_time e) =
      let (gone_on, others, now) = accepted-lives o d p s ordered in
      rw e (
        Step.moves d
          (Move.go o p.state DeviceState.busy2 (ground arith) (busy, refl, in_time) gone_on) others
          now)
  Transition-Simulates {s} h (Transition.finished o d p onoff ordered known busy e) =
      let (gone, others, now) = finished-lives o d p onoff s in
      rw e (Step.moves d (Move.end gone) others now)
  Transition-Simulates {s} h (Transition.cleared d free e) =
      rw e (Step.moves d (Move.end (ground arith)) (λ k ne. ground arith) refl)
  Transition-Simulates {s} h (Transition.registered d p v free e) =
      rw e (Step.moves d (Move.rest (ground arith)) (λ k ne. ground arith) refl)
  Transition-Simulates {s} h (Transition.turned d p state known idle e) =
      rw e (Step.moves d (Move.rest (ground (arith, h d))) (λ k ne. ground arith) refl)
  Transition-Simulates {s} h (Transition.reaped d p known off e) =
      rw e (Step.moves d (Move.rest (ground (arith, h d))) (λ k ne. ground arith) refl)

module _ {T : Config} where
  -- An input is one step of the contract.
  pub deliver-Step :
      (i : Runs.Input T) (s : State T)
      → IsEngaged s
      → Step (rules T) (board s) (board (Runs.deliver i s))
  deliver-Step i s h = Transition-Simulates T h (Runs.deliver-transition i s)

  -- The service pallet refines the contract of orders: if each device with an order is busy at the
  -- start and `on_received` answers only `Busy` or `Busy2`, then whatever reaches the pallet in
  -- whatever order, its orders have gone through steps of the contract.
  pub Reach-refines :
      {s t : State T}
      → Engages T
      → IsEngaged s
      → Runs.Reach s t
      → Reach (rules T) (board s) (board t)
  Reach-refines engages h Runs.Reach.here = Reach.here
  Reach-refines engages h (Runs.Reach.next {t} r (Runs.Step.delivered i e)) =
      Reach.next (Reach-refines engages h r)
        (rw e (deliver-Step i t (Runs.Reach-IsEngaged engages r h)))
  Reach-refines engages h (Runs.Reach.next r (Runs.Step.elsewhere later kept devices orders)) =
      Reach.next (Reach-refines engages h r) (Step.passes later (rw (devices, orders)))
