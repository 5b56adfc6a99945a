-- ===== src/Client/Contract.antt =====
-- The client pallet and the contract of orders.
use xcm_robobank_prototype.Prelude.{
  ◌≡◌, ◌≢◌, ◌⊎◌, refl, inl, inr, Bool, none, some, arith, Option-cases,
}
use xcm_robobank_prototype.Frame.{AccountId, DispatchError, Result, Result-cases, insert_self}
use xcm_robobank_prototype.Common.{DeviceState}
use xcm_robobank_prototype.Client.State.{Config, OrderOf, OrderBaseOf, DeviceProfile, Error, State}
use xcm_robobank_prototype.Client.Orders.{lock_funds, send_order, place_order, order_reject}
use xcm_robobank_prototype.Client.Messages.{on_done}
use xcm_robobank_prototype.Client.Placement.{
  Passes, stored_form, lock_funds-frame, sending, send_order-sent, send_order-unsent, Placing,
  placing,
}
use xcm_robobank_prototype.Client.Transitions.{Naming, Transition}
use xcm_robobank_prototype.Client.Tracked.{IsTracked}
use xcm_robobank_prototype.Client.Runs as Runs
use xcm_robobank_prototype.Contract.{Rules, Life, life_of, Board, Move, ends, Step, Reach}

-- An order starts with a device that is `Busy`, or still `Ready` because it could not be sent. The
-- device may be abandoned meanwhile.
abbrev pub rules : (T : Config) → Rules (OrderOf T)
rules T = record {
  until = λ o. o.until;
  starts = λ d o state. (state ≡ DeviceState.busy) ⊎ (state ≡ DeviceState.ready);
  goes = λ now o from to. to ≡ DeviceState.timewait;
}

abbrev pub state_of : DeviceProfile → DeviceState
state_of dev = dev.state

abbrev pub board : {T : Config} → State T → Board (OrderOf T)
board s = record { now = s.now; life = λ d. life_of state_of (s.orders d) (s.device d) }

module _ (T : Config) where
  abbrev Simulates : State T → State T → Type 0
  Simulates s t = Step (rules T) (board s) (board t)

  abbrev lives : State T → AccountId → Life (OrderOf T)
  lives s d = life_of state_of (s.orders d) (s.device d)

  sent-Simulates :
      (o : OrderBaseOf T) (who : AccountId) (p : DeviceProfile) (s u : State T)
      → Passes T o who s p
      → u ≡ record s { ledger = u.ledger }
      → Simulates s (send_order T o who p u).1
  sent-Simulates o who p s u passes frame = elim (Result-cases (sending T o who p u)) [
    | inl (_, sent) ↦
        rw (send_order-sent T o who p u sent, frame)
          (Step.moves o.device
            (Move.start (stored_form o who) DeviceState.busy (ground (arith, passes.unordered))
              passes.in_time (inl refl) (ground arith))
            (λ k ne. ground arith) refl)
    | inr (code, unsent) ↦
        rw (send_order-unsent T o who p u unsent, frame)
          (Step.moves o.device
            (Move.start (stored_form o who) DeviceState.ready (ground (arith, passes.unordered))
              passes.in_time (inr refl) (ground (arith, passes.registered, passes.ready)))
            (λ k ne. ground arith) refl)
  ]

  Placing-Simulates :
      {o : OrderBaseOf T} {who : AccountId} {s : State T}
      (r : Result (DispatchError Error) (Unit {0}) × State T)
      → Placing T o who s r
      → Simulates s r.1
  Placing-Simulates {o} {who} {s} r (Placing.refused e eq) =
      rw eq (Step.moves 0 (Move.rest refl) (λ k ne. refl) refl)
  Placing-Simulates {o} {who} {s} r (Placing.unfunded p e passes failed eq) =
      rw (eq, lock_funds-frame T o who p s) (Step.moves 0 (Move.rest refl) (λ k ne. refl) refl)
  Placing-Simulates {o} {who} {s} r (Placing.stored p passes funded eq) =
      rw eq
        (sent-Simulates o who p s (lock_funds T o who p s).1 passes (lock_funds-frame T o who p s))

  rejected-lives :
      (who : AccountId) (o : OrderOf T) (d : AccountId) (p : DeviceProfile) (s : State T)
      → let t = (order_reject T who o s.now d p s).1 in
        ((lives t d ≡ none) ⊎ (lives t d ≡ lives s d))
        × ((k : AccountId) → k ≢ d → lives t k ≡ lives s k)
        × (t.now ≡ s.now)
  unfolding order_reject
  rejected-lives who o d p s = (ground arith, λ k ne. ground arith, ground arith)

  completed-lives :
      (who d : AccountId) (onoff : Bool) (s : State T)
      → let t = (on_done T who d onoff s).1 in
        ((lives t d ≡ none) ⊎ (lives t d ≡ lives s d))
        × ((k : AccountId) → k ≢ d → lives t k ≡ lives s k)
        × (t.now ≡ s.now)
  unfolding on_done
  completed-lives who d onoff s = (ground arith, λ k ne. ground arith, ground arith)

  -- At most the life of `d` ends.
  ended-Simulates :
      (s t : State T) (d : AccountId)
      → ((lives t d ≡ none) ⊎ (lives t d ≡ lives s d))
        × ((k : AccountId) → k ≢ d → lives t k ≡ lives s k)
        × (t.now ≡ s.now)
      → Simulates s t
  ended-Simulates s t d (end, others, now) =
      Step.moves d (ends (rules T) (lives s d) (lives t d) end) others now

  abandoned-Move :
      (d : AccountId) (p : DeviceProfile) (s : State T)
      → s.device d ≡ some p
      → Move
          (rules T)
          s.now
          d
          (lives s d)
          (life_of state_of (s.orders d) (some (record p { state = DeviceState.timewait })))
  abandoned-Move d p s known = elim (Option-cases (s.orders d)) [
    | inl free ↦ rw free (Move.rest refl)
    | inr (o, stored) ↦ rw (stored, known) (Move.go o p.state DeviceState.timewait refl refl refl)
  ]

  Transition-Simulates :
      {Names : Naming T} {s t : State T} → IsTracked s → Transition Names s t → Simulates s t
  Transition-Simulates h (Transition.idle e) =
      rw e (Step.moves 0 (Move.rest refl) (λ k ne. refl) refl)
  Transition-Simulates h (Transition.noted v e) =
      rw e (Step.moves 0 (Move.rest refl) (λ k ne. refl) refl)
  Transition-Simulates h (Transition.queued q e) =
      rw e (Step.moves 0 (Move.rest refl) (λ k ne. refl) refl)
  Transition-Simulates {Names} {s} h (Transition.placed o who e) =
      rw e (Placing-Simulates (place_order T o who s) (placing T o who s))
  Transition-Simulates {Names} {s} h (Transition.cancelled o d p stored known e) = rw e (
      ended-Simulates s (order_reject T o.client o s.now d p s).1 d
        (rejected-lives o.client o d p s))
  Transition-Simulates {Names} {s} h (Transition.rejected who o d p state stored known named e) =
      rw e (
        ended-Simulates s (order_reject T who o s.now d (record p { state = state }) s).1 d
          (rejected-lives who o d (record p { state = state }) s))
  Transition-Simulates {Names} {s} h (Transition.completed who o d p onoff stored known named e) =
      rw e (ended-Simulates s (on_done T who d onoff s).1 d (completed-lives who d onoff s))
  Transition-Simulates h (Transition.registered d p v free e) =
      rw e (Step.moves d (Move.rest (ground arith)) (λ k ne. ground arith) refl)
  Transition-Simulates h (Transition.reaped d p known off e) =
      rw e (Step.moves d (Move.rest (ground (arith, h d))) (λ k ne. ground arith) refl)
  Transition-Simulates {Names} {s} h (Transition.abandoned d p known e) = rw e (
      Step.moves d
        (rw (insert_self d (record p { state = DeviceState.timewait }) s.device)
          (abandoned-Move d p s known))
        (λ k ne. ground arith) refl)

module _ {T : Config} (Names : Naming T) where
  -- The client pallet refines the contract of orders: if each device with an order is registered
  -- and not `Off` at the start, then whatever calls and messages reach the pallet in whatever
  -- order, its orders have gone through steps of the contract.
  pub Reach-refines_client :
      {s t : State T} → IsTracked s → Runs.Reach Names s t → Reach (rules T) (board s) (board t)
  Reach-refines_client h Runs.Reach.here = Reach.here
  Reach-refines_client h (Runs.Reach.next {t} r (Runs.Step.delivered i allowed e)) =
      Reach.next (Reach-refines_client h r) (
        rw e (
          Transition-Simulates T (Runs.Reach-IsTracked Names r h)
            (Runs.deliver-transition Names i t allowed)))
  Reach-refines_client h (Runs.Reach.next r (Runs.Step.elsewhere later kept devices orders)) =
      Reach.next (Reach-refines_client h r) (Step.passes later (rw (devices, orders)))
