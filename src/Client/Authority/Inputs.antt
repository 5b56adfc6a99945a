-- ===== src/Client/Authority/Inputs.antt =====
-- The inputs of the client pallet, and what they do to the entries of a device.
use xcm_robobank_prototype.Prelude.{
  ℕ, ◌≡◌, ◌≢◌, ◌⊎◌, inl, inr, Bool, none, some, arith, Option-cases,
}
use xcm_robobank_prototype.Frame.{AccountId, ParaId, Balance, Moment, ok, Result-cases}
use xcm_robobank_prototype.Common.{DeviceState, on_or_off}
use xcm_robobank_prototype.Client.State.{Config, DeviceProfile, State}
use xcm_robobank_prototype.Client.Calls.{test, register}
use xcm_robobank_prototype.Client.Hooks.{on_killed_account, handle_xcm_message}
use xcm_robobank_prototype.Client.Runs.{Input, deliver}
use xcm_robobank_prototype.Client.Authority.{Becomes, Change, Same, still}
use xcm_robobank_prototype.Client.Authority.Orders.{order-Change, cancel-Change}
use xcm_robobank_prototype.Client.Authority.Answers.{handle_blob_message-Change}

module _ (T : Config) (s : State T) (d : AccountId) where
  test-Same : (origin : T.OriginFor) → Same T s d (test T origin s).1
  unfolding test
  test-Same origin = ground arith

  register-Becomes :
      (origin : T.OriginFor) (paraid : ParaId) (penalty : Balance) (wcd : Moment) (onoff : Bool)
      {id : AccountId}
      → T.ensure_signed origin ≡ ok id
      → let t = (register T origin paraid penalty wcd onoff s).1 in
        Same T s d t
        ⊎ ((id ≡ d)
            × (s.orders d ≡ none)
            × Becomes t d none (
                some (record {
                  wcd = wcd;
                  penalty = penalty;
                  state = on_or_off onoff;
                  paraid = paraid;
                })))
  unfolding register
  register-Becomes origin paraid penalty wcd onoff signed = ground arith

  register-Change :
      (origin : T.OriginFor) (paraid : ParaId) (penalty : Balance) (wcd : Moment) (onoff : Bool)
      → Change s
          (register T origin paraid penalty wcd onoff s).1
          d
          (Input.register_call origin paraid penalty wcd onoff)
  unfolding register
  register-Change origin paraid penalty wcd onoff = elim (Result-cases (T.ensure_signed origin)) [
    | inr (e, bad) ↦ Change.unchanged _ (still T s d _ (ground (arith, bad)))
    | inl (id, signed) ↦ elim (register-Becomes origin paraid penalty wcd onoff signed) [
      | inl same ↦ Change.unchanged _ same
      | inr (e, free, new) ↦
          Change.registered origin paraid penalty wcd onoff (rw e at signed) free new
    ]
  ]

  on_killed_account-Becomes :
      (who : AccountId) {dev : DeviceProfile}
      → s.device who ≡ some dev
      → let t = on_killed_account T who s in
        Same T s d t
        ⊎ ((who ≡ d) × (dev.state ≡ DeviceState.off) × Becomes t d (s.orders d) none)
        ⊎ ((who ≡ d)
            × (dev.state ≢ DeviceState.off)
            × Becomes t d (s.orders d) (some (record dev { state = DeviceState.timewait })))
  unfolding on_killed_account
  on_killed_account-Becomes who known = ground arith

  on_killed_account-Change :
      (who : AccountId) → Change s (on_killed_account T who s) d (Input.killed who)
  unfolding on_killed_account
  on_killed_account-Change who = elim (Option-cases (s.device who)) [
    | inl missing ↦ Change.unchanged _ (still T s d _ (ground (arith, missing)))
    | inr (dev, known) ↦ elim (on_killed_account-Becomes who known) [
      | inl same ↦ Change.unchanged _ same
      | inr (inl (e, off, gone)) ↦ rw e (Change.reaped dev (rw e at known) off (rw e at gone))
      | inr (inr (e, on, gone)) ↦ rw e (Change.abandoned dev (rw e at known) on (rw e at gone))
    ]
  ]

  handle_xcm_message-Same :
      (sender : ParaId) (at : ℕ) (xcm : T.xcm.VersionedXcm)
      → Same T s d (handle_xcm_message T sender at xcm s)
  unfolding handle_xcm_message
  handle_xcm_message-Same sender at xcm = ground arith

  -- Whatever reaches the client pallet, the entries of a device change in one of these ways only: it
  -- takes an order, if it is ready and free of orders; the client of its order cancels it, from the
  -- deadline on; a message that names the device, from whichever chain and for whichever client,
  -- rejects or finishes its order; by its own signature it registers, if it has no order; or its
  -- account goes, and it is forgotten if it is off and abandoned if it is not.
  pub deliver-Change_client : (i : Input T) → Change s (deliver i s) d i
  unfolding deliver
  deliver-Change_client (Input.test_call origin) = Change.unchanged _ (test-Same origin)
  deliver-Change_client (Input.order_call origin b) = order-Change T s d origin b
  deliver-Change_client (Input.cancel_call origin k) = cancel-Change T s d origin k
  deliver-Change_client (Input.register_call origin paraid penalty wcd onoff) =
      register-Change origin paraid penalty wcd onoff
  deliver-Change_client (Input.killed who) = on_killed_account-Change who
  deliver-Change_client (Input.xcm_received sender at xcm) =
      Change.unchanged _ (handle_xcm_message-Same sender at xcm)
  deliver-Change_client (Input.blob_received sender at blob) =
      handle_blob_message-Change T s d sender at blob
