-- ===== src/Client/Authority.antt =====
-- Who can change the entries of a device, and how: the life of a device on the client chain.
pub mod Orders
pub mod Answers
pub mod Inputs
use xcm_robobank_prototype.Prelude.{◌≡◌, ◌≢◌, ◌⊎◌, ◌≤◌, ◌<◌, Bool, Option, none, some, ℕ}
use xcm_robobank_prototype.Frame.{AccountId, ParaId, Blob, Balance, Moment, ok}
use xcm_robobank_prototype.Common.{DeviceState, on_or_off, XcmpMessage}
use xcm_robobank_prototype.Client.State.{Config, OrderOf, OrderBaseOf, DeviceProfile, State}
use xcm_robobank_prototype.Client.Placement.{stored_form}
use xcm_robobank_prototype.Client.Runs.{Input}

-- The entries of a device after an input.
pub record Becomes {T : Config} (t : State T) (d : AccountId) (o : Option (OrderOf T))
    (dev : Option DeviceProfile) : Type 0 where
  pub order_after : t.orders d ≡ o
  pub device_after : t.device d ≡ dev

-- An order of `who` has been taken: the device was ready and free of orders. It is busy now, or as
-- it was if the order could not be sent.
pub record Starts {T : Config} (s t : State T) (b : OrderBaseOf T) (who : AccountId)
    (dev : DeviceProfile) : Type 0 where
  pub free : s.orders b.device ≡ none
  pub known : s.device b.device ≡ some dev
  pub ready : dev.state ≡ DeviceState.ready
  pub in_time : s.now < b.until
  pub order_after : t.orders b.device ≡ some (stored_form b who)
  pub device_after :
      (t.device b.device ≡ some (record dev { state = DeviceState.busy }))
      ⊎ (t.device b.device ≡ some dev)

-- What an input can do to the entries of device `d`, and whose input it has to be.
pub data Change {T : Config} (s t : State T) (d : AccountId) : Input T → Type 0 where
  unchanged : (i : Input T) → Becomes t d (s.orders d) (s.device d) → Change s t d i
  -- Anyone can order from a device that is ready.
  ordered :
      (origin : T.OriginFor) (b : OrderBaseOf T) (who : AccountId) (dev : DeviceProfile)
      → T.ensure_signed origin ≡ ok who
      → b.device ≡ d
      → Starts s t b who dev
      → Change s t d (Input.order_call origin b)
  -- Only the client of the order can cancel it, from its deadline on.
  cancelled :
      (origin : T.OriginFor) (o : OrderOf T)
      → s.orders d ≡ some o
      → T.ensure_signed origin ≡ ok o.client
      → o.until ≤ s.now
      → Becomes t d none (s.device d)
      → Change s t d (Input.cancel_call origin d)
  -- Any chain can answer, for any client.
  rejected :
      (sender : ParaId) (at : ℕ) (blob : Blob) (who : AccountId) (onoff : Bool) (o : OrderOf T)
      (dev : DeviceProfile)
      → T.codec.decode blob ≡ some (XcmpMessage.order_reject who d onoff)
      → s.orders d ≡ some o
      → s.device d ≡ some dev
      → Becomes t d none (some (record dev { state = on_or_off onoff }))
      → Change s t d (Input.blob_received sender at blob)
  finished :
      (sender : ParaId) (at : ℕ) (blob : Blob) (who : AccountId) (onoff : Bool) (o : OrderOf T)
      (dev : DeviceProfile)
      → T.codec.decode blob ≡ some (XcmpMessage.order_done who d onoff)
      → s.orders d ≡ some o
      → s.device d ≡ some dev
      → Becomes t d none (some (record dev { state = on_or_off onoff }))
      → Change s t d (Input.blob_received sender at blob)
  registered :
      (origin : T.OriginFor) (paraid : ParaId) (penalty : Balance) (wcd : Moment) (onoff : Bool)
      → T.ensure_signed origin ≡ ok d
      → s.orders d ≡ none
      → Becomes t d none
          (some (record { wcd = wcd; penalty = penalty; state = on_or_off onoff; paraid = paraid }))
      → Change s t d (Input.register_call origin paraid penalty wcd onoff)
  -- When its account goes, a device that is off is forgotten, and another is abandoned.
  reaped :
      (dev : DeviceProfile)
      → s.device d ≡ some dev
      → dev.state ≡ DeviceState.off
      → Becomes t d (s.orders d) none
      → Change s t d (Input.killed d)
  abandoned :
      (dev : DeviceProfile)
      → s.device d ≡ some dev
      → dev.state ≢ DeviceState.off
      → Becomes t d (s.orders d) (some (record dev { state = DeviceState.timewait }))
      → Change s t d (Input.killed d)

module _ (T : Config) (s : State T) (d : AccountId) where
  abbrev pub Same : State T → Type 0
  Same t = Becomes t d (s.orders d) (s.device d)

  pub still : (t : State T) → t ≡ s → Same t
  still t e = record { order_after = rw e; device_after = rw e }
