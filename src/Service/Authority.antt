-- ===== src/Service/Authority.antt =====
-- Who can change the entries of a device, and how: the life of a device on the service chain.
pub mod Rejected
pub mod Orders
pub mod Answers
pub mod Devices
pub mod Inputs
use xcm_robobank_prototype.Prelude.{
  ℕ, ◌≡◌, ◌≢◌, refl, ◌⊎◌, inl, inr, ◌≤◌, ◌<◌, Bool, true, false, Option, none, some, arith,
  Option-cases,
}
use xcm_robobank_prototype.Frame.{
  AccountId, ParaId, Blob, Balance, Moment, DispatchError, Result, ok, err, Result-cases, insert,
  remove,
}
use xcm_robobank_prototype.Common.{DeviceState, on_or_off, XcmpMessage}
use xcm_robobank_prototype.Service.State.{Config, OrderOf, OrderBaseOf, DeviceProfile, Error, State}
use xcm_robobank_prototype.Service.Engaged.{IsWorking}
use xcm_robobank_prototype.Service.Orders.{placed}
use xcm_robobank_prototype.Service.Runs.{Input}

-- An order has been taken: the device was ready and free of orders, and `dev` is its new profile.
pub record Starts {T : Config} (s t : State T) (d : AccountId) (o : OrderOf T) (dev : DeviceProfile)
    : Type 0 where
  pub free : s.orders d ≡ none
  pub ready : s.device d ≡ some (record dev { state = DeviceState.ready })
  pub in_time : s.now < o.until
  pub willing : T.on_received d o ≡ some dev.state
  pub order_after : t.orders d ≡ some o
  pub device_after : t.device d ≡ some dev

-- The entries of a device after an input.
pub record Becomes {T : Config} (t : State T) (d : AccountId) (o : Option (OrderOf T))
    (dev : Option DeviceProfile) : Type 0 where
  pub order_after : t.orders d ≡ o
  pub device_after : t.device d ≡ dev

-- What an input can do to the entries of device `d`, and whose input it has to be.
pub data Change {T : Config} (s t : State T) (d : AccountId) : Input T → Type 0 where
  unchanged : (i : Input T) → Becomes t d (s.orders d) (s.device d) → Change s t d i
  -- Anyone can order from a device that is ready and willing, here or from another chain.
  ordered :
      (origin : T.OriginFor) (b : OrderBaseOf T) (who : AccountId) (dev : DeviceProfile)
      → T.ensure_signed origin ≡ ok who
      → b.device ≡ d
      → Starts s t d (placed b who T.self_para_id) dev
      → Change s t d (Input.order_call origin b)
  sent :
      (sender : ParaId) (at : ℕ) (blob : Blob) (client : AccountId) (b : OrderBaseOf T)
      (dev : DeviceProfile)
      → T.codec.decode blob ≡ some (XcmpMessage.new_order client b)
      → b.device ≡ d
      → Starts s t d (placed b client sender) dev
      → Change s t d (Input.blob_received sender at blob)
  -- Only the client of the order can cancel it, from its deadline on.
  cancelled :
      (origin : T.OriginFor) (o : OrderOf T)
      → s.orders d ≡ some o
      → T.ensure_signed origin ≡ ok o.client
      → o.until ≤ s.now
      → Becomes t d none (s.device d)
      → Change s t d (Input.cancel_call origin d)
  -- The rest is done by the device.
  accepted :
      (origin : T.OriginFor) (onoff : Bool) (o : OrderOf T) (dev : DeviceProfile)
      → T.ensure_signed origin ≡ ok d
      → s.orders d ≡ some o
      → s.device d ≡ some dev
      → dev.state ≡ DeviceState.busy
      → s.now < o.until
      → Becomes t d (some o) (some (record dev { state = DeviceState.busy2 }))
      → Change s t d (Input.accept_call origin false onoff)
  rejected :
      (origin : T.OriginFor) (onoff : Bool) (dev : DeviceProfile)
      → T.ensure_signed origin ≡ ok d
      → s.device d ≡ some dev
      → IsWorking dev.state
      → Becomes t d none (some (record dev { state = on_or_off onoff }))
      → Change s t d (Input.accept_call origin true onoff)
  finished :
      (origin : T.OriginFor) (onoff : Bool) (o : OrderOf T) (dev : DeviceProfile)
      → T.ensure_signed origin ≡ ok d
      → s.orders d ≡ some o
      → s.device d ≡ some dev
      → dev.state ≡ DeviceState.busy2
      → Becomes t d none (some (record dev { state = on_or_off onoff }))
      → Change s t d (Input.done_call origin onoff)
  registered :
      (origin : T.OriginFor) (penalty : Balance) (wcd : Moment) (onoff : Bool)
      → T.ensure_signed origin ≡ ok d
      → s.orders d ≡ none
      → Becomes t d none (some (record { wcd = wcd; penalty = penalty; state = on_or_off onoff }))
      → Change s t d (Input.register_call origin penalty wcd onoff)
  switched :
      (origin : T.OriginFor) (onoff : Bool) (dev : DeviceProfile)
      → T.ensure_signed origin ≡ ok d
      → s.device d ≡ some dev
      → (dev.state ≡ DeviceState.ready) ⊎ (dev.state ≡ DeviceState.off)
      → Becomes t d (s.orders d) (some (record dev { state = on_or_off onoff }))
      → Change s t d (Input.set_state_call origin onoff)
  -- A device that is off is forgotten when its account goes.
  reaped :
      (dev : DeviceProfile)
      → s.device d ≡ some dev
      → dev.state ≡ DeviceState.off
      → Becomes t d (s.orders d) none
      → Change s t d (Input.killed d)

module _ (T : Config) (s : State T) (d : AccountId) where
  abbrev pub Same : State T → Type 0
  Same t = Becomes t d (s.orders d) (s.device d)

  pub still : (t : State T) → t ≡ s → Same t
  still t e = record { order_after = rw e; device_after = rw e }
