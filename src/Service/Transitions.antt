-- ===== src/Service/Transitions.antt =====
-- The transitions of the storage of the service pallet, on which its invariants are proved.
pub mod Calls
pub mod Devices
pub mod Hooks
use xcm_robobank_prototype.Prelude.{
  ℕ, ◌≡◌, ◌≢◌, refl, ◌⊎◌, inl, inr, ◌<◌, Bool, true, false, Option, none, some, [], ◌∷◌, ◌++◌,
  arith, Option-cases, Bool-cases,
}
use xcm_robobank_prototype.Frame.{
  AccountId, ParaId, Balance, Moment, Blob, ok, err, Result-cases, insert, remove,
}
use xcm_robobank_prototype.Common.{DeviceState, eq, eq-cases, XcmpMessage, on_or_off}
use xcm_robobank_prototype.Service.State.{Config, OrderOf, OrderBaseOf, DeviceProfile, Event, State}
use xcm_robobank_prototype.Service.Orders.{order_received, order_accept, order_reject, order_done}
use xcm_robobank_prototype.Service.Calls.{
  order, cancel, accept, done, register, set_state, switched, set_profile,
}
use xcm_robobank_prototype.Service.Hooks.{
  on_killed_account, handle_xcm_message, handle_message, handle_blob_message,
}

module _ {T : Config} where
  pub data Transition (s t : State T) : Type 0 where
    idle : t ≡ s → Transition s t
    noted : (e : Event T) → t ≡ record s { events = s.events ++ e ∷ [] } → Transition s t
    received : (o : OrderOf T) (d : AccountId) → t ≡ (order_received T o d s).1 → Transition s t
    -- `dev` is the stored profile, up to its state.
    rejected :
        (o : Option (OrderOf T)) (d : AccountId) (profile : DeviceProfile) (state : DeviceState)
        (onoff : Bool)
        → s.orders d ≡ o
        → s.device d ≡ some profile
        → t ≡ (order_reject T o s.now d (record profile { state = state }) onoff s).1
        → Transition s t
    accepted :
        (o : OrderOf T) (d : AccountId) (dev : DeviceProfile)
        → s.orders d ≡ some o
        → s.device d ≡ some dev
        → dev.state ≡ DeviceState.busy
        → s.now < o.until
        → t ≡ (order_accept T o s.now d dev s).1
        → Transition s t
    finished :
        (o : OrderOf T) (d : AccountId) (dev : DeviceProfile) (onoff : Bool)
        → s.orders d ≡ some o
        → s.device d ≡ some dev
        → dev.state ≡ DeviceState.busy2
        → t ≡ (order_done T o s.now d dev onoff (record s { orders = remove d s.orders })).1
        → Transition s t
    -- `done` on a device that is in `Busy2` with no order.
    cleared :
        (d : AccountId)
        → s.orders d ≡ none
        → t ≡ record s { orders = remove d s.orders }
        → Transition s t
    registered :
        (d : AccountId) (dev : DeviceProfile) (e : Event T)
        → s.orders d ≡ none
        → t ≡ record s { device = insert d dev s.device; events = s.events ++ e ∷ [] }
        → Transition s t
    turned :
        (d : AccountId) (dev : DeviceProfile) (state : DeviceState)
        → s.device d ≡ some dev
        → (dev.state ≡ DeviceState.ready) ⊎ (dev.state ≡ DeviceState.off)
        → t ≡ record s { device = insert d (record dev { state = state }) s.device }
        → Transition s t
    reaped :
        (d : AccountId) (dev : DeviceProfile)
        → s.device d ≡ some dev
        → dev.state ≡ DeviceState.off
        → t ≡ record s { device = remove d s.device }
        → Transition s t
