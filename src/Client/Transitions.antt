-- ===== src/Client/Transitions.antt =====
-- The transitions of the storage of the client pallet, on which its invariants are proved.
pub mod Calls
pub mod Hooks
use xcm_robobank_prototype.Prelude.{◌≡◌, ◌≢◌, Bool, none, some, [], ◌∷◌, ◌++◌, Option, ℕ}
use xcm_robobank_prototype.Frame.{AccountId, insert, remove, Blob}
use xcm_robobank_prototype.Common.{DeviceState, XcmpMessage}
use xcm_robobank_prototype.Client.State.{Config, OrderOf, OrderBaseOf, DeviceProfile, Event, State}
use xcm_robobank_prototype.Client.Orders.{place_order, order_reject}
use xcm_robobank_prototype.Client.Messages.{on_done}

-- What is assumed of the account that an answer names as the client, beside the order that is
-- stored for the device.
abbrev pub Naming : Config → Type 1
Naming T = State T → AccountId → OrderOf T → AccountId → Type 0

module _ {T : Config} (Names : Naming T) where
  pub data Transition (s t : State T) : Type 0 where
    idle : t ≡ s → Transition s t
    noted : (e : Event T) → t ≡ record s { events = s.events ++ e ∷ [] } → Transition s t
    queued : (q : T.sender.Queue) → t ≡ record s { queue = q } → Transition s t
    placed : (o : OrderBaseOf T) (who : AccountId) → t ≡ (place_order T o who s).1 → Transition s t
    -- By the client itself, which the order names.
    cancelled :
        (o : OrderOf T) (d : AccountId) (dev : DeviceProfile)
        → s.orders d ≡ some o
        → s.device d ≡ some dev
        → t ≡ (order_reject T o.client o s.now d dev s).1
        → Transition s t
    -- By an answer, which names the client.
    rejected :
        (who : AccountId) (o : OrderOf T) (d : AccountId) (dev : DeviceProfile)
        (state : DeviceState)
        → s.orders d ≡ some o
        → s.device d ≡ some dev
        → Names s who o d
        → t ≡ (order_reject T who o s.now d (record dev { state = state }) s).1
        → Transition s t
    completed :
        (who : AccountId) (o : OrderOf T) (d : AccountId) (dev : DeviceProfile) (onoff : Bool)
        → s.orders d ≡ some o
        → s.device d ≡ some dev
        → Names s who o d
        → t ≡ (on_done T who d onoff s).1
        → Transition s t
    registered :
        (d : AccountId) (dev : DeviceProfile) (e : Event T)
        → s.orders d ≡ none
        → t ≡ record s { device = insert d dev s.device; events = s.events ++ e ∷ [] }
        → Transition s t
    reaped :
        (d : AccountId) (dev : DeviceProfile)
        → s.device d ≡ some dev
        → dev.state ≡ DeviceState.off
        → t ≡ record s { device = remove d s.device }
        → Transition s t
    abandoned :
        (d : AccountId) (dev : DeviceProfile)
        → s.device d ≡ some dev
        → t ≡ record s { device = insert d (record dev { state = DeviceState.timewait }) s.device }
        → Transition s t

  -- The client that a message names is right for the order that is stored for its device.
  abbrev pub Permits : State T → Option (XcmpMessage AccountId ℕ T.OrderPayload ℕ) → Type 0
  Permits s none = Unit
  Permits s (some (XcmpMessage.new_order _ _)) = Unit
  Permits s (some (XcmpMessage.order_accept _ _)) = Unit
  Permits s (some (XcmpMessage.order_reject who d _)) =
      (o : OrderOf T) → s.orders d ≡ some o → Names s who o d
  Permits s (some (XcmpMessage.order_done who d _)) =
      (o : OrderOf T) → s.orders d ≡ some o → Names s who o d
