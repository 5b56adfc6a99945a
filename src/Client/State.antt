-- ===== src/Client/State.antt =====
-- The configuration, the storage, the events and the errors of the pallet
-- (pallets/client/src/lib.rs).
use xcm_robobank_prototype.Frame.{
  AccountId, ParaId, ForeignError, Result, Action, Currency, XcmpMessageSender, Codec, XcmFormat,
  Balance, Moment, Chain,
}
use xcm_robobank_prototype.Common.{DeviceState, OrderBase, Order, XcmpMessage}

-- `trait Config`. `OriginFor<T>` with `ensure_signed`, and the codec of the messages, come from the
-- frame.
pub record Config : Type 1 where
  pub OriginFor : Type 0
  pub ensure_signed : OriginFor → Result ForeignError AccountId
  pub OrderPayload : Type 0
  pub currency : Currency
  pub sender : XcmpMessageSender
  pub codec : Codec (XcmpMessage AccountId Balance OrderPayload Moment)
  pub xcm : XcmFormat

abbrev pub OrderOf : Config → Type 0
OrderOf T = Order T.OrderPayload Balance Moment AccountId ParaId

abbrev pub OrderBaseOf : Config → Type 0
OrderBaseOf T = OrderBase T.OrderPayload Balance Moment AccountId

pub record DeviceProfile : Type 0 where
  -- Device state
  pub state : DeviceState
  -- Device collateral value
  pub penalty : Balance
  -- Work circle duration
  pub wcd : Moment
  -- Parachain Id
  pub paraid : ParaId

pub data Event (T : Config) : Type 0 where
  new_device : AccountId → Event T
  new_order : AccountId → AccountId → Event T
  accept : AccountId → AccountId → Event T
  reject : AccountId → AccountId → Event T
  done : AccountId → AccountId → Event T
  bad_version : T.xcm.Hash → Event T

pub data Error : Type 0 where
  none_value order_exists illegal_state overdue device_low_bail device_exists : Error
  bad_order_details no_device no_order prohibited cannot_reach_destination : Error

-- `Device`, `Orders` and the rest of the chain that the pallet touches.
abbrev pub State : Config → Type 0
State T = Chain T.currency T.sender DeviceProfile (OrderOf T) (Event T)

abbrev pub Call : Config → Type 0 → Type 0
Call T A = Action (State T) Error A

abbrev pub DispatchResult : Config → Type 0
DispatchResult T = Call T (Unit {0})
