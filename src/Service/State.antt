-- ===== src/Service/State.antt =====
-- The configuration, the storage, the events and the errors of the pallet
-- (pallets/service/src/lib.rs).
use xcm_robobank_prototype.Prelude.{Option}
use xcm_robobank_prototype.Frame.{
  AccountId, ParaId, ForeignError, Result, Action, Currency, XcmpMessageSender, Codec, XcmFormat,
  Blob, Balance, Moment, Chain,
}
use xcm_robobank_prototype.Common.{DeviceState, OrderBase, Order, XcmpMessage}

-- `OrderOf<T>` at a type of payloads.
abbrev pub OrderFor : Type 0 → Type 0
OrderFor Payload = Order Payload Balance Moment AccountId ParaId

-- `trait Config`, with `OnReceived::on_received`. `OriginFor<T>` with `ensure_signed`, and the
-- codec of the messages, come from the frame.
pub record Config : Type 1 where
  pub OriginFor : Type 0
  pub ensure_signed : OriginFor → Result ForeignError AccountId
  pub OrderPayload : Type 0
  pub currency : Currency
  pub sender : XcmpMessageSender
  pub codec : Codec (XcmpMessage AccountId Balance OrderPayload Moment)
  pub xcm : XcmFormat
  pub self_para_id : ParaId
  pub on_received : AccountId → OrderFor OrderPayload → Option DeviceState

abbrev pub OrderOf : Config → Type 0
OrderOf T = OrderFor T.OrderPayload

abbrev pub OrderBaseOf : Config → Type 0
OrderBaseOf T = OrderBase T.OrderPayload Balance Moment AccountId

pub record DeviceProfile : Type 0 where
  -- Device state
  pub state : DeviceState
  -- Device collateral value
  pub penalty : Balance
  -- Work circle duration
  pub wcd : Moment

pub data Event (T : Config) : Type 0 where
  new_device : AccountId → Event T
  new_order : AccountId → Event T
  accept : AccountId → Event T
  reject : AccountId → Event T
  done : AccountId → Event T
  bad_version : T.xcm.Hash → Event T
  message_received : Blob → Event T

pub data Error : Type 0 where
  none_value prohibited device_exists device_low_bail no_order bad_order_details no_device : Error
  illegal_state overdue cannot_reach_destination : Error

-- `Device`, `Orders` and the rest of the chain that the pallet touches.
abbrev pub State : Config → Type 0
State T = Chain T.currency T.sender DeviceProfile (OrderOf T) (Event T)

abbrev pub Call : Config → Type 0 → Type 0
Call T A = Action (State T) Error A

abbrev pub DispatchResult : Config → Type 0
DispatchResult T = Call T (Unit {0})
