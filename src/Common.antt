-- ===== src/Common.antt =====
-- pallets/common/src/lib.rs: the device states, the two forms of an order and the messages
-- between the chains. A field `data` is called `payload`, and its type is a parameter.
pub mod Convert
use xcm_robobank_prototype.Prelude.{ℕ, Bool, true, false, ◌≡◌, ◌≢◌, ◌⊎◌, arith}

pub data DeviceState : Type 0 where
  -- Device is off
  off : DeviceState
  -- Device is ready to accept orders
  ready : DeviceState
  -- Device has order
  busy : DeviceState
  -- Device has accepted order
  busy2 : DeviceState
  -- Device is abandoned
  timewait : DeviceState

-- `impl Default for DeviceState`
unfoldable pub default : DeviceState
default = off

-- The derived `PartialEq`.
abbrev pub eq : DeviceState → DeviceState → Bool
eq off off = true
eq ready ready = true
eq busy busy = true
eq busy2 busy2 = true
eq timewait timewait = true
eq _ _ = false

-- `if onoff { Ready } else { Off }`, which both pallets write out, also the other way round.
abbrev pub on_or_off : Bool → DeviceState
on_or_off true = ready
on_or_off false = off

pub eq-cases : (a b : DeviceState) → ((eq a b ≡ true) × (a ≡ b)) ⊎ ((eq a b ≡ false) × (a ≢ b))
eq-cases a b = ground arith

pub record OrderBase (Payload Balance Moment AccountId : Type 0) : Type 0 where
  pub until : Moment
  pub payload : Payload
  pub fee : Balance
  pub device : AccountId

pub record Order (Payload Balance Moment AccountId ParaId : Type 0) : Type 0 where
  pub until : Moment
  pub payload : Payload
  pub fee : Balance
  pub client : AccountId
  pub paraid : ParaId

module _ {Payload Balance Moment AccountId ParaId : Type 0} where
  -- `OrderBase::convert`; `from` is `From<u32>` of the identifiers of parachains.
  unfoldable pub to_order :
      (ℕ → ParaId)
      → OrderBase Payload Balance Moment AccountId
      → AccountId
      → Order Payload Balance Moment AccountId ParaId
  to_order from o client = record {
    until = o.until;
    payload = o.payload;
    fee = o.fee;
    client = client;
    paraid = from 0;
  }

  -- `Order::convert`
  unfoldable pub to_base :
      Order Payload Balance Moment AccountId ParaId
      → AccountId
      → OrderBase Payload Balance Moment AccountId
  to_base o device = record { until = o.until; payload = o.payload; fee = o.fee; device = device }

pub data XcmpMessage (XAccountId XBalance Payout Moment : Type 0) : Type 0 where
  -- Order sent to device (client, order)
  new_order :
      XAccountId
      → OrderBase Payout XBalance Moment XAccountId
      → XcmpMessage XAccountId XBalance Payout Moment
  -- Order accepted by device (client, device)
  order_accept : XAccountId → XAccountId → XcmpMessage XAccountId XBalance Payout Moment
  -- Order rejected by device (client, device, on/off)
  order_reject : XAccountId → XAccountId → Bool → XcmpMessage XAccountId XBalance Payout Moment
  -- Order completed (client, device, on/off)
  order_done : XAccountId → XAccountId → Bool → XcmpMessage XAccountId XBalance Payout Moment
