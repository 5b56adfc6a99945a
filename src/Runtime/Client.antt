-- ===== src/Runtime/Client.antt =====
-- The runtime with the client pallet (runtime/src/lib.rs).
use xcm_robobank_prototype.Prelude.{ℕ}
use xcm_robobank_prototype.Frame.{
  AccountId, Balance, Moment, ForeignError, Result, Currency, XcmpMessageSender, Codec, XcmFormat,
}
use xcm_robobank_prototype.Common.{XcmpMessage}
use xcm_robobank_prototype.Client.State.{Config}

module _ (OriginFor : Type 0) (ensure_signed : OriginFor → Result ForeignError AccountId)
    (balances : Currency) (parachain_system : XcmpMessageSender)
    (codec : Codec (XcmpMessage AccountId Balance ℕ Moment)) (xcm : XcmFormat) where
  -- `impl pallet_client::Config for Runtime`
  abbrev pub client_config : Config
  client_config = record {
    OriginFor = OriginFor;
    ensure_signed = ensure_signed;
    OrderPayload = ℕ;
    currency = balances;
    sender = parachain_system;
    codec = codec;
    xcm = xcm;
  }
