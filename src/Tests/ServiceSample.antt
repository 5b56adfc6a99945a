-- ===== src/Tests/ServiceSample.antt =====
-- A service chain as in pallets/service/src/mock.rs: six accounts with money, own identifier 0.
use xcm_robobank_prototype.Prelude.{ℕ, Option, none, some, Bool, [], ◌||◌, ◌==◌, if◌then◌else◌}
use xcm_robobank_prototype.Frame.{AccountId, ForeignError, Result, ok, err}
use xcm_robobank_prototype.Service.State.{Config, State, OrderBaseOf}
use xcm_robobank_prototype.Service.Hooks.{unit_on_received}
use xcm_robobank_prototype.Tests.Ledgers.{Balances, simple_currency, simple_sender}
use xcm_robobank_prototype.Tests.Codecs.{simple_codec, simple_xcm}

-- An origin is signed by an account or by nobody.
abbrev pub ensure_signed : Option AccountId → Result ForeignError AccountId
ensure_signed none = err 1
ensure_signed (some who) = ok who

abbrev pub sample : Config
sample = record {
  OriginFor = Option AccountId;
  ensure_signed = ensure_signed;
  OrderPayload = ℕ;
  currency = simple_currency;
  sender = simple_sender;
  codec = simple_codec;
  xcm = simple_xcm;
  self_para_id = 0;
  on_received = unit_on_received;
}

abbrev endowed : AccountId → Bool
endowed a = a == 1 || a == 2 || a == 100 || a == 101 || a == 200 || a == 201

abbrev pub balances : Balances
balances = record { free = λ a. if endowed a then 100_000_000 else 0; reserved = λ _. 0 }

abbrev pub genesis : State sample
genesis = record {
  now = 0;
  device = λ _. none;
  orders = λ _. none;
  ledger = balances;
  queue = [];
  events = [];
}

-- The constants of pallets/service/src/tests.rs.
abbrev pub dev1 : AccountId
dev1 = 100

abbrev pub cl1 : AccountId
cl1 = 200

abbrev pub penalty : ℕ
penalty = 10_000

abbrev pub default_wcd : ℕ
default_wcd = 1000

abbrev pub default_fee : ℕ
default_fee = 100_000

abbrev pub order_for : AccountId → ℕ → OrderBaseOf sample
order_for device until = record { until = until; payload = 7; fee = default_fee; device = device }
