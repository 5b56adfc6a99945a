-- ===== src/Node/ChainSpec.antt =====
-- node/src/chain_spec.rs: the built-in chain specifications. The account that a seed gives
-- (`get_account_id_from_seed`, in Keys) and the binary of the runtime are parameters; where the
-- source panics on a missing binary, the genesis is `none`.
use Prim.Native.String.{String}
use xcm_robobank_prototype.Prelude.{List, [], ◌∷◌, map, Option, none, some}
use xcm_robobank_prototype.Frame.{AccountId, ParaId, Balance, Blob}

-- `Extensions`
pub record Extensions : Type 0 where
  -- The relay chain of the parachain
  pub relay_chain : String
  -- The id of the parachain
  pub para_id : ParaId

pub data ChainType : Type 0 where
  development local live : ChainType

-- The fields of the runtime's `GenesisConfig` that are set.
pub record GenesisConfig : Type 0 where
  pub code : Blob
  pub balances : List (AccountId × Balance)
  pub sudo_key : AccountId
  pub parachain_id : ParaId

-- What `ChainSpec::from_genesis` is given; boot nodes, telemetry, protocol and properties are empty.
pub record ChainSpec : Type 0 where
  pub name : String
  pub id : String
  pub chain_type : ChainType
  pub genesis : Option GenesisConfig
  pub extensions : Extensions

-- What each account is given in the genesis block.
abbrev pub endowment : Balance
endowment = 1_000_000_000_000_000_000

unfoldable pub testnet_genesis :
    Option Blob → AccountId → List AccountId → ParaId → Option GenesisConfig
testnet_genesis none root_key endowed_accounts id = none
testnet_genesis (some code) root_key endowed_accounts id = some (record {
  code = code;
  balances = map (λ k. (k, endowment)) endowed_accounts;
  sudo_key = root_key;
  parachain_id = id;
})

abbrev pub development_seeds : List String
development_seeds = "Alice" ∷ "Bob" ∷ "Alice//stash" ∷ "Bob//stash" ∷ []

abbrev pub local_seeds : List String
local_seeds =
    "Alice" ∷ "Bob" ∷ "Charlie" ∷ "Dave" ∷ "Eve" ∷ "Ferdie" ∷ "Alice//stash" ∷ "Bob//stash"
    ∷ "Charlie//stash" ∷ "Dave//stash" ∷ "Eve//stash" ∷ "Ferdie//stash" ∷ []

module _ (get_account_id_from_seed : String → AccountId) (wasm_binary : Option Blob) where
  unfoldable pub development_config : ParaId → ChainSpec
  unfolding testnet_genesis
  development_config id = record {
    name = "Development";
    id = "dev";
    chain_type = ChainType.local;
    genesis =
        testnet_genesis wasm_binary (get_account_id_from_seed "Alice")
          (map get_account_id_from_seed development_seeds) id;
    extensions = record { relay_chain = "rococo-dev"; para_id = id };
  }

  unfoldable pub local_testnet_config : ParaId → ChainSpec
  unfolding testnet_genesis
  local_testnet_config id = record {
    name = "Local Testnet";
    id = "local_testnet";
    chain_type = ChainType.local;
    genesis =
        testnet_genesis wasm_binary (get_account_id_from_seed "Alice")
          (map get_account_id_from_seed local_seeds) id;
    extensions = record { relay_chain = "rococo-local"; para_id = id };
  }
