-- ===== src/Node/Command.antt =====
-- node/src/command.rs and node/src/cli.rs: which chain a command line selects. Reading a
-- specification from a file is a parameter, and so is what the command line of the relay chain's
-- node answers.
use Prim.Native.String.{String}
use text.Mathlib.Text.{◌==◌ as str_eq}
use xcm_robobank_prototype.Prelude.{◌||◌, Option, none, some, if◌then◌else◌, List, [], ◌∷◌, ◌++◌, ℕ}
use xcm_robobank_prototype.Frame.{AccountId, ParaId, Blob, Result, ok, err}
use xcm_robobank_prototype.Node.ChainSpec.{
  ChainSpec, Extensions, development_config, local_testnet_config,
}

-- `unwrap_or`
abbrev pub unwrap_or : {A : Type 0} → Option A → A → A
unwrap_or none a = a
unwrap_or (some b) a = b

-- `or`
abbrev pub or_else : {A : Type 0} → Option A → Option A → Option A
or_else none b = b
or_else (some a) b = some a

-- What is loaded: a specification that was built in, or one from a file, which need not have the
-- extensions (`Extensions::try_get`).
pub data Loaded (File : Type 0) : Type 0 where
  built_in : ChainSpec → Loaded File
  from_file : File → Loaded File

module _ (get_account_id_from_seed : String → AccountId) (wasm_binary : Option Blob) {File : Type 0}
    (from_json_file : String → Result String File) where
  unfoldable pub load_spec : String → ParaId → Result String (Loaded File)
  unfolding development_config local_testnet_config
  load_spec id para_id =
      if str_eq id "dev"
      then ok (Loaded.built_in (development_config get_account_id_from_seed wasm_binary para_id))
      else if str_eq id "" || str_eq id "local"
      then ok (Loaded.built_in (local_testnet_config get_account_id_from_seed wasm_binary para_id))
      else elim (from_json_file id) [ ok spec ↦ ok (Loaded.from_file spec) | err e ↦ err e ]

  -- `Cli::load_spec`, with `run.parachain_id`.
  unfoldable pub cli_load_spec : Option ParaId → String → Result String (Loaded File)
  cli_load_spec parachain_id id = load_spec id (unwrap_or parachain_id 200)

module _ {File : Type 0} (file_extensions : File → Option Extensions) where
  -- `Extensions::try_get`
  abbrev pub try_get : Loaded File → Option Extensions
  try_get (Loaded.built_in spec) = some spec.extensions
  try_get (Loaded.from_file spec) = file_extensions spec

  -- The `para_id` and the `id` of `run` without a subcommand.
  unfoldable pub node_para_id : Option ParaId → Loaded File → ParaId
  node_para_id parachain_id spec =
      let para_id : Option ParaId = elim (try_get spec) [ none ↦ none | some e ↦ some e.para_id ] in
      unwrap_or (or_else parachain_id para_id) 100

  -- `RelayChainCli::new`: its `chain_id`.
  unfoldable pub relay_chain_id : Loaded File → Option String
  relay_chain_id spec = elim (try_get spec) [ none ↦ none | some e ↦ some e.relay_chain ]

-- `RelayChainCli::chain_id`, for what the relay chain's own command line answers.
unfoldable pub chain_id : Option String → Result String String → Result String String
chain_id own (err e) = err e
chain_id own (ok id) = if str_eq id "" then ok (unwrap_or own "") else ok id

-- The `--parachain-id` of `ExportGenesisState`, with its default.
unfoldable pub exported_para_id : Option ParaId → ParaId
exported_para_id parachain_id = unwrap_or parachain_id 100

-- A path as its segments.
abbrev pub BasePath : Type 0
BasePath = List String

-- `RelayChainCli::new`: its `base_path`, within that of the parachain's node.
unfoldable pub relay_base_path : Option BasePath → Option BasePath
relay_base_path none = none
relay_base_path (some path) = some (path ++ "polkadot" ∷ [])

-- `RelayChainCli::base_path`, for what the relay chain's own command line says.
unfoldable pub base_path : Option BasePath → Option BasePath → Option BasePath
base_path own shared = or_else shared own

-- `DefaultConfigurationValues` of `RelayChainCli`.
abbrev pub p2p_listen_port : ℕ
p2p_listen_port = 30_334

abbrev pub rpc_ws_listen_port : ℕ
rpc_ws_listen_port = 9945

abbrev pub rpc_http_listen_port : ℕ
rpc_http_listen_port = 9934

abbrev pub prometheus_listen_port : ℕ
prometheus_listen_port = 9616
