-- ===== src/Node/Relay.antt =====
-- node/src/command.rs and node/src/cli.rs: how the collator configures the relay chain's node that
-- it contains (`impl CliConfiguration for RelayChainCli`). The command line of the relay chain's
-- own node, `polkadot_cli::RunCmd`, belongs to another repository: what it answers is a parameter.
pub mod Laws
use Prim.Native.String.{String}
use xcm_robobank_prototype.Prelude.{ℕ, Bool, Option, none, List}
use xcm_robobank_prototype.Frame.{Result, ok}
use xcm_robobank_prototype.Node.ChainSpec.{Extensions}
use xcm_robobank_prototype.Node.Command.{
  Loaded, BasePath, relay_base_path, relay_chain_id, base_path, chain_id,
}

-- The types of the client's library that the answers have.
pub record Library : Type 1 where
  pub ImportParams : Type 0
  pub NetworkParams : Type 0
  pub KeystoreParams : Type 0
  pub SocketAddr : Type 0
  pub PrometheusConfig : Type 0
  pub Role : Type 0
  pub TransactionPoolOptions : Type 0
  pub RpcMethods : Type 0
  pub ExtTransport : Type 0
  pub TelemetryEndpoints : Type 0
  pub ChainSpec : Type 0

-- `sc_cli::Result`
abbrev pub CliResult : Type 0 → Type 0
CliResult = Result String

-- What a command line answers to the methods of `trait CliConfiguration` that `RelayChainCli`
-- overrides. The trait has others (`node_name`, `dev_key_seed` and more), which `RelayChainCli` leaves
-- at their defaults; these have no model. Of `SharedParams` only the base path is used here. A panic
-- of `init` is `none`.
pub record Overrides (lib : Library) : Type 0 where
  pub shared_params : Option BasePath
  pub import_params : Option lib.ImportParams
  pub network_params : Option lib.NetworkParams
  pub keystore_params : Option lib.KeystoreParams
  pub base_path : CliResult (Option BasePath)
  pub rpc_http : ℕ → CliResult (Option lib.SocketAddr)
  pub rpc_ws : ℕ → CliResult (Option lib.SocketAddr)
  pub rpc_ipc : CliResult (Option String)
  pub prometheus_config : ℕ → CliResult (Option lib.PrometheusConfig)
  pub init : Option (CliResult (Unit {0}))
  pub chain_id : Bool → CliResult String
  pub role : Bool → CliResult lib.Role
  pub transaction_pool : CliResult lib.TransactionPoolOptions
  pub state_cache_child_ratio : CliResult (Option ℕ)
  pub rpc_methods : CliResult lib.RpcMethods
  pub rpc_ws_max_connections : CliResult (Option ℕ)
  pub rpc_cors : Bool → CliResult (Option (List String))
  pub telemetry_external_transport : CliResult (Option lib.ExtTransport)
  pub default_heap_pages : CliResult (Option ℕ)
  pub force_authoring : CliResult Bool
  pub disable_grandpa : CliResult Bool
  pub announce_block : CliResult Bool
  pub max_runtime_instances : CliResult (Option ℕ)
  pub telemetry_endpoints : lib.ChainSpec → CliResult (Option lib.TelemetryEndpoints)

-- `struct RelayChainCli`: `base` is what the relay chain's own command line answers.
pub record RelayChainCli (lib : Library) : Type 0 where
  pub base : Overrides lib
  pub chain_id : Option String
  pub base_path : Option BasePath

-- `RelayChainCli::new`, from the base path and the chain of the parachain's node, and the relay
-- chain's arguments as they are parsed.
unfoldable pub new :
    {lib : Library} {File : Type 0}
    → (File → Option Extensions)
    → Option BasePath
    → Loaded File
    → Overrides lib
    → RelayChainCli lib
new file_extensions path spec base = record {
  base = base;
  chain_id = relay_chain_id file_extensions spec;
  base_path = relay_base_path path;
}

-- `impl CliConfiguration<Self> for RelayChainCli`, the methods that it overrides.
unfoldable pub configuration : {lib : Library} → RelayChainCli lib → Overrides lib
configuration cli = record {
  shared_params = cli.base.shared_params;
  import_params = cli.base.import_params;
  network_params = cli.base.network_params;
  keystore_params = cli.base.keystore_params;
  base_path = ok (base_path cli.base_path cli.base.shared_params);
  rpc_http = cli.base.rpc_http;
  rpc_ws = cli.base.rpc_ws;
  rpc_ipc = cli.base.rpc_ipc;
  prometheus_config = cli.base.prometheus_config;
  init = none;
  chain_id = λ is_dev. chain_id cli.chain_id (cli.base.chain_id is_dev);
  role = cli.base.role;
  transaction_pool = cli.base.transaction_pool;
  state_cache_child_ratio = cli.base.state_cache_child_ratio;
  rpc_methods = cli.base.rpc_methods;
  rpc_ws_max_connections = cli.base.rpc_ws_max_connections;
  rpc_cors = cli.base.rpc_cors;
  telemetry_external_transport = cli.base.telemetry_external_transport;
  default_heap_pages = cli.base.default_heap_pages;
  force_authoring = cli.base.force_authoring;
  disable_grandpa = cli.base.disable_grandpa;
  announce_block = cli.base.announce_block;
  max_runtime_instances = cli.base.max_runtime_instances;
  telemetry_endpoints = cli.base.telemetry_endpoints;
}
