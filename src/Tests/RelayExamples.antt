-- ===== src/Tests/RelayExamples.antt =====
-- The theorem about the relay chain's node at a concrete configuration.
use xcm_robobank_prototype.Prelude.{◌≡◌, refl, inr, ℕ, none, some, [], ◌∷◌, Bool, false}
use xcm_robobank_prototype.Frame.{ok}
use xcm_robobank_prototype.Node.ChainSpec.{ChainSpec}
use xcm_robobank_prototype.Node.Command.{Loaded, BasePath, load_spec}
use xcm_robobank_prototype.Node.Relay.{Library, Overrides, new, configuration}
use xcm_robobank_prototype.Node.Relay.Laws.{IsContained, configuration-IsContained}
use xcm_robobank_prototype.Tests.NodeExamples.{keys, binary, no_file, no_extensions}

-- Addresses are ports here, and the other answers have no content.
abbrev ports : Library
ports = record {
  ImportParams = Unit;
  NetworkParams = Unit;
  KeystoreParams = Unit;
  SocketAddr = ℕ;
  PrometheusConfig = ℕ;
  Role = Bool;
  TransactionPoolOptions = Unit;
  RpcMethods = Unit;
  ExtTransport = Unit;
  TelemetryEndpoints = Unit;
  ChainSpec = Unit;
}

-- A relay chain's node without arguments.
abbrev no_arguments : Overrides ports
no_arguments = record {
  shared_params = none;
  import_params = none;
  network_params = none;
  keystore_params = none;
  base_path = ok none;
  rpc_http = λ port. ok (some port);
  rpc_ws = λ port. ok (some port);
  rpc_ipc = ok none;
  prometheus_config = λ port. ok (some port);
  init = some (ok tt);
  chain_id = λ is_dev. ok "";
  role = λ is_dev. ok false;
  transaction_pool = ok tt;
  state_cache_child_ratio = ok none;
  rpc_methods = ok tt;
  rpc_ws_max_connections = ok none;
  rpc_cors = λ is_dev. ok none;
  telemetry_external_transport = ok none;
  default_heap_pages = ok none;
  force_authoring = ok false;
  disable_grandpa = ok false;
  announce_block = ok false;
  max_runtime_instances = ok none;
  telemetry_endpoints = λ spec. ok none;
}

abbrev data_path : BasePath
data_path = "data" ∷ []

configuration-IsContained_example :
    (spec : ChainSpec) × (load_spec keys binary no_file "local" 200 ≡ ok (Loaded.built_in spec))
    × IsContained
        (configuration (new no_extensions (some data_path) (Loaded.built_in spec) no_arguments))
        no_arguments
        "local"
        data_path
configuration-IsContained_example =
    configuration-IsContained keys binary no_file no_extensions "local" 200 data_path no_arguments
      (inr (inr refl))
