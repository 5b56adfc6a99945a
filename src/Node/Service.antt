-- ===== src/Node/Service.antt =====
-- node/src/service.rs: the parts of a node are built and started. Handles that only pass from one
-- call to the next have no model; errors are texts.
pub mod Order
use Prim.Native.String.{String}
use xcm_robobank_prototype.Prelude.{
  Bool, true, false, Option, none, some, List, [], ◌∷◌, if◌then◌else◌,
}
use xcm_robobank_prototype.Frame.{ParaId}
use xcm_robobank_prototype.Node.Effects.{
  Operation, Oracle, Effect, ◌>>=◌, ◌>>◌, pure, fail, note, perform, unwrap,
}

-- Of `Configuration`: whether the role is `Light`, and the telemetry endpoints.
pub record Configuration : Type 0 where
  pub light : Bool
  pub telemetry_endpoints : Option (List String)

-- `.filter(|x| !x.is_empty())`, and whether anything is left.
unfoldable pub has_telemetry : Option (List String) → Bool
has_telemetry none = false
has_telemetry (some []) = false
has_telemetry (some (endpoint ∷ more)) = true

module _ (oracle : Oracle) where
  unfoldable pub new_partial : Configuration → Effect (Unit {0})
  new_partial config = do
    let telemetry = has_telemetry config.telemetry_endpoints
    if telemetry then perform oracle Operation.telemetry_worker else pure tt
    perform oracle (Operation.new_full_parts telemetry)
    if telemetry then note Operation.spawn_telemetry else pure tt
    note Operation.transaction_pool
    perform oracle Operation.import_queue

  unfoldable pub start_node_impl : Configuration → ParaId → Bool → Effect (Unit {0})
  unfolding new_partial
  start_node_impl config id validator = do
    if config.light then fail "Light client not supported!" else pure tt
    new_partial config
    unwrap oracle Operation.register_timestamp
    perform oracle Operation.build_polkadot_full_node
    perform oracle (Operation.build_network id)
    perform oracle Operation.spawn_tasks
    if validator
        then perform oracle (Operation.start_collator id)
        else perform oracle (Operation.start_full_node id)
    note Operation.start_network

  unfoldable pub start_node : Configuration → ParaId → Bool → Effect (Unit {0})
  unfolding start_node_impl
  start_node config id validator = start_node_impl config id validator
