-- ===== src/Node/Run/Laws.antt =====
-- What `run` starts.
use xcm_robobank_prototype.Prelude.{
  ◌≡◌, ◌||◌, Bool, false, Option, none, some, [], ◌∷◌, ◌++◌, arith,
}
use xcm_robobank_prototype.Frame.{ParaId, ok}
use xcm_robobank_prototype.Node.Command.{Loaded, node_para_id}
use xcm_robobank_prototype.Node.Effects.{Operation, Oracle}
use xcm_robobank_prototype.Node.Service.{Configuration, has_telemetry, new_partial, start_node}
use xcm_robobank_prototype.Node.Service.Order.{prepared, starts_network}
use xcm_robobank_prototype.Node.Export.{Libraries, export_genesis_state, export_genesis_wasm}
use xcm_robobank_prototype.Node.Run.{Subcommand, Cli, run, run_node, run_subcommand}

module _ {File Block : Type 0} (lib : Libraries File Block) (oracle : Oracle)
    (config : Configuration) (chain_spec : Loaded File) where
  -- No subcommand starts the network.
  run_subcommand_quiet :
      (parachain_id : Option ParaId) (command : Subcommand)
      → starts_network (run_subcommand lib oracle config chain_spec parachain_id command []).1
        ≡ false
  unfolding run_subcommand new_partial has_telemetry export_genesis_state export_genesis_wasm
  run_subcommand_quiet parachain_id (Subcommand.export_genesis_state_command params) = ground arith
  run_subcommand_quiet parachain_id (Subcommand.export_genesis_wasm_command params) = ground arith
  run_subcommand_quiet parachain_id command = ground arith

  -- A node that starts after the two operations before it.
  started :
      (id : ParaId) (validator : Bool)
      → let r =
          start_node oracle config id validator
            (Operation.create_runner ∷ Operation.relay_configuration ∷ []) in
        r.0 ≡ ok tt
        → r.1
          ≡ Operation.create_runner
            ∷ Operation.relay_configuration
            ∷ (prepared config id validator ++ (Operation.start_network ∷ []))
  unfolding start_node has_telemetry
  started id validator h = ground arith

  -- A run with a subcommand never starts the network, however it ends. A run without one that ends
  -- well has made the configuration of the relay chain's node and then started the node, with the
  -- identifier that `node_para_id` gives, as a collator exactly if one of the two flags is set.
  pub run_lem :
      (cli : Cli)
      → let r = run lib oracle config chain_spec cli [] in
        ((command : Subcommand) → cli.subcommand ≡ some command → starts_network r.1 ≡ false)
        × (cli.subcommand ≡ none
            → r.0 ≡ ok tt
            → r.1
              ≡ Operation.create_runner
                ∷ Operation.relay_configuration
                ∷ (prepared config
                      (node_para_id lib.file_extensions cli.parachain_id chain_spec)
                      (cli.validator || cli.collator)
                    ++ (Operation.start_network ∷ [])))
  unfolding run run_node
  run_lem cli = (
    λ command chosen. ground (arith, chosen, run_subcommand_quiet cli.parachain_id command),
    λ none_chosen success. ground (
      arith,
      none_chosen,
      success,
      started (node_para_id lib.file_extensions cli.parachain_id chain_spec)
          (cli.validator || cli.collator),
    ),
  )
