-- ===== src/Node/Run.antt =====
-- node/src/command.rs: `run`, by subcommand. The configuration and the chain specification that a
-- runner hands over are parameters; what a subcommand of the client's library does is one operation.
pub mod Laws
use Prim.Native.String.{String, ◌++◌ as ◌<>◌}
use xcm_robobank_prototype.Prelude.{
  Bool, ◌||◌, Option, none, some, List, [], ◌∷◌, ◌++◌, if◌then◌else◌,
}
use xcm_robobank_prototype.Frame.{ParaId, Result, ok, err}
use xcm_robobank_prototype.Node.Command.{Loaded, node_para_id}
use xcm_robobank_prototype.Node.Effects.{
  Operation, Failure, Oracle, Effect, ◌>>=◌, ◌>>◌, pure, from_result, perform,
}
use xcm_robobank_prototype.Node.Service.{Configuration, new_partial, start_node}
use xcm_robobank_prototype.Node.Export.{
  Libraries, ExportGenesisStateCommand, ExportGenesisWasmCommand, map_error, export_genesis_state,
  export_genesis_wasm,
}

-- `Subcommand`, without the parameters of the library's own commands.
pub data Subcommand : Type 0 where
  export_genesis_state_command : ExportGenesisStateCommand → Subcommand
  export_genesis_wasm_command : ExportGenesisWasmCommand → Subcommand
  build_spec check_block export_blocks export_state import_blocks purge_chain revert : Subcommand

-- `Cli`, with `run.parachain_id` and `run.base.validator`.
pub record Cli : Type 0 where
  pub subcommand : Option Subcommand
  pub parachain_id : Option ParaId
  pub validator : Bool
  pub collator : Bool

-- `SubstrateCli::create_configuration(..).map_err(|err| format!(..))?`
abbrev pub create_configuration : Oracle → Effect (Unit {0})
create_configuration oracle s = elim (oracle Operation.relay_configuration) [
  | ok _ ↦ (ok tt, s ++ Operation.relay_configuration ∷ [])
  | err e ↦ (
    err (Failure.error ("Relay chain argument error: " <> e)),
    s ++ Operation.relay_configuration ∷ [],
  )
]

module _ {File Block : Type 0} (lib : Libraries File Block) (oracle : Oracle)
    (config : Configuration) (chain_spec : Loaded File) where
  -- A subcommand that works on the parts of a node.
  unfoldable pub with_parts : Effect (Unit {0})
  with_parts = do
    perform oracle Operation.create_runner
    new_partial oracle config
    perform oracle Operation.run_command

  -- No subcommand: the node itself.
  unfoldable pub run_node : Cli → Effect (Unit {0})
  run_node cli = do
    perform oracle Operation.create_runner
    let id : ParaId = node_para_id lib.file_extensions cli.parachain_id chain_spec
    block ← from_result (map_error lib.debug (lib.generate_genesis_block chain_spec))
    create_configuration oracle
    start_node oracle config id (cli.validator || cli.collator)

  unfoldable pub run_subcommand : Option ParaId → Subcommand → Effect (Unit {0})
  unfolding with_parts
  run_subcommand parachain_id Subcommand.build_spec = do
    perform oracle Operation.create_runner
    perform oracle Operation.run_command
  run_subcommand parachain_id Subcommand.check_block = with_parts
  run_subcommand parachain_id Subcommand.export_blocks = with_parts
  run_subcommand parachain_id Subcommand.export_state = with_parts
  run_subcommand parachain_id Subcommand.import_blocks = with_parts
  run_subcommand parachain_id Subcommand.purge_chain = do
    perform oracle Operation.create_runner
    create_configuration oracle
    perform oracle Operation.run_command
  run_subcommand parachain_id Subcommand.revert = with_parts
  run_subcommand parachain_id (Subcommand.export_genesis_state_command params) =
      export_genesis_state lib oracle params
  run_subcommand parachain_id (Subcommand.export_genesis_wasm_command params) =
      export_genesis_wasm lib oracle parachain_id params

  unfoldable pub run : Cli → Effect (Unit {0})
  unfolding run_subcommand run_node
  run cli = elim cli.subcommand [
    | none ↦ run_node cli
    | some command ↦ run_subcommand cli.parachain_id command
  ]
