-- ===== src/Tests/StartExamples.antt =====
-- The theorems about what the node starts and exports, at concrete inputs.
use Prim.Native.String.{String}
use xcm_robobank_prototype.Prelude.{
  ℕ, ◌≡◌, refl, inl, inr, true, false, Option, none, some, [], ◌∷◌, ◌++◌,
}
use xcm_robobank_prototype.Frame.{Blob, Result, ok, err}
use xcm_robobank_prototype.Node.ChainSpec.{ChainSpec, GenesisConfig, development_config}
use xcm_robobank_prototype.Node.Command.{Loaded, load_spec, cli_load_spec, node_para_id}
use xcm_robobank_prototype.Node.Selection.{Agrees}
use xcm_robobank_prototype.Node.Effects.{Operation, Failure, Oracle, perform}
use xcm_robobank_prototype.Node.Service.{Configuration, start_node}
use xcm_robobank_prototype.Node.Service.Order.{prepared, starts_network, start_node_cases}
use xcm_robobank_prototype.Node.Export.{
  Libraries, ExportGenesisStateCommand, ExportGenesisWasmCommand, in_hex, export_genesis_state,
  export_genesis_wasm,
}
use xcm_robobank_prototype.Node.Export.Laws.{
  StoresCode, export_genesis_state_lem, export_genesis_wasm_lem,
}
use xcm_robobank_prototype.Node.Run.{Subcommand, Cli, run}
use xcm_robobank_prototype.Node.Run.Laws.{run_lem}

-- Everything succeeds but the collator, which finds no relay chain.
abbrev no_relay_chain : Oracle
no_relay_chain (Operation.start_collator _) = err "no relay chain"
no_relay_chain _ = ok tt

abbrev plain : Configuration
plain = record { light = false; telemetry_endpoints = none }

-- No files, and blocks that are the identifier of the chain; one byte is shown as itself twice.
abbrev code_of : Option GenesisConfig → Option Blob
code_of none = none
code_of (some g) = some g.code

abbrev storage_of : Loaded ℕ → Result String (String → Option Blob)
storage_of (Loaded.built_in spec) = ok (λ key. code_of spec.genesis)
storage_of (Loaded.from_file file) = err "no storage"

abbrev block_of : Loaded ℕ → Result String ℕ
block_of (Loaded.built_in spec) = ok spec.extensions.para_id
block_of (Loaded.from_file file) = err "no block"

abbrev twice : Blob → Blob
twice [] = []
twice (b ∷ rest) = b ∷ b ∷ twice rest

abbrev lib : Libraries ℕ ℕ
lib = record {
  get_account_id_from_seed = λ seed. 7;
  wasm_binary = some (1 ∷ 2 ∷ []);
  from_json_file = λ path. err "no such file";
  file_extensions = λ file. none;
  generate_genesis_block = block_of;
  encode_header = λ block. block ∷ [];
  build_storage = storage_of;
  decompress = λ blob. ok blob;
  hex_display = twice;
  debug = λ e. e;
}

lib-StoresCode : StoresCode lib
lib-StoresCode spec g h = (λ key. code_of spec.genesis, refl, rw h)

start_node_cases_example :
    let r = start_node no_relay_chain plain 200 true [] in
    (r.0 ≡ ok tt
      → (plain.light ≡ false) × (r.1 ≡ prepared plain 200 true ++ (Operation.start_network ∷ [])))
    × ((e : Failure) → r.0 ≡ err e → starts_network r.1 ≡ false)
start_node_cases_example = start_node_cases no_relay_chain plain 200 true

abbrev state_params : ExportGenesisStateCommand
state_params = record { output = some "genesis"; parachain_id = 100; raw = false; chain = none }

export_genesis_state_lem_example :
    (spec : ChainSpec) × (cli_load_spec lib.get_account_id_from_seed lib.wasm_binary
        lib.from_json_file
        (some 100)
        ""
      ≡ ok (Loaded.built_in spec))
    × (node_para_id lib.file_extensions (some 100) (Loaded.built_in spec) ≡ 100)
    × Agrees spec 100
    × (export_genesis_state lib no_relay_chain state_params []
        ≡ elim (lib.generate_genesis_block (Loaded.built_in spec)) [
          | err e ↦ (err (Failure.error e), [])
          | ok block ↦
              perform no_relay_chain
                (Operation.write (some "genesis") (in_hex lib (lib.encode_header block)))
                []
        ])
export_genesis_state_lem_example =
    export_genesis_state_lem lib no_relay_chain state_params (inr (inl refl))

abbrev wasm_params : ExportGenesisWasmCommand
wasm_params = record { output = none; raw = false; decompress = false; chain = some "dev" }

export_genesis_wasm_lem_example :
    export_genesis_wasm lib no_relay_chain none wasm_params []
    ≡ perform no_relay_chain (Operation.write none (in_hex lib (1 ∷ 2 ∷ []))) []
export_genesis_wasm_lem_example =
    export_genesis_wasm_lem lib no_relay_chain none wasm_params (1 ∷ 2 ∷ []) (inl refl)
      lib-StoresCode refl refl

-- What is written: `0x` and the bytes.
written :
    (export_genesis_wasm lib no_relay_chain none wasm_params []).1
    ≡ Operation.write none (48 ∷ 120 ∷ 1 ∷ 1 ∷ 2 ∷ 2 ∷ []) ∷ []
unfolding export_genesis_wasm in_hex cli_load_spec load_spec
written = refl

abbrev full_node : Cli
full_node = record { subcommand = none; parachain_id = none; validator = false; collator = false }

abbrev dev_chain : Loaded ℕ
unfolding development_config
dev_chain = Loaded.built_in (development_config (λ seed. 7) (some (1 ∷ 2 ∷ [])) 200)

run_lem_example :
    let r = run lib no_relay_chain plain dev_chain full_node [] in
    ((command : Subcommand) → full_node.subcommand ≡ some command → starts_network r.1 ≡ false)
    × (full_node.subcommand ≡ none
        → r.0 ≡ ok tt
        → r.1
          ≡ Operation.create_runner
            ∷ Operation.relay_configuration
            ∷ (prepared plain (node_para_id lib.file_extensions none dev_chain) false
                ++ (Operation.start_network ∷ [])))
run_lem_example = run_lem lib no_relay_chain plain dev_chain full_node
