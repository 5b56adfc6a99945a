-- ===== src/Node/Export/Laws.antt =====
-- What the two exports write, and what a failure leaves.
use Prim.Native.String.{String}
use xcm_robobank_prototype.Prelude.{
  ◌≡◌, inl, inr, refl, false, Option, some, [], arith, if◌then◌else◌,
}
use xcm_robobank_prototype.Frame.{ParaId, Blob, Result-cases, ok, err}
use xcm_robobank_prototype.Node.ChainSpec.{
  ChainSpec, GenesisConfig, development_config, local_testnet_config,
}
use xcm_robobank_prototype.Node.Command.{Loaded, unwrap_or, cli_load_spec, node_para_id}
use xcm_robobank_prototype.Node.Selection.{
  IsBuiltIn, Agrees, node_para_id-Agrees, named, load_spec-named,
}
use xcm_robobank_prototype.Node.Effects.{Operation, Failure, Oracle, perform}
use xcm_robobank_prototype.Node.Export.{
  Libraries, ExportGenesisStateCommand, ExportGenesisWasmCommand, code_key, in_hex,
  export_genesis_state, export_genesis_wasm,
}

-- The storage of a built-in chain holds the code of its genesis.
abbrev pub StoresCode : {File Block : Type 0} → Libraries File Block → Type 0
StoresCode lib =
    (spec : ChainSpec) (g : GenesisConfig)
    → spec.genesis ≡ some g
    → (top : String → Option Blob) × (lib.build_storage (Loaded.built_in spec) ≡ ok top)
      × (top code_key ≡ some g.code)

module _ {File Block : Type 0} (lib : Libraries File Block) (oracle : Oracle) where
  -- An export of the genesis state of a built-in chain, for an identifier, agrees with the node that
  -- is given the same identifier: the node loads that chain for it, and runs the parachain of that
  -- identifier, which is also in the extension and in the genesis of the chain. From this chain the
  -- export makes the genesis block. If that fails, so does the export, and nothing has been written.
  -- If not, it makes one write, of the header of the block, in binary or in hexadecimal as its
  -- parameters say, and ends as the write ends.
  pub export_genesis_state_lem :
      (params : ExportGenesisStateCommand)
      → IsBuiltIn (unwrap_or params.chain "")
      → (spec : ChainSpec) × (cli_load_spec lib.get_account_id_from_seed lib.wasm_binary
            lib.from_json_file
            (some params.parachain_id)
            (unwrap_or params.chain "")
          ≡ ok (Loaded.built_in spec))
        × (node_para_id lib.file_extensions (some params.parachain_id) (Loaded.built_in spec)
            ≡ params.parachain_id)
        × Agrees spec params.parachain_id
        × (export_genesis_state lib oracle params []
            ≡ elim (lib.generate_genesis_block (Loaded.built_in spec)) [
              | err e ↦ (err (Failure.error e), [])
              | ok block ↦
                  perform oracle
                    (Operation.write params.output (
                      if params.raw
                      then lib.encode_header block
                      else in_hex lib (lib.encode_header block)))
                    []
            ])
  unfolding export_genesis_state cli_load_spec
  export_genesis_state_lem params known =
      let id : String = unwrap_or params.chain "" in
      let (spec, loaded, runs, agrees) =
        node_para_id-Agrees lib.get_account_id_from_seed lib.wasm_binary lib.from_json_file
          lib.file_extensions (some params.parachain_id) id known in
      (
        spec,
        loaded,
        runs,
        agrees,
        elim (Result-cases (lib.generate_genesis_block (Loaded.built_in spec))) [
          | inr (e, failed) ↦ ground (arith, loaded, failed)
          | inl (block, made) ↦ ground (arith, loaded, made)
        ],
      )

  named-genesis :
      (id : String) (para_id : ParaId) (code : Blob)
      → IsBuiltIn id
      → lib.wasm_binary ≡ some code
      → (g : GenesisConfig) × ((named lib.get_account_id_from_seed lib.wasm_binary
            lib.from_json_file id para_id).genesis
          ≡ some g)
        × (g.code ≡ code)
  unfolding development_config local_testnet_config
  named-genesis id para_id code (inl h) binary = rw (h, binary) (_, refl, refl)
  named-genesis id para_id code (inr (inl h)) binary = rw (h, binary) (_, refl, refl)
  named-genesis id para_id code (inr (inr h)) binary = rw (h, binary) (_, refl, refl)

  -- An export of the code of a built-in chain, without decompression, makes one write, of the
  -- binary of the runtime, in binary or in hexadecimal as its parameters say, and ends as the write
  -- ends, if the runtime has been built with a binary and the storage of the chain holds it.
  pub export_genesis_wasm_lem :
      (parachain_id : Option ParaId) (params : ExportGenesisWasmCommand) (code : Blob)
      → IsBuiltIn (unwrap_or params.chain "")
      → StoresCode lib
      → lib.wasm_binary ≡ some code
      → params.decompress ≡ false
      → export_genesis_wasm lib oracle parachain_id params []
        ≡ perform oracle
            (Operation.write params.output (if params.raw then code else in_hex lib code))
            []
  unfolding export_genesis_wasm cli_load_spec
  export_genesis_wasm_lem parachain_id params code known stores binary plain =
      let id : String = unwrap_or params.chain "" in
      let p : ParaId = unwrap_or parachain_id 200 in
      let (g, built, same) = named-genesis id p code known binary in
      let (top, stored, found) =
        stores (named lib.get_account_id_from_seed lib.wasm_binary lib.from_json_file id p) g
          built in
      ground (
        arith,
        load_spec-named lib.get_account_id_from_seed lib.wasm_binary lib.from_json_file id p known,
        stored,
        found,
        same,
        plain,
      )
