-- ===== src/Node/Export.antt =====
-- node/src/command.rs: the two exports of the genesis, which print to a file or to the standard
-- output. The chain specification's storage, its genesis block, the codec, the decompression and the
-- hexadecimal display are code from elsewhere, so fields of a record. Log lines have no model.
pub mod Laws
use Prim.Native.String.{String}
use xcm_robobank_prototype.Prelude.{ℕ, Bool, Option, none, some, List, [], ◌∷◌, ◌++◌, if◌then◌else◌}
use xcm_robobank_prototype.Frame.{AccountId, ParaId, Blob, Result, ok, err}
use xcm_robobank_prototype.Node.ChainSpec.{Extensions}
use xcm_robobank_prototype.Node.Command.{Loaded, unwrap_or, load_spec, cli_load_spec}
use xcm_robobank_prototype.Node.Effects.{
  Operation, Oracle, Effect, ◌>>=◌, ◌>>◌, pure, from_result, perform,
}

-- What the node takes from elsewhere to export a genesis.
pub record Libraries (File Block : Type 0) : Type 0 where
  pub get_account_id_from_seed : String → AccountId
  pub wasm_binary : Option Blob
  pub from_json_file : String → Result String File
  pub file_extensions : File → Option Extensions
  pub generate_genesis_block : Loaded File → Result String Block
  pub encode_header : Block → Blob
  -- `build_storage`, as the `top` of the storage.
  pub build_storage : Loaded File → Result String (String → Option Blob)
  pub decompress : Blob → Result String Blob
  pub hex_display : Blob → Blob
  -- `format!("{:?}", e)`
  pub debug : String → String

-- `ExportGenesisStateCommand`
pub record ExportGenesisStateCommand : Type 0 where
  -- Output file name or stdout if unspecified.
  pub output : Option String
  -- Id of the parachain this state is for.
  pub parachain_id : ParaId
  -- Write output in binary. Default is to write in hex.
  pub raw : Bool
  -- The name of the chain for that the genesis state should be exported.
  pub chain : Option String

-- `ExportGenesisWasmCommand`
pub record ExportGenesisWasmCommand : Type 0 where
  -- Output file name or stdout if unspecified.
  pub output : Option String
  -- Write output in binary. Default is to write in hex.
  pub raw : Bool
  -- Write output in original decompressed format.
  pub decompress : Bool
  -- The name of the chain for that the genesis wasm file should be exported.
  pub chain : Option String

-- `sp_core::storage::well_known_keys::CODE`
abbrev pub code_key : String
code_key = ":code"

-- `o.ok_or_else(message)`
abbrev pub ok_or_else : {A : Type 0} → Option A → String → Result String A
ok_or_else none message = err message
ok_or_else (some a) message = ok a

-- `r.map_err(f)`
abbrev pub map_error : {A : Type 0} → (String → String) → Result String A → Result String A
map_error f (ok a) = ok a
map_error f (err e) = err (f e)

module _ {File Block : Type 0} (lib : Libraries File Block) where
  -- `format!("0x{:?}", HexDisplay::from(bytes)).into_bytes()`
  unfoldable pub in_hex : Blob → Blob
  in_hex bytes = b'0' ∷ b'x' ∷ lib.hex_display bytes

  unfoldable pub extract_genesis_wasm : Loaded File → Effect Blob
  extract_genesis_wasm chain_spec = do
    top ← from_result (lib.build_storage chain_spec)
    from_result (ok_or_else (top code_key) "Could not find wasm file in genesis state!")

module _ {File Block : Type 0} (lib : Libraries File Block) (oracle : Oracle) where
  unfoldable pub export_genesis_state : ExportGenesisStateCommand → Effect (Unit {0})
  unfolding in_hex
  export_genesis_state params = do
    spec ← from_result (
        load_spec lib.get_account_id_from_seed lib.wasm_binary lib.from_json_file
          (unwrap_or params.chain "") params.parachain_id)
    block ← from_result (lib.generate_genesis_block spec)
    let raw_header = lib.encode_header block
    let output_buf : Blob = if params.raw then raw_header else in_hex lib raw_header
    perform oracle (Operation.write params.output output_buf)

  -- With the identifier of `Cli::run`.
  unfoldable pub export_genesis_wasm : Option ParaId → ExportGenesisWasmCommand → Effect (Unit {0})
  unfolding in_hex extract_genesis_wasm
  export_genesis_wasm parachain_id params = do
    spec ← from_result (
        cli_load_spec lib.get_account_id_from_seed lib.wasm_binary lib.from_json_file parachain_id
          (unwrap_or params.chain ""))
    raw_wasm_blob ← extract_genesis_wasm lib spec
    wasm ←
        from_result (if params.decompress then lib.decompress raw_wasm_blob else ok raw_wasm_blob)
    let output_buf : Blob = if params.raw then wasm else in_hex lib wasm
    perform oracle (Operation.write params.output output_buf)
