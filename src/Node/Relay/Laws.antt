-- ===== src/Node/Relay/Laws.antt =====
-- What the relay chain's node that a collator contains takes from its own command line, and what
-- from the collator.
use Prim.Native.String.{String}
use text.Mathlib.Text.{◌==◌ as str_eq}
use xcm_robobank_prototype.Prelude.{
  ◌≡◌, ◌≢◌, ◌↔◌, refl, Option, none, some, [], ◌∷◌, ◌++◌, arith, Bool, if◌then◌else◌,
}
use xcm_robobank_prototype.Frame.{AccountId, ParaId, Blob, Result, ok, err}
use xcm_robobank_prototype.Node.ChainSpec.{Extensions, ChainSpec}
use xcm_robobank_prototype.Node.Command.{
  Loaded, BasePath, unwrap_or, load_spec, relay_base_path, relay_chain_id, base_path, chain_id,
}
use xcm_robobank_prototype.Node.Selection.{IsBuiltIn, named, relay_lem, load_spec-named}
use xcm_robobank_prototype.Node.Relay.{Library, CliResult, Overrides, new, configuration}

longer : (path : BasePath) (name : String) → path ++ name ∷ [] ≢ path
longer [] name h = ground arith
longer (segment ∷ path) name h = ground (arith, longer path name)

-- The chain that the relay chain's node runs, within a node of the built-in chain `id`, if its own
-- command line answers `own`.
abbrev pub relay_chain : String → CliResult String → CliResult String
relay_chain id (err e) = err e
relay_chain id (ok own) =
    ok (if str_eq own "" then if str_eq id "dev" then "rococo-dev" else "rococo-local" else own)

-- Which chain and which directory the configuration `c` of the relay chain's node has, with `base` for
-- its own command line, in a node of the chain `id` that keeps its data under `path`. It panics when
-- it is initialised.
pub record IsContained {lib : Library} (c base : Overrides lib) (id : String) (path : BasePath)
    : Type 0 where
  pub chain : (is_dev : Bool) → c.chain_id is_dev ≡ relay_chain id (base.chain_id is_dev)
  pub directory : c.base_path ≡ ok (some (unwrap_or base.shared_params (path ++ "polkadot" ∷ [])))
  pub shared : (c.base_path ≡ ok (some path)) ↔ (base.shared_params ≡ some path)
  pub init : c.init ≡ none

directory-shared :
    (path : BasePath) (given : Option BasePath)
    → (◌≡◌ {A = CliResult (Option BasePath)}
        (ok (base_path (some (path ++ "polkadot" ∷ [])) given))
        (ok (some path)))
      ↔ (given ≡ some path)
unfolding base_path
directory-shared path none = (λ h. ground (arith, longer path "polkadot"), λ h. absurd cc)
directory-shared path (some p) = (λ h. ground arith, λ h. ground arith)

directory_lem :
    (path : BasePath) (given : Option BasePath)
    → base_path (some path) given ≡ some (unwrap_or given path)
unfolding base_path
directory_lem path none = refl
directory_lem path (some p) = refl

module _ (get_account_id_from_seed : String → AccountId) (wasm_binary : Option Blob) {File : Type 0}
    (from_json_file : String → Result String File)
    (file_extensions : File → Option Extensions) where
  abbrev chosen : String → ParaId → ChainSpec
  chosen = named get_account_id_from_seed wasm_binary from_json_file

  chain_lem :
      (id : String) (para_id : ParaId) (own : CliResult String)
      → IsBuiltIn id
      → chain_id (relay_chain_id file_extensions (Loaded.built_in (chosen id para_id))) own
        ≡ relay_chain id own
  unfolding chain_id
  chain_lem id para_id (err e) h = refl
  chain_lem id para_id (ok own) h =
      relay_lem get_account_id_from_seed wasm_binary from_json_file file_extensions id own para_id h

  -- The relay chain's node in a collator of a built-in chain runs the chain that its own command line
  -- names, and without such a name the one that fits: `rococo-dev` for `dev`, else `rococo-local`; if
  -- its command line cannot tell the chain, it fails in the same way. It keeps its data in the
  -- directory that its command line names, else in `polkadot` within that of the collator, and so in
  -- the collator's own directory exactly if its command line names that. Its `init` panics.
  pub configuration-IsContained :
      {lib : Library} (id : String) (para_id : ParaId) (path : BasePath) (base : Overrides lib)
      → IsBuiltIn id
      → (spec : ChainSpec) × (load_spec get_account_id_from_seed wasm_binary from_json_file id
            para_id
          ≡ ok (Loaded.built_in spec))
        × IsContained
            (configuration (new file_extensions (some path) (Loaded.built_in spec) base))
            base
            id
            path
  unfolding configuration new relay_base_path
  configuration-IsContained id para_id path base h = (
    chosen id para_id,
    load_spec-named get_account_id_from_seed wasm_binary from_json_file id para_id h,
    record {
      chain = λ is_dev. chain_lem id para_id (base.chain_id is_dev) h;
      directory = rw (directory_lem (path ++ "polkadot" ∷ []) base.shared_params);
      shared = directory-shared path base.shared_params;
      init = refl;
    },
  )
