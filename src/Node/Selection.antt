-- ===== src/Node/Selection.antt =====
-- What a command line that names a built-in chain selects.
use Prim.Native.String.{String}
use text.Mathlib.Text.{◌==◌ as str_eq}
use xcm_robobank_prototype.Prelude.{
  ◌≤◌, ◌≡◌, ◌⊎◌, ◌↔◌, inl, inr, refl, Option, none, some, List, [], ◌∷◌, map, arith, if◌then◌else◌,
}
use xcm_robobank_prototype.Frame.{AccountId, ParaId, Balance, Blob, Result, ok}
use xcm_robobank_prototype.Runtime.Constants.{existential_deposit}
use xcm_robobank_prototype.Node.ChainSpec.{
  ChainSpec, Extensions, GenesisConfig, testnet_genesis, development_config, local_testnet_config,
  endowment,
}
use xcm_robobank_prototype.Node.Command.{
  Loaded, unwrap_or, load_spec, cli_load_spec, node_para_id, relay_chain_id, chain_id,
  exported_para_id,
}

-- The names of the built-in chains, as `--chain` takes them.
abbrev pub IsBuiltIn : String → Type 0
IsBuiltIn id = (id ≡ "dev") ⊎ (id ≡ "") ⊎ (id ≡ "local")

-- Every account can exist.
abbrev pub IsFunded : List (AccountId × Balance) → Type 0
IsFunded [] = Unit
IsFunded ((_, b) ∷ rest) = (existential_deposit ≤ b) × IsFunded rest

-- The specification, its genesis and the node agree on the parachain identifier.
pub record Agrees (spec : ChainSpec) (para_id : ParaId) : Type 0 where
  pub extension : spec.extensions.para_id ≡ para_id
  pub genesis : (g : GenesisConfig) → spec.genesis ≡ some g → g.parachain_id ≡ para_id
  pub funded : (g : GenesisConfig) → spec.genesis ≡ some g → IsFunded g.balances

endowed-IsFunded : (accounts : List AccountId) → IsFunded (map (λ k. (k, endowment)) accounts)
endowed-IsFunded [] = tt
endowed-IsFunded (a ∷ rest) = (omega arith, endowed-IsFunded rest)

testnet_genesis_id :
    (wasm : Option Blob) (root : AccountId) (accounts : List AccountId) (id : ParaId)
    (g : GenesisConfig)
    → testnet_genesis wasm root accounts id ≡ some g
    → g.parachain_id ≡ id
unfolding testnet_genesis
testnet_genesis_id none root accounts id g h = ground arith
testnet_genesis_id (some code) root accounts id g h = ground arith

testnet_genesis-IsFunded :
    (wasm : Option Blob) (root : AccountId) (accounts : List AccountId) (id : ParaId)
    (g : GenesisConfig)
    → testnet_genesis wasm root accounts id ≡ some g
    → IsFunded g.balances
unfolding testnet_genesis
testnet_genesis-IsFunded none root accounts id g h = ground arith
testnet_genesis-IsFunded (some code) root accounts id g h =
    let same : g.balances ≡ map (λ k. (k, endowment)) accounts = ground arith in
    rw same (endowed-IsFunded accounts)

module _ (get_account_id_from_seed : String → AccountId) (wasm_binary : Option Blob) {File : Type 0}
    (from_json_file : String → Result String File) where
  -- The chain that is built in under a name.
  abbrev pub named : String → ParaId → ChainSpec
  named id para_id =
      if str_eq id "dev"
      then development_config get_account_id_from_seed wasm_binary para_id
      else local_testnet_config get_account_id_from_seed wasm_binary para_id

  pub load_spec-named :
      (id : String) (para_id : ParaId)
      → IsBuiltIn id
      → load_spec get_account_id_from_seed wasm_binary from_json_file id para_id
        ≡ ok (Loaded.built_in (named id para_id))
  unfolding load_spec
  load_spec-named id para_id (inl h) = rw h
  load_spec-named id para_id (inr (inl h)) = rw h
  load_spec-named id para_id (inr (inr h)) = rw h

  development_config-Agrees :
      (para_id : ParaId)
      → Agrees (development_config get_account_id_from_seed wasm_binary para_id) para_id
  unfolding development_config
  development_config-Agrees para_id = record {
    extension = refl;
    genesis = λ g e. testnet_genesis_id wasm_binary _ _ para_id g e;
    funded = λ g e. testnet_genesis-IsFunded wasm_binary _ _ para_id g e;
  }

  local_testnet_config-Agrees :
      (para_id : ParaId)
      → Agrees (local_testnet_config get_account_id_from_seed wasm_binary para_id) para_id
  unfolding local_testnet_config
  local_testnet_config-Agrees para_id = record {
    extension = refl;
    genesis = λ g e. testnet_genesis_id wasm_binary _ _ para_id g e;
    funded = λ g e. testnet_genesis-IsFunded wasm_binary _ _ para_id g e;
  }

  named-Agrees : (id : String) (para_id : ParaId) → IsBuiltIn id → Agrees (named id para_id) para_id
  named-Agrees id para_id (inl h) = rw h (development_config-Agrees para_id)
  named-Agrees id para_id (inr (inl h)) = rw h (local_testnet_config-Agrees para_id)
  named-Agrees id para_id (inr (inr h)) = rw h (local_testnet_config-Agrees para_id)

  module _ (file_extensions : File → Option Extensions) where
    node_para_id_lem :
        (parachain_id : Option ParaId) (spec : ChainSpec)
        → spec.extensions.para_id ≡ unwrap_or parachain_id 200
        → node_para_id file_extensions parachain_id (Loaded.built_in spec)
          ≡ unwrap_or parachain_id 200
    unfolding node_para_id
    node_para_id_lem none spec e = e
    node_para_id_lem (some p) spec e = refl

    -- A built-in chain is loaded for every `--parachain-id`, or for 200 without one. Its extension,
    -- its genesis and the node agree on that identifier, and each account of its genesis has at
    -- least the existential deposit of the runtime.
    pub node_para_id-Agrees :
        (parachain_id : Option ParaId) (id : String)
        → IsBuiltIn id
        → (spec : ChainSpec) × (cli_load_spec get_account_id_from_seed wasm_binary from_json_file
              parachain_id id
            ≡ ok (Loaded.built_in spec))
          × (node_para_id file_extensions parachain_id (Loaded.built_in spec)
              ≡ unwrap_or parachain_id 200)
          × Agrees spec (unwrap_or parachain_id 200)
    unfolding cli_load_spec node_para_id
    node_para_id-Agrees parachain_id id h =
        let agrees = named-Agrees id (unwrap_or parachain_id 200) h in
        (
          named id (unwrap_or parachain_id 200),
          load_spec-named id (unwrap_or parachain_id 200) h,
          node_para_id_lem parachain_id (named id (unwrap_or parachain_id 200)) agrees.extension,
          agrees,
        )

  -- For a built-in chain `ExportGenesisState`, given an identifier or not, loads the specification
  -- that the node loads, which is given an identifier of its own or not, exactly if the two
  -- identifiers are the same. The export's is 100 where none is given, and the node's is 200.
  pub exported_para_id_iff :
      (exported parachain_id : Option ParaId) (id : String)
      → IsBuiltIn id
      → (load_spec get_account_id_from_seed wasm_binary from_json_file id
            (exported_para_id exported)
          ≡ cli_load_spec get_account_id_from_seed wasm_binary from_json_file parachain_id id)
        ↔ (unwrap_or exported 100 ≡ unwrap_or parachain_id 200)
  unfolding cli_load_spec exported_para_id
  exported_para_id_iff exported parachain_id id h = (
    λ same. ground (
      arith,
      same,
      load_spec-named id (unwrap_or exported 100) h,
      load_spec-named id (unwrap_or parachain_id 200) h,
      (named-Agrees id (unwrap_or exported 100) h).extension,
      (named-Agrees id (unwrap_or parachain_id 200) h).extension,
    ),
    λ same. rw same,
  )

  module _ (file_extensions : File → Option Extensions) where
    pub relay_lem :
        (id own : String) (para_id : ParaId)
        → IsBuiltIn id
        → chain_id (relay_chain_id file_extensions (Loaded.built_in (named id para_id))) (ok own)
          ≡ ok (
              if str_eq own ""
              then if str_eq id "dev" then "rococo-dev" else "rococo-local"
              else own)
    unfolding chain_id relay_chain_id development_config local_testnet_config
    relay_lem id own para_id (inl h) = rw h (ground arith)
    relay_lem id own para_id (inr (inl h)) = rw h (ground arith)
    relay_lem id own para_id (inr (inr h)) = rw h (ground arith)

    -- With a built-in chain the relay chain's node runs the chain that its own command line names,
    -- and without such a name the one that fits: `rococo-dev` for `dev`, else `rococo-local`.
    pub chain_id-relay_chain_id :
        (id own : String) (para_id : ParaId)
        → IsBuiltIn id
        → (spec : ChainSpec) × (load_spec get_account_id_from_seed wasm_binary from_json_file id
              para_id
            ≡ ok (Loaded.built_in spec))
          × (chain_id (relay_chain_id file_extensions (Loaded.built_in spec)) (ok own)
              ≡ ok (
                  if str_eq own ""
                  then if str_eq id "dev" then "rococo-dev" else "rococo-local"
                  else own))
    chain_id-relay_chain_id id own para_id h =
        (named id para_id, load_spec-named id para_id h, relay_lem id own para_id h)
