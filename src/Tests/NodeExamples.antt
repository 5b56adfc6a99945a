-- ===== src/Tests/NodeExamples.antt =====
-- The theorems about the node at concrete inputs, and runs of the key tool.
use Prim.Native.String.{String}
use xcm_robobank_prototype.Prelude.{ℕ, ◌≡◌, ◌↔◌, refl, inl, inr, Option, none, some, [], ◌∷◌}
use xcm_robobank_prototype.Frame.{AccountId, ParaId, Blob, Result, ok, err}
use xcm_robobank_prototype.Node.ChainSpec.{ChainSpec, Extensions}
use xcm_robobank_prototype.Node.Command.{
  Loaded, unwrap_or, load_spec, cli_load_spec, node_para_id, exported_para_id, base_path,
  relay_base_path,
}
use xcm_robobank_prototype.Node.Selection.{Agrees, node_para_id-Agrees, exported_para_id_iff}
use xcm_robobank_prototype.Keytool.{Line, Output, main}

-- Keys by the seed, a binary of one byte, and no files.
abbrev pub keys : String → AccountId
keys seed = 7

abbrev pub binary : Option Blob
binary = some (1 ∷ [])

abbrev pub no_file : String → Result String ℕ
no_file path = err "no such file"

abbrev pub no_extensions : ℕ → Option Extensions
no_extensions file = none

node_para_id-Agrees_example :
    (spec : ChainSpec) × (cli_load_spec keys binary no_file none "local"
      ≡ ok (Loaded.built_in spec))
    × (node_para_id no_extensions none (Loaded.built_in spec) ≡ 200)
    × Agrees spec 200
node_para_id-Agrees_example =
    node_para_id-Agrees keys binary no_file no_extensions none "local" (inr (inr refl))

-- Neither is given an identifier.
abbrev not_given : Option ParaId
not_given = none

exported_para_id_iff_example :
    (load_spec keys binary no_file "dev" (exported_para_id not_given)
      ≡ cli_load_spec keys binary no_file not_given "dev")
    ↔ (unwrap_or not_given 100 ≡ unwrap_or not_given 200)
exported_para_id_iff_example =
    exported_para_id_iff keys binary no_file not_given not_given "dev" (inl refl)

-- The defaults of the key tool, and an argument that is no number.
default_addresses :
    main (λ _. none) ("keytool" ∷ [])
    ≡ some (
        Output.addresses (
          Line.id 100
          ∷ Line.sibling 100
          ∷ Line.id 200
          ∷ Line.sibling 200
          ∷ Line.id 300
          ∷ Line.sibling 300
          ∷ []))
unfolding main
default_addresses = refl

bad_argument : main (λ _. none) ("keytool" ∷ "x" ∷ []) ≡ none
unfolding main
bad_argument = refl

-- The data of the relay chain is kept beside those of the parachain, if no path is given for them.
relay_data : base_path (relay_base_path (some ("data" ∷ []))) none ≡ some ("data" ∷ "polkadot" ∷ [])
unfolding base_path relay_base_path
relay_data = refl
