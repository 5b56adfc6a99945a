-- ===== src/Keytool.antt =====
-- keytool/src/main.rs: prints the addresses of parachains. Parsing a number is a parameter; a panic
-- (no program name, or an argument that is no number) is `none`.
use Prim.Native.String.{String}
use text.Mathlib.Text.{◌==◌ as str_eq}
use xcm_robobank_prototype.Prelude.{ℕ, Option, none, some, List, [], ◌∷◌, if◌then◌else◌}
use xcm_robobank_prototype.Frame.{ParaId}

-- What a line of output shows: the type of the account, and the parachain.
pub data Line : Type 0 where
  id : ParaId → Line
  sibling : ParaId → Line

-- The output after the title.
pub data Output : Type 0 where
  usage : String → Output
  addresses : List Line → Output

-- `print_paraid` for both types.
unfoldable pub print_both : List ParaId → List Line
print_both [] = []
print_both (p ∷ rest) = Line.id p ∷ Line.sibling p ∷ print_both rest

module _ (parse : String → Option ℕ) where
  unfoldable pub main : List String → Option Output
  unfolding print_both
  main [] = none
  main (program_name ∷ []) = some (Output.addresses (print_both (100 ∷ 200 ∷ 300 ∷ [])))
  main (program_name ∷ argument ∷ _) =
      if str_eq argument "--help" then some (Output.usage program_name) else elim (parse argument) [
        | none ↦ none
        | some p ↦ some (Output.addresses (print_both (p ∷ [])))
      ]
