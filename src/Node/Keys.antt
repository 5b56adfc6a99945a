-- ===== src/Node/Keys.antt =====
-- node/src/chain_spec.rs: the keys and the accounts of the seeds (`get_from_seed`,
-- `get_account_id_from_seed`). Deriving a key from a string, and an account from a key, is code of
-- Substrate, so a parameter; the panic of `expect` is `none`.
use Prim.Native.String.{String, ◌++◌ as ◌<>◌}
use xcm_robobank_prototype.Prelude.{◌≡◌, refl, arith, Option, none, some, List, [], ◌∷◌, map}
use xcm_robobank_prototype.Frame.{AccountId, ForeignError, Result, ok, err}
use xcm_robobank_prototype.Node.Command.{unwrap_or}

-- `Pair`, `Public` and `AccountPublic`.
pub record Crypto : Type 1 where
  pub Pair : Type 0
  pub Public : Type 0
  pub AccountPublic : Type 0
  pub from_string : String → Result ForeignError Pair
  pub public : Pair → Public
  pub from : Public → AccountPublic
  pub into_account : AccountPublic → AccountId

module _ (crypto : Crypto) where
  unfoldable pub get_from_seed : String → Option crypto.Public
  get_from_seed seed = elim (crypto.from_string ("//" <> seed)) [
    | err e ↦ none
    | ok pair ↦ some (crypto.public pair)
  ]

  unfoldable pub get_account_id_from_seed : String → Option AccountId
  get_account_id_from_seed seed = elim (get_from_seed seed) [
    | none ↦ none
    | some key ↦ some (crypto.into_account (crypto.from key))
  ]

  -- The accounts of a list of seeds, as the specifications write it out.
  unfoldable pub get_account_ids : List String → Option (List AccountId)
  get_account_ids [] = some []
  get_account_ids (seed ∷ seeds) = elim (get_account_id_from_seed seed) [
    | none ↦ none
    | some a ↦ elim (get_account_ids seeds) [ none ↦ none | some accounts ↦ some (a ∷ accounts) ]
  ]

  -- The strings are valid for the derivation.
  abbrev pub AllValid : List String → Type 0
  AllValid [] = Unit
  AllValid (seed ∷ seeds) =
      ((pair : crypto.Pair) × (crypto.from_string ("//" <> seed) ≡ ok pair)) × AllValid seeds

  -- The account of a seed, or `other` where there is none.
  abbrev pub account_or : AccountId → String → AccountId
  account_or other seed = unwrap_or (get_account_id_from_seed seed) other

  account_or_lem :
      (other : AccountId) (seed : String) (pair : crypto.Pair)
      → crypto.from_string ("//" <> seed) ≡ ok pair
      → get_account_id_from_seed seed ≡ some (account_or other seed)
  unfolding get_account_id_from_seed get_from_seed
  account_or_lem other seed pair valid = ground arith

  -- For valid seeds nothing panics, and the accounts are those of a total function: the one that
  -- the specifications take.
  get_account_ids_lem :
      (other : AccountId) (seeds : List String)
      → AllValid seeds
      → get_account_ids seeds ≡ some (map (account_or other) seeds)
  unfolding get_account_ids
  get_account_ids_lem other [] valid = refl
  get_account_ids_lem other (seed ∷ seeds) valid = ground (
    arith,
    account_or_lem other seed valid.0.0 valid.0.1,
    get_account_ids_lem other seeds valid.1,
  )
