-- ===== src/Node/Effects.antt =====
-- What the node asks of the libraries that it is built on (Substrate, Cumulus, Polkadot): each call
-- that can fail or that starts something is an operation, which an oracle lets succeed or fail. What
-- only builds a value for a later call has no operation of its own. The operations that were made
-- are kept, the latest last.
use Prim.Native.String.{String}
use xcm_robobank_prototype.Prelude.{Bool, Option, List, [], ◌∷◌, ◌++◌}
use xcm_robobank_prototype.Frame.{ParaId, Blob, Result, ok, err}

-- The network is built with a validator of block announcements for the parachain.
pub data Operation : Type 0 where
  -- service.rs, `new_partial`
  telemetry_worker : Operation
  new_full_parts : (telemetry : Bool) → Operation
  spawn_telemetry : Operation
  transaction_pool : Operation
  import_queue : Operation
  -- service.rs, `start_node_impl`
  register_timestamp : Operation
  build_polkadot_full_node : Operation
  build_network : ParaId → Operation
  spawn_tasks : Operation
  start_collator : ParaId → Operation
  start_full_node : ParaId → Operation
  start_network : Operation
  -- command.rs
  create_runner : Operation
  relay_configuration : Operation
  run_command : Operation
  write : Option String → Blob → Operation

-- An error that is returned, or a panic (`unwrap`).
pub data Failure : Type 0 where
  error : String → Failure
  panic : Failure

abbrev pub Oracle : Type 0
Oracle = Operation → Result String (Unit {0})

abbrev pub Effect : Type 0 → Type 0
Effect A = List Operation → Result Failure A × List Operation

infixl 5 ◌>>=◌ ◌>>◌
abbrev pub ◌>>=◌ : {A B : Type 0} → Effect A → (A → Effect B) → Effect B
◌>>=◌ m f s = let (r, t) = m s in elim r [ ok a ↦ f a t | err e ↦ (err e, t) ]

abbrev pub ◌>>◌ : {A B : Type 0} → Effect A → Effect B → Effect B
m >> k = m >>= λ _. k

abbrev pub pure : {A : Type 0} → A → Effect A
pure a s = (ok a, s)

abbrev pub fail : {A : Type 0} → String → Effect A
fail message s = (err (Failure.error message), s)

-- `r?`
abbrev pub from_result : {A : Type 0} → Result String A → Effect A
from_result (ok a) s = (ok a, s)
from_result (err e) s = (err (Failure.error e), s)

-- `operation?`
abbrev pub perform : Oracle → Operation → Effect (Unit {0})
perform oracle o s = elim (oracle o) [
  | ok _ ↦ (ok tt, s ++ o ∷ [])
  | err e ↦ (err (Failure.error e), s ++ o ∷ [])
]

-- A call that cannot fail.
abbrev pub note : Operation → Effect (Unit {0})
note o s = (ok tt, s ++ o ∷ [])

-- `operation.unwrap()`
abbrev pub unwrap : Oracle → Operation → Effect (Unit {0})
unwrap oracle o s = elim (oracle o) [
  | ok _ ↦ (ok tt, s ++ o ∷ [])
  | err _ ↦ (err Failure.panic, s ++ o ∷ [])
]
