-- ===== src/Node/Service/Order.antt =====
-- In which order the parts of a node are started, and where a failure leaves it.
use xcm_robobank_prototype.Prelude.{
  ◌≡◌, ◌↔◌, Bool, true, false, List, [], ◌∷◌, ◌++◌, arith, ◌||◌, if◌then◌else◌,
}
use xcm_robobank_prototype.Frame.{ParaId, ok, err}
use xcm_robobank_prototype.Node.Effects.{Operation, Failure, Oracle}
use xcm_robobank_prototype.Node.Service.{Configuration, has_telemetry, start_node}

-- What `new_partial` makes, with and without telemetry.
abbrev pub partial_operations : Bool → List Operation
partial_operations true =
    Operation.telemetry_worker
    ∷ Operation.new_full_parts true
    ∷ Operation.spawn_telemetry
    ∷ Operation.transaction_pool
    ∷ Operation.import_queue
    ∷ []
partial_operations false =
    Operation.new_full_parts false ∷ Operation.transaction_pool ∷ Operation.import_queue ∷ []

abbrev pub last_operation : ParaId → Bool → Operation
last_operation id validator =
    if validator then Operation.start_collator id else Operation.start_full_node id

-- All that a node makes before its network starts.
abbrev pub prepared : Configuration → ParaId → Bool → List Operation
prepared config id validator =
    partial_operations (has_telemetry config.telemetry_endpoints)
    ++ (Operation.register_timestamp
        ∷ Operation.build_polkadot_full_node
        ∷ Operation.build_network id
        ∷ Operation.spawn_tasks
        ∷ last_operation id validator
        ∷ [])

-- Those among them that can fail.
abbrev pub asked : Configuration → ParaId → Bool → List Operation
asked config id validator =
    (if has_telemetry config.telemetry_endpoints then Operation.telemetry_worker ∷ [] else [])
    ++ (Operation.new_full_parts (has_telemetry config.telemetry_endpoints)
        ∷ Operation.import_queue
        ∷ Operation.register_timestamp
        ∷ Operation.build_polkadot_full_node
        ∷ Operation.build_network id
        ∷ Operation.spawn_tasks
        ∷ last_operation id validator
        ∷ [])

abbrev pub AllSucceed : Oracle → List Operation → Type 0
AllSucceed oracle [] = Unit
AllSucceed oracle (o ∷ rest) = (oracle o ≡ ok tt) × AllSucceed oracle rest

abbrev pub is_network : Operation → Bool
is_network Operation.start_network = true
is_network _ = false

abbrev pub starts_network : List Operation → Bool
starts_network [] = false
starts_network (o ∷ rest) = is_network o || starts_network rest

module _ (oracle : Oracle) (config : Configuration) (id : ParaId) (validator : Bool) where
  start_node-ok :
      (start_node oracle config id validator []).0 ≡ ok tt
      → (config.light ≡ false)
        × ((start_node oracle config id validator []).1
            ≡ prepared config id validator ++ (Operation.start_network ∷ []))
  unfolding start_node has_telemetry
  start_node-ok h = ground arith

  succeeds :
      (config.light ≡ false) × AllSucceed oracle (asked config id validator)
      → (start_node oracle config id validator []).0 ≡ ok tt
  unfolding start_node has_telemetry
  succeeds h = ground arith

  succeeded :
      (start_node oracle config id validator []).0 ≡ ok tt
      → (config.light ≡ false) × AllSucceed oracle (asked config id validator)
  unfolding start_node has_telemetry
  succeeded h = ground arith

  -- A node starts exactly if it is not a light client and everything that can fail succeeds.
  pub start_node_iff :
      ((start_node oracle config id validator []).0 ≡ ok tt)
      ↔ ((config.light ≡ false) × AllSucceed oracle (asked config id validator))
  start_node_iff = (succeeded, succeeds)

  start_node-err :
      {e : Failure}
      → (start_node oracle config id validator []).0 ≡ err e
      → starts_network (start_node oracle config id validator []).1 ≡ false
  unfolding start_node has_telemetry
  start_node-err h = ground arith

  -- If a node starts, then it has made all its operations in order, the network last, as a collator
  -- exactly if it is a validator, and it is not a light client. If it does not start, then its
  -- network has not been started.
  pub start_node_cases :
      let r = start_node oracle config id validator [] in
      (r.0 ≡ ok tt
        → (config.light ≡ false)
          × (r.1 ≡ prepared config id validator ++ (Operation.start_network ∷ [])))
      × ((e : Failure) → r.0 ≡ err e → starts_network r.1 ≡ false)
  start_node_cases = (start_node-ok, λ e failed. start_node-err failed)
