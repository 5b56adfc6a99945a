-- ===== src/Runtime/Benchmarks.antt =====
-- `dispatch_benchmark` of the runtime (runtime/src/lib.rs), as it is with the feature
-- `runtime-benchmarks`. The macro `add_benchmark` is a parameter: it adds the batches of a pallet,
-- if the configuration asks for them, or fails.
use Prim.Native.String.{String}
use xcm_robobank_prototype.Prelude.{◌≡◌, ◌≢◌, List, [], ◌∷◌, arith}
use xcm_robobank_prototype.Frame.{Result, ok, err}

pub data Benchmark : Type 0 where
  frame_system pallet_balances pallet_timestamp : Benchmark

-- The storage keys that are not counted, in hexadecimal: the block number, the total issuance, the
-- execution phase, the event count and the system events.
abbrev pub whitelist : List String
whitelist =
    "26aa394eea5630e07c48ae0c9558cef702a5c1b19ab7a04f536c519aca4983ac"
    ∷ "c2261276cc9d1f8598ea4b6a74b15c2f57c875e4cff74148e4628f264b974c80"
    ∷ "26aa394eea5630e07c48ae0c9558cef7ff553b5a9862a516939d82b3d3d8661a"
    ∷ "26aa394eea5630e07c48ae0c9558cef70a98fdbe9ce6c55837576c60c7af3850"
    ∷ "26aa394eea5630e07c48ae0c9558cef780d41e5e16056765bc8461851072c9d7" ∷ []

module _ {BenchmarkConfig Batch : Type 0}
    (add_benchmark : BenchmarkConfig × List String
      → List Batch
      → Benchmark
      → Result String (List Batch)) where
  infixl 5 ◌>>=◌
  abbrev ◌>>=◌ :
      Result String (List Batch)
      → (List Batch → Result String (List Batch))
      → Result String (List Batch)
  ok batches >>= f = f batches
  err e >>= f = err e

  abbrev found : List Batch → Result String (List Batch)
  found [] = err "Benchmark not found for this pallet."
  found (b ∷ batches) = ok (b ∷ batches)

  unfoldable pub dispatch_benchmark : BenchmarkConfig → Result String (List Batch)
  dispatch_benchmark config = do
    batches ← add_benchmark (config, whitelist) [] Benchmark.frame_system
    batches ← add_benchmark (config, whitelist) batches Benchmark.pallet_balances
    batches ← add_benchmark (config, whitelist) batches Benchmark.pallet_timestamp
    found batches

  found-nonempty : (all batches : List Batch) → found all ≡ ok batches → batches ≢ []
  found-nonempty [] batches h = absurd cc
  found-nonempty (b ∷ all) batches h = ground arith

  step :
      (r : Result String (List Batch)) (f : List Batch → Result String (List Batch))
      (batches : List Batch)
      → (r >>= f) ≡ ok batches
      → (all : List Batch) × (f all ≡ ok batches)
  step (ok all) f batches h = (all, h)
  step (err e) f batches h = absurd cc

  -- A run of the benchmarks that succeeds has found a benchmark.
  dispatch_benchmark-nonempty :
      (config : BenchmarkConfig) (batches : List Batch)
      → dispatch_benchmark config ≡ ok batches
      → batches ≢ []
  unfolding dispatch_benchmark
  dispatch_benchmark-nonempty config batches h =
      let add : Benchmark → List Batch → Result String (List Batch) =
        λ benchmark all. add_benchmark (config, whitelist) all benchmark in
      let (first, h1) =
        step (add Benchmark.frame_system [])
          (λ all.
            add Benchmark.pallet_balances all
            >>= (λ more. add Benchmark.pallet_timestamp more >>= found))
          batches h in
      let (second, h2) =
        step (add Benchmark.pallet_balances first)
          (λ all. add Benchmark.pallet_timestamp all >>= found) batches h1 in
      let (third, h3) = step (add Benchmark.pallet_timestamp second) found batches h2 in
      found-nonempty third batches h3
