-- ===== src/Runtime/Weights.antt =====
-- The version of the runtime, and the limits on the weight and the length of its blocks
-- (runtime/src/lib.rs). Parts in a billion (`Perbill`) and the weights of the frame are parameters.
use Prim.Native.String.{String}
use xcm_robobank_prototype.Prelude.{ℕ, ◌≡◌, ◌≤◌, ◌+◌, ◌-◌, ◌*◌, arith}

abbrev pub Weight : Type 0
Weight = ℕ

-- `Perbill` with `from_percent` and `*`, and the constants of the frame.
pub record Weights : Type 1 where
  pub Perbill : Type 0
  pub from_percent : ℕ → Perbill
  pub times : Perbill → Weight → Weight
  pub weight_per_second : Weight
  pub block_execution_weight : Weight
  pub extrinsic_base_weight : Weight

-- A part of a weight is not more than the weight.
abbrev pub IsPart : Weights → Type 0
IsPart W = (p : W.Perbill) (w : Weight) → W.times p w ≤ w

-- What `RuntimeBlockWeights` sets: `max_total` of the two classes, and the `reserved` of the
-- operational one.
pub record BlockWeights (Perbill : Type 0) : Type 0 where
  pub base_block : Weight
  pub base_extrinsic : Weight
  pub normal_max_total : Weight
  pub operational_max_total : Weight
  pub operational_reserved : Weight
  pub avg_block_initialization : Perbill

-- `BlockLength::max_with_normal_ratio(max, ratio)`, as its arguments.
pub record BlockLength (Perbill : Type 0) : Type 0 where
  pub max : ℕ
  pub normal_ratio : Perbill

module _ (W : Weights) where
  -- Of the weight of a block about 10% goes to `on_initialize`, and up to 75% to normal extrinsics.
  abbrev pub average_on_initialize_ratio : W.Perbill
  average_on_initialize_ratio = W.from_percent 10

  abbrev pub normal_dispatch_ratio : W.Perbill
  normal_dispatch_ratio = W.from_percent 75

  abbrev pub maximum_block_weight : Weight
  maximum_block_weight = 2 * W.weight_per_second

  abbrev pub runtime_block_length : BlockLength W.Perbill
  runtime_block_length = record { max = 5 * 1024 * 1024; normal_ratio = normal_dispatch_ratio }

  abbrev pub runtime_block_weights : BlockWeights W.Perbill
  runtime_block_weights = record {
    base_block = W.block_execution_weight;
    base_extrinsic = W.extrinsic_base_weight;
    normal_max_total = W.times normal_dispatch_ratio maximum_block_weight;
    operational_max_total = maximum_block_weight;
    operational_reserved =
        maximum_block_weight - W.times normal_dispatch_ratio maximum_block_weight;
    avg_block_initialization = average_on_initialize_ratio;
  }

  -- The difference does not pass below 0: what normal extrinsics may take and what is reserved for
  -- operational ones fill the largest block exactly.
  normal-reserved :
      IsPart W
      → runtime_block_weights.normal_max_total + runtime_block_weights.operational_reserved
        ≡ maximum_block_weight
  normal-reserved part = omega (arith, part normal_dispatch_ratio maximum_block_weight)

-- `RuntimeVersion`, without the versions of the runtime's interfaces.
pub record RuntimeVersion : Type 0 where
  pub spec_name : String
  pub impl_name : String
  pub authoring_version : ℕ
  pub spec_version : ℕ
  pub impl_version : ℕ
  pub transaction_version : ℕ

abbrev pub version : RuntimeVersion
version = record {
  spec_name = "robonomics-order";
  impl_name = "robonomics-order";
  authoring_version = 1;
  spec_version = 202;
  impl_version = 1;
  transaction_version = 1;
}
