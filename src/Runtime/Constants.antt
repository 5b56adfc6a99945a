-- ===== src/Runtime/Constants.antt =====
-- The constants of the runtime (runtime/src/lib.rs). `u32` and `u64` constants are numbers here, as
-- the compiler refuses one that overflows.
use xcm_robobank_prototype.Prelude.{ℕ, ◌*◌, ◌/◌}
use xcm_robobank_prototype.Frame.{Balance, Moment}

abbrev pub milliseconds_per_block : Moment
milliseconds_per_block = 12_000

abbrev pub slot_duration : Moment
slot_duration = milliseconds_per_block

-- In blocks.
abbrev pub minutes : ℕ
minutes = 60_000 / milliseconds_per_block

abbrev pub hours : ℕ
hours = minutes * 60

abbrev pub days : ℕ
days = hours * 24

abbrev pub minimum_period : Moment
minimum_period = slot_duration / 2

abbrev pub existential_deposit : Balance
existential_deposit = 500

abbrev pub max_locks : ℕ
max_locks = 50

abbrev pub block_hash_count : ℕ
block_hash_count = 250

abbrev pub ss58_prefix : ℕ
ss58_prefix = 42

abbrev pub transaction_byte_fee : Balance
transaction_byte_fee = 1

-- `PRIMARY_PROBABILITY`
abbrev pub primary_probability : ℕ × ℕ
primary_probability = (1, 4)
