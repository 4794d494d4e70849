-- ===== src/Experiments/Bucketing.antt =====
-- nexusfeed/experiments/bucketing.py. SHA-256 is an argument: `sha256 prefix user_id` is the digest
-- of the text f"{prefix}:{user_id}", read as a number.
use nexusfeed.Prelude.{ℕ, ◌%◌, Bool, false, String, if◌then◌else◌, ltb}
use nexusfeed.Prelude.Int.{ℤ, pos, ltb_ℤ, leb_ℤ}
use nexusfeed.Types.{Uuid}

abbrev pub Digest : Type 0
Digest = String → Uuid → ℕ

-- `num_buckets: int = 100`
abbrev pub num_buckets : ℕ
num_buckets = 100

-- `int(HOLDBACK_FRACTION_DEFAULT * 10000)`
abbrev pub holdback_threshold : ℕ
holdback_threshold = 500

unfoldable pub bucket_for : Digest → Uuid → (experiment_name : String) → ℕ
bucket_for sha256 user_id experiment_name = sha256 experiment_name user_id % num_buckets

unfoldable pub is_in_holdback : Digest → Uuid → Bool
is_in_holdback sha256 user_id =
    ltb (sha256 "__global_holdback__" user_id % 10_000) holdback_threshold

-- `range[0] <= bucket < range[1]`
abbrev pub in_range : ℕ → ℤ × ℤ → Bool
in_range bucket (low, high) = if leb_ℤ low (pos bucket) then ltb_ℤ (pos bucket) high else false

unfoldable pub assign_variant : (bucket : ℕ) (control_range treatment_range : ℤ × ℤ) → String
assign_variant bucket control_range treatment_range =
    if in_range bucket control_range
    then "control"
    else if in_range bucket treatment_range
    then "treatment"
    else "unassigned"
