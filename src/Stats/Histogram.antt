-- ===== src/Stats/Histogram.antt =====
-- stats/src/histogram.rs. A bucket list is sorted by index, and the binary search in it is written as a
-- walk to the first index that is not smaller.
pub mod Octaves
pub mod Bounds
pub mod Tally
pub mod Records
pub mod Merge
pub mod Counts
pub mod Quantile
use fibre.Base.{
  Bool, ℕ, zero, suc, ◌+◌, ◌-◌, ◌*◌, ◌/◌, ◌%◌, ◌^◌, min, max, List, [], ◌∷◌, Option, none, some,
  true, false, ltb, leb, ◌==◌, if◌then◌else◌, add64, u64_mod,
}

abbrev pub sub_bucket_bits : ℕ
sub_bucket_bits = 3

abbrev pub sub_buckets : ℕ
sub_buckets = 8

abbrev pub u16_mod : ℕ
u16_mod = 2 ^ 16

abbrev pub u32_max : ℕ
u32_max = 2 ^ 32 - 1

abbrev pub u64_max : ℕ
u64_max = 2 ^ 64 - 1

-- The number of binary digits, of the digits that the fuel allows.
unfoldable pub bit_length : ℕ → ℕ → ℕ
bit_length zero n = 0
bit_length (suc fuel) n = elim (n == 0) [ true ↦ 0 | false ↦ suc (bit_length fuel (n / 2)) ]

-- `u64::leading_zeros`
unfoldable pub leading_zeros : ℕ → ℕ
leading_zeros n = 64 - bit_length 64 n

unfoldable pub bucket_index : ℕ → ℕ
bucket_index ns =
    let octave = 63 - leading_zeros ns in
    let sub = ns / 2 ^ (octave - sub_bucket_bits) % sub_buckets in
    if ltb ns sub_buckets then ns else (octave * sub_buckets + sub) % u16_mod

-- A shift by 64 or more, which the index of no value asks for, is a panic: `none`.
unfoldable pub bucket_bounds : ℕ → Option (ℕ × ℕ)
bucket_bounds index =
    let octave = index / sub_buckets in
    let sub = index % sub_buckets in
    let shift = octave - sub_bucket_bits in
    let lower = (sub_buckets + sub) * 2 ^ shift % u64_mod in
    if ltb index sub_buckets
    then some (index, index)
    else if ltb octave sub_bucket_bits
    then some (0, 0)
    else if leb 64 shift
    then none
    else some (lower, add64 lower (2 ^ shift - 1))

pub record Histogram : Type 0 where
  pub count : ℕ
  pub sum_ns : ℕ
  pub min_ns : ℕ
  pub max_ns : ℕ
  pub buckets : List (ℕ × ℕ)

abbrev pub new : Histogram
new = record { count = 0; sum_ns = 0; min_ns = 0; max_ns = 0; buckets = [] }

abbrev pub saturating_add : ℕ → ℕ → ℕ → ℕ
saturating_add limit a b = min (a + b) limit

-- The search for a bucket, and the addition to it or its insertion.
unfoldable pub add_to_bucket : ℕ → ℕ → List (ℕ × ℕ) → List (ℕ × ℕ)
add_to_bucket index n [] = (index, n) ∷ []
add_to_bucket index n ((i, c) ∷ rest) =
    if i == index
    then (i, saturating_add u32_max c n) ∷ rest
    else if ltb index i
    then (index, n) ∷ (i, c) ∷ rest
    else (i, c) ∷ add_to_bucket index n rest

unfoldable pub add_ns : ℕ → Histogram → Histogram
add_ns ns h = record {
  count = add64 h.count 1;
  sum_ns = saturating_add u64_max h.sum_ns ns;
  min_ns = if h.count == 0 then ns else min h.min_ns ns;
  max_ns = if h.count == 0 then ns else max h.max_ns ns;
  buckets = add_to_bucket (bucket_index ns) 1 h.buckets;
}

-- `add`, with the nanoseconds of the duration, which need not fit a `u64`.
unfoldable pub add : ℕ → Histogram → Histogram
add nanos h = add_ns (if leb nanos u64_max then nanos else u64_max) h

unfoldable pub merge_loop : List (ℕ × ℕ) → List (ℕ × ℕ) → List (ℕ × ℕ)
merge_loop buckets [] = buckets
merge_loop buckets ((index, n) ∷ others) = merge_loop (add_to_bucket index n buckets) others

unfoldable pub merge : Histogram → Histogram → Histogram
merge h other = if other.count == 0 then h else if h.count == 0 then other else record {
  count = add64 h.count other.count;
  sum_ns = saturating_add u64_max h.sum_ns other.sum_ns;
  min_ns = min h.min_ns other.min_ns;
  max_ns = max h.max_ns other.max_ns;
  buckets = merge_loop h.buckets other.buckets;
}

abbrev pub is_empty : Histogram → Bool
is_empty h = h.count == 0

unfoldable pub mean : Histogram → Option ℕ
mean h = if h.count == 0 then none else some (h.sum_ns / h.count)

-- `u64::clamp`, which panics when the bounds are the wrong way round.
abbrev pub clamp : ℕ → ℕ → ℕ → Option ℕ
clamp n low high = if leb low high then some (min (max n low) high) else none

unfoldable pub quantile_loop : ℕ → ℕ → Histogram → List (ℕ × ℕ) → Option ℕ
quantile_loop target seen h [] = some h.max_ns
quantile_loop target seen h ((index, n) ∷ rest) =
    let later = quantile_loop target (add64 seen n) h rest in
    if leb target (add64 seen n)
    then elim (bucket_bounds index) [
      | none ↦ none
      | some (lower, upper) ↦ clamp (add64 lower ((upper - lower) / 2)) h.min_ns h.max_ns
    ]
    else later

-- `quantile`, given the product of the quantile and the count, rounded up, which is a computation on
-- floating-point numbers. A panic is `none`; the outer result is `None` for an empty histogram.
unfoldable pub quantile : (ℕ → ℕ) → Histogram → Option (Option ℕ)
quantile ceil_rank h =
    let target = max (ceil_rank h.count) 1 in
    if h.count == 0
    then some none
    else if leb h.count target
    then some (some h.max_ns)
    else elim (quantile_loop target 0 h h.buckets) [ none ↦ none | some ns ↦ some (some ns) ]
