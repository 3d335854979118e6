-- ===== src/Stats/Tests.antt =====
-- Concrete inputs for the theorems on the statistics, some from the unit tests of stats/src/histogram.rs.
use fibre.Base.{
  ℕ, max, ◌⊎◌, ◌≡◌, ◌↔◌, ◌<◌, ◌≤◌, ◌*◌, ◌-◌, refl, arith, List, [], ◌∷◌, Option, none, some, length,
  u64_mod,
}
use fibre.Stats.Histogram.{bucket_index, bucket_bounds, bit_length, leading_zeros, merge, quantile}
use fibre.Stats.Histogram.Bounds.{bucket_bounds-bucket_index, bucket_index-bucket_bounds}
use fibre.Stats.Histogram.Records.{Records, smallest, largest}
use fibre.Stats.Histogram.Merge.{recorded, recorded_lem, merge-recorded}
use fibre.Stats.Value.{IntValue, negsuc, to_i64, to_u64, to_i128, try_i64, try_u64, try_i128}
use fibre.Stats.Value.Convert.{conversions}
use fibre.Stats.Histogram.Quantile.{Estimates, quantile_lem}

index_of_1000 : bucket_index 1000 ≡ 79
unfolding bucket_index leading_zeros bit_length
index_of_1000 = refl

bounds_of_79 : bucket_bounds 79 ≡ some (960, 1023)
unfolding bucket_bounds fibre.Base.add64
bounds_of_79 = refl

bucket_bounds-bucket_index_example :
    (lower : ℕ) × (upper : ℕ) × (bucket_bounds (bucket_index 1000) ≡ some (lower, upper))
    × (lower ≤ 1000)
    × (1000 ≤ upper)
    × ((upper - lower) * 8 ≤ lower)
bucket_bounds-bucket_index_example = bucket_bounds-bucket_index 1000 (omega arith)

bounds_of_1000 : bucket_bounds (bucket_index 1000) ≡ some (960, 1023)
unfolding bucket_index leading_zeros bit_length bucket_bounds fibre.Base.add64
bounds_of_1000 = refl

bucket_index-bucket_bounds_example :
    (bucket_index 970 ≡ bucket_index 1000) ↔ ((960 ≤ 970) × (970 ≤ 1023))
bucket_index-bucket_bounds_example =
    bucket_index-bucket_bounds 1000 960 1023 970 (omega arith) (omega arith) bounds_of_1000

recorded_lem_example : Records (recorded (5 ∷ 1000 ∷ 970 ∷ [])) (5 ∷ 1000 ∷ 970 ∷ [])
recorded_lem_example = recorded_lem (5 ∷ 1000 ∷ 970 ∷ []) (omega arith)

merge-recorded_example :
    (merge (recorded (5 ∷ 1000 ∷ [])) (recorded (970 ∷ [])) ≡ recorded (5 ∷ 1000 ∷ 970 ∷ []))
    × (merge (recorded (970 ∷ [])) (recorded (5 ∷ 1000 ∷ [])) ≡ recorded (5 ∷ 1000 ∷ 970 ∷ []))
merge-recorded_example = merge-recorded (5 ∷ 1000 ∷ []) (970 ∷ []) (omega arith)

abbrev three : List ℕ
three = 5 ∷ 1000 ∷ 970 ∷ []

abbrev half : ℕ → ℕ
half count = 2

quantile_lem_example :
    (result : Option ℕ) × (quantile half (recorded three) ≡ some result)
    × (three ≡ [] → result ≡ none)
    × (0 < length three
        → (ns : ℕ) × (result ≡ some ns)
          × (smallest three ≤ ns)
          × (ns ≤ largest three)
          × ((((recorded three).count ≤ max (half (recorded three).count) 1) × (ns ≡ largest three))
              ⊎ ((max (half (recorded three).count) 1 < (recorded three).count)
                  × Estimates
                      (max (half (recorded three).count) 1)
                      0
                      (recorded three)
                      (recorded three).buckets
                      ns)))
quantile_lem_example =
    quantile_lem half (recorded three) three recorded_lem_example
      (omega arith, (omega arith, (omega arith, tt)))

-- The index 512 is that of no value, yet it has bounds: the lower one wraps.
bounds_of_512 : bucket_bounds 512 ≡ some (0, 2305843009213693951)
unfolding bucket_bounds fibre.Base.add64
bounds_of_512 = refl

-- A negative `i128` that an `i64` has room for.
conversions_example :
    (to_i64 (IntValue.i128 (negsuc 4)) ≡ try_i64 (negsuc 4))
    × (to_u64 (IntValue.i128 (negsuc 4)) ≡ try_u64 (negsuc 4))
    × (to_i128 (IntValue.i128 (negsuc 4)) ≡ try_i128 (negsuc 4))
conversions_example = conversions (IntValue.i128 (negsuc 4)) refl
