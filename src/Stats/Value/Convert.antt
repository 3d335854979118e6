-- ===== src/Stats/Value/Convert.antt =====
-- When a conversion of an integer is defined.
use fibre.Base.{ℕ, ◌<◌, ◌≤◌, ◌^◌, ◌≡◌, refl, arith, true, some, ltb}
use fibre.Stats.Value.{
  ℤ, pos, negsuc, IntValue, in_signed, try_i64, try_i128, try_u64, to_i64, to_u64, to_i128,
}

-- The number that is held.
abbrev pub number : IntValue → ℤ
number (IntValue.i8 v) = v
number (IntValue.u8 v) = pos v
number (IntValue.i16 v) = v
number (IntValue.u16 v) = pos v
number (IntValue.i32 v) = v
number (IntValue.u32 v) = pos v
number (IntValue.i64 v) = v
number (IntValue.u64 v) = pos v
number (IntValue.i128 v) = v
number (IntValue.u128 v) = pos v

-- The number is one of its type.
abbrev pub Valid : IntValue → Type 0
Valid (IntValue.i8 v) = in_signed (2 ^ 7) v ≡ true
Valid (IntValue.u8 v) = v < 2 ^ 8
Valid (IntValue.i16 v) = in_signed (2 ^ 15) v ≡ true
Valid (IntValue.u16 v) = v < 2 ^ 16
Valid (IntValue.i32 v) = in_signed (2 ^ 31) v ≡ true
Valid (IntValue.u32 v) = v < 2 ^ 32
Valid (IntValue.i64 v) = in_signed (2 ^ 63) v ≡ true
Valid (IntValue.u64 v) = v < 2 ^ 64
Valid (IntValue.i128 v) = in_signed (2 ^ 127) v ≡ true
Valid (IntValue.u128 v) = v < 2 ^ 128

-- A number of a narrower type is one of a wider one.
in_signed-le : (a b : ℕ) (z : ℤ) → a ≤ b → in_signed a z ≡ true → in_signed b z ≡ true
in_signed-le a b (pos n) le h = ground arith
in_signed-le a b (negsuc n) le h = ground arith

try_i64_lem : (half : ℕ) (z : ℤ) → half ≤ 2 ^ 63 → in_signed half z ≡ true → some z ≡ try_i64 z
try_i64_lem half z le h = let e = in_signed-le half (2 ^ 63) z le h in rw e refl

try_i128_lem : (half : ℕ) (z : ℤ) → half ≤ 2 ^ 127 → in_signed half z ≡ true → some z ≡ try_i128 z
try_i128_lem half z le h = let e = in_signed-le half (2 ^ 127) z le h in rw e refl

try_u64_lem : (n : ℕ) → n < 2 ^ 64 → some n ≡ try_u64 (pos n)
try_u64_lem n h = let e : ltb n (2 ^ 64) ≡ true = ground arith in rw e refl

positive : (half n : ℕ) → n < half → in_signed half (pos n) ≡ true
positive half n h = ground arith

-- Each conversion of an integer of its type is exact where the number is one of the target type, and
-- `none` elsewhere, whichever type the integer has.
pub conversions :
    (v : IntValue)
    → Valid v
    → (to_i64 v ≡ try_i64 (number v))
      × (to_u64 v ≡ try_u64 (number v))
      × (to_i128 v ≡ try_i128 (number v))
unfolding to_i64 to_u64 to_i128
conversions (IntValue.i8 v) h =
    (try_i64_lem (2 ^ 7) v (omega arith) h, refl, try_i128_lem (2 ^ 7) v (omega arith) h)
conversions (IntValue.u8 v) h = (
  try_i64_lem (2 ^ 8) (pos v) (omega arith) (positive (2 ^ 8) v h),
  try_u64_lem v (omega (arith, h)),
  try_i128_lem (2 ^ 8) (pos v) (omega arith) (positive (2 ^ 8) v h),
)
conversions (IntValue.i16 v) h =
    (try_i64_lem (2 ^ 15) v (omega arith) h, refl, try_i128_lem (2 ^ 15) v (omega arith) h)
conversions (IntValue.u16 v) h = (
  try_i64_lem (2 ^ 16) (pos v) (omega arith) (positive (2 ^ 16) v h),
  try_u64_lem v (omega (arith, h)),
  try_i128_lem (2 ^ 16) (pos v) (omega arith) (positive (2 ^ 16) v h),
)
conversions (IntValue.i32 v) h =
    (try_i64_lem (2 ^ 31) v (omega arith) h, refl, try_i128_lem (2 ^ 31) v (omega arith) h)
conversions (IntValue.u32 v) h = (
  try_i64_lem (2 ^ 32) (pos v) (omega arith) (positive (2 ^ 32) v h),
  try_u64_lem v (omega (arith, h)),
  try_i128_lem (2 ^ 32) (pos v) (omega arith) (positive (2 ^ 32) v h),
)
conversions (IntValue.i64 v) h =
    (try_i64_lem (2 ^ 63) v (omega arith) h, refl, try_i128_lem (2 ^ 63) v (omega arith) h)
conversions (IntValue.u64 v) h = (
  refl,
  try_u64_lem v (omega (arith, h)),
  try_i128_lem (2 ^ 64) (pos v) (omega arith) (positive (2 ^ 64) v h),
)
conversions (IntValue.i128 v) h = (refl, refl, try_i128_lem (2 ^ 127) v (omega arith) h)
conversions (IntValue.u128 v) h = (refl, refl, refl)
