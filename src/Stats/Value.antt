-- ===== src/Stats/Value.antt =====
-- The integers of stats/src/value.rs, and their conversions.
pub mod Convert
use fibre.Base.{ℕ, ◌-◌, ◌^◌, Bool, true, false, Option, none, some, ltb, if◌then◌else◌}

pub data ℤ : Type 0 where
  pos negsuc : ℕ → ℤ

pub data IntValue : Type 0 where
  i8 i16 i32 i64 i128 : ℤ → IntValue
  u8 u16 u32 u64 u128 : ℕ → IntValue

unfoldable pub bits : IntValue → ℕ
bits (IntValue.i8 v) = 8
bits (IntValue.u8 v) = 8
bits (IntValue.i16 v) = 16
bits (IntValue.u16 v) = 16
bits (IntValue.i32 v) = 32
bits (IntValue.u32 v) = 32
bits (IntValue.i64 v) = 64
bits (IntValue.u64 v) = 64
bits (IntValue.i128 v) = 128
bits (IntValue.u128 v) = 128

unfoldable pub is_signed : IntValue → Bool
is_signed (IntValue.i8 v) = true
is_signed (IntValue.i16 v) = true
is_signed (IntValue.i32 v) = true
is_signed (IntValue.i64 v) = true
is_signed (IntValue.i128 v) = true
is_signed (IntValue.u8 v) = false
is_signed (IntValue.u16 v) = false
is_signed (IntValue.u32 v) = false
is_signed (IntValue.u64 v) = false
is_signed (IntValue.u128 v) = false

-- Whether a number is one of `half` negative and `half` other numbers.
abbrev pub in_signed : ℕ → ℤ → Bool
in_signed half (pos n) = ltb n half
in_signed half (negsuc n) = ltb n half

-- `try_from` into an `i64`, into an `i128` and into a `u64`.
abbrev pub try_i64 : ℤ → Option ℤ
try_i64 z = if in_signed (2 ^ 63) z then some z else none

abbrev pub try_i128 : ℤ → Option ℤ
try_i128 z = if in_signed (2 ^ 127) z then some z else none

abbrev pub try_u64 : ℤ → Option ℕ
try_u64 (pos n) = if ltb n (2 ^ 64) then some n else none
try_u64 (negsuc n) = none

unfoldable pub to_i64 : IntValue → Option ℤ
to_i64 (IntValue.i8 v) = some v
to_i64 (IntValue.u8 v) = some (pos v)
to_i64 (IntValue.i16 v) = some v
to_i64 (IntValue.u16 v) = some (pos v)
to_i64 (IntValue.i32 v) = some v
to_i64 (IntValue.u32 v) = some (pos v)
to_i64 (IntValue.i64 v) = some v
to_i64 (IntValue.u64 v) = try_i64 (pos v)
to_i64 (IntValue.i128 v) = try_i64 v
to_i64 (IntValue.u128 v) = try_i64 (pos v)

unfoldable pub to_u64 : IntValue → Option ℕ
to_u64 (IntValue.i8 v) = try_u64 v
to_u64 (IntValue.u8 v) = some v
to_u64 (IntValue.i16 v) = try_u64 v
to_u64 (IntValue.u16 v) = some v
to_u64 (IntValue.i32 v) = try_u64 v
to_u64 (IntValue.u32 v) = some v
to_u64 (IntValue.i64 v) = try_u64 v
to_u64 (IntValue.u64 v) = some v
to_u64 (IntValue.i128 v) = try_u64 v
to_u64 (IntValue.u128 v) = try_u64 (pos v)

unfoldable pub to_i128 : IntValue → Option ℤ
to_i128 (IntValue.i8 v) = some v
to_i128 (IntValue.u8 v) = some (pos v)
to_i128 (IntValue.i16 v) = some v
to_i128 (IntValue.u16 v) = some (pos v)
to_i128 (IntValue.i32 v) = some v
to_i128 (IntValue.u32 v) = some (pos v)
to_i128 (IntValue.i64 v) = some v
to_i128 (IntValue.u64 v) = some (pos v)
to_i128 (IntValue.i128 v) = some v
to_i128 (IntValue.u128 v) = try_i128 (pos v)
