-- ===== src/Stats/Histogram/Bounds.antt =====
-- Which values a bucket holds.
use fibre.Base.{
  ℕ, suc, ◌+◌, ◌-◌, ◌*◌, ◌/◌, ◌%◌, ◌^◌, ◌<◌, ◌≤◌, ◌≡◌, ◌↔◌, refl, sym, arith, ap, ◌∙◌, false, true,
  dec_lt, Option, some, ltb, leb, add64, u64_mod,
}
use fibre.Base.Bits.{pow_pos}
use fibre.Stats.Histogram.{bucket_index, bucket_bounds}
use fibre.Stats.Histogram.Octaves.{between, octave_lem}
use native.Mathlib.Nat.{
  two-pow-succ, mod-eq_of_lt, div-eq_of_lt-le, mod-add-div, mod-lt, mul-le-mul_right,
  pow-le-pow_right, le-div_iff_mul-le, div-lt_iff_lt-mul,
}

-- The powers of two around an octave, over the width of its buckets.
octave_width : (j : ℕ) → (2 ^ (3 + j) ≡ 8 * 2 ^ j) × (2 ^ suc (3 + j) ≡ 16 * 2 ^ j)
octave_width j =
    let places : 3 + j ≡ suc (suc (suc j)) = omega arith in
    let a = two-pow-succ j in
    let b = two-pow-succ (suc j) in
    let c = two-pow-succ (suc (suc j)) in
    let d = two-pow-succ (suc (suc (suc j))) in (rw places (omega arith), rw places (omega arith))

module _ (j s : ℕ) (top : j < 61) (sub : s < 8) where
  -- The first value of the bucket is a product below the next octave.
  start_bounds : (8 * 2 ^ j ≤ (8 + s) * 2 ^ j) × ((8 + s) * 2 ^ j + 2 ^ j ≤ 16 * 2 ^ j)
  start_bounds =
      let last = mul-le-mul_right (2 ^ j) (let h : 9 + s ≤ 16 = omega arith in h) in
      (mul-le-mul_right (2 ^ j) (let h : 8 ≤ 8 + s = omega arith in h), grind (arith, last))

  index_of :
      (n : ℕ) → (8 + s) * 2 ^ j ≤ n → n < (8 + s) * 2 ^ j + 2 ^ j → bucket_index n ≡ (3 + j) * 8 + s
  unfolding bucket_index
  index_of n le lt =
      let (low, high) = octave_width j in
      let (first, last) = start_bounds in
      let octave = octave_lem (3 + j) n (omega arith) (omega arith) (omega arith) in
      let quotient : n / 2 ^ j ≡ 8 + s =
        div-eq_of_lt-le (2 ^ j) le (let h : n < (8 + s + 1) * 2 ^ j = grind arith in h) in
      let large : ltb n 8 ≡ false = ground (arith, pow_pos j, first) in
      let place : 3 + j - 3 ≡ j = omega arith in rw (large, octave, place, quotient) (omega arith)

  bounds_of :
      bucket_bounds ((3 + j) * 8 + s) ≡ some ((8 + s) * 2 ^ j, (8 + s) * 2 ^ j + (2 ^ j - 1))
  unfolding bucket_bounds add64
  bounds_of =
      let (low, high) = octave_width j in
      let (first, last) = start_bounds in
      let most =
        pow-le-pow_right {n = 2} (omega arith) (let h : suc (3 + j) ≤ 64 = omega arith in h) in
      let large : ltb ((3 + j) * 8 + s) 8 ≡ false = ground arith in
      let octave : ((3 + j) * 8 + s) / 8 ≡ 3 + j = omega arith in
      let rest : ((3 + j) * 8 + s) % 8 ≡ s = omega arith in
      let wide : ltb (3 + j) 3 ≡ false = ground arith in
      let place : 3 + j - 3 ≡ j = omega arith in
      let shifts : leb 64 j ≡ false = ground arith in
      let small : (8 + s) * 2 ^ j % u64_mod ≡ (8 + s) * 2 ^ j =
        mod-eq_of_lt (omega (arith, pow_pos j)) in
      let whole : ((8 + s) * 2 ^ j + (2 ^ j - 1)) % u64_mod ≡ (8 + s) * 2 ^ j + (2 ^ j - 1) =
        mod-eq_of_lt (omega (arith, pow_pos j)) in
      rw (large, octave, rest, wide, place, shifts, small, whole) refl

-- A value of at least 8 lies in the part `s` of the octave `3 + j`.
record Placed (n : ℕ) : Type 0 where
  j : ℕ
  s : ℕ
  top : j < 61
  sub : s < 8
  start : (8 + s) * 2 ^ j ≤ n
  stop : n < (8 + s) * 2 ^ j + 2 ^ j

placed : (n : ℕ) → 8 ≤ n → n < u64_mod → Placed n
placed n large fits =
    let (k, below, le, lt) = between 64 n (omega arith) fits in
    elim (dec_lt k 3) [
      | yes low ↦ absurd (
          omega
            (arith, pow-le-pow_right {n = 2} (omega arith) (let h : suc k ≤ 3 = omega arith in h)))
      | no high ↦
          let j = k - 3 in
          let places : k ≡ 3 + j = omega arith in
          let (octave, next) = octave_width j in
          let q = n / 2 ^ j in
          let le' : 8 * 2 ^ j ≤ n = omega (arith, octave, rw places at le) in
          let lt' : n < 16 * 2 ^ j = omega (arith, next, rw places at lt) in
          let q_low : 8 ≤ q = (le-div_iff_mul-le (pow_pos j)).1 le' in
          let q_high : q < 16 = (div-lt_iff_lt-mul (pow_pos j)).1 lt' in
          let back : 8 + (q - 8) ≡ q = omega arith in
          let split = mod-add-div n (2 ^ j) in
          let rest = mod-lt n (pow_pos j) in
          record {
            j = j;
            s = q - 8;
            top = omega arith;
            sub = omega arith;
            start = rw back (grind (arith, split));
            stop = rw back (grind (arith, split, rest));
          }
    ]

small_bounds : (ns : ℕ) → ns < 8 → bucket_bounds (bucket_index ns) ≡ some (ns, ns)
unfolding bucket_index bucket_bounds
small_bounds ns small = let below : ltb ns 8 ≡ true = ground arith in rw (below, below) refl

-- The bucket of a value has bounds, the value is within them, and they differ by an eighth of the lower
-- one at most.
pub bucket_bounds-bucket_index :
    (ns : ℕ)
    → ns < u64_mod
    → (lower : ℕ) × (upper : ℕ) × (bucket_bounds (bucket_index ns) ≡ some (lower, upper))
      × (lower ≤ ns)
      × (ns ≤ upper)
      × ((upper - lower) * 8 ≤ lower)
bucket_bounds-bucket_index ns fits = elim (dec_lt ns 8) [
  | yes small ↦ (ns, ns, small_bounds ns small, omega arith, omega arith, omega arith)
  | no large ↦
      let p = placed ns (omega arith) fits in
      let (first, last) = start_bounds p.j p.s p.top p.sub in
      (
        (8 + p.s) * 2 ^ p.j,
        (8 + p.s) * 2 ^ p.j + (2 ^ p.j - 1),
        rw (index_of p.j p.s p.top p.sub ns p.start p.stop) (bounds_of p.j p.s p.top p.sub),
        p.start,
        omega (arith, p.stop, pow_pos p.j),
        omega (arith, first, pow_pos p.j),
      )
]

same_bounds :
    {o : Option (ℕ × ℕ)} {a b c d : ℕ} → o ≡ some (a, b) → o ≡ some (c, d) → (a ≡ c) × (b ≡ d)
same_bounds h k = (cc, cc)

-- The bounds of the bucket of a value are exact: the values within them are those of this bucket.
pub bucket_index-bucket_bounds :
    (ns lower upper other : ℕ)
    → ns < u64_mod
    → other < u64_mod
    → bucket_bounds (bucket_index ns) ≡ some (lower, upper)
    → (bucket_index other ≡ bucket_index ns) ↔ ((lower ≤ other) × (other ≤ upper))
bucket_index-bucket_bounds ns lower upper other fits fits' bounds = (
  λ same.
      let (low, high, known, le, ge, _) = bucket_bounds-bucket_index other fits' in
      let (first, last) = same_bounds (rw same at known) bounds in (omega arith, omega arith),
  λ within.
      let (le, ge) = within in
      elim (dec_lt ns 8) [
        | yes small ↦
            let (first, last) = same_bounds (small_bounds ns small) bounds in
            ap bucket_index (let h : other ≡ ns = omega arith in h)
        | no large ↦
            let p = placed ns (omega arith) fits in
            let here = index_of p.j p.s p.top p.sub ns p.start p.stop in
            let (first, last) = same_bounds (bounds_of p.j p.s p.top p.sub) (rw here at bounds) in
            index_of p.j p.s p.top p.sub other (omega arith) (omega (arith, pow_pos p.j)) ∙ sym here
      ],
)
