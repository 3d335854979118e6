-- ===== src/Stats/Histogram/Octaves.antt =====
-- The highest binary digit of a number.
use fibre.Base.{
  ℕ, zero, suc, ◌-◌, ◌/◌, ◌^◌, ◌<◌, ◌≤◌, ◌≡◌, refl, arith, ap, ◌∙◌, ◌==◌, false, dec_lt,
}
use fibre.Base.Bits.{pow_pos}
use fibre.Stats.Histogram.{bit_length, leading_zeros}
use native.Mathlib.Nat.{two-pow-succ}

-- A number is between two neighbouring powers of two.
pub between : (f n : ℕ) → 0 < n → n < 2 ^ f → (k : ℕ) × (k < f) × (2 ^ k ≤ n) × (n < 2 ^ suc k)
between zero n pos h = absurd (omega arith)
between (suc f) n pos h = elim (dec_lt n (2 ^ f)) [
  | yes small ↦ let (k, lt, le, below) = between f n pos small in (k, omega arith, le, below)
  | no large ↦ (f, omega arith, omega arith, h)
]

bit_length-zero : (f : ℕ) → bit_length f 0 ≡ 0
unfolding bit_length
bit_length-zero zero = refl
bit_length-zero (suc f) = refl

bit_length-suc : (f n : ℕ) → 0 < n → bit_length (suc f) n ≡ suc (bit_length f (n / 2))
unfolding bit_length
bit_length-suc f n pos =
    let nonzero : (n == 0) ≡ false = ground arith in rw (bit_length, nonzero) refl

bit_length-between : (f k n : ℕ) → k < f → 2 ^ k ≤ n → n < 2 ^ suc k → bit_length f n ≡ suc k
bit_length-between zero k n lt le below = absurd (omega arith)
bit_length-between (suc f) zero n lt le below =
    let one : n ≡ 1 = omega arith in
    rw one (bit_length-suc f 1 (omega arith) ∙ ap suc (bit_length-zero f))
bit_length-between (suc f) (suc k) n lt le below =
    let double = two-pow-succ k in
    let more = two-pow-succ (suc k) in
    bit_length-suc f n (omega (arith, pow_pos (suc k)))
    ∙ ap suc (bit_length-between f k (n / 2) (omega arith) (omega arith) (omega arith))

-- `63 - ns.leading_zeros()` is the place of the highest digit.
pub octave_lem : (k n : ℕ) → k < 64 → 2 ^ k ≤ n → n < 2 ^ suc k → 63 - leading_zeros n ≡ k
unfolding leading_zeros
octave_lem k n lt le below = omega (arith, bit_length-between 64 k n lt le below)
