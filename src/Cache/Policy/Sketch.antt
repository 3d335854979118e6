-- ===== src/Cache/Policy/Sketch.antt =====
-- The module `cms` of cache/src/policy/tinylfu.rs: the count-min sketch of W-TinyLFU. The hash of a key, of the
-- crate ahash, is a parameter. A counter out of range is a panic: `none`.
pub mod Rows
pub mod Counts
pub mod Shape
use fibre.Base.{
  ℕ, zero, suc, ◌+◌, ◌-◌, ◌*◌, ◌/◌, ◌^◌, ◌%◌, min, max, List, [], ◌∷◌, map, Option, none, some,
  true, false, leb, if◌then◌else◌, get_elem?, set, add64, u64_mod,
}
use fibre.Channels.Ring.{next_power_of_two}
use Prim.Native.Nat.{bit_and, bit_or, bit_xor}

-- `fmix64` of cache/src/hpolicy.rs.
unfoldable pub fmix64 : ℕ → ℕ
fmix64 h =
    let a = bit_xor h (h / 2 ^ 33) in
    let b = a * 18397679294719823053 % u64_mod in
    let c = bit_xor b (b / 2 ^ 33) in
    let d = c * 14181476777654086739 % u64_mod in bit_xor d (d / 2 ^ 33)

pub record CountMinSketch : Type 0 where
  pub counters : List (List ℕ)
  pub mask : ℕ
  pub increments : ℕ
  pub capacity : ℕ

abbrev pub depth : ℕ
depth = 4

abbrev pub zeros : ℕ → List ℕ
zeros zero = []
zeros (suc n) = 0 ∷ zeros n

unfoldable pub new : ℕ → CountMinSketch
new reset_threshold =
    let width = next_power_of_two 63 1 (max (reset_threshold * 2 % u64_mod / depth) 256) in
    record {
      counters = zeros width ∷ zeros width ∷ zeros width ∷ zeros width ∷ [];
      mask = width - 1;
      increments = 0;
      capacity = reset_threshold;
    }

-- The index of a hash in row `i`.
unfoldable pub index : ℕ → ℕ → ℕ → ℕ
index mask hash i =
    let h = fmix64 hash in
    let h2 = bit_or (h / 2 ^ 32) 1 in bit_and (add64 h (i * h2 % u64_mod)) mask

-- One is added to the counter of each row, from row `i` on, at its place.
unfoldable pub increment_rows : (ℕ → ℕ) → ℕ → List (List ℕ) → Option (List (List ℕ))
increment_rows place i [] = some []
increment_rows place i (row ∷ rows) = elim (get_elem? row (place i)) [
  | none ↦ none
  | some count ↦ elim (increment_rows place (suc i) rows) [
    | none ↦ none
    | some rest ↦ some (set row (place i) (add64 count 1) ∷ rest)
  ]
]

unfoldable pub halve : List ℕ → List ℕ
halve = map (λ count. count / 2)

unfoldable pub reset : CountMinSketch → CountMinSketch
reset s = record s { counters = map halve s.counters; increments = 0 }

unfoldable pub clear : CountMinSketch → CountMinSketch
clear s = record s { counters = map (map (λ count. 0)) s.counters; increments = 0 }

unfoldable pub estimate_rows : (ℕ → ℕ) → ℕ → ℕ → List (List ℕ) → Option ℕ
estimate_rows place i min_count [] = some min_count
estimate_rows place i min_count (row ∷ rows) = elim (get_elem? row (place i)) [
  | none ↦ none
  | some count ↦ estimate_rows place (suc i) (min min_count count) rows
]

module _ {K : Type 0} (hash : K → ℕ) where
  unfoldable pub increment : K → CountMinSketch → Option CountMinSketch
  increment key s = elim (increment_rows (index s.mask (hash key)) 0 s.counters) [
    | none ↦ none
    | some counters ↦
        let t = record s { counters = counters; increments = add64 s.increments 1 } in
        some (if leb t.capacity t.increments then reset t else t)
  ]

  unfoldable pub estimate : K → CountMinSketch → Option ℕ
  estimate key s = estimate_rows (index s.mask (hash key)) 0 (u64_mod - 1) s.counters
