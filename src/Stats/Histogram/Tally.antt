-- ===== src/Stats/Histogram/Tally.antt =====
-- Bucket lists, sorted by index, and the count that each index has in them.
use fibre.Base.{
  ℕ, suc, ◌+◌, ◌<◌, ◌≤◌, ◌≡◌, refl, sym, dec_lt, arith, ◌∙◌, ◌==◌, false, min, List, [], ◌∷◌,
  if◌then◌else◌, Bool-cases, inl, inr, ltb,
}
use fibre.Stats.Histogram.{add_to_bucket, merge_loop, u32_max, saturating_add}

-- The indices rise, from `low` on, and each count is positive and fits a `u32`.
abbrev pub Sorted : ℕ → List (ℕ × ℕ) → Type 0
Sorted low [] = Unit
Sorted low ((i, c) ∷ rest) = (low ≤ i) × (0 < c) × (c ≤ u32_max) × Sorted (suc i) rest

abbrev pub count_at : ℕ → List (ℕ × ℕ) → ℕ
count_at i [] = 0
count_at i ((j, c) ∷ rest) = if i == j then c else count_at i rest

Sorted-weaken : (low low' : ℕ) (bs : List (ℕ × ℕ)) → low' ≤ low → Sorted low bs → Sorted low' bs
Sorted-weaken low low' [] le s = tt
Sorted-weaken low low' ((i, c) ∷ rest) le (a, p, b, s) = (omega arith, p, b, s)

pub count_at-below : (low i : ℕ) (bs : List (ℕ × ℕ)) → Sorted low bs → i < low → count_at i bs ≡ 0
count_at-below low i [] s lt = refl
count_at-below low i ((j, c) ∷ rest) (a, p, b, s) lt =
    let other : (i == j) ≡ false = ground arith in
    rw other (count_at-below (suc j) i rest s (omega arith))

pub count_at-le : (low i : ℕ) (bs : List (ℕ × ℕ)) → Sorted low bs → count_at i bs ≤ u32_max
count_at-le low i [] s = omega arith
count_at-le low i ((j, c) ∷ rest) (a, p, b, s) = elim (Bool-cases (i == j)) [
  | inl same ↦ rw same b
  | inr other ↦ rw other (count_at-le (suc j) i rest s)
]

pub add_to_bucket-Sorted :
    (low j n : ℕ) (bs : List (ℕ × ℕ))
    → low ≤ j
    → 0 < n
    → n ≤ u32_max
    → Sorted low bs
    → Sorted low (add_to_bucket j n bs)
unfolding add_to_bucket
add_to_bucket-Sorted low j n [] le pos small s = (le, pos, small, tt)
add_to_bucket-Sorted low j n ((i, c) ∷ rest) le pos small (a, p, b, s) =
    elim (Bool-cases (i == j)) [
      | inl same ↦
          rw same (a, omega arith, (let h : min (c + n) u32_max ≤ u32_max = omega arith in h), s)
      | inr other ↦ elim (Bool-cases (ltb j i)) [
        | inl before ↦ rw (other, before) (le, pos, small, (ground arith, p, b, s))
        | inr after ↦
            rw (other, after)
              (a, p, b, add_to_bucket-Sorted (suc i) j n rest (ground arith) pos small s)
      ]
    ]

pub count_at-add_to_bucket :
    (low i j n : ℕ) (bs : List (ℕ × ℕ))
    → n ≤ u32_max
    → Sorted low bs
    → count_at i (add_to_bucket j n bs)
      ≡ (if i == j then saturating_add u32_max (count_at j bs) n else count_at i bs)
unfolding add_to_bucket
count_at-add_to_bucket low i j n [] small s = ground arith
count_at-add_to_bucket low i j n ((k, c) ∷ rest) small (a, p, b, s) =
    let later = count_at-add_to_bucket (suc k) i j n rest small s in
    let below = count_at-below (suc k) j rest s in ground (arith, later, below)

pub merge_loop_lem :
    (low : ℕ) (bs others : List (ℕ × ℕ))
    → Sorted 0 bs
    → Sorted low others
    → Sorted 0 (merge_loop bs others)
      × ((i : ℕ)
          → count_at i (merge_loop bs others)
            ≡ saturating_add u32_max (count_at i bs) (count_at i others))
unfolding merge_loop
merge_loop_lem low bs [] s t = (s, λ i. omega (arith, count_at-le 0 i bs s))
merge_loop_lem low bs ((j, n) ∷ others) s (a, pos, small, t) =
    let (sorted, counts) =
      merge_loop_lem (suc j) (add_to_bucket j n bs) others
        (add_to_bucket-Sorted 0 j n bs (omega arith) pos small s) t in
    (
      sorted,
      λ i. ground (
        arith,
        counts i,
        count_at-add_to_bucket 0 i j n bs small s,
        count_at-below (suc j) j others t,
      ),
    )

-- Their first entries are the same when the counts at these indices are.
heads :
    (i c j d : ℕ) (xs ys : List (ℕ × ℕ))
    → 0 < c
    → Sorted (suc i) xs
    → 0 < d
    → Sorted (suc j) ys
    → count_at i ((i, c) ∷ xs) ≡ count_at i ((j, d) ∷ ys)
    → count_at j ((i, c) ∷ xs) ≡ count_at j ((j, d) ∷ ys)
    → (i ≡ j) × (c ≡ d)
heads i c j d xs ys p s p' t at_i at_j = elim (dec_lt i j) [
  | yes before ↦ absurd (ground (arith, at_i, count_at-below (suc j) i ys t (omega arith)))
  | no not_before ↦ elim (dec_lt j i) [
    | yes after ↦ absurd (ground (arith, at_j, count_at-below (suc i) j xs s (omega arith)))
    | no not_after ↦ (omega arith, ground (arith, at_i, at_j))
  ]
]

-- Sorted lists with the same counts are the same.
pub Sorted-unique :
    (low : ℕ) (xs ys : List (ℕ × ℕ))
    → Sorted low xs
    → Sorted low ys
    → ((i : ℕ) → count_at i xs ≡ count_at i ys)
    → xs ≡ ys
Sorted-unique low [] [] s t same = refl
Sorted-unique low [] ((j, d) ∷ ys) s (a, p, b, t) same = absurd (ground (arith, same j))
Sorted-unique low ((i, c) ∷ xs) [] (a, p, b, s) t same = absurd (ground (arith, same i))
Sorted-unique low ((i, c) ∷ xs) ((j, d) ∷ ys) (a, p, b, s) (a', p', b', t) same =
    let (first, count) = heads i c j d xs ys p s p' t (same i) (same j) in
    let rest : xs ≡ ys = Sorted-unique (suc i) xs ys s (rw first t) (λ k.
      elim (Bool-cases (k == i)) [
        | inl own ↦
            count_at-below (suc i) k xs s (ground arith)
            ∙ sym (count_at-below (suc j) k ys t (ground arith))
        | inr other ↦
            let other' : (k == j) ≡ false = rw first at other in rw (other, other') at (same k)
      ]) in
    cc
