-- ===== src/Stats/Histogram/Counts.antt =====
-- The running counts of the buckets, and the number of the recorded values.
use fibre.Base.{ℕ, suc, ◌+◌, if◌then◌else◌, ltb, ◌≤◌, ◌≡◌, refl, arith, List, [], ◌∷◌, leb, length}
use fibre.Stats.Histogram.{bucket_index}
use fibre.Stats.Histogram.Tally.{Sorted, count_at}
use fibre.Stats.Histogram.Records.{smallest, largest, tally}

-- How many values the buckets count, in all and under an index.
abbrev pub counted : List (ℕ × ℕ) → ℕ
counted [] = 0
counted ((i, c) ∷ rest) = c + counted rest

abbrev pub below : ℕ → List (ℕ × ℕ) → ℕ
below index [] = 0
below index ((i, c) ∷ rest) = (if ltb i index then c else 0) + below index rest

-- How many values have their bucket at an index or after it.
abbrev pub from_index : ℕ → List ℕ → ℕ
from_index low [] = 0
from_index low (v ∷ vs) = (if leb low (bucket_index v) then 1 else 0) + from_index low vs

pub from_index-le-length : (low : ℕ) (vs : List ℕ) → from_index low vs ≤ length vs
from_index-le-length low [] = omega arith
from_index-le-length low (v ∷ vs) = ground (arith, from_index-le-length low vs)

from_index-tally :
    (low i : ℕ) (vs : List ℕ) → low ≤ i → tally i vs + from_index (suc i) vs ≤ from_index low vs
from_index-tally low i [] le = omega arith
from_index-tally low i (v ∷ vs) le = ground (arith, from_index-tally low i vs le)

pub counted-le-from_index :
    (low : ℕ) (bs : List (ℕ × ℕ)) (vs : List ℕ)
    → Sorted low bs
    → ((i : ℕ) → low ≤ i → count_at i bs ≤ tally i vs)
    → counted bs ≤ from_index low vs
counted-le-from_index low [] vs s few = omega arith
counted-le-from_index low ((j, c) ∷ rest) vs (a, p, b, s) few =
    let own : c ≤ tally j vs = ground (arith, few j a) in
    let later =
      counted-le-from_index (suc j) rest vs s
        (λ i after. ground (arith, few i (omega arith), after)) in
    omega (arith, own, later, from_index-tally low j vs a)

pub below-first : (low i : ℕ) (bs : List (ℕ × ℕ)) → Sorted low bs → i ≤ low → below i bs ≡ 0
below-first low i [] s le = refl
below-first low i ((j, c) ∷ rest) (a, p, b, s) le =
    ground (arith, below-first (suc j) i rest s (omega arith))

pub smallest-le-largest : (vs : List ℕ) → smallest vs ≤ largest vs
smallest-le-largest [] = omega arith
smallest-le-largest (v ∷ []) = omega arith
smallest-le-largest (v ∷ w ∷ vs) = omega (arith, smallest-le-largest (w ∷ vs))
