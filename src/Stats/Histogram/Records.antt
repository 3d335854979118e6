-- ===== src/Stats/Histogram/Records.antt =====
-- What a histogram says of the values that it recorded.
use fibre.Base.{
  ℕ, suc, ◌+◌, ◌<◌, ◌≡◌, refl, sym, arith, ◌==◌, false, true, min, max, List, [], ◌∷◌, ◌++◌,
  if◌then◌else◌, length, length-append, append-nil, add64, u64_mod,
}
use fibre.Stats.Histogram.{Histogram, new, add_ns, merge, bucket_index, u64_max, u32_max}
use fibre.Stats.Histogram.Tally.{
  Sorted, count_at, count_at-add_to_bucket, add_to_bucket-Sorted, Sorted-unique, merge_loop_lem,
}

abbrev pub total : List ℕ → ℕ
total [] = 0
total (v ∷ vs) = v + total vs

-- The smallest and the largest value, 0 for no value.
abbrev pub smallest : List ℕ → ℕ
smallest [] = 0
smallest (v ∷ []) = v
smallest (v ∷ w ∷ vs) = min v (smallest (w ∷ vs))

abbrev pub largest : List ℕ → ℕ
largest [] = 0
largest (v ∷ vs) = max v (largest vs)

-- How many of the values have a bucket.
abbrev pub tally : ℕ → List ℕ → ℕ
tally i [] = 0
tally i (v ∷ vs) = (if i == bucket_index v then 1 else 0) + tally i vs

pub record Records (h : Histogram) (vs : List ℕ) : Type 0 where
  pub few : length vs < u64_mod
  pub count : h.count ≡ length vs
  pub sum : h.sum_ns ≡ min (total vs) u64_max
  pub least : h.min_ns ≡ smallest vs
  pub most : h.max_ns ≡ largest vs
  pub sorted : Sorted 0 h.buckets
  pub counts : (i : ℕ) → count_at i h.buckets ≡ min (tally i vs) u32_max

pub total-append : (vs ws : List ℕ) → total (vs ++ ws) ≡ total vs + total ws
total-append [] ws = omega arith
total-append (v ∷ vs) ws = omega (arith, total-append vs ws)

pub largest-append : (vs ws : List ℕ) → largest (vs ++ ws) ≡ max (largest vs) (largest ws)
largest-append [] ws = omega arith
largest-append (v ∷ vs) ws = omega (arith, largest-append vs ws)

pub tally-append : (i : ℕ) (vs ws : List ℕ) → tally i (vs ++ ws) ≡ tally i vs + tally i ws
tally-append i [] ws = omega arith
tally-append i (v ∷ vs) ws = omega (arith, tally-append i vs ws)

pub smallest-append :
    (v w : ℕ) (vs ws : List ℕ)
    → smallest ((v ∷ vs) ++ (w ∷ ws)) ≡ min (smallest (v ∷ vs)) (smallest (w ∷ ws))
smallest-append v w [] ws = refl
smallest-append v w (u ∷ vs) ws = omega (arith, smallest-append u w vs ws)

pub new-Records : Records new []
new-Records = record {
  few = omega arith;
  count = refl;
  sum = refl;
  least = refl;
  most = refl;
  sorted = tt;
  counts = λ i. refl;
}

smallest-add :
    (ns : ℕ) (vs : List ℕ)
    → (if length vs == 0 then ns else min (smallest vs) ns) ≡ smallest (ns ∷ vs)
smallest-add ns [] = refl
smallest-add ns (w ∷ vs) = ground arith

largest-add :
    (ns : ℕ) (vs : List ℕ)
    → (if length vs == 0 then ns else max (largest vs) ns) ≡ largest (ns ∷ vs)
largest-add ns [] = omega arith
largest-add ns (w ∷ vs) = ground arith

-- Adding a value to a histogram of some values gives a histogram of these values and the new one.
pub add_ns-Records :
    (ns : ℕ) (h : Histogram) (vs : List ℕ)
    → Records h vs
    → suc (length vs) < u64_mod
    → Records (add_ns ns h) (ns ∷ vs)
unfolding add_ns add64
add_ns-Records ns h vs r few = record {
  few = few;
  count = rw r.count (omega (arith, few));
  sum = rw r.sum (omega arith);
  least = rw (r.count, r.least) (smallest-add ns vs);
  most = rw (r.count, r.most) (largest-add ns vs);
  sorted =
      add_to_bucket-Sorted 0 (bucket_index ns) 1 h.buckets (omega arith) (omega arith) (omega arith)
        r.sorted;
  counts = λ i. ground (
    arith,
    r.counts i,
    r.counts (bucket_index ns),
    count_at-add_to_bucket 0 i (bucket_index ns) 1 h.buckets (omega arith) r.sorted,
  );
}

-- A histogram is determined by what it recorded.
pub Records-unique :
    (h g : Histogram) (vs ws : List ℕ)
    → Records h vs
    → Records g ws
    → length vs ≡ length ws
    → total vs ≡ total ws
    → smallest vs ≡ smallest ws
    → largest vs ≡ largest ws
    → ((i : ℕ) → tally i vs ≡ tally i ws)
    → h ≡ g
Records-unique h g vs ws r q len sums least most tallies =
    let buckets : h.buckets ≡ g.buckets =
      Sorted-unique 0 h.buckets g.buckets r.sorted q.sorted
        (λ i. omega (arith, r.counts i, q.counts i, tallies i)) in
    let count : h.count ≡ g.count = omega (arith, r.count, q.count, len) in
    let sum : h.sum_ns ≡ g.sum_ns = omega (arith, r.sum, q.sum, sums) in
    let lowest : h.min_ns ≡ g.min_ns = omega (arith, r.least, q.least, least) in
    let highest : h.max_ns ≡ g.max_ns = omega (arith, r.most, q.most, most) in cc

-- Merging keeps all that both recorded.
pub merge-Records :
    (h g : Histogram) (vs ws : List ℕ)
    → Records h vs
    → Records g ws
    → length (vs ++ ws) < u64_mod
    → Records (merge h g) (vs ++ ws)
unfolding merge add64
merge-Records h g vs [] r q few =
    let none_there : (g.count == 0) ≡ true = rw q.count refl in rw (none_there, append-nil vs) r
merge-Records h g [] (w ∷ ws) r q few =
    let others : (g.count == 0) ≡ false = ground (arith, q.count) in
    let no_own : (h.count == 0) ≡ true = rw r.count refl in rw (others, no_own) q
merge-Records h g (v ∷ vs) (w ∷ ws) r q few =
    let others : (g.count == 0) ≡ false = ground (arith, q.count) in
    let own : (h.count == 0) ≡ false = ground (arith, r.count) in
    let (sorted, counts) = merge_loop_lem 0 h.buckets g.buckets r.sorted q.sorted in
    rw (others, own)
      (record {
        few = few;
        count = omega (arith, r.count, q.count, few, length-append (v ∷ vs) (w ∷ ws));
        sum = omega (arith, r.sum, q.sum, total-append (v ∷ vs) (w ∷ ws));
        least = rw (r.least, q.least) (sym (smallest-append v w vs ws));
        most = rw (r.most, q.most) (sym (largest-append (v ∷ vs) (w ∷ ws)));
        sorted = sorted;
        counts =
            λ i. omega (arith, counts i, r.counts i, q.counts i, tally-append i (v ∷ vs) (w ∷ ws));
      })
