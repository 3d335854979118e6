-- ===== src/Stats/Histogram/Merge.antt =====
-- Histograms of parts of the values, put together.
use fibre.Base.{
  ℕ, ◌<◌, ◌≡◌, refl, sym, ap, append-nil, arith, List, [], ◌∷◌, ◌++◌, length, length-append,
  u64_mod,
}
use fibre.Stats.Histogram.{Histogram, new, add_ns, merge}
use fibre.Stats.Histogram.Records.{
  Records, smallest, new-Records, add_ns-Records, merge-Records, Records-unique, total-append,
  largest-append, tally-append, smallest-append,
}

-- The values are added one by one, the last of the list first.
unfoldable pub recorded : List ℕ → Histogram
recorded [] = new
recorded (v ∷ vs) = add_ns v (recorded vs)

-- Adding fewer than 2^64 values one by one to a new histogram gives their number, their sum (2^64 - 1 if
-- it is larger), the smallest and the largest of them, and a list of buckets that rises strictly, in
-- which the count of each bucket is the number of values that it holds (2^32 - 1 if it is larger).
pub recorded_lem : (vs : List ℕ) → length vs < u64_mod → Records (recorded vs) vs
unfolding recorded
recorded_lem [] few = new-Records
recorded_lem (v ∷ vs) few = add_ns-Records v (recorded vs) vs (recorded_lem vs (omega arith)) few

smallest-swap : (vs ws : List ℕ) → smallest (ws ++ vs) ≡ smallest (vs ++ ws)
smallest-swap [] ws = ap smallest (append-nil ws)
smallest-swap (v ∷ vs) [] = ap smallest (sym (append-nil (v ∷ vs)))
smallest-swap (v ∷ vs) (w ∷ ws) =
    omega (arith, smallest-append v w vs ws, smallest-append w v ws vs)

-- Of fewer than 2^64 values, in two parts, the merge of the histograms of the parts is the histogram of all
-- of them, in either order of the parts.
pub merge-recorded :
    (vs ws : List ℕ)
    → length (vs ++ ws) < u64_mod
    → (merge (recorded vs) (recorded ws) ≡ recorded (vs ++ ws))
      × (merge (recorded ws) (recorded vs) ≡ recorded (vs ++ ws))
merge-recorded vs ws few =
    let lengths = length-append vs ws in
    let swapped = length-append ws vs in
    let r = recorded_lem vs (omega arith) in
    let q = recorded_lem ws (omega arith) in
    let both = recorded_lem (vs ++ ws) few in
    let few' : length (ws ++ vs) < u64_mod = omega arith in
    (
      Records-unique (merge (recorded vs) (recorded ws)) (recorded (vs ++ ws)) (vs ++ ws) (vs ++ ws)
          (merge-Records (recorded vs) (recorded ws) vs ws r q few) both refl refl refl refl
          (λ i. refl),
      Records-unique (merge (recorded ws) (recorded vs)) (recorded (vs ++ ws)) (ws ++ vs) (vs ++ ws)
          (merge-Records (recorded ws) (recorded vs) ws vs q r few') both (omega arith)
          (omega (arith, total-append vs ws, total-append ws vs)) (smallest-swap vs ws)
          (omega (arith, largest-append vs ws, largest-append ws vs))
          (λ i. omega (arith, tally-append i vs ws, tally-append i ws vs)),
    )
