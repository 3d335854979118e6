-- ===== src/Stats/Histogram/Quantile.antt =====
-- The estimate of a quantile.
use fibre.Base.{
  ℕ, suc, false, ◌∙◌, ◌+◌, ◌⊎◌, true, add64_lem, ◌-◌, ◌/◌, ◌<◌, ◌≤◌, ◌≡◌, refl, ap, arith, ◌==◌,
  min, max, List, [], ◌∷◌, Option, none, some, Bool-cases, inl, inr, leb, length, add64, u64_mod,
}
use fibre.Stats.Histogram.{Histogram, bucket_index, bucket_bounds, quantile, quantile_loop}
use fibre.Stats.Histogram.Bounds.{bucket_bounds-bucket_index}
use fibre.Stats.Histogram.Tally.{Sorted, count_at, count_at-below}
use fibre.Stats.Histogram.Records.{Records, smallest, largest, tally}
use fibre.Stats.Histogram.Counts.{
  smallest-le-largest, counted, below, from_index-le-length, counted-le-from_index, below-first,
}

-- Each value fits a `u64`.
abbrev pub Fit : List ℕ → Type 0
Fit [] = Unit
Fit (v ∷ vs) = (v < u64_mod) × Fit vs

abbrev HasBounds : ℕ → Type 0
HasBounds i =
    (lower : ℕ) × (upper : ℕ) × (bucket_bounds i ≡ some (lower, upper))
    × (lower ≤ upper)
    × (upper < u64_mod)

bucket_bounds-fit : (i lower upper : ℕ) → bucket_bounds i ≡ some (lower, upper) → upper < u64_mod
unfolding bucket_bounds add64
bucket_bounds-fit i lower upper h = ground (arith, h)

abbrev AllBounds : List (ℕ × ℕ) → Type 0
AllBounds [] = Unit
AllBounds ((i, c) ∷ rest) = HasBounds i × AllBounds rest

tally-HasBounds : (i : ℕ) (vs : List ℕ) → Fit vs → 0 < tally i vs → HasBounds i
tally-HasBounds i [] fit pos = absurd (omega arith)
tally-HasBounds i (v ∷ vs) (fits, fit) pos = elim (Bool-cases (i == bucket_index v)) [
  | inl here ↦
      let same : i ≡ bucket_index v = ground arith in
      let (lower, upper, bounds, first, last, _) = bucket_bounds-bucket_index v fits in
      let fit' = bucket_bounds-fit (bucket_index v) lower upper bounds in
      rw same (lower, upper, bounds, omega (arith, first, last), fit')
  | inr other ↦ tally-HasBounds i vs fit (ground arith)
]

counted-AllBounds :
    (low : ℕ) (bs : List (ℕ × ℕ))
    → Sorted low bs
    → ((i : ℕ) → 0 < count_at i bs → HasBounds i)
    → AllBounds bs
counted-AllBounds low [] s known = tt
counted-AllBounds low ((j, c) ∷ rest) (a, p, b, s) known = (
  known j (ground arith),
  counted-AllBounds (suc j) rest s (λ i pos. elim (Bool-cases (i == j)) [
    | inl same ↦ absurd (omega (arith, count_at-below (suc j) i rest s (ground arith)))
    | inr other ↦ known i (rw other pos)
  ]),
)

-- The bucket in which the counts reach a rank, and its middle, clamped, as the estimate.
pub record Held (target seen : ℕ) (h : Histogram) (bs : List (ℕ × ℕ)) (ns : ℕ) : Type 0 where
  pub index : ℕ
  pub lower : ℕ
  pub upper : ℕ
  pub bounds : bucket_bounds index ≡ some (lower, upper)
  pub before : seen + below index bs < target
  pub reached : target ≤ seen + below index bs + count_at index bs
  pub middle : ns ≡ min (max (lower + (upper - lower) / 2) h.min_ns) h.max_ns

-- What the search returns: the largest value when the counts do not reach the rank.
abbrev pub Estimates : ℕ → ℕ → Histogram → List (ℕ × ℕ) → ℕ → Type 0
Estimates target seen h bs ns =
    ((seen + counted bs < target) × (ns ≡ h.max_ns)) ⊎ Held target seen h bs ns

later-Estimates :
    (target seen i c ns : ℕ) (h : Histogram) (rest : List (ℕ × ℕ))
    → Sorted (suc i) rest
    → Estimates target (seen + c) h rest ns
    → Estimates target seen h ((i, c) ∷ rest) ns
later-Estimates target seen i c ns h rest s (inl (short, most)) = inl (omega arith, most)
later-Estimates target seen i c ns h rest s (inr e) =
    let after : i < e.index =
      ground (arith, e.before, e.reached, count_at-below (suc i) e.index rest s) in
    inr (record {
      index = e.index;
      lower = e.lower;
      upper = e.upper;
      bounds = e.bounds;
      before = ground (arith, after, e.before);
      reached = ground (arith, after, e.reached);
      middle = e.middle;
    })

skip_bucket :
    (target seen i c : ℕ) (h : Histogram) (rest : List (ℕ × ℕ))
    → seen + c < target
    → seen + c < u64_mod
    → quantile_loop target seen h ((i, c) ∷ rest) ≡ quantile_loop target (seen + c) h rest
unfolding quantile_loop
skip_bucket target seen i c h rest short few =
    let sum = add64_lem seen c few in
    let more : leb target (seen + c) ≡ false = ground (arith, short) in rw (sum, more) refl

quantile_loop-Estimates :
    (target seen low : ℕ) (h : Histogram) (bs : List (ℕ × ℕ))
    → h.min_ns ≤ h.max_ns
    → AllBounds bs
    → Sorted low bs
    → seen < target
    → seen + counted bs < u64_mod
    → (ns : ℕ) × (quantile_loop target seen h bs ≡ some ns) × Estimates target seen h bs ns
unfolding quantile_loop
quantile_loop-Estimates target seen low h [] le all s early few =
    (h.max_ns, refl, inl (omega arith, refl))
quantile_loop-Estimates target seen low h ((i, c) ∷ rest) le
      ((lower, upper, bounds, ordered, fit), all) (a, p, b, s) early few =
    let sum = add64_lem seen c (omega arith) in
    elim (Bool-cases (leb target (seen + c))) [
      | inl found ↦
          let middle = add64_lem lower ((upper - lower) / 2) (omega arith) in
          let ends : leb h.min_ns h.max_ns ≡ true = ground arith in
          let first = below-first (suc i) i rest s (omega arith) in
          (
            min (max (lower + (upper - lower) / 2) h.min_ns) h.max_ns,
            rw (sum, found, bounds, middle, ends) refl,
            inr (record {
              index = i;
              lower = lower;
              upper = upper;
              bounds = bounds;
              before = ground (arith, first);
              reached = ground (arith, first, found);
              middle = refl;
            }),
          )
      | inr more ↦
          let (ns, runs, e) =
            quantile_loop-Estimates target (seen + c) (suc i) h rest le all s (ground arith)
              (omega arith) in
          let step = skip_bucket target seen i c h rest (ground arith) (omega arith) in
          (ns, step ∙ runs, later-Estimates target seen i c ns h rest s e)
    ]

Held-within :
    (target seen ns : ℕ) (h : Histogram) (bs : List (ℕ × ℕ))
    → h.min_ns ≤ h.max_ns
    → Estimates target seen h bs ns
    → (h.min_ns ≤ ns) × (ns ≤ h.max_ns)
Held-within target seen ns h bs le (inl (short, most)) = (omega (arith, most), omega (arith, most))
Held-within target seen ns h bs le (inr e) = (omega (arith, e.middle), omega (arith, e.middle))

-- On a histogram of recorded values that fit a `u64`, `quantile` does not panic, whatever rank its
-- floating-point product comes to. Without values there is no estimate. Else the estimate is between the
-- smallest and the largest value: it is the largest one when the rank, at least 1, is not less than the
-- number of values, or when the buckets, whose counts saturate, count fewer values than the rank, and else
-- the middle of the bucket in which their counts, added from the first bucket on, reach the rank, clamped
-- to the smallest and the largest value.
pub quantile_lem :
    (ceil_rank : ℕ → ℕ) (h : Histogram) (vs : List ℕ)
    → Records h vs
    → Fit vs
    → (result : Option ℕ) × (quantile ceil_rank h ≡ some result)
      × ((vs ≡ []) → result ≡ none)
      × (0 < length vs
          → (ns : ℕ) × (result ≡ some ns)
            × (smallest vs ≤ ns)
            × (ns ≤ largest vs)
            × (((h.count ≤ max (ceil_rank h.count) 1) × (ns ≡ largest vs))
                ⊎ ((max (ceil_rank h.count) 1 < h.count)
                    × Estimates (max (ceil_rank h.count) 1) 0 h h.buckets ns)))
unfolding quantile
quantile_lem ceil_rank h vs r fit = elim (Bool-cases (h.count == 0)) [
  | inl empty ↦
      (none, rw empty refl, λ e. refl, λ pos. absurd (ground (arith, pos, empty, r.count)))
  | inr used ↦
      let pos : 0 < length vs = ground (arith, used, r.count) in
      let le : h.min_ns ≤ h.max_ns = omega (arith, r.least, r.most, smallest-le-largest vs) in
      elim (Bool-cases (leb h.count (max (ceil_rank h.count) 1))) [
        | inl last ↦ (
          some h.max_ns,
          rw (used, last) refl,
          λ e. absurd (omega (arith, pos, ap length e)),
          λ p. (
            h.max_ns,
            refl,
            omega (arith, le, r.least),
            omega (arith, r.most),
            inl (ground (arith, last), r.most),
          ),
        )
        | inr within ↦
            let bounds =
              counted-AllBounds 0 h.buckets r.sorted
                (λ i found. tally-HasBounds i vs fit (omega (arith, found, r.counts i))) in
            let few =
              counted-le-from_index 0 h.buckets vs r.sorted
                (λ i after. omega (arith, r.counts i)) in
            let (ns, found, e) =
              quantile_loop-Estimates (max (ceil_rank h.count) 1) 0 0 h h.buckets le bounds r.sorted
                (omega arith) (omega (arith, few, r.few, from_index-le-length 0 vs)) in
            let (low, high) = Held-within (max (ceil_rank h.count) 1) 0 ns h h.buckets le e in
            (
              some ns,
              rw (used, within, found) refl,
              λ e. absurd (omega (arith, pos, ap length e)),
              λ p. (
                ns,
                refl,
                omega (arith, low, r.least),
                omega (arith, high, r.most),
                inr (ground (arith, within), e),
              ),
            )
      ]
]
