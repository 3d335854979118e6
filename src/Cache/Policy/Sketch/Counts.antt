-- ===== src/Cache/Policy/Sketch/Counts.antt =====
-- What a sketch estimates.
use fibre.Base.{
  ℕ, suc, ◌+◌, ◌-◌, ◌*◌, ◌/◌, ◌%◌, ◌<◌, ◌≤◌, ◌≡◌, refl, arith, max, List, [], ◌∷◌, map, Option,
  none, some, false, leb, length, ite, add64, add64_lem, u64_mod, subst, sym, ap, ◌∙◌, ◌^◌,
}
use fibre.Channels.Ring.{next_power_of_two}
use fibre.Channels.Ring.Refine.{IsCapacity, pow-IsCapacity, next_power_of_two-pow}
use fibre.Cache.Policy.Sketch.{depth, CountMinSketch, new, index, fmix64, increment, estimate}
use fibre.Cache.Policy.Sketch.Rows.{
  Rows, Counted, increment_rows_lem, estimate_rows_lem, get_elem?-zeros, length-zeros,
}
use native.Mathlib.Nat.{mod-lt}
use Prim.Native.Nat.{bit_or}

pub index-lt : (width hash i : ℕ) → IsCapacity width → index (width - 1) hash i < width
unfolding index
index-lt width hash i c =
    let h = fmix64 hash in
    let x = add64 h (i * bit_or (h / 2 ^ 32) 1 % u64_mod) in
    subst (λ n. n < width) (sym (c.masks x)) (mod-lt x c.pos)

-- The width of a new sketch is a power of two.
pub new-IsCapacity :
    (threshold : ℕ)
    → IsCapacity (next_power_of_two 63 1 (max (threshold * 2 % u64_mod / depth) 256))
new-IsCapacity threshold =
    let wanted = max (threshold * 2 % u64_mod / depth) 256 in
    let (j, is_power, below, up, low) =
      next_power_of_two-pow 63 0 wanted (omega arith) (omega arith) in
    rw is_power (pow-IsCapacity j (omega arith))

module _ {K : Type 0} (dec : Discrete K) (hash : K → ℕ) where
  -- How often a key is in a list.
  abbrev pub occurrences : K → List K → ℕ
  occurrences key [] = 0
  occurrences key (k ∷ ks) = (ite (dec key k) 1 0) + occurrences key ks

  occurrences-le : (key : K) (ks : List K) → occurrences key ks ≤ length ks
  occurrences-le key [] = omega arith
  occurrences-le key (k ∷ ks) = ground (arith, occurrences-le key ks)

  -- The keys are counted one by one, the last of the list first.
  unfoldable pub counted : List K → CountMinSketch → Option CountMinSketch
  counted [] s = some s
  counted (k ∷ ks) s = elim (counted ks s) [ none ↦ none | some t ↦ increment hash k t ]

  record Sketched (threshold : ℕ) (s : CountMinSketch) (ks : List K) : Type 0 where
    width : ℕ
    power : IsCapacity width
    mask : s.mask ≡ width - 1
    capacity : s.capacity ≡ threshold
    increments : s.increments ≡ length ks
    depth : length s.counters ≡ 4
    rows : Rows width 0 (map (λ k. index s.mask (hash k)) ks) s.counters

  new-Sketched : (threshold : ℕ) → Sketched threshold (new threshold) []
  unfolding new
  new-Sketched threshold =
      let width = next_power_of_two 63 1 (max (threshold * 2 % u64_mod / depth) 256) in
      let zero_at = get_elem?-zeros width in
      let long = length-zeros width in
      record {
        width = width;
        power = new-IsCapacity threshold;
        mask = refl;
        capacity = refl;
        increments = refl;
        depth = refl;
        rows = (zero_at, long, (zero_at, long, (zero_at, long, (zero_at, long, tt))));
      }

  length-map : {A : Type 0} (f : K → A) (ks : List K) → length (map f ks) ≡ length ks
  length-map f [] = refl
  length-map f (k ∷ ks) = ap suc (length-map f ks)

  increment-Sketched :
      (threshold : ℕ) (key : K) (ks : List K) (s : CountMinSketch)
      → suc (length ks) < threshold
      → threshold < u64_mod
      → Sketched threshold s ks
      → (t : CountMinSketch) × (increment hash key s ≡ some t) × Sketched threshold t (key ∷ ks)
  unfolding increment
  increment-Sketched threshold key ks s few small k =
      let places = map (λ k. index s.mask (hash k)) ks in
      let (after, runs, long, rows) =
        increment_rows_lem k.width (index s.mask (hash key)) 0 places s.counters
          (λ i.
            subst (λ m. index m (hash key) i < k.width) (sym k.mask)
              (index-lt k.width (hash key) i k.power))
          (omega (arith, length-map (λ k. index s.mask (hash k)) ks)) k.rows in
      let more : add64 s.increments 1 ≡ suc (length ks) =
        rw k.increments (add64_lem (length ks) 1 (omega arith) ∙ omega arith) in
      let below : leb s.capacity (suc (length ks)) ≡ false = ground (arith, k.capacity, few) in
      (
        record s { counters = after; increments = suc (length ks) },
        rw (increment, runs, more, below) refl,
        record {
          width = k.width;
          power = k.power;
          mask = k.mask;
          capacity = k.capacity;
          increments = refl;
          depth = long ∙ k.depth;
          rows = rows;
        },
      )

  occurrences-Counted :
      (mask : ℕ) (key : K) (ks : List K)
      → Counted (index mask (hash key)) (occurrences key ks) (map (λ k. index mask (hash k)) ks)
  occurrences-Counted mask key [] i = omega arith
  occurrences-Counted mask key (k ∷ ks) i = elim (dec key k) [
    | yes same ↦
        let hit : index mask (hash k) i ≡ index mask (hash key) i =
          ap (λ (q : K). index mask (hash q) i) (sym same) in
        ground (arith, hit, occurrences-Counted mask key ks i)
    | no other ↦ ground (arith, occurrences-Counted mask key ks i)
  ]

  counted-Sketched :
      (threshold : ℕ) (ks : List K)
      → length ks < threshold
      → threshold < u64_mod
      → (s : CountMinSketch) × (counted ks (new threshold) ≡ some s) × Sketched threshold s ks
  unfolding counted
  counted-Sketched threshold [] few small = (new threshold, refl, new-Sketched threshold)
  counted-Sketched threshold (k ∷ ks) few small =
      let (s, runs, sketched) = counted-Sketched threshold ks (omega arith) small in
      let (t, runs', sketched') = increment-Sketched threshold k ks s few small sketched in
      (t, rw (counted, runs) runs', sketched')

  -- After fewer increments of a new sketch than the threshold at which it halves its counters, in whatever
  -- order and whatever the hash is, no counter is out of range, and the estimate of every key is at least
  -- the number of its increments and at most the number of all increments.
  pub estimate_lem :
      (threshold : ℕ) (ks : List K) (key : K)
      → length ks < threshold
      → threshold < u64_mod
      → (s : CountMinSketch) × (n : ℕ) × (counted ks (new threshold) ≡ some s)
        × (estimate hash key s ≡ some n)
        × (occurrences key ks ≤ n)
        × (n ≤ length ks)
  unfolding estimate
  estimate_lem threshold ks key few small =
      let (s, runs, k) = counted-Sketched threshold ks few small in
      let places = map (λ k. index s.mask (hash k)) ks in
      let long = length-map (λ k. index s.mask (hash k)) ks in
      let (n, estimates, low, high, all) =
        estimate_rows_lem k.width (occurrences key ks) (u64_mod - 1) (index s.mask (hash key)) 0
          places s.counters
          (λ i.
            subst (λ m. index m (hash key) i < k.width) (sym k.mask)
              (index-lt k.width (hash key) i k.power))
          (occurrences-Counted s.mask key ks) (omega (arith, occurrences-le key ks)) k.rows in
      (s, n, runs, estimates, low, omega (arith, long, all (omega (arith, k.depth))))
