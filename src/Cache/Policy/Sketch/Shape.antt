-- ===== src/Cache/Policy/Sketch/Shape.antt =====
-- The shape of a sketch, which every operation keeps.
use fibre.Base.{
  ℕ, suc, ◌-◌, ◌<◌, ◌≡◌, refl, List, [], ◌∷◌, map, some, if_cases, if◌then◌else◌, leb, length, set,
  length-set, get_elem?-lt, add64, u64_mod, min, max, ◌*◌, ◌%◌, ◌/◌, subst, sym, ap, ◌∙◌,
}
use fibre.Channels.Ring.Refine.{IsCapacity}
use fibre.Cache.Policy.Sketch.{
  CountMinSketch, new, depth, index, increment, estimate, increment_rows, estimate_rows, reset,
  halve,
}
use fibre.Cache.Policy.Sketch.Rows.{length-zeros}
use fibre.Channels.Ring.{next_power_of_two}
use fibre.Cache.Policy.Sketch.Counts.{index-lt, new-IsCapacity}

abbrev pub AllLength : ℕ → List (List ℕ) → Type 0
AllLength width [] = Unit
AllLength width (row ∷ rows) = (length row ≡ width) × AllLength width rows

pub record Shaped (s : CountMinSketch) : Type 0 where
  pub width : ℕ
  pub power : IsCapacity width
  pub mask : s.mask ≡ width - 1
  pub rows : AllLength width s.counters

pub new-Shaped : (threshold : ℕ) → Shaped (new threshold)
unfolding new
new-Shaped threshold =
    let width = next_power_of_two 63 1 (max (threshold * 2 % u64_mod / depth) 256) in
    let long = length-zeros width in
    record {
      width = width;
      power = new-IsCapacity threshold;
      mask = refl;
      rows = (long, (long, (long, (long, tt))));
    }

increment_rows-AllLength :
    (width : ℕ) (place : ℕ → ℕ) (i : ℕ) (rows : List (List ℕ))
    → ((k : ℕ) → place k < width)
    → AllLength width rows
    → (after : List (List ℕ)) × (increment_rows place i rows ≡ some after) × AllLength width after
unfolding increment_rows
increment_rows-AllLength width place i [] inside r = ([], refl, tt)
increment_rows-AllLength width place i (row ∷ rows) inside (len, r) =
    let (rest, runs, s) = increment_rows-AllLength width place (suc i) rows inside r in
    let (count, here) = get_elem?-lt row (place i) (rw len (inside i)) in
    (
      set row (place i) (add64 count 1) ∷ rest,
      rw (increment_rows, here, runs) refl,
      (length-set row (place i) (add64 count 1) ∙ len, s),
    )

estimate_rows-AllLength :
    (width : ℕ) (place : ℕ → ℕ) (i bound : ℕ) (rows : List (List ℕ))
    → ((k : ℕ) → place k < width)
    → AllLength width rows
    → (n : ℕ) × (estimate_rows place i bound rows ≡ some n)
unfolding estimate_rows
estimate_rows-AllLength width place i bound [] inside r = (bound, refl)
estimate_rows-AllLength width place i bound (row ∷ rows) inside (len, r) =
    let (count, here) = get_elem?-lt row (place i) (rw len (inside i)) in
    let (n, runs) = estimate_rows-AllLength width place (suc i) (min bound count) rows inside r in
    (n, rw (estimate_rows, here) runs)

length-halve : (row : List ℕ) → length (halve row) ≡ length row
unfolding halve
length-halve [] = refl
length-halve (x ∷ xs) = ap suc (length-halve xs)

halve-AllLength :
    (width : ℕ) (rows : List (List ℕ)) → AllLength width rows → AllLength width (map halve rows)
halve-AllLength width [] r = tt
halve-AllLength width (row ∷ rows) (len, r) = (length-halve row ∙ len, halve-AllLength width rows r)

module _ {K : Type 0} (hash : K → ℕ) (key : K) (s : CountMinSketch) (k : Shaped s) where
  inside : (i : ℕ) → index s.mask (hash key) i < k.width
  inside i =
      subst (λ m. index m (hash key) i < k.width) (sym k.mask)
        (index-lt k.width (hash key) i k.power)

  pub increment-Shaped : (t : CountMinSketch) × (increment hash key s ≡ some t) × Shaped t
  unfolding increment reset
  increment-Shaped =
      let (after, runs, rows) =
        increment_rows-AllLength k.width (index s.mask (hash key)) 0 s.counters inside k.rows in
      let t = record s { counters = after; increments = add64 s.increments 1 } in
      (
        if leb t.capacity t.increments then reset t else t,
        rw (increment, runs) refl,
        if_cases Shaped (leb t.capacity t.increments)
            (λ full. record {
              width = k.width;
              power = k.power;
              mask = k.mask;
              rows = halve-AllLength k.width after rows;
            })
            (λ room. record { width = k.width; power = k.power; mask = k.mask; rows = rows }),
      )

  pub estimate-Shaped : (n : ℕ) × (estimate hash key s ≡ some n)
  unfolding estimate
  estimate-Shaped =
      estimate_rows-AllLength k.width (index s.mask (hash key)) 0 (u64_mod - 1) s.counters inside
        k.rows
