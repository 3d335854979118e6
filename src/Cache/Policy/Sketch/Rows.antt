-- ===== src/Cache/Policy/Sketch/Rows.antt =====
-- What the rows of a sketch count.
use fibre.Base.{
  ℕ, zero, suc, ◌+◌, ◌<◌, ◌≤◌, ◌≡◌, refl, arith, min, List, [], ◌∷◌, some, true, false,
  if◌then◌else◌, ◌==◌, length, get_elem?, set, length-set, get_elem?-set_self, get_elem?-set_ne,
  add64, add64_lem, u64_mod, ℕ_discrete, ◌∙◌, sym, ap,
}
use fibre.Cache.Policy.Sketch.{increment_rows, estimate_rows, zeros}

-- How many of the keys have a place in row `i`; a key is given by its places.
abbrev pub hits : ℕ → ℕ → List (ℕ → ℕ) → ℕ
hits i j [] = 0
hits i j (place ∷ places) = (if place i == j then 1 else 0) + hits i j places

-- From row `i` on, the rows have a counter for each place below `width`, with the hits there.
abbrev pub Rows : ℕ → ℕ → List (ℕ → ℕ) → List (List ℕ) → Type 0
Rows width i places [] = Unit
Rows width i places (row ∷ rows) =
    ((j : ℕ) → j < width → get_elem? row j ≡ some (hits i j places))
    × (length row ≡ width)
    × Rows width (suc i) places rows

hits-le : (i j : ℕ) (places : List (ℕ → ℕ)) → hits i j places ≤ length places
hits-le i j [] = omega arith
hits-le i j (place ∷ places) = ground (arith, hits-le i j places)

-- The row of one key more.
row_lem :
    (width : ℕ) (place : ℕ → ℕ) (i : ℕ) (places : List (ℕ → ℕ)) (row : List ℕ)
    → place i < width
    → length row ≡ width
    → ((j : ℕ) → j < width → get_elem? row j ≡ some (hits i j places))
    → (j : ℕ) → j < width
    → get_elem? (set row (place i) (hits i (place i) places + 1)) j
      ≡ some (hits i j (place ∷ places))
row_lem width place i places row inside len counts j below = elim (ℕ_discrete (place i) j) [
  | yes same ↦
      let hit : (place i == j) ≡ true = ground arith in
      let more : hits i (place i) places + 1 ≡ 1 + hits i j places = rw same (omega arith) in
      rw hit (
        ap (λ k. get_elem? (set row (place i) (hits i (place i) places + 1)) k) (sym same)
        ∙ (get_elem?-set_self row (place i) (hits i (place i) places + 1) (omega arith)
            ∙ ap (λ n. some n) more))
  | no other ↦
      let miss : (place i == j) ≡ false = ground arith in
      let less : hits i j places ≡ 0 + hits i j places = omega arith in
      rw miss (
        get_elem?-set_ne row (place i) j (hits i (place i) places + 1) other
        ∙ (counts j below ∙ ap (λ n. some n) less))
]

pub increment_rows_lem :
    (width : ℕ) (place : ℕ → ℕ) (i : ℕ) (places : List (ℕ → ℕ)) (rows : List (List ℕ))
    → ((k : ℕ) → place k < width)
    → length places + 1 < u64_mod
    → Rows width i places rows
    → (after : List (List ℕ)) × (increment_rows place i rows ≡ some after)
      × (length after ≡ length rows)
      × Rows width i (place ∷ places) after
unfolding increment_rows
increment_rows_lem width place i places [] inside few r = ([], refl, refl, tt)
increment_rows_lem width place i places (row ∷ rows) inside few (counts, len, r) =
    let (rest, runs, long, s) = increment_rows_lem width place (suc i) places rows inside few r in
    let count = hits i (place i) places in
    let here = counts (place i) (inside i) in
    let plus : add64 count 1 ≡ count + 1 =
      add64_lem count 1 (omega (arith, hits-le i (place i) places)) in
    (
      set row (place i) (count + 1) ∷ rest,
      rw (increment_rows, here, runs, plus) refl,
      ap suc long,
      (
        row_lem width place i places row (inside i) len counts,
        length-set row (place i) (count + 1) ∙ len,
        s,
      ),
    )

-- A key is in its place of each row at least as often as it was counted.
abbrev pub Counted : (ℕ → ℕ) → ℕ → List (ℕ → ℕ) → Type 0
Counted place n places = (i : ℕ) → n ≤ hits i (place i) places

pub estimate_rows_lem :
    (width n bound : ℕ) (place : ℕ → ℕ) (i : ℕ) (places : List (ℕ → ℕ)) (rows : List (List ℕ))
    → ((k : ℕ) → place k < width)
    → Counted place n places
    → n ≤ bound
    → Rows width i places rows
    → (result : ℕ) × (estimate_rows place i bound rows ≡ some result)
      × (n ≤ result)
      × (result ≤ bound)
      × (0 < length rows → result ≤ length places)
unfolding estimate_rows
estimate_rows_lem width n bound place i places [] inside counted le r =
    (bound, refl, le, omega arith, λ pos. absurd (omega arith))
estimate_rows_lem width n bound place i places (row ∷ rows) inside counted le (counts, len, r) =
    let count = hits i (place i) places in
    let here = counts (place i) (inside i) in
    let enough = counted i in
    let (result, runs, low, high, _) =
      estimate_rows_lem width n (min bound count) place (suc i) places rows inside counted
        (omega arith) r in
    (
      result,
      rw (estimate_rows, here) runs,
      low,
      omega arith,
      λ pos. omega (arith, hits-le i (place i) places),
    )

pub get_elem?-zeros : (width j : ℕ) → j < width → get_elem? (zeros width) j ≡ some 0
get_elem?-zeros zero j lt = absurd (omega arith)
get_elem?-zeros (suc n) zero lt = refl
get_elem?-zeros (suc n) (suc j) lt = get_elem?-zeros n j (omega arith)

pub length-zeros : (width : ℕ) → length (zeros width) ≡ width
length-zeros zero = refl
length-zeros (suc n) = ap suc (length-zeros n)
