-- ===== src/Cache/Tests/Sketches.antt =====
-- A sketch that counted three keys, and W-TinyLFU with two entries in its window.
use fibre.Base.{
  ℕ, ◌*◌, ◌≡◌, ◌≤◌, ◌⊎◌, refl, arith, List, [], ◌∷◌, some, true, false, length, ℕ_discrete,
}
use fibre.Base.HashMap
use fibre.Cache.Recency.{Entries, RecencyList, refresh, has}
use fibre.Cache.Recency.Plain.{plain, Is}
use fibre.Cache.Policy.{AdmissionDecision, admit}
use fibre.Cache.Policy.Slru.Maintain.{Segments}
use fibre.Cache.Policy.Slru.Touch.{Touched}
use fibre.Cache.Policy.TinyLfu.{TinyLfuState, TinyLfuPolicy, on_admit, decision}
use fibre.Cache.Policy.TinyLfu.Contest.{Trimmed}
use fibre.Cache.Policy.TinyLfu.Window.{on_admit_lem}
use fibre.Cache.Policy.Sketch.Shape.{Shaped, new-Shaped}
use fibre.Cache.Policy.Sketch.{CountMinSketch, new, estimate, increment}
use fibre.Cache.Policy.Sketch.Counts.{counted, occurrences, estimate_lem}

abbrev sevenfold : ℕ → ℕ
sevenfold key = key * 7

abbrev three : List ℕ
three = 3 ∷ 5 ∷ 3 ∷ []

estimate_lem_example :
    (s : CountMinSketch) × (n : ℕ) × (counted ℕ_discrete sevenfold three (new 100) ≡ some s)
    × (estimate sevenfold 3 s ≡ some n)
    × (occurrences ℕ_discrete sevenfold 3 three ≤ n)
    × (n ≤ length three)
estimate_lem_example = estimate_lem ℕ_discrete sevenfold 100 three 3 (omega arith) (omega arith)

abbrev lists : RecencyList ℕ ℕ_discrete
lists = plain ℕ_discrete

abbrev entries : Entries ℕ
entries = (1, 1) ∷ (2, 1) ∷ []

abbrev probationary : Entries ℕ
probationary = (4, 5) ∷ []

abbrev protected : Entries ℕ
protected = (6, 4) ∷ []

-- The main segments are full.
abbrev policy : TinyLfuPolicy
policy = record { window_target_cost = 2; main_cache_cost = 9; main_prot_capacity = 8 }

abbrev cache : TinyLfuState (Entries ℕ)
cache = record {
  window = entries;
  main = record { probationary = probationary; protected = protected };
  sketch = new 100;
}

entries-Is : Is ℕ_discrete entries entries
unfolding HashMap.get ℕ_discrete
entries-Is = record { same = refl; distinct = (refl, (refl, tt)); fits = omega arith }

cache-Segments : Segments lists cache.main probationary protected
unfolding HashMap.get ℕ_discrete
cache-Segments = record {
  prob = record { same = refl; distinct = (refl, tt); fits = omega arith };
  prot = record { same = refl; distinct = (refl, tt); fits = omega arith };
  apart = λ k e. ground (arith, e);
  fits = omega arith;
}

on_admit_lem_example :
    (d : AdmissionDecision ℕ) × (t : TinyLfuState (Entries ℕ)) × (on_admit lists sevenfold policy 3
        1 cache
      ≡ some (d, t))
    × (increment sevenfold 3 cache.sketch ≡ some t.sketch)
    × Shaped t.sketch
    × (((d ≡ admit)
          × (t.window ≡ cache.window)
          × (ps' : Entries ℕ) × (qs' : Entries ℕ) × Touched lists 8 3 1 probationary protected true
              ps' qs'
          × Segments lists t.main ps' qs')
        ⊎ ((has ℕ_discrete 3 protected ≡ false)
            × (has ℕ_discrete 3 probationary ≡ false)
            × (kept : Entries ℕ) × (ps' : Entries ℕ) × (out : List ℕ) × Trimmed ℕ_discrete sevenfold
                policy t.sketch protected
                (refresh ℕ_discrete 3 1 entries)
                probationary
                kept
                ps'
                out
            × (d ≡ decision out)
            × Is ℕ_discrete t.window kept
            × Segments lists t.main ps' protected))
on_admit_lem_example =
    on_admit_lem lists sevenfold policy 3 1 cache entries probationary protected (new-Shaped 100)
      entries-Is cache-Segments (omega arith)
