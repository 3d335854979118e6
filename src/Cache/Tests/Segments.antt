-- ===== src/Cache/Tests/Segments.antt =====
-- SLRU, on segments that its unit tests build.
use fibre.Base.{ℕ, ◌-◌, [], ◌∷◌, ◌++◌, arith, refl, ℕ_discrete}
use fibre.Base.HashMap
use fibre.Cache.Recency.{Entries, RecencyList, total}
use fibre.Cache.Recency.Plain.{plain, Is}
use fibre.Cache.Recency.Eviction.{Evicts, due, kept}
use fibre.Cache.Policy.Slru
use fibre.Cache.Policy.Slru.{SlruState}
use fibre.Cache.Policy.Slru.Maintain.{Segments, demoted, stays, maintain_capacities-Segments}
use fibre.Cache.Policy.Slru.Touch.{Touched, touch-Touched}
use fibre.Cache.Policy.Slru.Evict.{evict_items_lem}

abbrev lists : RecencyList ℕ ℕ_discrete
lists = plain ℕ_discrete

abbrev prob : Entries ℕ
prob = (5, 1) ∷ (6, 2) ∷ []

abbrev prot : Entries ℕ
prot = (1, 1) ∷ (2, 3) ∷ []

abbrev slru : SlruState (Entries ℕ)
slru = record { probationary = prob; protected = prot }

slru-Segments : Segments lists slru prob prot
unfolding HashMap.get ℕ_discrete
slru-Segments = record {
  prob = record { same = refl; distinct = (refl, (refl, tt)); fits = omega arith };
  prot = record { same = refl; distinct = (refl, (refl, tt)); fits = omega arith };
  apart = λ k h. ground arith;
  fits = omega arith;
}

maintain_capacities-Segments_example :
    Segments lists (Slru.maintain_capacities lists 3 slru) (prob ++ demoted 3 prot) (stays 3 prot)
maintain_capacities-Segments_example =
    maintain_capacities-Segments lists 3 slru prob prot slru-Segments

touch-Touched_example :
    let (found, t) = Slru.touch lists 6 2 4 slru in
    (xs' : Entries ℕ) × (ys' : Entries ℕ) × Touched lists 4 6 2 prob prot found xs' ys'
    × Segments lists t xs' ys'
touch-Touched_example = touch-Touched lists 6 2 slru prob prot slru-Segments (omega arith) 4

evict_items_lem_example :
    let (victims, freed, t) = Slru.evict_items lists 4 3 slru in
    let old = prob ++ demoted 3 prot in
    let young = stays 3 prot in
    let xs' = kept 4 old in
    let ys' = kept (4 - total (due 4 old)) young in
    Is ℕ_discrete t.probationary xs'
    × Is ℕ_discrete t.protected ys'
    × Evicts 4 (old ++ young) victims freed (xs' ++ ys')
evict_items_lem_example = evict_items_lem lists 4 3 slru prob prot slru-Segments
