-- ===== src/Cache/Tests/Choices.antt =====
-- The random policy, with a source that takes the first key.
use fibre.Base.{ℕ, ◌≡◌, true, List, [], ◌∷◌, Option, none, some, arith, refl, ℕ_discrete}
use fibre.Base.HashMap
use fibre.Base.HashMap.{HashMap}
use fibre.Base.Keys.{contains}
use fibre.Cache.Policy.Contract.{Evicted}
use fibre.Cache.Policy.Random
use fibre.Cache.Policy.Random.{Chooser, evict_random}

abbrev first_of : List ℕ → Option ℕ
first_of [] = none
first_of (k ∷ ks) = some k

first_in : (j : ℕ) (ks : List ℕ) → contains ℕ_discrete j (j ∷ ks) ≡ true
unfolding contains
first_in j ks = ground arith

abbrev first_key : Chooser ℕ ℕ_discrete
first_key = record {
  Rng = Unit {0};
  choose = λ rng ks. (first_of ks, tt);
  choose_empty = λ rng. refl;
  choose_lem = λ rng j ks. (j, refl, first_in j ks);
}

abbrev tracked : HashMap ℕ ℕ
tracked = (4, 2) ∷ (5, 7) ∷ (6, 1) ∷ []

evict_random_example :
    (victims : List ℕ) × (freed : ℕ) × (left : HashMap ℕ ℕ) × (Random.evict first_key tt 3 tracked
      ≡ some (victims, freed, left))
    × Evicted ℕ_discrete 3
        (λ k. HashMap.get ℕ_discrete k tracked)
        (λ k. HashMap.get ℕ_discrete k left)
        victims
        freed
evict_random_example = evict_random first_key tt 3 tracked (omega arith)
