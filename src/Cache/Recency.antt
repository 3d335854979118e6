-- ===== src/Cache/Recency.antt =====
-- What `LruList` (cache/src/policy/lru_list.rs) promises its clients. A list is shown as its
-- entries in order of age, the oldest (its tail) first, each with its cost.
pub mod Entries
pub mod Eviction
pub mod Plain
use fibre.Base.{
  ℕ, suc, ◌+◌, ◌<◌, ◌≤◌, ◌≡◌, refl, ◌≢◌, Bool, List, [], ◌∷◌, ◌++◌, Option, none, some, arith, ite,
  map, u64_mod, head?, tail, length, is_some, if◌then◌else◌, length-append, append-nil, inl, inr,
  ◌⊎◌, append_assoc, Option-cases, ap,
}
use fibre.Base.HashMap

abbrev pub Entries : Type 0 → Type 0
Entries K = List (K × ℕ)

abbrev pub total : {K : Type 0} → Entries K → ℕ
total [] = 0
total ((k, c) ∷ xs) = c + total xs

abbrev pub keys : {K : Type 0} → Entries K → List K
keys [] = []
keys ((k, c) ∷ xs) = k ∷ keys xs

module _ {K : Type 0} (dec : Discrete K) where
  -- The cost of a tracked key.
  abbrev pub cost_of : K → Entries K → Option ℕ
  cost_of = HashMap.get dec

  abbrev pub has : K → Entries K → Bool
  has k xs = is_some (cost_of k xs)

  abbrev pub without : K → Entries K → Entries K
  without = HashMap.remove dec

  -- `k` becomes the youngest entry, at cost `c`.
  unfoldable pub refresh : K → ℕ → Entries K → Entries K
  refresh k c xs = without k xs ++ (k, c) ∷ []

  -- A tracked key becomes the youngest entry, at its cost.
  unfoldable pub promote : K → Entries K → Entries K
  promote k xs = elim (cost_of k xs) [ none ↦ xs | some c ↦ refresh k c xs ]

  -- No key is tracked twice.
  abbrev pub Distinct : Entries K → Type 0
  Distinct [] = Unit {0}
  Distinct ((k, c) ∷ xs) = (cost_of k xs ≡ none) × Distinct xs

-- The operations of `LruList` that the policies call. `pop_back` and `remove` return their result
-- with the new list; `touch` is `lookup.get` with `touch_index`, and says whether the key was there.
pub record RecencyList (K : Type 0) (dec : Discrete K) : Type 1 where
  pub Repr : Type 0
  pub Shows : Repr → Entries K → Type 0
  pub new : Repr
  pub size : Repr → ℕ
  pub contains : K → Repr → Bool
  pub current_total_cost : Repr → ℕ
  pub tail_key : Repr → Option K
  pub push_front : K → ℕ → Repr → Repr
  pub push_new : K → ℕ → Repr → Repr
  pub touch : K → ℕ → Repr → Bool × Repr
  pub move_to_front : K → Repr → Repr
  pub pop_back : Repr → Option (K × ℕ) × Repr
  pub remove : K → Repr → Option ℕ × Repr
  pub clear : Repr → Repr
  pub new_lem : Shows new []
  pub Shows-Distinct : (l : Repr) (xs : Entries K) → Shows l xs → Distinct dec xs
  pub size_lem : (l : Repr) (xs : Entries K) → Shows l xs → length xs ≤ size l
  pub contains_lem : (k : K) (l : Repr) (xs : Entries K) → Shows l xs → contains k l ≡ has dec k xs
  pub cost_lem : (l : Repr) (xs : Entries K) → Shows l xs → current_total_cost l ≡ total xs
  pub fits_lem : (l : Repr) (xs : Entries K) → Shows l xs → total xs < u64_mod
  pub tail_lem : (l : Repr) (xs : Entries K) → Shows l xs → tail_key l ≡ head? (keys xs)
  pub push_front_lem :
      (k : K) (c : ℕ) (l : Repr) (xs : Entries K)
      → Shows l xs
      → total (without dec k xs) + c < u64_mod
      → Shows (push_front k c l) (refresh dec k c xs)
  pub push_new_lem :
      (k : K) (c : ℕ) (l : Repr) (xs : Entries K)
      → Shows l xs
      → cost_of dec k xs ≡ none
      → total xs + c < u64_mod
      → Shows (push_new k c l) (xs ++ (k, c) ∷ [])
  pub touch_lem :
      (k : K) (c : ℕ) (l : Repr) (xs : Entries K)
      → Shows l xs
      → total (without dec k xs) + c < u64_mod
      → ((touch k c l).0 ≡ has dec k xs)
        × Shows (touch k c l).1 (if has dec k xs then refresh dec k c xs else xs)
  pub move_to_front_lem :
      (k : K) (l : Repr) (xs : Entries K)
      → Shows l xs
      → Shows (move_to_front k l) (promote dec k xs)
  pub pop_back_lem :
      (l : Repr) (xs : Entries K)
      → Shows l xs
      → ((pop_back l).0 ≡ head? xs) × Shows (pop_back l).1 (tail xs)
  pub remove_lem :
      (k : K) (l : Repr) (xs : Entries K)
      → Shows l xs
      → ((remove k l).0 ≡ cost_of dec k xs) × Shows (remove k l).1 (without dec k xs)
  pub clear_lem : (l : Repr) → Shows (clear l) []
