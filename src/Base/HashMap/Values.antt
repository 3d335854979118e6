-- ===== src/Base/HashMap/Values.antt =====
-- Changing a value in place, and sums over the values.
use mathlib.Core.Logic.{ite, ◌⊎◌, inl, inr}
use mathlib.Core.Path.{◌≡◌, refl}
use mathlib.Core.List.{[], ◌∷◌}
use mathlib.Core.Option.{Option, none, some}
use mathlib.Core.Option
use native.Mathlib.Omega.{arith}
use Prim.Native.Nat.{ℕ, ◌+◌, ◌≤◌}
use fibre.Base.HashMap.{HashMap, get, remove, insert, get-remove}

module _ {ℓ} {K V : Type ℓ} where
  -- The sum of a cost over the values.
  abbrev pub sum_of : (V → ℕ) → HashMap K V → ℕ
  sum_of cost [] = 0
  sum_of cost ((k, v) ∷ m) = cost v + sum_of cost m

module _ {ℓ} {K V : Type ℓ} (dec : Discrete K) where
  -- A change through `get_mut`.
  unfoldable pub modify : K → (V → V) → HashMap K V → HashMap K V
  modify k f [] = []
  modify k f ((j, v) ∷ m) = ite (dec j k) ((j, f v) ∷ m) ((j, v) ∷ modify k f m)

  pub get-modify :
      (q k : K) (f : V → V) (m : HashMap K V)
      → get dec q (modify k f m) ≡ ite (dec k q) (Option.map f (get dec q m)) (get dec q m)
  unfolding modify get
  get-modify q k f [] = ground arith
  get-modify q k f ((j, v) ∷ m) = ground (arith, get-modify q k f m)

  pub sum_of-modify :
      (k : K) (cost : V → ℕ) (f : V → V) (m : HashMap K V)
      → ((v : V) → cost (f v) ≡ cost v)
      → sum_of cost (modify k f m) ≡ sum_of cost m
  unfolding modify
  sum_of-modify k cost f [] h = refl
  sum_of-modify k cost f ((j, v) ∷ m) h = ground (arith, sum_of-modify k cost f m h, h v)

  pub sum_of-modify-get :
      (k : K) (cost : V → ℕ) (f : V → V) (m : HashMap K V) (v : V)
      → get dec k m ≡ some v
      → sum_of cost (modify k f m) + cost v ≡ sum_of cost m + cost (f v)
  unfolding get modify
  sum_of-modify-get k cost f [] v h = cc
  sum_of-modify-get k cost f ((j, w) ∷ m) v h = ground (arith, sum_of-modify-get k cost f m v)

  pub sum_of-remove-le :
      (k : K) (cost : V → ℕ) (m : HashMap K V) → sum_of cost (remove dec k m) ≤ sum_of cost m
  unfolding remove
  sum_of-remove-le k cost [] = omega arith
  sum_of-remove-le k cost ((j, v) ∷ m) = ground (arith, sum_of-remove-le k cost m)

  pub sum_of-remove :
      (k : K) (cost : V → ℕ) (m : HashMap K V) (v : V)
      → get dec k m ≡ some v
      → sum_of cost (remove dec k m) + cost v ≤ sum_of cost m
  unfolding get remove
  sum_of-remove k cost [] v h = cc
  sum_of-remove k cost ((j, w) ∷ m) v h =
      ground (arith, sum_of-remove k cost m v, sum_of-remove-le k cost m)

  pub sum_of-insert-le :
      (k : K) (cost : V → ℕ) (v : V) (m : HashMap K V)
      → sum_of cost (insert dec k v m) ≤ sum_of cost m + cost v
  unfolding insert
  sum_of-insert-le k cost v m = omega (arith, sum_of-remove-le k cost m)

  -- Each key has one entry.
  abbrev pub Distinct : HashMap K V → Type ℓ
  Distinct [] = Unit
  Distinct ((k, v) ∷ m) = (get dec k m ≡ none) × Distinct m

  absent-remove :
      (j k : K) (m : HashMap K V) → get dec j m ≡ none → get dec j (remove dec k m) ≡ none
  unfolding get remove
  absent-remove j k [] h = refl
  absent-remove j k ((i, v) ∷ m) h = ground (arith, absent-remove j k m)

  remove_first :
      (k j : K) (v : V) (m : HashMap K V)
      → (remove dec k ((j, v) ∷ m) ≡ remove dec k m)
        ⊎ (remove dec k ((j, v) ∷ m) ≡ (j, v) ∷ remove dec k m)
  unfolding remove
  remove_first k j v m = elim (dec j k) [
    | yes e ↦ inl (ground (arith, e))
    | no ne ↦ inr (ground (arith, ne))
  ]

  pub Distinct-remove : (k : K) (m : HashMap K V) → Distinct m → Distinct (remove dec k m)
  unfolding remove
  Distinct-remove k [] d = d
  Distinct-remove k ((j, v) ∷ m) (new, d) = elim (remove_first k j v m) [
    | inl gone ↦ rw gone (Distinct-remove k m d)
    | inr stays ↦ rw stays (absent-remove j k m new, Distinct-remove k m d)
  ]

  pub Distinct-insert : (k : K) (v : V) (m : HashMap K V) → Distinct m → Distinct (insert dec k v m)
  unfolding insert
  Distinct-insert k v m d = (ground (arith, get-remove dec k k m), Distinct-remove k m d)

  modify_first :
      (k j : K) (f : V → V) (v : V) (m : HashMap K V)
      → (modify k f ((j, v) ∷ m) ≡ (j, f v) ∷ m) ⊎ (modify k f ((j, v) ∷ m) ≡ (j, v) ∷ modify k f m)
  unfolding modify
  modify_first k j f v m = elim (dec j k) [
    | yes e ↦ inl (ground (arith, e))
    | no ne ↦ inr (ground (arith, ne))
  ]

  absent-modify :
      (j k : K) (f : V → V) (m : HashMap K V) → get dec j m ≡ none → get dec j (modify k f m) ≡ none
  absent-modify j k f m h = ground (arith, h, get-modify j k f m)

  pub Distinct-modify : (k : K) (f : V → V) (m : HashMap K V) → Distinct m → Distinct (modify k f m)
  unfolding modify
  Distinct-modify k f [] d = d
  Distinct-modify k f ((j, v) ∷ m) (new, d) = elim (modify_first k j f v m) [
    | inl here ↦ rw here (new, d)
    | inr later ↦ rw later (absent-modify j k f m new, Distinct-modify k f m d)
  ]

  pub remove_absent :
      (k : K) (cost : V → ℕ) (m : HashMap K V)
      → get dec k m ≡ none
      → sum_of cost (remove dec k m) ≡ sum_of cost m
  unfolding get remove
  remove_absent k cost [] h = refl
  remove_absent k cost ((j, v) ∷ m) h = ground (arith, remove_absent k cost m)

  -- Removing a key takes its cost out of the sum.
  pub sum_of-remove-eq :
      (k : K) (cost : V → ℕ) (m : HashMap K V) (v : V)
      → Distinct m
      → get dec k m ≡ some v
      → sum_of cost (remove dec k m) + cost v ≡ sum_of cost m
  unfolding get remove
  sum_of-remove-eq k cost [] v d h = cc
  sum_of-remove-eq k cost ((j, w) ∷ m) v (new, d) h = elim (dec j k) [
    | yes e ↦ ground (arith, e, h, remove_absent k cost m (ground (arith, e, new)))
    | no ne ↦ ground (arith, ne, h, sum_of-remove-eq k cost m v d (ground (arith, ne, h)))
  ]
