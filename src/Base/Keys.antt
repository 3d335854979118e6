-- ===== src/Base/Keys.antt =====
-- Lists of keys that hold no key twice.
use Prim.Native.Nat.{ℕ, zero, suc, ◌<◌, ◌≤◌}
use mathlib.Core.Logic.{ite}
use mathlib.Core.Path.{◌≡◌, refl}
use mathlib.Core.List.{List, [], ◌∷◌, ◌++◌}
use mathlib.Core.Option.{Option, none, some}
use mathlib.Core.Option
use mathlib.Core.Bool.{Bool, true, false}
use native.Mathlib.Omega.{arith}
use fibre.Base.Lists.{length, get_elem?, remove_at}

module _ {ℓ} {K : Type ℓ} (dec : Discrete K) where
  unfoldable pub contains : K → List K → Bool
  contains k [] = false
  contains k (j ∷ xs) = elim (dec j k) [ yes _ ↦ true | no _ ↦ contains k xs ]

  abbrev pub Unique : List K → Type 0
  Unique [] = Unit {0}
  Unique (k ∷ xs) = (contains k xs ≡ false) × Unique xs

  -- `retain(|k| k != key)`.
  unfoldable pub retain_ne : K → List K → List K
  retain_ne k [] = []
  retain_ne k (j ∷ xs) = ite (dec j k) (retain_ne k xs) (j ∷ retain_ne k xs)

  -- `iter().position(|k| k == key)`.
  unfoldable pub position : K → List K → Option ℕ
  position k [] = none
  position k (j ∷ xs) = elim (dec j k) [ yes _ ↦ some 0 | no _ ↦ Option.map suc (position k xs) ]

  pub contains-retain_ne :
      (q k : K) (xs : List K)
      → contains q (retain_ne k xs) ≡ (elim (dec k q) [ yes _ ↦ false | no _ ↦ contains q xs ])
  unfolding contains retain_ne
  contains-retain_ne q k [] = ground arith
  contains-retain_ne q k (j ∷ xs) = ground (arith, contains-retain_ne q k xs)

  pub Unique-retain_ne : (k : K) (xs : List K) → Unique xs → Unique (retain_ne k xs)
  unfolding retain_ne
  Unique-retain_ne k [] u = tt
  Unique-retain_ne k (j ∷ xs) u =
      ground (arith, Unique-retain_ne k xs u.1, contains-retain_ne j k xs)

  pub retain_ne_absent : (k : K) (xs : List K) → contains k xs ≡ false → retain_ne k xs ≡ xs
  unfolding contains retain_ne
  retain_ne_absent k [] h = refl
  retain_ne_absent k (j ∷ xs) h = ground (arith, retain_ne_absent k xs)

  pub length-retain_ne-le : (k : K) (xs : List K) → length (retain_ne k xs) ≤ length xs
  unfolding retain_ne
  length-retain_ne-le k [] = omega arith
  length-retain_ne-le k (j ∷ xs) = ground (arith, length-retain_ne-le k xs)

  pub contains-append_one :
      (q k : K) (xs : List K)
      → contains q (xs ++ k ∷ []) ≡ (elim (dec k q) [ yes _ ↦ true | no _ ↦ contains q xs ])
  unfolding contains
  contains-append_one q k [] = ground arith
  contains-append_one q k (j ∷ xs) = ground (arith, contains-append_one q k xs)

  pub Unique-append_one :
      (k : K) (xs : List K) → Unique xs → contains k xs ≡ false → Unique (xs ++ k ∷ [])
  unfolding contains
  Unique-append_one k [] u h = (refl, tt)
  Unique-append_one k (j ∷ xs) u h =
      ground (arith, Unique-append_one k xs u.1, contains-append_one j k xs)

  -- Removing the element at an index that holds `k` is removing `k`.
  pub remove_at-retain_ne :
      (k : K) (xs : List K) (i : ℕ)
      → Unique xs
      → get_elem? xs i ≡ some k
      → remove_at xs i ≡ retain_ne k xs
  unfolding contains retain_ne
  remove_at-retain_ne k [] i u h = cc
  remove_at-retain_ne k (j ∷ xs) zero u h = ground (arith, retain_ne_absent k xs)
  remove_at-retain_ne k (j ∷ xs) (suc i) u h =
      ground (arith, remove_at-retain_ne k xs i u.1 h, contains_of_get_elem? xs i)
    where
      contains_of_get_elem? : (ys : List K) (n : ℕ) → get_elem? ys n ≡ some k → contains k ys ≡ true
      contains_of_get_elem? [] n e = cc
      contains_of_get_elem? (y ∷ ys) zero e = ground arith
      contains_of_get_elem? (y ∷ ys) (suc n) e = ground (arith, contains_of_get_elem? ys n e)

  pub position-get_elem? :
      (k : K) (xs : List K)
      → contains k xs ≡ true
      → (i : ℕ) × (position k xs ≡ some i) × (get_elem? xs i ≡ some k) × (i < length xs)
  unfolding contains position
  position-get_elem? k [] h = cc
  position-get_elem? k (j ∷ xs) h = elim (dec j k) [
    | yes p ↦ (0, ground arith, ground arith, ground arith)
    | no p ↦
        let (i, found, at, inside) = position-get_elem? k xs (ground arith) in
        (suc i, ground (arith, found), at, omega arith)
  ]

  pub contains_empty : (k : K) (xs : List K) → length xs ≡ 0 → contains k xs ≡ false
  unfolding contains
  contains_empty k [] e = refl
  contains_empty k (x ∷ xs) e = absurd (omega arith)
