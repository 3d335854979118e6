-- ===== src/Cache/Policy/Hand.antt =====
-- Keys in an order, some of them marked in a table: what the sweeps of Clock and SIEVE count down.
use fibre.Base.{
  ℕ, zero, suc, ◌+◌, ◌<◌, ◌≤◌, ◌≡◌, List, [], ◌∷◌, none, some, arith, if◌then◌else◌, true, false,
  Bool, inl, inr, length, get_elem?, remove_at, Option-cases,
}
use fibre.Base.HashMap
use fibre.Base.HashMap.{HashMap}
use fibre.Base.HashMap.Values.{modify, get-modify}
use fibre.Base.Keys.{contains}

module _ {K : Type 0} (dec : Discrete K) where
  pub contains_get_elem? :
      (k : K) (xs : List K) (i : ℕ) → get_elem? xs i ≡ some k → contains dec k xs ≡ true
  unfolding contains
  contains_get_elem? k [] i e = cc
  contains_get_elem? k (x ∷ xs) zero e = ground arith
  contains_get_elem? k (x ∷ xs) (suc i) e = ground (arith, contains_get_elem? k xs i e)

module _ {K V : Type 0} (dec : Discrete K) where
  module _ (p : V → Bool) where
    abbrev pub flagged : HashMap K V → K → Bool
    flagged m k = elim (HashMap.get dec k m) [ none ↦ false | some v ↦ p v ]

    abbrev pub marked : HashMap K V → List K → ℕ
    marked m [] = 0
    marked m (k ∷ ks) = (if flagged m k then 1 else 0) + marked m ks

    pub marked-le-length : (m : HashMap K V) (ks : List K) → marked m ks ≤ length ks
    marked-le-length m [] = omega arith
    marked-le-length m (k ∷ ks) = ground (arith, marked-le-length m ks)

    module _ (g : V → V) (clears : (v : V) → p (g v) ≡ false) (k : K) (m : HashMap K V) where
      marked-modify-le : (ks : List K) → marked (modify dec k g m) ks ≤ marked m ks
      marked-modify-le [] = omega arith
      marked-modify-le (j ∷ ks) = elim (Option-cases (HashMap.get dec j m)) [
        | inl e ↦ ground (arith, marked-modify-le ks, get-modify dec j k g m)
        | inr (v, e) ↦ ground (arith, marked-modify-le ks, get-modify dec j k g m, clears v)
      ]

      -- Clearing the mark of a key of the order lowers the count.
      pub marked-modify-lt :
          (ks : List K) (i : ℕ)
          → get_elem? ks i ≡ some k
          → flagged m k ≡ true
          → marked (modify dec k g m) ks < marked m ks
      marked-modify-lt [] i e f = cc
      marked-modify-lt (j ∷ ks) zero e f = elim (Option-cases (HashMap.get dec j m)) [
        | inl n ↦ ground arith
        | inr (v, s) ↦ ground (arith, marked-modify-le ks, get-modify dec j k g m, clears v)
      ]
      marked-modify-lt (j ∷ ks) (suc i) e f = elim (Option-cases (HashMap.get dec j m)) [
        | inl n ↦ ground (arith, marked-modify-lt ks i e f, get-modify dec j k g m)
        | inr (v, s) ↦ ground (arith, marked-modify-lt ks i e f, get-modify dec j k g m, clears v)
      ]

pub length-remove_at {ℓ} :
    {A : Type ℓ} (xs : List A) (i : ℕ) → i < length xs → length (remove_at xs i) + 1 ≡ length xs
length-remove_at [] i h = absurd (omega arith)
length-remove_at (x ∷ xs) zero h = omega arith
length-remove_at (x ∷ xs) (suc i) h = omega (arith, length-remove_at xs i)
