-- ===== src/Cache/Recency/Entries.antt =====
-- Facts on entries in order of age.
use fibre.Base.{
  ℕ, ◌+◌, ◌≤◌, ◌≡◌, refl, [], ◌∷◌, ◌++◌, none, some, arith, ite, ap, Option-cases, inl, inr,
}
use fibre.Base.HashMap
use fibre.Base.HashMap.{get-remove}
use fibre.Cache.Recency.{Entries, total, keys, cost_of, without, refresh, promote, Distinct}

module _ {K : Type 0} where
  pub total-append : (xs ys : Entries K) → total (xs ++ ys) ≡ total xs + total ys
  total-append [] ys = omega arith
  total-append ((k, c) ∷ xs) ys = omega (arith, total-append xs ys)

  pub keys-append : (xs ys : Entries K) → keys (xs ++ ys) ≡ keys xs ++ keys ys
  keys-append [] ys = refl
  keys-append ((k, c) ∷ xs) ys = ap (◌∷◌ k) (keys-append xs ys)

module _ {K : Type 0} (dec : Discrete K) where
  pub cost_of-append :
      (q : K) (xs ys : Entries K)
      → cost_of dec q (xs ++ ys)
        ≡ (elim (cost_of dec q xs) [ none ↦ cost_of dec q ys | some c ↦ some c ])
  unfolding HashMap.get
  cost_of-append q [] ys = refl
  cost_of-append q ((k, c) ∷ xs) ys = ground (arith, cost_of-append q xs ys)

  pub without_absent : (k : K) (xs : Entries K) → cost_of dec k xs ≡ none → without dec k xs ≡ xs
  unfolding HashMap.get HashMap.remove
  without_absent k [] h = refl
  without_absent k ((j, c) ∷ xs) h = ground (arith, without_absent k xs)

  pub cost_of-without_self : (k : K) (xs : Entries K) → cost_of dec k (without dec k xs) ≡ none
  cost_of-without_self k xs = ground (arith, get-remove dec k k xs)

  pub total-without-le : (k : K) (xs : Entries K) → total (without dec k xs) ≤ total xs
  unfolding HashMap.remove
  total-without-le k [] = omega arith
  total-without-le k ((j, c) ∷ xs) = ground (arith, total-without-le k xs)

  -- Taking a key out of distinct entries lowers their total by its cost.
  pub total-without :
      (k : K) (xs : Entries K) (c : ℕ)
      → Distinct dec xs
      → cost_of dec k xs ≡ some c
      → total (without dec k xs) + c ≡ total xs
  unfolding HashMap.get HashMap.remove
  total-without k [] c d h = ground arith
  total-without k ((j, b) ∷ xs) c d h = elim (dec j k) [
    | yes p ↦ ground (arith, without_absent k xs (subst_key p d.0))
    | no p ↦ ground (arith, total-without k xs c d.1)
  ]
    where
      subst_key : j ≡ k → cost_of dec j xs ≡ none → cost_of dec k xs ≡ none
      subst_key p e = rw p at e

  pub Distinct-without :
      (k : K) (xs : Entries K) → Distinct dec xs → Distinct dec (without dec k xs)
  unfolding HashMap.remove
  Distinct-without k [] d = tt
  Distinct-without k ((j, b) ∷ xs) d =
      ground (arith, Distinct-without k xs d.1, get-remove dec j k xs)

  pub Distinct-append :
      (xs : Entries K) (k : K) (c : ℕ)
      → Distinct dec xs
      → cost_of dec k xs ≡ none
      → Distinct dec (xs ++ (k, c) ∷ [])
  unfolding HashMap.get
  Distinct-append [] k c d h = (refl, tt)
  Distinct-append ((j, b) ∷ xs) k c d h =
      ground (arith, Distinct-append xs k c d.1, cost_of-append j xs ((k, c) ∷ []))

  pub Distinct-refresh :
      (k : K) (c : ℕ) (xs : Entries K) → Distinct dec xs → Distinct dec (refresh dec k c xs)
  unfolding refresh
  Distinct-refresh k c xs d =
      Distinct-append (without dec k xs) k c (Distinct-without k xs d) (cost_of-without_self k xs)

  pub cost_of-refresh :
      (q k : K) (c : ℕ) (xs : Entries K)
      → cost_of dec q (refresh dec k c xs) ≡ ite (dec k q) (some c) (cost_of dec q xs)
  unfolding refresh HashMap.get
  cost_of-refresh q k c xs =
      ground (arith, cost_of-append q (without dec k xs) ((k, c) ∷ []), get-remove dec q k xs)

  pub total-refresh :
      (k : K) (c : ℕ) (xs : Entries K) → total (refresh dec k c xs) ≡ total (without dec k xs) + c
  unfolding refresh
  total-refresh k c xs = omega (arith, total-append (without dec k xs) ((k, c) ∷ []))

  pub refresh_absent :
      (k : K) (c : ℕ) (xs : Entries K)
      → cost_of dec k xs ≡ none
      → refresh dec k c xs ≡ xs ++ (k, c) ∷ []
  unfolding refresh
  refresh_absent k c xs h = ap (λ ys. ys ++ (k, c) ∷ []) (without_absent k xs h)

  pub cost_of-promote :
      (q k : K) (xs : Entries K) → cost_of dec q (promote dec k xs) ≡ cost_of dec q xs
  unfolding promote
  cost_of-promote q k xs = elim (Option-cases (cost_of dec k xs)) [
    | inl e ↦ ground arith
    | inr (c, e) ↦ ground (arith, cost_of-refresh q k c xs)
  ]

  pub total-promote :
      (k : K) (xs : Entries K) → Distinct dec xs → total (promote dec k xs) ≡ total xs
  unfolding promote
  total-promote k xs d = elim (Option-cases (cost_of dec k xs)) [
    | inl e ↦ ground arith
    | inr (c, e) ↦ ground (arith, total-refresh k c xs, total-without k xs c d e)
  ]

  pub promote_absent : (k : K) (xs : Entries K) → cost_of dec k xs ≡ none → promote dec k xs ≡ xs
  unfolding promote
  promote_absent k xs e = ground (arith, e)

  pub promote_found :
      (k : K) (c : ℕ) (xs : Entries K)
      → cost_of dec k xs ≡ some c
      → promote dec k xs ≡ refresh dec k c xs
  unfolding promote
  promote_found k c xs e = ground (arith, e)

  pub Distinct-promote :
      (k : K) (xs : Entries K) → Distinct dec xs → Distinct dec (promote dec k xs)
  Distinct-promote k xs d = elim (Option-cases (cost_of dec k xs)) [
    | inl e ↦ rw (promote_absent k xs e) d
    | inr (c, e) ↦ rw (promote_found k c xs e) (Distinct-refresh k c xs d)
  ]
