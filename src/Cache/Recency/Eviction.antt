-- ===== src/Cache/Recency/Eviction.antt =====
-- What an eviction from the old end must return.
use fibre.Base.{
  ℕ, ◌+◌, ◌-◌, ◌<◌, ◌≤◌, ◌≡◌, refl, List, [], ◌∷◌, ◌++◌, arith, ap, if◌then◌else◌, inr, ◌⊎◌, ltb,
}
use fibre.Cache.Recency.{Entries, total, keys}

-- The oldest entries that have to go to free `need`.
unfoldable pub due : {K : Type 0} → ℕ → Entries K → Entries K
due need [] = []
due need ((k, c) ∷ xs) = if ltb 0 need then (k, c) ∷ due (need - c) xs else []

unfoldable pub kept : {K : Type 0} → ℕ → Entries K → Entries K
kept need [] = []
kept need ((k, c) ∷ xs) = if ltb 0 need then kept (need - c) xs else (k, c) ∷ xs

-- An eviction asked to free `need` from the entries `xs`, oldest first: what goes is the shortest
-- run of oldest entries that costs `need`, or everything if all of it costs less.
pub record Evicts {K : Type 0} (need : ℕ) (xs : Entries K) (victims : List K) (freed : ℕ)
    (rest : Entries K) : Type 0 where
  pub gone : Entries K
  pub split : gone ++ rest ≡ xs
  pub named : victims ≡ keys gone
  pub cost : freed ≡ total gone
  pub enough : (need ≤ total gone) ⊎ (rest ≡ [])
  pub shortest : (ys : Entries K) (k : K) (c : ℕ) → gone ≡ ys ++ (k, c) ∷ [] → total ys < need

module _ {K : Type 0} where
  due-append-kept : (need : ℕ) (xs : Entries K) → due need xs ++ kept need xs ≡ xs
  unfolding due kept
  due-append-kept need [] = refl
  due-append-kept need ((k, c) ∷ xs) = ground (arith, due-append-kept (need - c) xs)

  due_enough : (need : ℕ) (xs : Entries K) → (need ≤ total (due need xs)) ⊎ (kept need xs ≡ [])
  unfolding due kept
  due_enough need [] = inr refl
  due_enough need ((k, c) ∷ xs) = ground (arith, due_enough (need - c) xs)

  due_shortest :
      (need : ℕ) (xs ys : Entries K) (k : K) (c : ℕ)
      → due need xs ≡ ys ++ (k, c) ∷ []
      → total ys < need
  unfolding due
  due_shortest need [] [] k c h = cc
  due_shortest need [] (y ∷ ys) k c h = cc
  due_shortest need ((j, b) ∷ xs) [] k c h = ground arith
  due_shortest need ((j, b) ∷ xs) ((i, a) ∷ ys) k c h =
      ground (arith, due_shortest (need - b) xs ys k c)

  pub due-Evicts :
      (need : ℕ) (xs : Entries K)
      → Evicts need xs (keys (due need xs)) (total (due need xs)) (kept need xs)
  due-Evicts need xs = record {
    gone = due need xs;
    split = due-append-kept need xs;
    named = refl;
    cost = refl;
    enough = due_enough need xs;
    shortest = due_shortest need xs;
  }

  pub total-kept-le : (need : ℕ) (xs : Entries K) → total (kept need xs) ≤ total xs
  unfolding kept
  total-kept-le need [] = omega arith
  total-kept-le need ((k, c) ∷ xs) = ground (arith, total-kept-le (need - c) xs)

  pub total-due-le : (need : ℕ) (xs : Entries K) → total (due need xs) ≤ total xs
  unfolding due
  total-due-le need [] = omega arith
  total-due-le need ((k, c) ∷ xs) = ground (arith, total-due-le (need - c) xs)

  pub due-zero : (xs : Entries K) → due 0 xs ≡ []
  unfolding due
  due-zero [] = refl
  due-zero (e ∷ xs) = refl

  pub kept-zero : (xs : Entries K) → kept 0 xs ≡ xs
  unfolding kept
  kept-zero [] = refl
  kept-zero (e ∷ xs) = refl

  -- Draining one list and then another is draining the two in a row.
  pub due-append :
      (need : ℕ) (xs ys : Entries K)
      → due need (xs ++ ys) ≡ due need xs ++ due (need - total (due need xs)) ys
  unfolding due
  due-append need [] ys = ap (λ n. due n ys) (omega arith)
  due-append need ((k, c) ∷ xs) ys =
      let e : need - c - total (due (need - c) xs) ≡ need - (c + total (due (need - c) xs)) =
        omega arith in
      ground (arith, e, due-append (need - c) xs ys, due-zero ys)

  pub kept-append :
      (need : ℕ) (xs ys : Entries K)
      → kept need (xs ++ ys) ≡ kept need xs ++ kept (need - total (due need xs)) ys
  unfolding due kept
  kept-append need [] ys = ap (λ n. kept n ys) (omega arith)
  kept-append need ((k, c) ∷ xs) ys =
      let e : need - c - total (due (need - c) xs) ≡ need - (c + total (due (need - c) xs)) =
        omega arith in
      ground (arith, e, kept-append (need - c) xs ys, kept-zero ys)
