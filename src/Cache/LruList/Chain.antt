-- ===== src/Cache/LruList/Chain.antt =====
-- A run of nodes linked both ways, oldest first: each node's `next` is the one before it in the run
-- and its `prev` the one after it.
use fibre.Base.{
  ℕ, ◌≡◌, refl, Option, none, some, List, [], ◌∷◌, ◌++◌, arith, Bool, true, false, subst,
}
use fibre.Base.Keys.{contains}
use fibre.Cache.Arena.{ArenaLib}
use fibre.Cache.LruList.{Node}

-- A node of the run: its index, key and cost.
abbrev pub Cell : Type 0 → Type 0 → Type 0
Cell K Index = Index × K × ℕ

module _ {K Index : Type 0} where
  abbrev pub indices : List (Cell K Index) → List Index
  indices [] = []
  indices ((i, k, c) ∷ cells) = i ∷ indices cells

  -- The index of the oldest cell, or `above` if there is none; of the youngest, or `below`.
  abbrev pub first_or : Option Index → List (Cell K Index) → Option Index
  first_or above [] = above
  first_or above ((i, k, c) ∷ cells) = some i

  abbrev pub last_or : Option Index → List (Cell K Index) → Option Index
  last_or below [] = below
  last_or below ((i, k, c) ∷ cells) = last_or (some i) cells

  pub first_or-append :
      (above : Option Index) (xs ys : List (Cell K Index))
      → first_or above (xs ++ ys) ≡ first_or (first_or above ys) xs
  first_or-append above [] ys = refl
  first_or-append above (x ∷ xs) ys = refl

  pub last_or-append :
      (below : Option Index) (xs ys : List (Cell K Index))
      → last_or below (xs ++ ys) ≡ last_or (last_or below xs) ys
  last_or-append below [] ys = refl
  last_or-append below ((i, k, c) ∷ xs) ys = last_or-append (some i) xs ys

module _ {K Index : Type 0} (A : ArenaLib Index (Node K Index)) where
  abbrev pub Chain : A.Repr → Option Index → List (Cell K Index) → Option Index → Type 0
  Chain a below [] above = Unit {0}
  Chain a below ((i, k, c) ∷ cells) above =
      (A.get i a ≡ some (record { key = k; cost = c; next = below; prev = first_or above cells }))
      × Chain a (some i) cells above

  abbrev pub inside : Index → List (Cell K Index) → Bool
  inside j cells = contains A.same_index j (indices cells)

  pub inside-append :
      (j : Index) (xs ys : List (Cell K Index))
      → inside j (xs ++ ys) ≡ (elim (inside j xs) [ true ↦ true | false ↦ inside j ys ])
  unfolding contains
  inside-append j [] ys = refl
  inside-append j ((i, k, c) ∷ xs) ys = ground (arith, inside-append j xs ys)

  -- A chain does not depend on what else the arena holds.
  pub Chain-frame :
      (a b : A.Repr) (below : Option Index) (cells : List (Cell K Index)) (above : Option Index)
      → ((j : Index) → inside j cells ≡ true → A.get j b ≡ A.get j a)
      → Chain a below cells above
      → Chain b below cells above
  unfolding contains
  Chain-frame a b below [] above same ch = tt
  Chain-frame a b below ((i, k, c) ∷ cells) above same ch = (
    ground (arith, same i, ch.0),
    Chain-frame a b (some i) cells above (λ j h. same j (ground arith)) ch.1,
  )

  pub Chain-split :
      (a : A.Repr) (below : Option Index) (xs ys : List (Cell K Index)) (above : Option Index)
      → Chain a below (xs ++ ys) above
      → Chain a below xs (first_or above ys) × Chain a (last_or below xs) ys above
  Chain-split a below [] ys above ch = (tt, ch)
  Chain-split a below ((i, k, c) ∷ xs) ys above ch =
      let (left, right) = Chain-split a (some i) xs ys above ch.1 in
      ((rw first_or-append at ch.0, left), right)

  pub Chain-append :
      (a : A.Repr) (below : Option Index) (xs ys : List (Cell K Index)) (above : Option Index)
      → Chain a below xs (first_or above ys)
      → Chain a (last_or below xs) ys above
      → Chain a below (xs ++ ys) above
  Chain-append a below [] ys above l r = r
  Chain-append a below ((i, k, c) ∷ xs) ys above l r =
      (rw first_or-append l.0, Chain-append a (some i) xs ys above l.1 r)

  -- An index of a chain is held by the arena.
  pub Chain-held :
      (a : A.Repr) (below : Option Index) (cells : List (Cell K Index)) (above : Option Index)
      (j : Index)
      → Chain a below cells above
      → A.get j a ≡ none
      → inside j cells ≡ false
  unfolding contains
  Chain-held a below [] above j ch e = refl
  Chain-held a below ((i, k, c) ∷ cells) above j ch e =
      ground (arith, ch.0, e, Chain-held a (some i) cells above j ch.1 e)

  -- A new value changes nothing at the indices of a chain, and is found at its own.
  pub inserted_other :
      (n : Node K Index) (a : A.Repr) (cells : List (Cell K Index))
      → inside (A.insert n a).0 cells ≡ false
      → (j : Index) → inside j cells ≡ true
      → A.get j (A.insert n a).1 ≡ A.get j a
  inserted_other n a cells outside j h = elim (A.same_index (A.insert n a).0 j) [
    | yes p ↦ absurd (clash (subst (λ x. inside x cells ≡ false) p outside) h)
    | no ne ↦ ground (arith, A.get-insert n j a, ne)
  ]
    where
      clash : {b : Bool} → b ≡ false → b ≡ true → ⊥
      clash e f = cc

  pub inserted_self :
      (n : Node K Index) (a : A.Repr) → A.get (A.insert n a).0 (A.insert n a).1 ≡ some n
  inserted_self n a = ground (arith, A.get-insert n (A.insert n a).0 a)

  pub removed_other :
      (i : Index) (a : A.Repr) (cells : List (Cell K Index))
      → inside i cells ≡ false
      → (j : Index) → inside j cells ≡ true
      → A.get j (A.remove i a).1 ≡ A.get j a
  removed_other i a cells outside j h = elim (A.same_index i j) [
    | yes p ↦ absurd (clash (subst (λ x. inside x cells ≡ false) p outside) h)
    | no ne ↦ ground (arith, A.get-remove i j a, ne)
  ]
    where
      clash : {b : Bool} → b ≡ false → b ≡ true → ⊥
      clash e f = cc
