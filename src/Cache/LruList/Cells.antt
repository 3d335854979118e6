-- ===== src/Cache/LruList/Cells.antt =====
-- The cells of a list by key: the entries that a list shows, and the index of a key.
use fibre.Base.{ℕ, ◌≡◌, refl, Option, none, some, List, [], ◌∷◌, ◌++◌, arith, ite, ap}
use fibre.Base.HashMap
use fibre.Cache.Recency.{Entries, cost_of, without, Distinct}
use fibre.Cache.Recency.Entries.{cost_of-append, without_absent}
use fibre.Cache.LruList.Chain.{Cell}

module _ {K Index : Type 0} where
  abbrev pub entries : List (Cell K Index) → Entries K
  entries [] = []
  entries ((i, k, c) ∷ cells) = (k, c) ∷ entries cells

  pub entries-append : (xs ys : List (Cell K Index)) → entries (xs ++ ys) ≡ entries xs ++ entries ys
  entries-append [] ys = refl
  entries-append ((i, k, c) ∷ xs) ys = ap (◌∷◌ (k, c)) (entries-append xs ys)

module _ {K : Type 0} (dec : Discrete K) where
  -- A key of distinct entries is nowhere else.
  pub Distinct-middle :
      (xs : Entries K) (k : K) (c : ℕ) (ys : Entries K)
      → Distinct dec (xs ++ (k, c) ∷ ys)
      → (cost_of dec k xs ≡ none) × (cost_of dec k ys ≡ none)
  unfolding HashMap.get
  Distinct-middle [] k c ys d = (refl, d.0)
  Distinct-middle ((j, b) ∷ xs) k c ys d =
      let (l, r) = Distinct-middle xs k c ys d.1 in
      (ground (arith, l, d.0, cost_of-append dec j xs ((k, c) ∷ ys)), r)

  pub without-append :
      (k : K) (xs ys : Entries K) → without dec k (xs ++ ys) ≡ without dec k xs ++ without dec k ys
  unfolding HashMap.remove
  without-append k [] ys = refl
  without-append k ((j, b) ∷ xs) ys = ground (arith, without-append k xs ys)

  without_self : (k : K) (c : ℕ) (xs : Entries K) → without dec k ((k, c) ∷ xs) ≡ without dec k xs
  unfolding HashMap.remove
  without_self k c xs = ground arith

  pub without-middle :
      (xs : Entries K) (k : K) (c : ℕ) (ys : Entries K)
      → Distinct dec (xs ++ (k, c) ∷ ys)
      → without dec k (xs ++ (k, c) ∷ ys) ≡ xs ++ ys
  without-middle xs k c ys d =
      let (l, r) = Distinct-middle xs k c ys d in
      ground (
        arith,
        without-append k xs ((k, c) ∷ ys),
        without_self k c ys,
        without_absent dec k xs l,
        without_absent dec k ys r,
      )

  module _ {Index : Type 0} where
    unfoldable pub index_of : K → List (Cell K Index) → Option Index
    index_of k [] = none
    index_of k ((i, j, c) ∷ cells) = ite (dec j k) (some i) (index_of k cells)

    pub index_of-append :
        (k : K) (xs ys : List (Cell K Index))
        → index_of k (xs ++ ys) ≡ (elim (index_of k xs) [ none ↦ index_of k ys | some i ↦ some i ])
    unfolding index_of
    index_of-append k [] ys = refl
    index_of-append k ((i, j, c) ∷ xs) ys = ground (arith, index_of-append k xs ys)

    -- A key has an index exactly if it has a cost.
    pub index_of_absent :
        (k : K) (cells : List (Cell K Index))
        → index_of k cells ≡ none
        → cost_of dec k (entries cells) ≡ none
    unfolding index_of HashMap.get
    index_of_absent k [] e = refl
    index_of_absent k ((i, j, c) ∷ cells) e = ground (arith, index_of_absent k cells)

    pub absent-index_of :
        (k : K) (cells : List (Cell K Index))
        → cost_of dec k (entries cells) ≡ none
        → index_of k cells ≡ none
    unfolding index_of HashMap.get
    absent-index_of k [] e = refl
    absent-index_of k ((i, j, c) ∷ cells) e = ground (arith, absent-index_of k cells)

    -- Where the cell of a key stands.
    pub record Place (k : K) (i : Index) (cells : List (Cell K Index)) : Type 0 where
      pub before : List (Cell K Index)
      pub cost : ℕ
      pub after : List (Cell K Index)
      pub split : cells ≡ before ++ (i, k, cost) ∷ after
      pub found : cost_of dec k (entries cells) ≡ some cost

    pub index_of-Place :
        (k : K) (i : Index) (cells : List (Cell K Index))
        → index_of k cells ≡ some i
        → Place k i cells
    unfolding index_of HashMap.get
    index_of-Place k i [] e = cc
    index_of-Place k i ((j, l, c) ∷ cells) e = elim (dec l k) [
      | yes p ↦ record {
        before = [];
        cost = c;
        after = cells;
        split = ground (arith, p);
        found = ground (arith, p);
      }
      | no n ↦
          let r = index_of-Place k i cells (ground (arith, n)) in
          record {
            before = (j, l, c) ∷ r.before;
            cost = r.cost;
            after = r.after;
            split = ap (◌∷◌ (j, l, c)) r.split;
            found = ground (arith, n, r.found);
          }
    ]
