-- ===== src/Cache/LruList/Fill.antt =====
-- The interface that the policies use, filled by cache/src/policy/lru_list.rs on a list that holds its
-- cells.
use fibre.Base.{
  ℕ, ◌+◌, ◌<◌, ◌≤◌, ◌≡◌, refl, Option, none, some, List, [], ◌∷◌, ◌++◌, arith, Bool, false, ap, ◌∙◌,
  sym, if◌then◌else◌, Option-cases, inl, inr, subst, u64_mod, head?, tail, length,
}
use fibre.Base.HashMap
use fibre.Base.HashMap.{get-remove, length-remove-lt}
use fibre.Cache.Arena.{ArenaLib}
use fibre.Cache.Recency.{
  Entries, total, keys, cost_of, has, without, Distinct, refresh, promote, RecencyList,
}
use fibre.Cache.LruList
use fibre.Cache.LruList.{Node, LruList, List', touch_index}
use fibre.Cache.LruList.Cells.{entries, index_of, index_of_absent, index_of-Place, without-middle}
use fibre.Cache.LruList.Chain.{Cell}
use fibre.Cache.LruList.Refine.{Holds, Shown, touch_index-Shown}
use fibre.Cache.LruList.Ops.{new-Holds, clear-Holds, push_new-Shown, push_front-Shown}
use fibre.Cache.LruList.Takes.{move_to_front-Shown, remove-Removed}

module _ {K Index : Type 0} (dec : Discrete K) (A : ArenaLib Index (Node K Index)) where
  -- What `pop_back` returns, and the list that it leaves.
  pub record Popped (out : Option (Option (K × ℕ) × List' A)) (xs : Entries K) : Type 0 where
    pub list : List' A
    pub returns : out ≡ some (head? xs, list)
    pub cells : List (Cell K Index)
    pub holds : Holds dec A list cells
    pub shows : entries cells ≡ tail xs

  pub pop_back-Popped :
      (l : List' A) (cells : List (Cell K Index))
      → Holds dec A l cells
      → Popped (LruList.pop_back dec A l) (entries cells)
  unfolding LruList.pop_back
  pop_back-Popped l [] g = record {
    list = l;
    returns = ground (arith, g.linked.tail);
    cells = [];
    holds = g;
    shows = refl;
  }
  pop_back-Popped l ((i, k, c) ∷ cells) g =
      let r = remove-Removed dec A k l ((i, k, c) ∷ cells) g in
      record {
        list = r.list;
        returns = rw (g.linked.tail, LruList.pop_back, g.linked.chain.0, r.returns);
        cells = r.cells;
        holds = r.holds;
        shows = r.shows ∙ without-middle dec [] k c (entries cells) g.distinct;
      }

  -- What `touch` returns.
  pub record Touched (out : Option (Bool × List' A)) (found : Bool) (xs : Entries K) : Type 0 where
    pub list : List' A
    pub returns : out ≡ some (found, list)
    pub cells : List (Cell K Index)
    pub holds : Holds dec A list cells
    pub shows : entries cells ≡ xs

  touch-Touched :
      (k : K) (c : ℕ) (l : List' A) (cells : List (Cell K Index))
      → Holds dec A l cells
      → total (without dec k (entries cells)) + c < u64_mod
      → Touched
          (LruList.touch dec A k c l)
          (has dec k (entries cells))
          (if has dec k (entries cells) then refresh dec k c (entries cells) else entries cells)
  unfolding LruList.touch
  touch-Touched k c l cells g room = elim (Option-cases (index_of dec k cells)) [
    | inl e ↦
        rw (g.lookup k, LruList.touch, e, index_of_absent dec k cells e)
          (record { list = l; returns = refl; cells = cells; holds = g; shows = refl })
    | inr (i, e) ↦
        let r = touch_index-Shown dec A k i c l cells g e room in
        let p = index_of-Place dec k i cells e in
        rw (g.lookup k, LruList.touch, e, p.found)
          (record {
            list = r.list;
            returns = rw r.returns;
            cells = r.cells;
            holds = r.holds;
            shows = r.shows;
          })
  ]

  pub tail_key-head :
      (l : List' A) (cells : List (Cell K Index))
      → Holds dec A l cells
      → LruList.tail_key A l ≡ some (head? (keys (entries cells)))
  unfolding LruList.tail_key
  tail_key-head l [] g = rw (g.linked.tail, LruList.tail_key)
  tail_key-head l ((i, k, c) ∷ cells) g = rw (g.linked.tail, LruList.tail_key, g.linked.chain.0)

  -- A table that holds every key of distinct entries is at least as long.
  length-entries-le :
      (xs : Entries K) (m : HashMap.HashMap K Index)
      → Distinct dec xs
      → ((k : K) → HashMap.get dec k m ≡ none → cost_of dec k xs ≡ none)
      → length xs ≤ length m
  unfolding HashMap.get
  length-entries-le [] m d held = omega arith
  length-entries-le ((k, c) ∷ xs) m d held = elim (Option-cases (HashMap.get dec k m)) [
    | inl e ↦ absurd (ground (arith, held k e))
    | inr (i, e) ↦
        let rest = length-entries-le xs (HashMap.remove dec k m) d.1 (λ q h. elim (dec k q) [
          | yes p ↦ subst (λ x. cost_of dec x xs ≡ none) p d.0
          | no n ↦ ground (arith, n, held q, get-remove dec q k m, h)
        ]) in
        omega (arith, rest, length-remove-lt dec k m i e)
  ]

  abbrev pub settle : List' A → Option (List' A) → List' A
  settle l none = l
  settle l (some t) = t

  abbrev pub settle_with : {B : Type 0} → B → List' A → Option (B × List' A) → B × List' A
  settle_with b l none = (b, l)
  settle_with b l (some t) = t

  abbrev pub Shows : List' A → Entries K → Type 0
  Shows l xs = (cells : List (Cell K Index)) × Holds dec A l cells × (entries cells ≡ xs)

  Shown-Shows :
      (l : List' A) (out : Option (List' A)) (xs : Entries K)
      → Shown dec A out xs
      → Shows (settle l out) xs
  Shown-Shows l out xs s = rw s.returns (s.cells, s.holds, s.shows)

  pub push_front_law :
      (k : K) (c : ℕ) (l : List' A) (xs : Entries K)
      → Shows l xs
      → total (without dec k xs) + c < u64_mod
      → Shows (settle l (LruList.push_front dec A k c l)) (refresh dec k c xs)
  push_front_law k c l xs (cells, g, e) room = Shown-Shows l _ _ (
      subst (λ zs. Shown dec A (LruList.push_front dec A k c l) (refresh dec k c zs)) e
        (push_front-Shown dec A k c l cells g (rw e room)))

  pub push_new_law :
      (k : K) (c : ℕ) (l : List' A) (xs : Entries K)
      → Shows l xs
      → cost_of dec k xs ≡ none
      → total xs + c < u64_mod
      → Shows (settle l (LruList.push_new dec A k c l)) (xs ++ (k, c) ∷ [])
  push_new_law k c l xs (cells, g, e) absent room = Shown-Shows l _ _ (
      subst (λ zs. Shown dec A (LruList.push_new dec A k c l) (zs ++ (k, c) ∷ [])) e
        (push_new-Shown dec A k c l cells g (rw e absent) (rw e room)))

  pub move_to_front_law :
      (k : K) (l : List' A) (xs : Entries K)
      → Shows l xs
      → Shows (settle l (LruList.move_to_front dec A k l)) (promote dec k xs)
  move_to_front_law k l xs (cells, g, e) = Shown-Shows l _ _ (
      subst (λ zs. Shown dec A (LruList.move_to_front dec A k l) (promote dec k zs)) e
        (move_to_front-Shown dec A k l cells g))

  pub touch_law :
      (k : K) (c : ℕ) (l : List' A) (xs : Entries K)
      → Shows l xs
      → total (without dec k xs) + c < u64_mod
      → ((settle_with false l (LruList.touch dec A k c l)).0 ≡ has dec k xs)
        × Shows
            (settle_with false l (LruList.touch dec A k c l)).1
            (if has dec k xs then refresh dec k c xs else xs)
  touch_law k c l xs (cells, g, e) room =
      let t = touch-Touched k c l cells g (rw e room) in
      rw t.returns (
        ap (has dec k) e,
        (t.cells, t.holds, t.shows ∙ ap (λ zs. if has dec k zs then refresh dec k c zs else zs) e),
      )

  pub pop_back_law :
      (l : List' A) (xs : Entries K)
      → Shows l xs
      → ((settle_with none l (LruList.pop_back dec A l)).0 ≡ head? xs)
        × Shows (settle_with none l (LruList.pop_back dec A l)).1 (tail xs)
  pop_back_law l xs (cells, g, e) =
      let t = pop_back-Popped l cells g in
      rw t.returns (ap head? e, (t.cells, t.holds, t.shows ∙ ap tail e))

  pub remove_law :
      (k : K) (l : List' A) (xs : Entries K)
      → Shows l xs
      → ((settle_with none l (LruList.remove dec A k l)).0 ≡ cost_of dec k xs)
        × Shows (settle_with none l (LruList.remove dec A k l)).1 (without dec k xs)
  remove_law k l xs (cells, g, e) =
      let t = remove-Removed dec A k l cells g in
      rw t.returns (ap (cost_of dec k) e, (t.cells, t.holds, t.shows ∙ ap (without dec k) e))

  abbrev pub settle_key : Option (Option K) → Option K
  settle_key none = none
  settle_key (some k) = k

  pub contains_law :
      (k : K) (l : List' A) (xs : Entries K)
      → Shows l xs
      → LruList.contains dec A k l ≡ has dec k xs
  unfolding LruList.contains
  contains_law k l xs (cells, g, e) = elim (Option-cases (index_of dec k cells)) [
    | inl n ↦ ground (arith, n, g.lookup k, index_of_absent dec k cells n, ap (cost_of dec k) e)
    | inr (i, n) ↦
        ground (arith, n, g.lookup k, (index_of-Place dec k i cells n).found, ap (cost_of dec k) e)
  ]

  pub cost_law :
      (l : List' A) (xs : Entries K) → Shows l xs → LruList.current_total_cost A l ≡ total xs
  unfolding LruList.current_total_cost
  cost_law l xs (cells, g, e) = g.cost ∙ ap total e

  pub size_law : (l : List' A) (xs : Entries K) → Shows l xs → length xs ≤ length l.lookup
  size_law l xs (cells, g, e) =
      length-entries-le xs l.lookup (subst (Distinct dec) e g.distinct) (λ k n.
        subst (λ zs. cost_of dec k zs ≡ none) e
          (index_of_absent dec k cells (sym (g.lookup k) ∙ n)))

  -- The list of the code, as the list that the policies use. Where an operation would panic the list
  -- is left as it is; on a list that shows entries that never happens.
  abbrev pub lru_list : RecencyList K dec
  lru_list = record {
    Repr = List' A;
    Shows = Shows;
    new = LruList.new A;
    size = λ l. length l.lookup;
    contains = LruList.contains dec A;
    current_total_cost = LruList.current_total_cost A;
    tail_key = λ l. settle_key (LruList.tail_key A l);
    push_front = λ k c l. settle l (LruList.push_front dec A k c l);
    push_new = λ k c l. settle l (LruList.push_new dec A k c l);
    touch = λ k c l. settle_with false l (LruList.touch dec A k c l);
    move_to_front = λ k l. settle l (LruList.move_to_front dec A k l);
    pop_back = λ l. settle_with none l (LruList.pop_back dec A l);
    remove = λ k l. settle_with none l (LruList.remove dec A k l);
    clear = LruList.clear A;
    new_lem = ([], new-Holds dec A, refl);
    Shows-Distinct = λ l xs h. subst (Distinct dec) h.2 h.1.distinct;
    size_lem = size_law;
    contains_lem = contains_law;
    cost_lem = λ l xs h. cost_law l xs h;
    fits_lem = λ l xs h. subst (λ zs. total zs < u64_mod) h.2 h.1.fits;
    tail_lem = λ l xs h. ap settle_key (tail_key-head l h.0 h.1) ∙ ap (λ zs. head? (keys zs)) h.2;
    push_front_lem = push_front_law;
    push_new_lem = push_new_law;
    touch_lem = touch_law;
    move_to_front_lem = move_to_front_law;
    pop_back_lem = pop_back_law;
    remove_lem = remove_law;
    clear_lem = λ l. ([], clear-Holds dec A l, refl);
  }
