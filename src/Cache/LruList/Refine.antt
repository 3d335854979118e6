-- ===== src/Cache/LruList/Refine.antt =====
-- The operations of cache/src/policy/lru_list.rs and the entries that the list shows.
use fibre.Base.{
  ℕ, ◌+◌, ◌-◌, ◌<◌, ◌≡◌, Option, none, some, List, [], ◌∷◌, ◌++◌, arith, ap, ◌∙◌, sym,
  if◌then◌else◌, subst, add64, add64_lem, u64_mod,
}
use fibre.Base.HashMap
use fibre.Base.HashMap.{get-insert, get-remove}
use fibre.Cache.Arena.{ArenaLib}
use fibre.Cache.Recency.{Entries, total, without, Distinct, refresh}
use fibre.Cache.Recency.Entries.{Distinct-refresh, total-refresh, total-without}
use fibre.Cache.LruList.{Node, List', is_head, raise, touch_index}
use fibre.Cache.LruList.Cells.{
  entries, entries-append, index_of, index_of-append, absent-index_of, index_of-Place,
  without-middle, Distinct-middle,
}
use fibre.Cache.LruList.Chain.{Cell, Chain-split}
use fibre.Cache.LruList.Link.{Linked}
use fibre.Cache.LruList.Move.{reprice-Linked, front-Relinks}

module _ {K Index : Type 0} (dec : Discrete K) (A : ArenaLib Index (Node K Index)) where
  -- The list holds the cells: linked in their order, found by key, no key twice, with their total
  -- cost, which fits a `u64`.
  pub record Holds (l : List' A) (cells : List (Cell K Index)) : Type 0 where
    pub linked : Linked A l cells
    pub lookup : (k : K) → HashMap.get dec k l.lookup ≡ index_of dec k cells
    pub distinct : Distinct dec (entries cells)
    pub cost : l.current_cost ≡ total (entries cells)
    pub fits : total (entries cells) < u64_mod

  -- A result that does not panic, and shows given entries.
  pub record Shown (out : Option (List' A)) (xs : Entries K) : Type 0 where
    pub list : List' A
    pub returns : out ≡ some list
    pub cells : List (Cell K Index)
    pub holds : Holds list cells
    pub shows : entries cells ≡ xs

  -- The index of a key after its cell has moved to the young end.
  pub index_of-move :
      (xs : List (Cell K Index)) (i : Index) (k : K) (b c : ℕ) (ys : List (Cell K Index)) (q : K)
      → Distinct dec (entries (xs ++ (i, k, b) ∷ ys))
      → index_of dec q (xs ++ (i, k, b) ∷ ys) ≡ index_of dec q ((xs ++ ys) ++ (i, k, c) ∷ [])
  unfolding index_of
  index_of-move xs i k b c ys q d =
      let (l, r) =
        Distinct-middle dec (entries xs) k b (entries ys)
          (subst (Distinct dec) (entries-append xs ((i, k, b) ∷ ys)) d) in
      let nx = absent-index_of dec k xs l in
      let ny = absent-index_of dec k ys r in
      elim (dec k q) [
        | yes p ↦ ground (
          arith,
          p,
          rw p at nx,
          rw p at ny,
          index_of-append dec q xs ((i, k, b) ∷ ys),
          index_of-append dec q (xs ++ ys) ((i, k, c) ∷ []),
          index_of-append dec q xs ys,
        )
        | no n ↦ ground (
          arith,
          n,
          index_of-append dec q xs ((i, k, b) ∷ ys),
          index_of-append dec q (xs ++ ys) ((i, k, c) ∷ []),
          index_of-append dec q xs ys,
        )
      ]

  pub entries-move :
      (xs : List (Cell K Index)) (i : Index) (k : K) (b c : ℕ) (ys : List (Cell K Index))
      → Distinct dec (entries (xs ++ (i, k, b) ∷ ys))
      → entries ((xs ++ ys) ++ (i, k, c) ∷ []) ≡ refresh dec k c (entries (xs ++ (i, k, b) ∷ ys))
  unfolding refresh
  entries-move xs i k b c ys d =
      let e = entries-append xs ((i, k, b) ∷ ys) in
      let gone = without-middle dec (entries xs) k b (entries ys) (subst (Distinct dec) e d) in
      entries-append (xs ++ ys) ((i, k, c) ∷ [])
      ∙ ap (λ zs. zs ++ (k, c) ∷ []) (entries-append xs ys ∙ sym gone ∙ ap (without dec k) (sym e))

  abbrev priced : Index → Node K Index → ℕ → List' A → List' A
  priced i node c l = record l {
    nodes = A.put i (record node { cost = c }) l.nodes;
    current_cost = add64 (l.current_cost - node.cost) c;
  }

  touch_index_steps :
      (i : Index) (c : ℕ) (node : Node K Index) (l : List' A)
      → A.get i l.nodes ≡ some node
      → touch_index A i c l ≡ (
          if is_head A i (priced i node c l)
          then some (priced i node c l)
          else raise A i (priced i node c l))
  unfolding touch_index is_head
  touch_index_steps i c node l e = rw (e, touch_index)

  -- A held key brought to the front at a new cost, by way of a list that differs in that cost only.
  pub touch_index-Shown :
      (k : K) (i : Index) (c : ℕ) (l : List' A) (cells : List (Cell K Index))
      → Holds l cells
      → index_of dec k cells ≡ some i
      → total (without dec k (entries cells)) + c < u64_mod
      → Shown (touch_index A i c l) (refresh dec k c (entries cells))
  unfolding touch_index
  touch_index-Shown k i c l cells g at room =
      let p = index_of-Place dec k i cells at in
      let linked : Linked A l (p.before ++ (i, k, p.cost) ∷ p.after) =
        subst (Linked A l) p.split g.linked in
      let d : Distinct dec (entries (p.before ++ (i, k, p.cost) ∷ p.after)) =
        subst (λ zs. Distinct dec (entries zs)) p.split g.distinct in
      let node =
        (Chain-split A l.nodes none p.before ((i, k, p.cost) ∷ p.after) none linked.chain).1.0 in
      let priced =
        reprice-Linked A p.before i k p.cost c p.after l (add64 (l.current_cost - p.cost) c)
          linked in
      let r = front-Relinks A p.before i k c p.after _ priced in
      let moved : entries ((p.before ++ p.after) ++ (i, k, c) ∷ [])
          ≡ refresh dec k c (entries cells) =
        entries-move p.before i k p.cost c p.after d
        ∙ ap (λ zs. refresh dec k c (entries zs)) (sym p.split) in
      let sum : total (entries ((p.before ++ p.after) ++ (i, k, c) ∷ []))
          ≡ total (without dec k (entries cells)) + c =
        ap total moved ∙ total-refresh dec k c (entries cells) in
      let rest = total-without dec k (entries cells) p.cost g.distinct p.found in
      record {
        list = r.list;
        returns = touch_index_steps i c _ l node ∙ r.returns;
        cells = (p.before ++ p.after) ++ (i, k, c) ∷ [];
        holds = record {
          linked = r.linked;
          lookup = λ q.
              ap (HashMap.get dec q) r.lookup
              ∙ g.lookup q
              ∙ ap (index_of dec q) p.split
              ∙ index_of-move p.before i k p.cost c p.after q d;
          distinct =
              subst (Distinct dec) (sym moved)
                (Distinct-refresh dec k c (entries cells) g.distinct);
          cost = omega (arith, r.cost, sum, rest, g.cost, add64_lem (l.current_cost - p.cost) c);
          fits = omega (arith, sum);
        };
        shows = moved;
      }
