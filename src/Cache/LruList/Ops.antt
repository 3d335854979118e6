-- ===== src/Cache/LruList/Ops.antt =====
-- The operations of `LruList` on the entries that the list shows.
use fibre.Base.{
  ℕ, ◌+◌, ◌<◌, ◌≡◌, refl, none, some, List, [], ◌∷◌, ◌++◌, arith, ite, ap, ◌∙◌, sym, Option-cases,
  inl, inr, subst, add64, add64_lem, u64_mod,
}
use fibre.Base.HashMap
use fibre.Base.HashMap.{get-insert, get-remove}
use fibre.Cache.Arena.{ArenaLib}
use fibre.Cache.Recency.{total, cost_of, without, Distinct, refresh}
use fibre.Cache.Recency.Entries.{total-append, Distinct-append, refresh_absent, without_absent}
use fibre.Cache.LruList
use fibre.Cache.LruList.{Node, LruList, List', touch_index, is_head, raise, push_front_node, unlink}
use fibre.Cache.LruList.Cells.{
  entries, entries-append, index_of, index_of-append, index_of_absent, absent-index_of,
}
use fibre.Cache.LruList.Chain.{Cell, Chain-frame, Chain-held, inserted_other, inserted_self}
use fibre.Cache.LruList.Link.{Linked, push_front_node-Relinks}
use fibre.Cache.LruList.Refine.{Holds, Shown, touch_index-Shown}

module _ {K Index : Type 0} (dec : Discrete K) (A : ArenaLib Index (Node K Index)) where
  pub new-Holds : Holds dec A (LruList.new A) []
  unfolding LruList.new index_of HashMap.get
  new-Holds = record {
    linked = record { chain = tt; unique = tt; head = refl; tail = refl };
    lookup = λ k. refl;
    distinct = tt;
    cost = refl;
    fits = omega arith;
  }

  pub clear-Holds : (l : List' A) → Holds dec A (LruList.clear A l) []
  unfolding LruList.clear index_of HashMap.get
  clear-Holds l = record {
    linked = record { chain = tt; unique = tt; head = refl; tail = refl };
    lookup = λ k. refl;
    distinct = tt;
    cost = refl;
    fits = omega arith;
  }

  new_lookup :
      (k : K) (c : ℕ) (i : Index) (lookup : HashMap.HashMap K Index) (cells : List (Cell K Index))
      → ((q : K) → HashMap.get dec q lookup ≡ index_of dec q cells)
      → cost_of dec k (entries cells) ≡ none
      → (q : K)
      → HashMap.get dec q (HashMap.insert dec k i lookup) ≡ index_of dec q (cells ++ (i, k, c) ∷ [])
  unfolding index_of
  new_lookup k c i lookup cells same absent q =
      get-insert dec q k i lookup ∙ by_key ∙ sym (index_of-append dec q cells ((i, k, c) ∷ []))
    where
      by_key : ite (dec k q) (some i) (HashMap.get dec q lookup) ≡ (elim (index_of dec q cells) [
        | none ↦ index_of dec q ((i, k, c) ∷ [])
        | some j ↦ some j
      ])
      by_key = elim (dec k q) [
        | yes p ↦ ground (
          arith,
          p,
          subst (λ x. index_of dec x cells ≡ none) p (absent-index_of dec k cells absent),
        )
        | no n ↦ ground (arith, n, same q)
      ]

  -- A key that is not tracked becomes the youngest entry.
  pub push_new-Shown :
      (k : K) (c : ℕ) (l : List' A) (cells : List (Cell K Index))
      → Holds dec A l cells
      → cost_of dec k (entries cells) ≡ none
      → total (entries cells) + c < u64_mod
      → Shown dec A (LruList.push_new dec A k c l) (entries cells ++ (k, c) ∷ [])
  unfolding LruList.push_new index_of
  push_new-Shown k c l cells g absent room =
      let node : Node K Index = record { key = k; cost = c; next = none; prev = none } in
      let i = (A.insert node l.nodes).0 in
      let nodes = (A.insert node l.nodes).1 in
      let outside =
        Chain-held A l.nodes none cells none i g.linked.chain (A.insert_fresh node l.nodes) in
      let start : List' A = record l {
        nodes = nodes;
        lookup = HashMap.insert dec k i l.lookup;
        current_cost = add64 l.current_cost c;
      } in
      let linked : Linked A start cells = record {
        chain =
            Chain-frame A l.nodes nodes none cells none
              (inserted_other A node l.nodes cells outside) g.linked.chain;
        unique = g.linked.unique;
        head = g.linked.head;
        tail = g.linked.tail;
      } in
      let r =
        push_front_node-Relinks A cells i node start linked (inserted_self A node l.nodes)
          outside in
      let shows = entries-append cells ((i, k, c) ∷ []) in
      let sum = total-append (entries cells) ((k, c) ∷ []) in
      record {
        list = r.list;
        returns = r.returns;
        cells = cells ++ (i, k, c) ∷ [];
        holds = record {
          linked = r.linked;
          lookup = λ q.
              ap (HashMap.get dec q) r.lookup
              ∙ new_lookup k c i l.lookup cells (λ j. g.lookup j) absent q;
          distinct =
              subst (Distinct dec) (sym shows)
                (Distinct-append dec (entries cells) k c g.distinct absent);
          cost = omega (arith, r.cost, ap total shows, sum, g.cost, add64_lem l.current_cost c);
          fits = omega (arith, ap total shows, sum);
        };
        shows = shows;
      }

  pub push_front-Shown :
      (k : K) (c : ℕ) (l : List' A) (cells : List (Cell K Index))
      → Holds dec A l cells
      → total (without dec k (entries cells)) + c < u64_mod
      → Shown dec A (LruList.push_front dec A k c l) (refresh dec k c (entries cells))
  unfolding LruList.push_front
  push_front-Shown k c l cells g room = elim (Option-cases (index_of dec k cells)) [
    | inl e ↦
        let absent = index_of_absent dec k cells e in
        rw (g.lookup k, LruList.push_front, e, refresh_absent dec k c (entries cells) absent)
          (push_new-Shown k c l cells g absent
            (rw (without_absent dec k (entries cells) absent) at room))
    | inr (i, e) ↦
        rw (g.lookup k, LruList.push_front, e) (touch_index-Shown dec A k i c l cells g e room)
  ]
