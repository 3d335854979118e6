-- ===== src/Cache/LruList/Takes.antt =====
-- The operations of `LruList` that move or take out an entry.
use fibre.Base.{
  ℕ, ◌-◌, ◌≡◌, refl, Option, none, some, List, [], ◌∷◌, ◌++◌, arith, ite, ap, ◌∙◌, sym,
  Option-cases, inl, inr, subst,
}
use fibre.Base.HashMap
use fibre.Base.HashMap.{get-insert, get-remove}
use fibre.Cache.Arena.{ArenaLib}
use fibre.Cache.Recency.{Entries, total, cost_of, without, Distinct, refresh, promote}
use fibre.Cache.Recency.Entries.{
  total-without, without_absent, Distinct-without, Distinct-refresh, total-refresh, promote_absent,
  promote_found,
}
use fibre.Cache.LruList
use fibre.Cache.LruList.{Node, LruList, List', touch_index, is_head, raise, push_front_node, unlink}
use fibre.Cache.LruList.Cells.{
  entries, entries-append, index_of, index_of-append, index_of_absent, absent-index_of,
  index_of-Place, without-middle, Distinct-middle,
}
use fibre.Cache.LruList.Chain.{Cell, Chain-split, Chain-frame, removed_other}
use fibre.Cache.LruList.Link.{Linked, unlink-Relinks}
use fibre.Cache.LruList.Move.{front-Relinks}
use fibre.Cache.LruList.Refine.{Holds, Shown, index_of-move, entries-move}

module _ {K Index : Type 0} (dec : Discrete K) (A : ArenaLib Index (Node K Index)) where
  pub move_to_front-Shown :
      (k : K) (l : List' A) (cells : List (Cell K Index))
      → Holds dec A l cells
      → Shown dec A (LruList.move_to_front dec A k l) (promote dec k (entries cells))
  unfolding LruList.move_to_front
  move_to_front-Shown k l cells g = elim (Option-cases (index_of dec k cells)) [
    | inl e ↦
        rw
          (
            g.lookup k,
            LruList.move_to_front,
            e,
            promote_absent dec k (entries cells) (index_of_absent dec k cells e),
          )
          (record { list = l; returns = refl; cells = cells; holds = g; shows = refl })
    | inr (i, e) ↦
        let p = index_of-Place dec k i cells e in
        let linked : Linked A l (p.before ++ (i, k, p.cost) ∷ p.after) =
          subst (Linked A l) p.split g.linked in
        let d : Distinct dec (entries (p.before ++ (i, k, p.cost) ∷ p.after)) =
          subst (λ zs. Distinct dec (entries zs)) p.split g.distinct in
        let r = front-Relinks A p.before i k p.cost p.after l linked in
        let moved : entries ((p.before ++ p.after) ++ (i, k, p.cost) ∷ [])
            ≡ refresh dec k p.cost (entries cells) =
          entries-move dec A p.before i k p.cost p.cost p.after d
          ∙ ap (λ zs. refresh dec k p.cost (entries zs)) (sym p.split) in
        let sum : total (entries ((p.before ++ p.after) ++ (i, k, p.cost) ∷ []))
            ≡ total (entries cells) =
          ap total moved
          ∙ total-refresh dec k p.cost (entries cells)
          ∙ total-without dec k (entries cells) p.cost g.distinct p.found in
        rw
          (g.lookup k, LruList.move_to_front, e, promote_found dec k p.cost (entries cells) p.found)
          (record {
            list = r.list;
            returns = r.returns;
            cells = (p.before ++ p.after) ++ (i, k, p.cost) ∷ [];
            holds = record {
              linked = r.linked;
              lookup = λ q.
                  ap (HashMap.get dec q) r.lookup
                  ∙ g.lookup q
                  ∙ ap (index_of dec q) p.split
                  ∙ index_of-move dec A p.before i k p.cost p.cost p.after q d;
              distinct =
                  subst (Distinct dec) (sym moved)
                    (Distinct-refresh dec k p.cost (entries cells) g.distinct);
              cost = r.cost ∙ g.cost ∙ sym sum;
              fits = rw sum g.fits;
            };
            shows = moved;
          })
  ]

  -- The table without a key, and the run without its cell.
  index_of-drop :
      (xs : List (Cell K Index)) (i : Index) (k : K) (b : ℕ) (ys : List (Cell K Index)) (q : K)
      → Distinct dec (entries (xs ++ (i, k, b) ∷ ys))
      → ite (dec k q) none (index_of dec q (xs ++ (i, k, b) ∷ ys)) ≡ index_of dec q (xs ++ ys)
  unfolding index_of
  index_of-drop xs i k b ys q d =
      let (l, r) =
        Distinct-middle dec (entries xs) k b (entries ys)
          (subst (Distinct dec) (entries-append xs ((i, k, b) ∷ ys)) d) in
      elim (dec k q) [
        | yes p ↦ ground (
          arith,
          p,
          subst (λ x. index_of dec x xs ≡ none) p (absent-index_of dec k xs l),
          subst (λ x. index_of dec x ys ≡ none) p (absent-index_of dec k ys r),
          index_of-append dec q xs ys,
        )
        | no n ↦
            ground
              (arith, n, index_of-append dec q xs ((i, k, b) ∷ ys), index_of-append dec q xs ys)
      ]

  -- What `remove` returns, and the list that it leaves.
  pub record Removed (out : Option (Option ℕ × List' A)) (found : Option ℕ) (xs : Entries K)
      : Type 0 where
    pub list : List' A
    pub returns : out ≡ some (found, list)
    pub cells : List (Cell K Index)
    pub holds : Holds dec A list cells
    pub shows : entries cells ≡ xs

  remove_steps :
      (k : K) (i : Index) (l u : List' A) (node : Node K Index)
      → HashMap.get dec k l.lookup ≡ some i
      → unlink A i (record l { lookup = HashMap.remove dec k l.lookup }) ≡ some u
      → A.get i u.nodes ≡ some node
      → LruList.remove dec A k l
        ≡ some (
          some node.cost,
          record u { nodes = (A.remove i u.nodes).1; current_cost = u.current_cost - node.cost },
        )
  unfolding LruList.remove
  remove_steps k i l u node at unlinks found =
      rw (at, LruList.remove, unlinks, A.remove_lem i u.nodes, found)

  pub remove-Removed :
      (k : K) (l : List' A) (cells : List (Cell K Index))
      → Holds dec A l cells
      → Removed
          (LruList.remove dec A k l)
          (cost_of dec k (entries cells))
          (without dec k (entries cells))
  unfolding LruList.remove
  remove-Removed k l cells g = elim (Option-cases (index_of dec k cells)) [
    | inl e ↦
        let absent = index_of_absent dec k cells e in
        record {
          list = l;
          returns = rw (g.lookup k, LruList.remove, e, absent);
          cells = cells;
          holds = g;
          shows = sym (without_absent dec k (entries cells) absent);
        }
    | inr (i, e) ↦
        let p = index_of-Place dec k i cells e in
        let d : Distinct dec (entries (p.before ++ (i, k, p.cost) ∷ p.after)) =
          subst (λ zs. Distinct dec (entries zs)) p.split g.distinct in
        let linked : Linked A l (p.before ++ (i, k, p.cost) ∷ p.after) =
          subst (Linked A l) p.split g.linked in
        let start : List' A = record l { lookup = HashMap.remove dec k l.lookup } in
        let relinked : Linked A start (p.before ++ (i, k, p.cost) ∷ p.after) = record {
          chain = linked.chain;
          unique = linked.unique;
          head = linked.head;
          tail = linked.tail;
        } in
        let (r, at, outside) = unlink-Relinks A p.before i k p.cost p.after start relinked in
        let node =
          (Chain-split A l.nodes none p.before ((i, k, p.cost) ∷ p.after) none linked.chain).1.0 in
        let rest = p.before ++ p.after in
        let split = entries-append p.before ((i, k, p.cost) ∷ p.after) in
        let shows : entries rest ≡ without dec k (entries cells) =
          entries-append p.before p.after
          ∙ sym (
              without-middle dec (entries p.before) k p.cost (entries p.after)
                (subst (Distinct dec) split d))
          ∙ ap (without dec k) (sym split ∙ ap entries (sym p.split)) in
        let less = total-without dec k (entries cells) p.cost g.distinct p.found in
        record {
          list = record r.list {
            nodes = (A.remove i r.list.nodes).1;
            current_cost = r.list.current_cost - p.cost;
          };
          returns = rw p.found (remove_steps k i l r.list _ (g.lookup k ∙ e) r.returns (at ∙ node));
          cells = rest;
          holds = record {
            linked = record {
              chain =
                  Chain-frame A r.list.nodes (A.remove i r.list.nodes).1 none rest none
                    (removed_other A i r.list.nodes rest outside) r.linked.chain;
              unique = r.linked.unique;
              head = r.linked.head;
              tail = r.linked.tail;
            };
            lookup = λ q.
                ap (HashMap.get dec q) r.lookup
                ∙ get-remove dec q k l.lookup
                ∙ ap (ite (dec k q) none) (g.lookup q ∙ ap (index_of dec q) p.split)
                ∙ index_of-drop p.before i k p.cost p.after q d;
            distinct =
                subst (Distinct dec) (sym shows)
                  (Distinct-without dec k (entries cells) g.distinct);
            cost = omega (arith, r.cost, g.cost, ap total shows, less);
            fits = omega (arith, ap total shows, less, g.fits);
          };
          shows = shows;
        }
  ]
