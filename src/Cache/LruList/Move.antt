-- ===== src/Cache/LruList/Move.antt =====
-- Changing a node's cost, and bringing it to the front.
use fibre.Base.{
  ℕ, ◌≡◌, refl, none, some, List, [], ◌∷◌, ◌++◌, arith, true, false, ap, ◌∙◌, sym, if◌then◌else◌,
  append-nil, Bool-cases, inl, inr, subst,
}
use fibre.Base.Keys.{contains, Unique}
use fibre.Cache.Arena.{ArenaLib}
use fibre.Cache.LruList.{Node, List', is_head, raise}
use fibre.Cache.LruList.Chain.{
  Cell, indices, first_or, last_or, last_or-append, first_or-append, inside, Chain-frame,
  Chain-split, Chain-append,
}
use fibre.Cache.LruList.Link.{
  Linked, Relinks, unlink-Relinks, push_front_node-Relinks, put_self, put_other, Unique-split,
}

module _ {K Index : Type 0} (A : ArenaLib Index (Node K Index)) where
  indices-middle :
      (xs : List (Cell K Index)) (i : Index) (k : K) (b c : ℕ) (ys : List (Cell K Index))
      → indices (xs ++ (i, k, b) ∷ ys) ≡ indices (xs ++ (i, k, c) ∷ ys)
  indices-middle [] i k b c ys = refl
  indices-middle ((j, l, d) ∷ xs) i k b c ys = ap (◌∷◌ j) (indices-middle xs i k b c ys)

  -- A node with a new cost stays where it is.
  pub reprice-Linked :
      (xs : List (Cell K Index)) (i : Index) (k : K) (b c : ℕ) (ys : List (Cell K Index))
      (l : List' A) (total : ℕ)
      → Linked A l (xs ++ (i, k, b) ∷ ys)
      → Linked A
          (record l {
            nodes =
                A.put i
                  (record { key = k; cost = c; next = last_or none xs; prev = first_or none ys })
                  l.nodes;
            current_cost = total;
          })
          (xs ++ (i, k, c) ∷ ys)
  unfolding contains
  reprice-Linked xs i k b c ys l total g =
      let (left, right) = Chain-split A l.nodes none xs ((i, k, b) ∷ ys) none g.chain in
      let (ux, uiy, apart) = Unique-split A xs ((i, k, b) ∷ ys) g.unique in
      let outside : inside A i xs ≡ false = ground (arith, apart i) in
      let old : Node K Index = record {
        key = k;
        cost = b;
        next = last_or none xs;
        prev = first_or none ys;
      } in
      let node : Node K Index = record {
        key = k;
        cost = c;
        next = last_or none xs;
        prev = first_or none ys;
      } in
      let nodes = A.put i node l.nodes in
      record {
        chain =
            Chain-append A nodes none xs ((i, k, c) ∷ ys) none
              (Chain-frame A l.nodes nodes none xs (some i)
                (put_other A xs i old node l.nodes right.0 outside) left)
              (
                put_self A i old node l.nodes right.0,
                Chain-frame A l.nodes nodes (some i) ys none
                    (put_other A ys i old node l.nodes right.0 uiy.0) right.1,
              );
        unique = subst (Unique A.same_index) (indices-middle xs i k b c ys) g.unique;
        head =
            g.head
            ∙ last_or-append none xs ((i, k, b) ∷ ys)
            ∙ sym (last_or-append none xs ((i, k, c) ∷ ys));
        tail =
            g.tail
            ∙ first_or-append none xs ((i, k, b) ∷ ys)
            ∙ sym (first_or-append none xs ((i, k, c) ∷ ys));
      }

  last_inside :
      (i n : Index) (k : K) (c : ℕ) (cells : List (Cell K Index))
      → last_or (some i) cells ≡ some n
      → inside A n ((i, k, c) ∷ cells) ≡ true
  unfolding contains
  last_inside i n k c [] e = ground arith
  last_inside i n k c ((j, l, d) ∷ cells) e = ground (arith, last_inside j n l d cells e)

  -- Only the youngest cell is the head.
  head_last :
      (i : Index) (ys : List (Cell K Index))
      → inside A i ys ≡ false
      → last_or (some i) ys ≡ some i
      → ys ≡ []
  head_last i [] h e = refl
  head_last i ((j, l, d) ∷ ys) h e = absurd (ground (arith, h, last_inside j i l d ys e))

  pub front-Relinks :
      (xs : List (Cell K Index)) (i : Index) (k : K) (c : ℕ) (ys : List (Cell K Index))
      (l : List' A)
      → Linked A l (xs ++ (i, k, c) ∷ ys)
      → Relinks A l (if is_head A i l then some l else raise A i l) ((xs ++ ys) ++ (i, k, c) ∷ [])
  unfolding is_head raise contains
  front-Relinks xs i k c ys l g = elim (Bool-cases (is_head A i l)) [
    | inl h ↦
        let (ux, uiy, apart) = Unique-split A xs ((i, k, c) ∷ ys) g.unique in
        let at : last_or (some i) ys ≡ some i =
          sym (g.head ∙ last_or-append none xs ((i, k, c) ∷ ys)) ∙ ground (arith, h) in
        let last : ys ≡ [] = head_last i ys uiy.0 at in
        record {
          list = l;
          returns = rw h;
          linked =
              subst (Linked A l)
                (ap (λ zs. xs ++ (i, k, c) ∷ zs) last
                  ∙ ap (λ zs. zs ++ (i, k, c) ∷ [])
                      (sym (append-nil xs) ∙ ap (λ zs. xs ++ zs) (sym last)))
                g;
          lookup = refl;
          cost = refl;
        }
    | inr h ↦
        let (r, at, outside) = unlink-Relinks A xs i k c ys l g in
        let (left, right) = Chain-split A l.nodes none xs ((i, k, c) ∷ ys) none g.chain in
        let q = push_front_node-Relinks A (xs ++ ys) i _ r.list r.linked (at ∙ right.0) outside in
        record {
          list = q.list;
          returns = ground (arith, h, r.returns, q.returns);
          linked = q.linked;
          lookup = q.lookup ∙ r.lookup;
          cost = q.cost ∙ r.cost;
        }
  ]
