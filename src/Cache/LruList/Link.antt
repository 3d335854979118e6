-- ===== src/Cache/LruList/Link.antt =====
-- `unlink` and `push_front_node` on a chain.
use fibre.Base.{
  ℕ, ◌≡◌, refl, Option, none, some, List, [], ◌∷◌, ◌++◌, arith, Bool, true, false, ap, ◌∙◌, sym,
  subst,
}
use fibre.Base.Keys.{contains, Unique}
use fibre.Cache.Arena.{ArenaLib}
use fibre.Cache.LruList.{Node, List', edit, hook, close_above, close_below, unlink, push_front_node}
use fibre.Cache.LruList.Chain.{
  Cell, indices, first_or, last_or, first_or-append, last_or-append, Chain, inside, inside-append,
  Chain-frame, Chain-split, Chain-append,
}

module _ {K Index : Type 0} (A : ArenaLib Index (Node K Index)) where
  abbrev Same : (cells : List (Cell K Index)) → A.Repr → A.Repr → Type 0
  Same cells a b = (j : Index) → inside A j cells ≡ false → A.get j b ≡ A.get j a

  -- What relinking one end of a chain does.
  record Relinked (a : A.Repr) (out : Option A.Repr) (below : Option Index)
      (cells : List (Cell K Index)) (above : Option Index) : Type 0 where
    arena : A.Repr
    returns : out ≡ some arena
    chain : Chain A arena below cells above
    same : Same cells a arena

  relink_first :
      (a : A.Repr) (below below' : Option Index) (i : Index) (k : K) (c : ℕ)
      (cells : List (Cell K Index)) (above : Option Index)
      → Chain A a below ((i, k, c) ∷ cells) above
      → Unique A.same_index (i ∷ indices cells)
      → Relinked a (edit A i (λ n. record n { next = below' }) a) below' ((i, k, c) ∷ cells) above
  unfolding edit contains
  relink_first a below below' i k c cells above ch u = record {
    arena = b;
    returns = ground (arith, ch.0);
    chain = (
      ground (arith, A.get-put i i node' node a ch.0),
      Chain-frame A a b (some i) cells above
          (λ j h. ground (arith, A.get-put i j node' node a ch.0, u.0)) ch.1,
    );
    same = λ j h. ground (arith, A.get-put i j node' node a ch.0);
  }
    where
      node : Node K Index
      node = record { key = k; cost = c; next = below; prev = first_or above cells }

      node' : Node K Index
      node' = record { key = k; cost = c; next = below'; prev = first_or above cells }

      b : A.Repr
      b = A.put i node' a

  relink_last :
      (cells : List (Cell K Index)) (a : A.Repr) (below : Option Index) (i : Index) (k : K) (c : ℕ)
      (above above' : Option Index)
      → Chain A a below ((i, k, c) ∷ cells) above
      → Unique A.same_index (i ∷ indices cells)
      → (n : Index) × (last_or (some i) cells ≡ some n)
        × Relinked a (edit A n (λ m. record m { prev = above' }) a) below ((i, k, c) ∷ cells) above'
  unfolding edit contains
  relink_last [] a below i k c above above' ch u =
      let node : Node K Index = record { key = k; cost = c; next = below; prev = above } in
      let node' : Node K Index = record { key = k; cost = c; next = below; prev = above' } in
      (
        i,
        refl,
        record {
          arena = A.put i node' a;
          returns = ground (arith, ch.0);
          chain = (ground (arith, A.get-put i i node' node a ch.0), tt);
          same = λ j h. ground (arith, A.get-put i j node' node a ch.0);
        },
      )
  relink_last ((j, l, d) ∷ cells) a below i k c above above' ch u =
      let (n, last, r) = relink_last cells a (some i) j l d above above' ch.1 u.1 in
      (
        n,
        last,
        record {
          arena = r.arena;
          returns = r.returns;
          chain = (ground (arith, ch.0, r.same i, u.0), r.chain);
          same = λ m h. r.same m (ground arith);
        },
      )

  -- What closing the gap on one side of a node does to the list.
  record Closed (l : List' A) (out : Option (List' A)) (below : Option Index)
      (cells : List (Cell K Index)) (above head tail : Option Index) : Type 0 where
    list : List' A
    returns : out ≡ some list
    chain : Chain A list.nodes below cells above
    same : Same cells l.nodes list.nodes
    new_head : list.head ≡ head
    new_tail : list.tail ≡ tail
    lookup : list.lookup ≡ l.lookup
    cost : list.current_cost ≡ l.current_cost

  close_above-Closed :
      (ys : List (Cell K Index)) (l : List' A) (i : Index) (next : Option Index)
      → Chain A l.nodes (some i) ys none
      → Unique A.same_index (indices ys)
      → l.head ≡ last_or (some i) ys
      → Closed l (close_above A (first_or none ys) next l) next ys none (last_or next ys) l.tail
  unfolding close_above
  close_above-Closed [] l i next ch u e = record {
    list = record l { head = next };
    returns = refl;
    chain = tt;
    same = λ j h. refl;
    new_head = refl;
    new_tail = refl;
    lookup = refl;
    cost = refl;
  }
  close_above-Closed ((p, k, c) ∷ ys) l i next ch u e =
      let r = relink_first l.nodes (some i) next p k c ys none ch u in
      record {
        list = record l { nodes = r.arena };
        returns = rw r.returns;
        chain = r.chain;
        same = r.same;
        new_head = e;
        new_tail = refl;
        lookup = refl;
        cost = refl;
      }

  close_below-Closed :
      (xs : List (Cell K Index)) (l : List' A) (i : Index) (prev : Option Index)
      → Chain A l.nodes none xs (some i)
      → Unique A.same_index (indices xs)
      → l.tail ≡ first_or (some i) xs
      → Closed l (close_below A (last_or none xs) prev l) none xs prev l.head (first_or prev xs)
  unfolding close_below
  close_below-Closed [] l i prev ch u e = record {
    list = record l { tail = prev };
    returns = refl;
    chain = tt;
    same = λ j h. refl;
    new_head = refl;
    new_tail = refl;
    lookup = refl;
    cost = refl;
  }
  close_below-Closed ((p, k, c) ∷ xs) l i prev ch u e =
      let (n, last, r) = relink_last xs l.nodes none p k c (some i) prev ch u in
      record {
        list = record l { nodes = r.arena };
        returns = ground (arith, last, r.returns);
        chain = r.chain;
        same = r.same;
        new_head = refl;
        new_tail = e;
        lookup = refl;
        cost = refl;
      }

  pub Unique-split :
      (xs ys : List (Cell K Index))
      → Unique A.same_index (indices (xs ++ ys))
      → Unique A.same_index (indices xs)
        × Unique A.same_index (indices ys)
        × ((j : Index) → inside A j xs ≡ true → inside A j ys ≡ false)
  unfolding contains
  Unique-split [] ys u = (tt, u, λ j h. cc)
  Unique-split ((i, k, c) ∷ xs) ys u =
      let (l, r, apart) = Unique-split xs ys u.1 in
      (
        (ground (arith, u.0, inside-append A i xs ys), l),
        r,
        λ j h. ground (arith, apart j, u.0, inside-append A j xs ys),
      )

  Unique-join :
      (xs ys : List (Cell K Index))
      → Unique A.same_index (indices xs)
      → Unique A.same_index (indices ys)
      → ((j : Index) → inside A j xs ≡ true → inside A j ys ≡ false)
      → Unique A.same_index (indices (xs ++ ys))
  unfolding contains
  Unique-join [] ys ux uy apart = uy
  Unique-join ((i, k, c) ∷ xs) ys ux uy apart = (
    ground (arith, ux.0, inside-append A i xs ys, apart i),
    Unique-join xs ys ux.1 uy (λ j h. apart j (ground arith)),
  )

  -- The arena, the head and the tail of a list are those of a run of cells.
  pub record Linked (l : List' A) (cells : List (Cell K Index)) : Type 0 where
    pub chain : Chain A l.nodes none cells none
    pub unique : Unique A.same_index (indices cells)
    pub head : l.head ≡ last_or none cells
    pub tail : l.tail ≡ first_or none cells

  -- A list that `op` returns, with the parts that linking leaves alone.
  pub record Relinks (l : List' A) (out : Option (List' A)) (cells : List (Cell K Index))
      : Type 0 where
    pub list : List' A
    pub returns : out ≡ some list
    pub linked : Linked list cells
    pub lookup : list.lookup ≡ l.lookup
    pub cost : list.current_cost ≡ l.current_cost

  -- `unlink` takes a cell out of the run, wherever it stands, and leaves its node in the arena.
  pub unlink-Relinks :
      (xs : List (Cell K Index)) (i : Index) (k : K) (c : ℕ) (ys : List (Cell K Index))
      (l : List' A)
      → Linked l (xs ++ (i, k, c) ∷ ys)
      → (r : Relinks l (unlink A i l) (xs ++ ys)) × (A.get i r.list.nodes ≡ A.get i l.nodes)
        × (inside A i (xs ++ ys) ≡ false)
  unfolding unlink contains
  unlink-Relinks xs i k c ys l g =
      let (left, right) = Chain-split A l.nodes none xs ((i, k, c) ∷ ys) none g.chain in
      let (ux, uiy, apart) = Unique-split xs ((i, k, c) ∷ ys) g.unique in
      let at_head : l.head ≡ last_or (some i) ys =
        g.head ∙ last_or-append none xs ((i, k, c) ∷ ys) in
      let at_tail : l.tail ≡ first_or (some i) xs =
        g.tail ∙ first_or-append none xs ((i, k, c) ∷ ys) in
      let up = close_above-Closed ys l i (last_or none xs) right.1 uiy.1 at_head in
      let left' : Chain A up.list.nodes none xs (some i) =
        Chain-frame A l.nodes up.list.nodes none xs (some i)
          (λ j h. up.same j (ground (arith, apart j h))) left in
      let down =
        close_below-Closed xs up.list i (first_or none ys) left' ux (up.new_tail ∙ at_tail) in
      let outside_x : inside A i xs ≡ false = ground (arith, apart i) in
      (
        record {
          list = down.list;
          returns = ground (arith, right.0, up.returns, down.returns);
          linked = record {
            chain = Chain-append A down.list.nodes none xs ys none down.chain (
                Chain-frame A up.list.nodes down.list.nodes (last_or none xs) ys none
                  (λ j h. down.same j (ground (arith, apart j))) up.chain);
            unique = Unique-join xs ys ux uiy.1 (λ j h. ground (arith, apart j h));
            head = down.new_head ∙ up.new_head ∙ sym (last_or-append none xs ys);
            tail = down.new_tail ∙ sym (first_or-append none xs ys);
          };
          lookup = down.lookup ∙ up.lookup;
          cost = down.cost ∙ up.cost;
        },
        down.same i outside_x ∙ up.same i uiy.0,
        ground (arith, inside-append A i xs ys, outside_x, uiy.0),
      )

  -- Hooking a new head onto the youngest node of a chain.
  hook-Relinked :
      (cells : List (Cell K Index)) (a : A.Repr) (index : Index)
      → Chain A a none cells none
      → Unique A.same_index (indices cells)
      → Relinked a (hook A (last_or none cells) index a) none cells (some index)
  unfolding hook
  hook-Relinked [] a index ch u = record {
    arena = a;
    returns = refl;
    chain = tt;
    same = λ j h. refl;
  }
  hook-Relinked ((i, k, c) ∷ cells) a index ch u =
      let (n, last, r) = relink_last cells a none i k c none (some index) ch u in
      record {
        arena = r.arena;
        returns = ground (arith, last, r.returns);
        chain = r.chain;
        same = r.same;
      }

  pub put_self :
      (i : Index) (n m : Node K Index) (a : A.Repr)
      → A.get i a ≡ some n
      → A.get i (A.put i m a) ≡ some m
  put_self i n m a at = ground (arith, A.get-put i i m n a at)

  pub put_other :
      (cells : List (Cell K Index)) (i : Index) (n m : Node K Index) (a : A.Repr)
      → A.get i a ≡ some n
      → inside A i cells ≡ false
      → (j : Index) → inside A j cells ≡ true
      → A.get j (A.put i m a) ≡ A.get j a
  put_other cells i n m a at outside j h = elim (A.same_index i j) [
    | yes p ↦ absurd (clash (subst (λ x. inside A x cells ≡ false) p outside) h)
    | no ne ↦ ground (arith, A.get-put i j m n a at, ne)
  ]
    where
      clash : {b : Bool} → b ≡ false → b ≡ true → ⊥
      clash e f = cc

  alone :
      (cells : List (Cell K Index)) (i : Index) (n : Node K Index)
      → inside A i cells ≡ false
      → (j : Index) → inside A j cells ≡ true
      → inside A j ((i, n.key, n.cost) ∷ []) ≡ false
  unfolding contains
  alone cells i n outside j h = elim (A.same_index i j) [
    | yes p ↦ absurd (clash (subst (λ x. inside A x cells ≡ false) p outside) h)
    | no ne ↦ ground (arith, ne)
  ]
    where
      clash : {b : Bool} → b ≡ false → b ≡ true → ⊥
      clash e f = cc

  new_tail :
      (cells : List (Cell K Index)) (i : Index) (n : Node K Index) (l : List' A)
      → l.tail ≡ first_or none cells
      → (elim l.tail [ none ↦ some i | some t ↦ some t ])
        ≡ first_or none (cells ++ (i, n.key, n.cost) ∷ [])
  new_tail [] i n l e = ground (arith, e)
  new_tail (x ∷ cells) i n l e = ground (arith, e)

  -- `push_front_node` makes a node of the arena that is in no run the youngest cell.
  pub push_front_node-Relinks :
      (cells : List (Cell K Index)) (i : Index) (n : Node K Index) (l : List' A)
      → Linked l cells
      → A.get i l.nodes ≡ some n
      → inside A i cells ≡ false
      → Relinks l (push_front_node A i l) (cells ++ (i, n.key, n.cost) ∷ [])
  unfolding push_front_node edit contains
  push_front_node-Relinks cells i n l g at outside =
      let node : Node K Index = record { key = n.key; cost = n.cost; next = l.head; prev = none } in
      let made : Option Index → Option (Node K Index) =
        λ h. some (record { key = n.key; cost = n.cost; next = h; prev = none }) in
      let set = A.put i node l.nodes in
      let kept : Chain A set none cells none =
        Chain-frame A l.nodes set none cells none (put_other cells i n node l.nodes at outside)
          g.chain in
      let r = hook-Relinked cells set i kept g.unique in
      let hooked : hook A l.head i set ≡ some r.arena =
        ap (λ h. hook A h i set) g.head ∙ r.returns in
      let placed : A.get i r.arena ≡ some node = r.same i outside ∙ put_self i n node l.nodes at in
      record {
        list = record l {
          nodes = r.arena;
          head = some i;
          tail = elim l.tail [ none ↦ some i | some t ↦ some t ];
        };
        returns = ground (arith, at, hooked);
        linked = record {
          chain =
              Chain-append A r.arena none cells ((i, n.key, n.cost) ∷ []) none r.chain
                (placed ∙ ap made g.head, tt);
          unique =
              Unique-join cells ((i, n.key, n.cost) ∷ []) g.unique (refl, tt)
                (alone cells i n outside);
          head = sym (last_or-append none cells ((i, n.key, n.cost) ∷ []));
          tail = new_tail cells i n l g.tail;
        };
        lookup = refl;
        cost = refl;
      }
