-- ===== src/Cache/LruList.antt =====
-- `LruList` of cache/src/policy/lru_list.rs: nodes in an arena, linked both ways, with a table from
-- keys to indices. An index that the arena does not hold is a panic of the code: `none` here.
pub mod Chain
pub mod Cells
pub mod Link
pub mod Move
pub mod Refine
pub mod Takes
pub mod Ops
pub mod Fill
pub mod Run
use fibre.Base.{
  ℕ, ◌+◌, ◌-◌, ◌≡◌, Option, none, some, Bool, true, false, List, [], ◌∷◌, is_some, if◌then◌else◌,
  add64,
}
use mathlib.Core.Option
use fibre.Base.HashMap
use fibre.Base.HashMap.{HashMap}
use fibre.Cache.Arena.{ArenaLib}

pub record Node (K Index : Type 0) : Type 0 where
  pub key : K
  pub cost : ℕ
  pub next : Option Index
  pub prev : Option Index

pub record LruList (K Index Nodes : Type 0) : Type 0 where
  pub nodes : Nodes
  pub lookup : HashMap K Index
  pub head : Option Index
  pub tail : Option Index
  pub current_cost : ℕ

infixl 5 ◌>>=◌
abbrev pub ◌>>=◌ : {A B : Type 0} → Option A → (A → Option B) → Option B
none >>= f = none
some a >>= f = f a

module _ {K Index : Type 0} (A : ArenaLib Index (Node K Index)) where
  abbrev pub List' : Type 0
  List' = LruList K Index A.Repr

  pub new : List'
  new = record { nodes = A.new; lookup = []; head = none; tail = none; current_cost = 0 }

  -- `self.nodes[index].field = …`
  pub edit : Index → (Node K Index → Node K Index) → A.Repr → Option A.Repr
  edit index change nodes = do node ← A.get index nodes; some (A.put index (change node) nodes)

  -- The first `if let` of `unlink`, and the second.
  pub close_above : Option Index → Option Index → List' → Option List'
  close_above none next l = some (record l { head = next })
  close_above (some p) next l = do
    nodes ← edit p (λ n. record n { next = next }) l.nodes
    some (record l { nodes = nodes })

  pub close_below : Option Index → Option Index → List' → Option List'
  close_below none prev l = some (record l { tail = prev })
  close_below (some n) prev l = do
    nodes ← edit n (λ m. record m { prev = prev }) l.nodes
    some (record l { nodes = nodes })

  pub unlink : Index → List' → Option List'
  unlink index l = do
    node ← A.get index l.nodes
    above ← close_above node.prev node.next l
    close_below node.next node.prev above

  -- The `if let` of `push_front_node`.
  pub hook : Option Index → Index → A.Repr → Option A.Repr
  hook none index nodes = some nodes
  hook (some old_head) index nodes = edit old_head (λ n. record n { prev = some index }) nodes

  pub push_front_node : Index → List' → Option List'
  push_front_node index l = do
    set ← edit index (λ n. record n { next = l.head; prev = none }) l.nodes
    hooked ← hook l.head index set
    some (record l {
      nodes = hooked;
      head = some index;
      tail = elim l.tail [ none ↦ some index | some t ↦ some t ];
    })

  pub current_total_cost : List' → ℕ
  current_total_cost l = l.current_cost

  -- `self.head != Some(index)`
  pub is_head : Index → List' → Bool
  is_head index l = elim l.head [
    | none ↦ false
    | some h ↦ elim (A.same_index h index) [ yes _ ↦ true | no _ ↦ false ]
  ]

  pub raise : Index → List' → Option List'
  raise index l = do unlinked ← unlink index l; push_front_node index unlinked

  pub touch_index : Index → ℕ → List' → Option List'
  touch_index index cost l = do
    node ← A.get index l.nodes
    let priced : List' = record l {
      nodes = A.put index (record node { cost = cost }) l.nodes;
      current_cost = add64 (l.current_cost - node.cost) cost;
    }
    if is_head index l then some priced else raise index priced

  pub clear : List' → List'
  clear l = record {
    nodes = A.clear l.nodes;
    lookup = [];
    head = none;
    tail = none;
    current_cost = 0;
  }

  -- `list.tail.map(|i| list.nodes[i].key.clone())`, as SLRU and ARC write it.
  pub tail_key : List' → Option (Option K)
  tail_key l = elim l.tail [
    | none ↦ some none
    | some index ↦ do node ← A.get index l.nodes; some (some node.key)
  ]

module _ {K Index : Type 0} (dec : Discrete K) (A : ArenaLib Index (Node K Index)) where
  pub contains : K → List' A → Bool
  contains key l = HashMap.contains_key dec key l.lookup

  pub push_new : K → ℕ → List' A → Option (List' A)
  push_new key cost l =
      let (index, nodes) =
        A.insert (record { key = key; cost = cost; next = none; prev = none }) l.nodes in
      push_front_node A index (record l {
        nodes = nodes;
        lookup = HashMap.insert dec key index l.lookup;
        current_cost = add64 l.current_cost cost;
      })

  pub push_front : K → ℕ → List' A → Option (List' A)
  push_front key cost l = elim (HashMap.get dec key l.lookup) [
    | some index ↦ touch_index A index cost l
    | none ↦ push_new key cost l
  ]

  pub move_to_front : K → List' A → Option (List' A)
  move_to_front key l = elim (HashMap.get dec key l.lookup) [
    | none ↦ some l
    | some index ↦ if is_head A index l then some l else raise A index l
  ]

  pub remove : K → List' A → Option (Option ℕ × List' A)
  remove key l = elim (HashMap.get dec key l.lookup) [
    | none ↦ some (none, l)
    | some index ↦ do
      unlinked ← unlink A index (record l { lookup = HashMap.remove dec key l.lookup })
      let taken : Option (Node K Index) × A.Repr = A.remove index unlinked.nodes
      node ← taken.0
      some (
        some node.cost,
        record unlinked { nodes = taken.1; current_cost = unlinked.current_cost - node.cost },
      )
  ]

  pub pop_back : List' A → Option (Option (K × ℕ) × List' A)
  pop_back l = elim l.tail [
    | none ↦ some (none, l)
    | some tail_index ↦ do
      node ← A.get tail_index l.nodes
      (_, rest) ← remove node.key l
      some (some (node.key, node.cost), rest)
  ]

  -- `lookup.get(key)` with `touch_index`, as SLRU and W-TinyLFU call them.
  pub touch : K → ℕ → List' A → Option (Bool × List' A)
  touch key cost l = elim (HashMap.get dec key l.lookup) [
    | none ↦ some (false, l)
    | some index ↦ do touched ← touch_index A index cost l; some (true, touched)
  ]
