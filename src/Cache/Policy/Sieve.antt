-- ===== src/Cache/Policy/Sieve.antt =====
-- `SievePolicy` of cache/src/policy/sieve.rs. An index out of range and an `unwrap` of `None` are
-- panics of the code: `none` here.
pub mod Sweep
pub mod Evict
use fibre.Base.{
  ℕ, zero, suc, ◌+◌, ◌-◌, List, [], ◌∷◌, ◌++◌, Option, none, some, if◌then◌else◌, true, false, Bool,
  length, get_elem?, remove_at, ltb, leb, add64, ◌&&◌,
}
use fibre.Base.HashMap
use fibre.Base.HashMap.{HashMap, get, remove, insert}
use fibre.Base.HashMap.Values.{modify}
use fibre.Base.Keys.{retain_ne}
use fibre.Cache.Policy.{AdmissionDecision, admit}

pub record SieveEntry : Type 0 where
  pub cost : ℕ
  pub visited : Bool

-- The front of `order` is its first element.
pub record SieveState (K : Type 0) : Type 0 where
  pub order : List K
  pub items : HashMap K SieveEntry
  pub hand : ℕ

pub new : {K : Type 0} → SieveState K
new = record { order = []; items = []; hand = 0 }

abbrev pub set_visited : Bool → SieveEntry → SieveEntry
set_visited b e = record e { visited = b }

module _ {K : Type 0} (dec : Discrete K) where
  pub on_access : K → ℕ → SieveState K → SieveState K
  on_access key cost s = record s { items = modify dec key (set_visited true) s.items }

  pub on_admit : K → ℕ → SieveState K → AdmissionDecision K × SieveState K
  on_admit key cost s =
      let order =
        if HashMap.contains_key dec key s.items then retain_ne dec key s.order else s.order in
      (
        admit,
        record s {
          items = insert dec key (record { cost = cost; visited = false }) s.items;
          order = key ∷ order;
        },
      )

  pub on_remove : K → SieveState K → SieveState K
  on_remove key s =
      let order = retain_ne dec key s.order in
      record {
        items = remove dec key s.items;
        order = order;
        hand = if leb (length order) s.hand then 0 else s.hand;
      }

  -- The key at an index goes: what both ways of evicting do.
  abbrev pub take_at : ℕ → K → SieveState K → SieveState K
  take_at index key s = record s { order = remove_at s.order index; items = remove dec key s.items }

  -- The inner `while`, on fuel: the victim with its cost, if the hand met one before the end.
  unfoldable pub sweep : ℕ → SieveState K → Option (Option (K × ℕ) × SieveState K)
  sweep zero s = none
  sweep (suc fuel) s =
      let index = length s.order - 1 - s.hand in
      elim (ltb s.hand (length s.order)) [
        | false ↦ some (none, s)
        | true ↦ elim (get_elem? s.order index) [
          | none ↦ none
          | some key ↦ elim (get dec key s.items) [
            | none ↦ none
            | some entry ↦ elim entry.visited [
              | false ↦ some (some (key, entry.cost), take_at index key s)
              | true ↦ sweep fuel (record s {
                items = modify dec key (set_visited false) s.items;
                hand = s.hand + 1;
              })
            ]
          ]
        ]
      ]

  -- The oldest item goes when the sweep found none; the hand starts again.
  unfoldable pub evict_oldest : SieveState K → Option ((K × ℕ) × SieveState K)
  evict_oldest s =
      let lru_index = length s.order - 1 in
      elim (get_elem? s.order lru_index) [
        | none ↦ none
        | some key ↦ elim (get dec key s.items) [
          | none ↦ none
          | some entry ↦ some ((key, entry.cost), record (take_at lru_index key s) { hand = 0 })
        ]
      ]

  -- One round of the outer `while`, for a state that has keys left and a cost still to free.
  unfoldable pub round : SieveState K → Option ((K × ℕ) × SieveState K)
  round s = elim (sweep (suc (length s.order)) s) [
    | none ↦ none
    | some (found, t) ↦ elim found [
      | some victim ↦ some (victim, t)
      | none ↦ evict_oldest (record t { hand = 0 })
    ]
  ]

  -- The outer `while`, on fuel.
  unfoldable pub evict_loop : ℕ → ℕ → List K → ℕ → SieveState K → Option (List K × ℕ × SieveState K)
  evict_loop zero cost_to_free victims freed s = none
  evict_loop (suc fuel) cost_to_free victims freed s =
      elim (ltb 0 cost_to_free && ltb 0 (length s.order)) [
        | false ↦ some (victims, freed, s)
        | true ↦ elim (round s) [
          | none ↦ none
          | some ((key, cost), t) ↦
              evict_loop fuel (cost_to_free - cost) (victims ++ key ∷ []) (add64 freed cost) t
        ]
      ]

  -- A round takes one key out: a round for each, and one more to see the end.
  unfoldable pub evict : ℕ → SieveState K → Option (List K × ℕ × SieveState K)
  evict cost_to_free s = evict_loop (suc (length s.order)) cost_to_free [] 0 s

  pub clear : SieveState K → SieveState K
  clear s = record { order = []; items = []; hand = 0 }

  abbrev pub costs : SieveState K → K → Option ℕ
  costs s k = elim (get dec k s.items) [ none ↦ none | some e ↦ some e.cost ]
