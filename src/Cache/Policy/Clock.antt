-- ===== src/Cache/Policy/Clock.antt =====
-- `ClockPolicy` of cache/src/policy/clock.rs. An index out of range and an `unwrap` of `None` are
-- panics of the code: `none` here.
pub mod Sweep
pub mod Evict
use fibre.Base.{
  ℕ, zero, suc, ◌+◌, ◌-◌, ◌*◌, ◌<◌, ◌≤◌, ◌≡◌, refl, List, [], ◌∷◌, ◌++◌, Option, none, some, arith,
  ite, if◌then◌else◌, true, false, Bool, inl, inr, ◌⊎◌, is_some, length, get_elem?, remove_at, ltb,
  leb, add64, ◌&&◌,
}
use fibre.Base.HashMap
use fibre.Base.HashMap.{HashMap, get, remove, insert}
use fibre.Base.HashMap.Values.{modify}
use fibre.Base.Keys.{contains, position}
use fibre.Cache.Policy.{AdmissionDecision, admit}

pub record ClockEntry : Type 0 where
  pub cost : ℕ
  pub referenced : Bool

pub record ClockState (K : Type 0) : Type 0 where
  pub items : HashMap K ClockEntry
  pub order : List K
  pub hand : ℕ

pub new : {K : Type 0} → ClockState K
new = record { items = []; order = []; hand = 0 }

abbrev pub set_referenced : Bool → ClockEntry → ClockEntry
set_referenced b e = record e { referenced = b }

module _ {K : Type 0} (dec : Discrete K) where
  pub on_access : K → ℕ → ClockState K → ClockState K
  on_access key cost s = record s { items = modify dec key (set_referenced true) s.items }

  pub on_admit : K → ℕ → ClockState K → AdmissionDecision K × ClockState K
  on_admit key cost s = if HashMap.contains_key dec key s.items then (admit, s) else (
    admit,
    record s {
      items = insert dec key (record { cost = cost; referenced = false }) s.items;
      order = s.order ++ key ∷ [];
    },
  )

  pub on_remove : K → ClockState K → ClockState K
  on_remove key s = elim (get dec key s.items) [
    | none ↦ s
    | some _ ↦ elim (position dec key s.order) [
      | none ↦ record s { items = remove dec key s.items }
      | some pos ↦ record s {
        items = remove dec key s.items;
        order = remove_at s.order pos;
        hand = if leb pos s.hand && ltb 0 s.hand then s.hand - 1 else s.hand;
      }
    ]
  ]

  -- The inner `while`, by the rounds left of `order_len * 2`: the victim with its cost, if a round
  -- found one.
  unfoldable pub sweep : ℕ → ClockState K → Option (Option (K × ℕ) × ClockState K)
  sweep zero s = some (none, s)
  sweep (suc rounds) s =
      let hand = if leb (length s.order) s.hand then 0 else s.hand in
      elim (get_elem? s.order hand) [
        | none ↦ none
        | some key ↦ elim (get dec key s.items) [
          | none ↦ none
          | some entry ↦ elim entry.referenced [
            | true ↦ sweep rounds (record s {
              items = modify dec key (set_referenced false) s.items;
              hand = hand + 1;
            })
            | false ↦ some (
              some (key, entry.cost),
              record s {
                items = remove dec key s.items;
                order = remove_at s.order hand;
                hand = hand;
              },
            )
          ]
        ]
      ]

  -- The outer `while`, on fuel.
  unfoldable pub evict_loop : ℕ → ℕ → List K → ℕ → ClockState K → Option (List K × ℕ × ClockState K)
  evict_loop zero cost_to_free victims freed s = none
  evict_loop (suc fuel) cost_to_free victims freed s =
      elim (ltb 0 cost_to_free && ltb 0 (length s.order)) [
        | false ↦ some (victims, freed, s)
        | true ↦ elim (sweep (length s.order * 2) s) [
          | none ↦ none
          | some (found, t) ↦ elim found [
            | none ↦ evict_loop fuel cost_to_free victims freed t
            | some (key, cost) ↦
                evict_loop fuel (cost_to_free - cost) (victims ++ key ∷ []) (add64 freed cost) t
          ]
        ]
      ]

  -- A round of the outer loop takes one key out: a round for each, and one more to see the end.
  unfoldable pub evict : ℕ → ClockState K → Option (List K × ℕ × ClockState K)
  evict cost_to_free s = evict_loop (suc (length s.order)) cost_to_free [] 0 s

  pub clear : ClockState K → ClockState K
  clear s = record { items = []; order = []; hand = 0 }

  abbrev pub costs : ClockState K → K → Option ℕ
  costs s k = elim (get dec k s.items) [ none ↦ none | some e ↦ some e.cost ]
