-- ===== src/Cache/Policy/Slru.antt =====
-- `SlruState` and `SlruPolicy` of cache/src/policy/slru.rs, over two recency lists.
pub mod Maintain
pub mod Touch
pub mod Evict
pub mod Admit
use fibre.Base.{
  ℕ, zero, suc, ◌+◌, ◌-◌, max, List, [], ◌∷◌, ◌++◌, Option, none, some, if◌then◌else◌, true, false,
  Bool, ltb, add64, ◌==◌, ◌||◌, is_some,
}
use fibre.Cache.Recency.{RecencyList}
use fibre.Cache.Policy.{AdmissionDecision, admit}

-- The capacities of `SlruPolicy`; its lock holds a `SlruState`.
pub record SlruPolicy : Type 0 where
  pub prob_capacity : ℕ
  pub prot_capacity : ℕ

-- `SlruPolicy::new`. `fifth` is the floating-point `(capacity as f64 * 0.20).round() as u64`.
pub new_policy : (fifth : ℕ → ℕ) → ℕ → SlruPolicy
new_policy fifth capacity =
    let prob_capacity = if capacity == 0 then 0 else max (fifth capacity) 1 in
    record { prob_capacity = prob_capacity; prot_capacity = capacity - prob_capacity }

pub record SlruState (L : Type 0) : Type 0 where
  pub probationary : L
  pub protected : L

module _ {K : Type 0} {dec : Discrete K} (R : RecencyList K dec) where
  open R use {Repr}

  pub new : SlruState Repr
  new = record { probationary = R.new; protected = R.new }

  -- The `while` of `maintain_capacities`, on fuel.
  pub maintain_loop : ℕ → ℕ → SlruState Repr → SlruState Repr
  maintain_loop zero prot_capacity s = s
  maintain_loop (suc fuel) prot_capacity s =
      let (popped, rest) = R.pop_back s.protected in
      elim (ltb prot_capacity (R.current_total_cost s.protected)) [
        | false ↦ s
        | true ↦ elim popped [
          | none ↦ record s { protected = rest }
          | some (key, cost) ↦
              maintain_loop fuel prot_capacity
                (record { probationary = R.push_new key cost s.probationary; protected = rest })
        ]
      ]

  -- A round takes one entry out of the protected list.
  pub maintain_capacities : ℕ → SlruState Repr → SlruState Repr
  maintain_capacities prot_capacity s = maintain_loop (suc (R.size s.protected)) prot_capacity s

  pub peek_lru : SlruState Repr → Option K
  peek_lru s = elim (R.tail_key s.probationary) [ some k ↦ some k | none ↦ R.tail_key s.protected ]

  pub admit_internal : K → ℕ → SlruState Repr → SlruState Repr
  admit_internal key cost s =
      if R.contains key s.protected
      then s
      else record s { probationary = R.push_front key cost s.probationary }

  -- The state after an access, and whether the key was in either segment.
  pub touch : K → ℕ → ℕ → SlruState Repr → Bool × SlruState Repr
  touch key cost prot_capacity s =
      let (in_protected, touched) = R.touch key cost s.protected in
      let (removed, left) = R.remove key s.probationary in
      elim in_protected [
        | true ↦ (true, record s { protected = touched })
        | false ↦ elim (is_some removed) [
          | true ↦ (
            true,
            maintain_capacities prot_capacity
                (record { probationary = left; protected = R.push_new key cost s.protected }),
          )
          | false ↦ (false, s)
        ]
      ]

  pub access_internal : K → ℕ → ℕ → SlruState Repr → SlruState Repr
  access_internal key cost prot_capacity s = (touch key cost prot_capacity s).1

  -- Each of the two loops of `evict_items`, on fuel: the cost still to free, the victims, the cost
  -- freed and the list.
  pub drain : ℕ → ℕ → List K → ℕ → Repr → ℕ × List K × ℕ × Repr
  drain zero cost_to_free victims freed list = (cost_to_free, victims, freed, list)
  drain (suc fuel) cost_to_free victims freed list =
      let (popped, rest) = R.pop_back list in
      elim (ltb 0 cost_to_free) [
        | false ↦ (cost_to_free, victims, freed, list)
        | true ↦ elim popped [
          | none ↦ (cost_to_free, victims, freed, rest)
          | some (key, cost) ↦
              drain fuel (cost_to_free - cost) (victims ++ key ∷ []) (add64 freed cost) rest
        ]
      ]

  pub evict_items : ℕ → ℕ → SlruState Repr → List K × ℕ × SlruState Repr
  evict_items cost_to_free prot_capacity s =
      let m = maintain_capacities prot_capacity s in
      let (need, victims, freed, probationary) =
        drain (suc (R.size m.probationary)) cost_to_free [] 0 m.probationary in
      let (_, all_victims, all_freed, protected) =
        drain (suc (R.size m.protected)) need victims freed m.protected in
      (all_victims, all_freed, record { probationary = probationary; protected = protected })

  pub on_access : SlruPolicy → K → ℕ → SlruState Repr → SlruState Repr
  on_access policy key cost s = access_internal key cost policy.prot_capacity s

  pub on_admit : K → ℕ → SlruState Repr → AdmissionDecision K × SlruState Repr
  on_admit key cost s =
      if R.contains key s.protected || R.contains key s.probationary
      then (admit, s)
      else (admit, record s { probationary = R.push_front key cost s.probationary })

  pub on_remove : K → SlruState Repr → SlruState Repr
  on_remove key s =
      let (removed, left) = R.remove key s.probationary in
      if is_some removed
      then record s { probationary = left }
      else record { probationary = left; protected = (R.remove key s.protected).1 }

  pub evict : SlruPolicy → ℕ → SlruState Repr → List K × ℕ × SlruState Repr
  evict policy cost_to_free s = evict_items cost_to_free policy.prot_capacity s

  pub clear : SlruState Repr → SlruState Repr
  clear s = record { probationary = R.clear s.probationary; protected = R.clear s.protected }
