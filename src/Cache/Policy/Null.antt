-- ===== src/Cache/Policy/Null.antt =====
-- `NullPolicy` of cache/src/policy/null.rs, which has no state.
use fibre.Base.{ℕ, List, [], Bool, false}
use fibre.Cache.Policy.{AdmissionDecision, admit}

abbrev pub uses_access_events : Bool
uses_access_events = false

module _ {K : Type 0} where
  abbrev pub on_admit : K → ℕ → AdmissionDecision K
  on_admit key cost = admit

  abbrev pub evict : ℕ → List K × ℕ
  evict cost_to_free = ([], 0)
