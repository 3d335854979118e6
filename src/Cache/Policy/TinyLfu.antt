-- ===== src/Cache/Policy/TinyLfu.antt =====
-- `TinyLfuPolicy` of cache/src/policy/tinylfu.rs: a window in front of the two segments of SLRU, with a
-- sketch of how often keys were used. A counter of the sketch out of range is a panic: `none`.
pub mod Contest
pub mod Window
use fibre.Base.{
  ℕ, zero, suc, ◌+◌, ◌-◌, ◌*◌, ◌%◌, max, List, [], ◌∷◌, ◌++◌, Option, none, some, Bool, true, false,
  ltb, leb, ◌==◌, if◌then◌else◌, is_some, add64, u64_mod,
}
use fibre.Cache.Recency.{RecencyList}
use fibre.Cache.Policy.{AdmissionDecision, admit, admit_and_evict}
use fibre.Cache.Policy.Slru.{SlruState}
use fibre.Cache.Policy.Slru
use fibre.Cache.Policy.Sketch
use fibre.Cache.Policy.Sketch.{CountMinSketch}

pub record TinyLfuState (L : Type 0) : Type 0 where
  pub window : L
  pub main : SlruState L
  pub sketch : CountMinSketch

pub record TinyLfuPolicy : Type 0 where
  pub window_target_cost : ℕ
  pub main_cache_cost : ℕ
  pub main_prot_capacity : ℕ

-- `hundredth` and `fifth` are the floating-point shares of a cost, rounded.
unfoldable pub new_policy : (hundredth fifth : ℕ → ℕ) → ℕ → TinyLfuPolicy
new_policy hundredth fifth capacity =
    let window = if capacity == 0 then 0 else max (hundredth capacity) 1 in
    let main = capacity - window in
    record {
      window_target_cost = window;
      main_cache_cost = main;
      main_prot_capacity = if main == 0 then 0 else main - max (fifth main) 1;
    }

abbrev pub decision : {K : Type 0} → List K → AdmissionDecision K
decision [] = admit
decision (k ∷ ks) = admit_and_evict (k ∷ ks)

module _ {K : Type 0} {dec : Discrete K} (R : RecencyList K dec) (hash : K → ℕ) where
  open R use {Repr}

  unfoldable pub new : ℕ → TinyLfuState Repr
  new capacity = record {
    window = R.new;
    main = Slru.new R;
    sketch = Sketch.new (max (capacity * 10 % u64_mod) 100);
  }

  unfoldable pub on_access : TinyLfuPolicy → K → ℕ → TinyLfuState Repr → Option (TinyLfuState Repr)
  on_access policy key cost s = elim (Sketch.increment hash key s.sketch) [
    | none ↦ none
    | some sketch ↦
        let t = record s { sketch = sketch } in
        let (in_window, window) = R.touch key cost s.window in
        let (_, main) = Slru.touch R key cost policy.main_prot_capacity s.main in
        some (if in_window then record t { window = window } else record t { main = main })
  ]

  -- Whether a candidate from the window takes the place of the victim of the main segments.
  unfoldable pub admit_candidate : K → TinyLfuState Repr → Option Bool
  admit_candidate key s = elim (Slru.peek_lru R s.main) [
    | none ↦ some true
    | some victim ↦ elim (Sketch.estimate hash key s.sketch) [
      | none ↦ none
      | some own ↦ elim (Sketch.estimate hash victim s.sketch) [
        | none ↦ none
        | some other ↦ some (leb other own)
      ]
    ]
  ]

  -- One candidate, with its cost, out of the window: the rejected candidates and the state.
  unfoldable pub place_candidate :
      TinyLfuPolicy → K → ℕ → List K → TinyLfuState Repr → Option (List K × TinyLfuState Repr)
  place_candidate policy key cost rejected s =
      let main_cost =
        add64 (R.current_total_cost s.main.probationary) (R.current_total_cost s.main.protected) in
      let admitted = record s { main = Slru.admit_internal R key cost s.main } in
      if leb (add64 main_cost cost) policy.main_cache_cost
      then some (rejected, admitted)
      else elim (admit_candidate key s) [
        | none ↦ none
        | some better ↦ some (if better then (rejected, admitted) else (rejected ++ key ∷ [], s))
      ]

  -- The `while` of `on_admit`, on fuel.
  unfoldable pub window_loop :
      TinyLfuPolicy → ℕ → List K → TinyLfuState Repr → Option (List K × TinyLfuState Repr)
  window_loop policy zero rejected s = some (rejected, s)
  window_loop policy (suc fuel) rejected s =
      let (popped, rest) = R.pop_back s.window in
      let t = record s { window = rest } in
      elim (ltb policy.window_target_cost (R.current_total_cost s.window)) [
        | false ↦ some (rejected, s)
        | true ↦ elim popped [
          | none ↦ some (rejected, t)
          | some (key, cost) ↦ elim (place_candidate policy key cost rejected t) [
            | none ↦ none
            | some (after, u) ↦ window_loop policy fuel after u
          ]
        ]
      ]

  -- A round takes one entry out of the window.
  unfoldable pub manage_window :
      TinyLfuPolicy → TinyLfuState Repr → Option (AdmissionDecision K × TinyLfuState Repr)
  manage_window policy s = elim (window_loop policy (suc (R.size s.window)) [] s) [
    | none ↦ none
    | some (rejected, t) ↦ some (decision rejected, t)
  ]

  unfoldable pub on_admit :
      TinyLfuPolicy → K → ℕ → TinyLfuState Repr → Option (AdmissionDecision K × TinyLfuState Repr)
  on_admit policy key cost s =
      let (in_main, main) = Slru.touch R key cost policy.main_prot_capacity s.main in
      elim (Sketch.increment hash key s.sketch) [
        | none ↦ none
        | some sketch ↦
            if in_main
            then some (admit, record s { main = main; sketch = sketch })
            else manage_window policy
                (record s { window = R.push_front key cost s.window; sketch = sketch })
      ]

  unfoldable pub on_remove : K → TinyLfuState Repr → TinyLfuState Repr
  on_remove key s =
      let (in_window, window) = R.remove key s.window in
      if is_some in_window
      then record s { window = window }
      else record s { window = window; main = Slru.on_remove R key s.main }

  unfoldable pub evict : TinyLfuPolicy → ℕ → TinyLfuState Repr → List K × ℕ × TinyLfuState Repr
  evict policy cost_to_free s =
      let (victims, freed, main) =
        Slru.evict_items R cost_to_free policy.main_prot_capacity s.main in
      if cost_to_free == 0 then ([], 0, s) else (victims, freed, record s { main = main })

  unfoldable pub clear : TinyLfuState Repr → TinyLfuState Repr
  clear s = record {
    window = R.clear s.window;
    main = Slru.clear R s.main;
    sketch = Sketch.clear s.sketch;
  }
