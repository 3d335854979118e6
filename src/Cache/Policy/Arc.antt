-- ===== src/Cache/Policy/Arc.antt =====
-- `ArcState` and `ArcPolicy` of cache/src/policy/arc.rs, over four recency lists.
pub mod Evict
use fibre.Base.{
  ℕ, zero, suc, ◌+◌, ◌-◌, ◌<◌, ◌≡◌, refl, min, max, List, [], ◌∷◌, ◌++◌, Option, none, some,
  if◌then◌else◌, true, false, Bool, ltb, leb, add64, ◌==◌, ◌||◌, ◌&&◌, is_some, arith, inl, inr,
  Option-cases, Bool-cases, u64_mod,
}
use fibre.Cache.Recency.{Entries, total, RecencyList, has, cost_of, without, refresh}
use fibre.Cache.Policy.{AdmissionDecision, admit}

pub record ArcState (L : Type 0) : Type 0 where
  pub p : ℕ
  pub t1 : L
  pub t2 : L
  pub b1 : L
  pub b2 : L

module _ {K : Type 0} {dec : Discrete K} (R : RecencyList K dec) where
  open R use {Repr, Shows}

  pub new : ArcState Repr
  new = record { p = 0; t1 = R.new; t2 = R.new; b1 = R.new; b2 = R.new }

  -- A ghost list takes a victim in, and its oldest key leaves when it costs more than the capacity.
  pub remember : ℕ → K → ℕ → Repr → Repr
  remember capacity key cost ghosts =
      let pushed = R.push_front key cost ghosts in
      if ltb capacity (R.current_total_cost pushed) then (R.pop_back pushed).1 else pushed

  pub replace : ℕ → Bool → ArcState Repr → Option (K × ℕ) × ArcState Repr
  replace capacity key_in_b2 s =
      let t1_cost = R.current_total_cost s.t1 in
      let (popped1, rest1) = R.pop_back s.t1 in
      let (popped2, rest2) = R.pop_back s.t2 in
      elim (ltb 0 t1_cost && (leb s.p t1_cost || (key_in_b2 && t1_cost == s.p))) [
        | true ↦ elim popped1 [
          | none ↦ (none, record s { t1 = rest1 })
          | some (key, cost) ↦
              (some (key, cost), record s { t1 = rest1; b1 = remember capacity key cost s.b1 })
        ]
        | false ↦ elim popped2 [
          | none ↦ (none, record s { t2 = rest2 })
          | some (key, cost) ↦
              (some (key, cost), record s { t2 = rest2; b2 = remember capacity key cost s.b2 })
        ]
      ]

  pub on_access : K → ℕ → ArcState Repr → ArcState Repr
  on_access key cost s =
      let (removed, left) = R.remove key s.t1 in
      if is_some removed
      then record s { t1 = left; t2 = R.push_front key cost s.t2 }
      else if R.contains key s.t2
      then record s { t1 = left; t2 = R.push_front key cost s.t2 }
      else record s { t1 = left }

  -- How far a hit in one ghost list moves the target. `ratio a b` is the floating-point
  -- `(a as f64 / b as f64).round() as u64`.
  pub delta : (ratio : ℕ → ℕ → ℕ) → ℕ → ℕ → ℕ
  delta ratio hit_cost other_cost =
      max (if ltb 0 hit_cost && ltb hit_cost other_cost then ratio other_cost hit_cost else 1) 1

  -- The state after the ghost lists were looked at, and whether the key was in `b2`.
  pub adapt : (ratio : ℕ → ℕ → ℕ) → ℕ → K → ArcState Repr → Bool × ArcState Repr
  adapt ratio capacity key s =
      let (in_b1, b1) = R.remove key s.b1 in
      let (in_b2, b2) = R.remove key s.b2 in
      if is_some in_b1
      then (
        false,
        record s {
          b1 = b1;
          p =
              min (add64 s.p (delta ratio (R.current_total_cost b1) (R.current_total_cost s.b2)))
                capacity;
        },
      )
      else if is_some in_b2
      then (
        true,
        record s {
          b1 = b1;
          b2 = b2;
          p = s.p - delta ratio (R.current_total_cost b2) (R.current_total_cost b1);
        },
      )
      else (false, record s { b1 = b1; b2 = b2 })

  -- The part of `on_admit` for a key that neither `t1` nor `t2` holds.
  pub admit_new : (ratio : ℕ → ℕ → ℕ) → ℕ → K → ℕ → ArcState Repr → ArcState Repr
  admit_new ratio capacity key cost s =
      let (key_in_b2, adapted) = adapt ratio capacity key s in
      let full =
        leb capacity (add64 (R.current_total_cost adapted.t1) (R.current_total_cost adapted.t2)) in
      let roomy = if full then (replace capacity key_in_b2 adapted).1 else adapted in
      record roomy { t1 = R.push_front key cost roomy.t1 }

  pub on_admit :
      (ratio : ℕ → ℕ → ℕ) → ℕ → K → ℕ → ArcState Repr → AdmissionDecision K × ArcState Repr
  on_admit ratio capacity key cost s =
      let (removed, left) = R.remove key s.t1 in
      if is_some removed
      then (admit, record s { t1 = left; t2 = R.push_front key cost s.t2 })
      else if R.contains key s.t2
      then (admit, record s { t1 = left; t2 = R.push_front key cost s.t2 })
      else (admit, admit_new ratio capacity key cost (record s { t1 = left }))

  pub on_remove : K → ArcState Repr → ArcState Repr
  on_remove key s =
      let (in_t1, t1) = R.remove key s.t1 in
      let (in_t2, t2) = R.remove key s.t2 in
      let (in_b1, b1) = R.remove key s.b1 in
      if is_some in_t1
      then record s { t1 = t1 }
      else if is_some in_t2
      then record s { t1 = t1; t2 = t2 }
      else if is_some in_b1
      then record s { t1 = t1; t2 = t2; b1 = b1 }
      else record s { t1 = t1; t2 = t2; b1 = b1; b2 = (R.remove key s.b2).1 }

  -- The `while`, on fuel; `none` is the end of the fuel.
  pub evict_loop : ℕ → ℕ → ℕ → List K → ℕ → ArcState Repr → Option (List K × ℕ × ArcState Repr)
  evict_loop zero capacity cost_to_free victims freed s = none
  evict_loop (suc fuel) capacity cost_to_free victims freed s =
      let key_in_b2 : Bool = elim (R.tail_key s.t1) [ none ↦ false | some k ↦ R.contains k s.b2 ] in
      let (found, left) = replace capacity key_in_b2 s in
      elim (ltb freed cost_to_free) [
        | false ↦ some (victims, freed, s)
        | true ↦ elim found [
          | none ↦ some (victims, freed, left)
          | some (key, cost) ↦
              evict_loop fuel capacity cost_to_free (victims ++ key ∷ []) (add64 freed cost) left
        ]
      ]

  -- A round takes one entry out of `t1` or `t2`.
  pub evict : ℕ → ℕ → ArcState Repr → Option (List K × ℕ × ArcState Repr)
  evict capacity cost_to_free s =
      evict_loop (suc (R.size s.t1 + R.size s.t2)) capacity cost_to_free [] 0 s

  pub clear : ArcState Repr → ArcState Repr
  clear s = record {
    p = 0;
    t1 = R.clear s.t1;
    t2 = R.clear s.t2;
    b1 = R.clear s.b1;
    b2 = R.clear s.b2;
  }

  -- `on_access` takes the key out of `t1`; a key that either list holds becomes the youngest of `t2`,
  -- at the cost it is read at, and any other key changes nothing.
  pub on_access_arc :
      (k : K) (c : ℕ) (s : ArcState Repr) (xs ys : Entries K)
      → Shows s.t1 xs
      → Shows s.t2 ys
      → total (without dec k ys) + c < u64_mod
      → let t = on_access k c s in
        Shows t.t1 (without dec k xs)
        × Shows t.t2 (if has dec k xs || has dec k ys then refresh dec k c ys else ys)
        × (t.p ≡ s.p)
        × (t.b1 ≡ s.b1)
        × (t.b2 ≡ s.b2)
  unfolding on_access
  on_access_arc k c s xs ys h1 h2 fits = elim (Option-cases (cost_of dec k xs)) [
    | inr (b, e) ↦
        rw ((R.remove_lem k s.t1 xs h1).0, e)
          ((R.remove_lem k s.t1 xs h1).1, R.push_front_lem k c s.t2 ys h2 fits, refl, refl, refl)
    | inl e ↦ elim (Option-cases (cost_of dec k ys)) [
      | inr (b, e2) ↦
          rw ((R.remove_lem k s.t1 xs h1).0, e, R.contains_lem k s.t2 ys h2, e2)
            ((R.remove_lem k s.t1 xs h1).1, R.push_front_lem k c s.t2 ys h2 fits, refl, refl, refl)
      | inl e2 ↦
          rw ((R.remove_lem k s.t1 xs h1).0, e, R.contains_lem k s.t2 ys h2, e2)
            ((R.remove_lem k s.t1 xs h1).1, h2, refl, refl, refl)
    ]
  ]

  replace_nothing :
      (capacity : ℕ) (key_in_b2 : Bool) (s : ArcState Repr) (xs : Entries K)
      → Shows s.t1 xs
      → Shows s.t2 []
      → total xs < s.p
      → replace capacity key_in_b2 s ≡ (none, record s { t2 = (R.pop_back s.t2).1 })
  unfolding replace
  replace_nothing capacity key_in_b2 s xs h1 h2 lt =
      ground (arith, R.cost_lem s.t1 xs h1, (R.pop_back_lem s.t2 [] h2).0)

  -- While `t1` costs less than the target and `t2` is empty, `evict` frees nothing, whatever it is
  -- asked for, and all entries of `t1` stay.
  pub evict_frees_nothing :
      (capacity need : ℕ) (s : ArcState Repr) (xs : Entries K)
      → Shows s.t1 xs
      → Shows s.t2 []
      → total xs < s.p
      → (t : ArcState Repr) × (evict capacity need s ≡ some ([], 0, t))
        × Shows t.t1 xs
        × Shows t.t2 []
  unfolding evict evict_loop
  evict_frees_nothing capacity need s xs h1 h2 lt = elim (Bool-cases (ltb 0 need)) [
    | inr n ↦ (s, ground (arith, n), h1, h2)
    | inl y ↦
        let left : ArcState Repr = record s { t2 = (R.pop_back s.t2).1 } in
        (
          left,
          ground (
            arith,
            y,
            replace_nothing capacity
                (elim (R.tail_key s.t1) [ none ↦ false | some k ↦ R.contains k s.b2 ]) s xs h1 h2
                lt,
          ),
          h1,
          (R.pop_back_lem s.t2 [] h2).1,
        )
  ]
