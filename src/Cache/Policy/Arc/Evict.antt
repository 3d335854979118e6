-- ===== src/Cache/Policy/Arc/Evict.antt =====
-- The loop of `evict` in cache/src/policy/arc.rs.
use fibre.Base.{
  ℕ, zero, suc, ◌+◌, ◌<◌, ◌≤◌, ◌≡◌, refl, List, [], ◌∷◌, ◌++◌, Option, none, some, true, false,
  Bool, ltb, leb, add64_lem, ◌==◌, ◌||◌, ◌&&◌, arith, inl, inr, ◌⊎◌, Bool-cases, u64_mod, length,
}
use fibre.Cache.Recency.{Entries, total, RecencyList}
use fibre.Cache.Policy.Arc.{ArcState, replace, evict_loop, evict, remember}

module _ {K : Type 0} {dec : Discrete K} (R : RecencyList K dec) where
  open R use {Repr, Shows}

  -- The entries of the two lists.
  pub record Holds (s : ArcState Repr) (xs ys : Entries K) : Type 0 where
    pub t1 : Shows s.t1 xs
    pub t2 : Shows s.t2 ys

  -- What `replace` comes to: a victim that leaves one of the lists, or none, with the second empty.
  abbrev Replaced : Option (K × ℕ) × ArcState Repr → Entries K → Entries K → Type 0
  Replaced out xs ys =
      ((t : ArcState Repr) × (out ≡ (none, t)) × Holds t xs [] × (ys ≡ []))
      ⊎ ((k : K) × (c : ℕ) × (t : ArcState Repr) × (xs' : Entries K) × (ys' : Entries K) × (out
            ≡ (some (k, c), t))
          × Holds t xs' ys'
          × (total xs' + total ys' + c ≡ total xs + total ys)
          × (length xs' + length ys' < length xs + length ys))

  from_t2 :
      (capacity : ℕ) (b : Bool) (s : ArcState Repr) (xs ys : Entries K)
      → Holds s xs ys
      → (ltb 0 (total xs) && (leb s.p (total xs) || (b && total xs == s.p))) ≡ false
      → Replaced (replace R capacity b s) xs ys
  unfolding replace
  from_t2 capacity b s xs [] h e =
      let t : ArcState Repr = record s { t2 = (R.pop_back s.t2).1 } in
      inl (
        t,
        ground (arith, e, R.cost_lem s.t1 xs h.t1, (R.pop_back_lem s.t2 [] h.t2).0),
        record { t1 = h.t1; t2 = (R.pop_back_lem s.t2 [] h.t2).1 },
        refl,
      )
  from_t2 capacity b s xs ((k, c) ∷ ys) h e =
      let t : ArcState Repr = record s {
        t2 = (R.pop_back s.t2).1;
        b2 = remember R capacity k c s.b2;
      } in
      inr (
        k,
        c,
        t,
        xs,
        ys,
        ground (arith, e, R.cost_lem s.t1 xs h.t1, (R.pop_back_lem s.t2 ((k, c) ∷ ys) h.t2).0),
        record { t1 = h.t1; t2 = (R.pop_back_lem s.t2 ((k, c) ∷ ys) h.t2).1 },
        omega arith,
        omega arith,
      )

  from_t1 :
      (capacity : ℕ) (b : Bool) (s : ArcState Repr) (xs ys : Entries K)
      → Holds s xs ys
      → (ltb 0 (total xs) && (leb s.p (total xs) || (b && total xs == s.p))) ≡ true
      → Replaced (replace R capacity b s) xs ys
  unfolding replace
  from_t1 capacity b s [] ys h e = cc
  from_t1 capacity b s ((k, c) ∷ xs) ys h e =
      let t : ArcState Repr = record s {
        t1 = (R.pop_back s.t1).1;
        b1 = remember R capacity k c s.b1;
      } in
      inr (
        k,
        c,
        t,
        xs,
        ys,
        ground (
          arith,
          e,
          R.cost_lem s.t1 ((k, c) ∷ xs) h.t1,
          (R.pop_back_lem s.t1 ((k, c) ∷ xs) h.t1).0,
        ),
        record { t1 = (R.pop_back_lem s.t1 ((k, c) ∷ xs) h.t1).1; t2 = h.t2 },
        omega arith,
        omega arith,
      )

  replace-Replaced :
      (capacity : ℕ) (b : Bool) (s : ArcState Repr) (xs ys : Entries K)
      → Holds s xs ys
      → Replaced (replace R capacity b s) xs ys
  replace-Replaced capacity b s xs ys h =
      elim (Bool-cases (ltb 0 (total xs) && (leb s.p (total xs) || (b && total xs == s.p)))) [
        | inl e ↦ from_t1 capacity b s xs ys h e
        | inr e ↦ from_t2 capacity b s xs ys h e
      ]

  -- What the loop returns: lists that hold what is left, and a count that makes up the rest.
  abbrev pub Ends : ℕ → ℕ → Option (List K × ℕ × ArcState Repr) → Type 0
  Ends need sum out =
      (victims : List K) × (freed : ℕ) × (t : ArcState Repr) × (xs : Entries K) × (ys : Entries K)
      × (out ≡ some (victims, freed, t))
      × Holds t xs ys
      × (total xs + total ys + freed ≡ sum)
      × ((need ≤ freed) ⊎ (ys ≡ []))

  evict_loop-Ends :
      (fuel capacity need : ℕ) (victims : List K) (freed : ℕ) (s : ArcState Repr)
      (xs ys : Entries K)
      → Holds s xs ys
      → length xs + length ys < fuel
      → total xs + total ys + freed < u64_mod
      → Ends need (total xs + total ys + freed) (evict_loop R fuel capacity need victims freed s)
  unfolding evict_loop
  evict_loop-Ends zero capacity need victims freed s xs ys h lt fits = absurd (omega arith)
  evict_loop-Ends (suc fuel) capacity need victims freed s xs ys h lt fits =
      let key_in_b2 : Bool = elim (R.tail_key s.t1) [ none ↦ false | some k ↦ R.contains k s.b2 ] in
      elim (Bool-cases (ltb freed need)) [
        | inr stop ↦
            (victims, freed, s, xs, ys, ground (arith, stop), h, refl, inl (ground (arith, stop)))
        | inl go ↦ elim (replace-Replaced capacity key_in_b2 s xs ys h) [
          | inl (t, nothing, holds, e) ↦ (
            victims,
            freed,
            t,
            xs,
            [],
            ground (arith, go, nothing),
            holds,
            ground (arith, e),
            inr refl,
          )
          | inr (k, c, t, xs', ys', takes, holds, sum, shorter) ↦
              let (vs, f, u, left_of_t1, left_of_t2, returns, left, count, why) =
                evict_loop-Ends fuel capacity need (victims ++ k ∷ []) (freed + c) t xs' ys' holds
                  (omega (arith, shorter)) (omega (arith, sum)) in
              (
                vs,
                f,
                u,
                left_of_t1,
                left_of_t2,
                ground (arith, go, takes, add64_lem freed c, returns),
                left,
                omega (arith, count, sum),
                why,
              )
        ]
      ]

  -- On lists whose costs sum to less than 2^64, `evict` does not run on: it returns with what was asked
  -- freed or with T2 empty, and the cost it reports is what the entries of T1 and T2 lost.
  pub evict_arc :
      (capacity need : ℕ) (s : ArcState Repr) (xs ys : Entries K)
      → Holds s xs ys
      → total xs + total ys < u64_mod
      → Ends need (total xs + total ys) (evict R capacity need s)
  unfolding evict
  evict_arc capacity need s xs ys h fits =
      let (vs, f, u, left_of_t1, left_of_t2, returns, left, count, why) =
        evict_loop-Ends (suc (R.size s.t1 + R.size s.t2)) capacity need [] 0 s xs ys h
          (omega (arith, R.size_lem s.t1 xs h.t1, R.size_lem s.t2 ys h.t2)) (omega (arith, fits)) in
      (vs, f, u, left_of_t1, left_of_t2, returns, left, omega (arith, count), why)
