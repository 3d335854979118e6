-- ===== src/Cache/Policy/Slru/Touch.antt =====
-- An access to an SLRU: promotion to the protected segment and what it pushes out.
use fibre.Base.{
  ℕ, ◌+◌, ◌<◌, ◌≡◌, [], ◌∷◌, ◌++◌, arith, true, false, Bool, u64_mod, inl, inr, Bool-cases,
}
use fibre.Base.HashMap
use fibre.Base.HashMap.{get-remove}
use fibre.Cache.Recency.{Entries, total, RecencyList, has, without, cost_of, refresh}
use fibre.Cache.Recency.Entries.{
  cost_of-append, total-append, cost_of-refresh, total-refresh, total-without-le,
}
use fibre.Cache.Policy.Slru.{SlruState, maintain_capacities, touch}
use fibre.Cache.Policy.Slru.Maintain.{Segments, demoted, stays, maintain_capacities-Segments}

module _ {K : Type 0} {dec : Discrete K} (R : RecencyList K dec) where
  open R use {Repr, Shows}

  -- How an access to `k` at cost `c` leaves the entries of the two segments.
  pub data Touched (cap : ℕ) (k : K) (c : ℕ) (xs ys : Entries K)
      : Bool → Entries K → Entries K → Type 0 where
    in_protected : has dec k ys ≡ true → Touched cap k c xs ys true xs (refresh dec k c ys)
    promoted :
        has dec k ys ≡ false
        → has dec k xs ≡ true
        → Touched cap k c xs ys true
            (without dec k xs ++ demoted cap (ys ++ (k, c) ∷ []))
            (stays cap (ys ++ (k, c) ∷ []))
    absent : has dec k ys ≡ false → has dec k xs ≡ false → Touched cap k c xs ys false xs ys

  module _ (k : K) (c : ℕ) (s : SlruState Repr) (xs ys : Entries K) (g : Segments R s xs ys)
      (room : total xs + total ys + c < u64_mod) where
    refreshed-Segments :
        has dec k ys ≡ true
        → Segments R (record s { protected = (R.touch k c s.protected).1 }) xs (refresh dec k c ys)
    refreshed-Segments h =
        let shows =
          (R.touch_lem k c s.protected ys g.prot (omega (arith, total-without-le dec k ys))).1 in
        record {
          prob = g.prob;
          prot = ground (arith, shows, h);
          apart = λ j e. ground (arith, g.apart j, cost_of-refresh dec j k c ys, h);
          fits = omega (arith, total-refresh dec k c ys, total-without-le dec k ys);
        }

    promoted-Segments :
        has dec k ys ≡ false
        → Segments R
            (record {
              probationary = (R.remove k s.probationary).1;
              protected = R.push_new k c s.protected;
            })
            (without dec k xs)
            (ys ++ (k, c) ∷ [])
    unfolding HashMap.get
    promoted-Segments h = record {
      prob = (R.remove_lem k s.probationary xs g.prob).1;
      prot = R.push_new_lem k c s.protected ys g.prot (ground (arith, h)) (omega arith);
      apart = λ j e.
          ground (arith, g.apart j, cost_of-append dec j ys ((k, c) ∷ []), get-remove dec j k xs);
      fits = omega (arith, total-append ys ((k, c) ∷ []), total-without-le dec k xs);
    }

    -- `touch` refreshes a protected key at its new cost; promotes a probationary key, and then demotes
    -- what no longer fits the protected share; and leaves the segments alone if the key is in neither.
    -- It returns whether the key was in one of them.
    pub touch-Touched :
        (cap : ℕ)
        → let (found, t) = touch R k c cap s in
          (xs' : Entries K) × (ys' : Entries K) × Touched cap k c xs ys found xs' ys'
          × Segments R t xs' ys'
    unfolding touch
    touch-Touched limit = elim (Bool-cases (has dec k ys)) [
      | inl h ↦
          let e : touch R k c limit s
              ≡ (true, record s { protected = (R.touch k c s.protected).1 }) =
            ground (arith, is_found, h) in
          (xs, refresh dec k c ys, rw e (in_protected h), rw e (refreshed-Segments h))
      | inr h ↦ elim (Bool-cases (has dec k xs)) [
        | inl p ↦
            let t : SlruState Repr = record {
              probationary = (R.remove k s.probationary).1;
              protected = R.push_new k c s.protected;
            } in
            let e : touch R k c limit s ≡ (true, maintain_capacities R limit t) =
              ground (arith, is_found, h, is_removed, p) in
            (
              without dec k xs ++ demoted limit (ys ++ (k, c) ∷ []),
              stays limit (ys ++ (k, c) ∷ []),
              rw e (promoted h p),
              rw e (maintain_capacities-Segments R limit t _ _ (promoted-Segments h)),
            )
        | inr n ↦
            let e : touch R k c limit s ≡ (false, s) = ground (arith, is_found, h, is_removed, n) in
            (xs, ys, rw e (absent h n), rw e g)
      ]
    ]
      where
        is_found : (R.touch k c s.protected).0 ≡ has dec k ys
        is_found =
            (R.touch_lem k c s.protected ys g.prot (omega (arith, total-without-le dec k ys))).0

        is_removed : (R.remove k s.probationary).0 ≡ cost_of dec k xs
        is_removed = (R.remove_lem k s.probationary xs g.prob).0
