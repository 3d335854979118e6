-- ===== src/Cache/Policy/Slru/Maintain.antt =====
-- The two segments of an SLRU, and the demotion that keeps the protected one within its share.
use fibre.Base.{
  ℕ, zero, suc, ◌+◌, ◌<◌, ◌≤◌, ◌≡◌, refl, [], ◌∷◌, ◌++◌, none, arith, length, if◌then◌else◌, true,
  ltb, u64_mod, inl, inr, Bool-cases, append_assoc, append-nil,
}
use fibre.Base.HashMap
use fibre.Cache.Recency.{Entries, total, RecencyList, has, cost_of}
use fibre.Cache.Recency.Entries.{cost_of-append, total-append}
use fibre.Cache.Policy.Slru.{SlruState, maintain_loop, maintain_capacities}

module _ {K : Type 0} {dec : Discrete K} (R : RecencyList K dec) where
  open R use {Repr, Shows}

  -- The segments show `xs` and `ys`, oldest first; no key is in both; and together they fit a `u64`.
  pub record Segments (s : SlruState Repr) (xs ys : Entries K) : Type 0 where
    pub prob : Shows s.probationary xs
    pub prot : Shows s.protected ys
    pub apart : (k : K) → has dec k ys ≡ true → cost_of dec k xs ≡ none
    pub fits : total xs + total ys < u64_mod

-- Entries go from the old end of the protected segment to the young end of the probationary one
-- until the protected ones cost at most `cap`.
unfoldable pub demoted : {K : Type 0} → ℕ → Entries K → Entries K
demoted cap [] = []
demoted cap ((k, c) ∷ ys) = if ltb cap (c + total ys) then (k, c) ∷ demoted cap ys else []

unfoldable pub stays : {K : Type 0} → ℕ → Entries K → Entries K
stays cap [] = []
stays cap ((k, c) ∷ ys) = if ltb cap (c + total ys) then stays cap ys else (k, c) ∷ ys

pub demoted-append-stays :
    {K : Type 0} (cap : ℕ) (ys : Entries K) → demoted cap ys ++ stays cap ys ≡ ys
unfolding demoted stays
demoted-append-stays cap [] = refl
demoted-append-stays cap ((k, c) ∷ ys) = ground (arith, demoted-append-stays cap ys)

pub total-stays-le : {K : Type 0} (cap : ℕ) (ys : Entries K) → total (stays cap ys) ≤ cap
unfolding stays
total-stays-le cap [] = omega arith
total-stays-le cap ((k, c) ∷ ys) = ground (arith, total-stays-le cap ys)

module _ {K : Type 0} {dec : Discrete K} (R : RecencyList K dec) where
  open R use {Repr, Shows}

  -- Moving the oldest protected entry keeps the segments.
  move-Segments :
      (s : SlruState Repr) (xs ys : Entries K) (k : K) (c : ℕ)
      → Segments R s xs ((k, c) ∷ ys)
      → Segments R
          (record {
            probationary = R.push_new k c s.probationary;
            protected = (R.pop_back s.protected).1;
          })
          (xs ++ (k, c) ∷ [])
          ys
  unfolding HashMap.get
  move-Segments s xs ys k c g = record {
    prob =
        R.push_new_lem k c s.probationary xs g.prob (ground (arith, g.apart k))
          (omega (arith, g.fits));
    prot = (R.pop_back_lem s.protected ((k, c) ∷ ys) g.prot).1;
    apart = λ j h. ground (
      arith,
      g.apart j,
      cost_of-append dec j xs ((k, c) ∷ []),
      R.Shows-Distinct s.protected ((k, c) ∷ ys) g.prot,
    );
    fits = omega (arith, g.fits, total-append xs ((k, c) ∷ []));
  }

  maintain_loop-Segments :
      (ys : Entries K) (fuel cap : ℕ) (s : SlruState Repr) (xs : Entries K)
      → Segments R s xs ys
      → length ys < fuel
      → Segments R (maintain_loop R fuel cap s) (xs ++ demoted cap ys) (stays cap ys)
  unfolding maintain_loop demoted stays
  maintain_loop-Segments ys zero cap s xs g lt = absurd (omega arith)
  maintain_loop-Segments [] (suc fuel) cap s xs g lt =
      ground (arith, R.cost_lem s.protected [] g.prot, append-nil xs)
  maintain_loop-Segments ((k, c) ∷ ys) (suc fuel) cap s xs g lt =
      elim (Bool-cases (ltb cap (c + total ys))) [
        | inl over ↦ ground (
          arith,
          over,
          R.cost_lem s.protected ((k, c) ∷ ys) g.prot,
          R.pop_back_lem s.protected ((k, c) ∷ ys) g.prot,
          append_assoc xs ((k, c) ∷ []) (demoted cap ys),
          maintain_loop-Segments ys fuel cap _ (xs ++ (k, c) ∷ []) (move-Segments s xs ys k c g)
              (omega arith),
        )
        | inr fit ↦ ground (arith, fit, R.cost_lem s.protected ((k, c) ∷ ys) g.prot, append-nil xs)
      ]

  -- `maintain_capacities` moves protected entries, oldest first, to the young end of the probationary
  -- list until the protected ones cost at most the capacity; no other entry moves.
  pub maintain_capacities-Segments :
      (cap : ℕ) (s : SlruState Repr) (xs ys : Entries K)
      → Segments R s xs ys
      → Segments R (maintain_capacities R cap s) (xs ++ demoted cap ys) (stays cap ys)
  unfolding maintain_capacities
  maintain_capacities-Segments cap s xs ys g =
      maintain_loop-Segments ys (suc (R.size s.protected)) cap s xs g
        (omega (arith, R.size_lem s.protected ys g.prot))
