-- ===== src/Cache/Policy/Slru/Admit.antt =====
-- What W-TinyLFU uses of an SLRU beside `touch`: its victim, and the admission of a candidate.
use fibre.Base.{
  ℕ, ◌+◌, ◌<◌, ◌≤◌, ◌≡◌, arith, if◌then◌else◌, Option, none, some, head?, u64_mod, inl, inr,
  Bool-cases,
}
use fibre.Cache.Recency.{Entries, total, keys, RecencyList, has, refresh}
use fibre.Cache.Recency.Entries.{cost_of-refresh, total-refresh, total-without-le}
use fibre.Cache.Policy.Slru.{SlruState, peek_lru, admit_internal}
use fibre.Cache.Policy.Slru.Maintain.{Segments}

-- The key that is evicted next: the oldest probationary one, else the oldest protected one.
abbrev pub next_victim : {K : Type 0} → Entries K → Entries K → Option K
next_victim xs ys = elim (head? (keys xs)) [ some k ↦ some k | none ↦ head? (keys ys) ]

module _ {K : Type 0} (dec : Discrete K) where
  -- The probationary entries once a candidate is admitted, which a protected key is already.
  abbrev pub admitted : K → ℕ → Entries K → Entries K → Entries K
  admitted k c xs ys = if has dec k ys then xs else refresh dec k c xs

  pub total-admitted-le :
      (k : K) (c : ℕ) (xs ys : Entries K) → total (admitted k c xs ys) ≤ total xs + c
  total-admitted-le k c xs ys = ground (arith, total-refresh dec k c xs, total-without-le dec k xs)

module _ {K : Type 0} {dec : Discrete K} (R : RecencyList K dec) where
  open R use {Repr, Shows}

  pub peek_lru_lem :
      (s : SlruState Repr) (xs ys : Entries K)
      → Segments R s xs ys
      → peek_lru R s ≡ next_victim xs ys
  unfolding peek_lru
  peek_lru_lem s xs ys g =
      let first = R.tail_lem s.probationary xs g.prob in
      let second = R.tail_lem s.protected ys g.prot in ground (arith, first, second)

  pub admit_internal-Segments :
      (k : K) (c : ℕ) (s : SlruState Repr) (xs ys : Entries K)
      → Segments R s xs ys
      → total xs + total ys + c < u64_mod
      → Segments R (admit_internal R k c s) (admitted dec k c xs ys) ys
  unfolding admit_internal
  admit_internal-Segments k c s xs ys g room =
      let here = R.contains_lem k s.protected ys g.prot in
      elim (Bool-cases (has dec k ys)) [
        | inl h ↦ rw (here, h) g
        | inr h ↦
            rw (here, h)
              (record {
                prob =
                    R.push_front_lem k c s.probationary xs g.prob
                      (omega (arith, total-without-le dec k xs));
                prot = g.prot;
                apart = λ j e. ground (arith, g.apart j, cost_of-refresh dec j k c xs, h);
                fits = omega (arith, total-refresh dec k c xs, total-without-le dec k xs);
              })
      ]
