-- ===== src/Cache/Recency/Plain.antt =====
-- The interface met by the entries themselves: a reference implementation of a recency list.
use fibre.Base.{
  ℕ, ◌+◌, ◌<◌, ◌≡◌, refl, [], ◌∷◌, ◌++◌, arith, u64_mod, head?, tail, length, if◌then◌else◌,
  Bool-cases, inl, inr, ap,
}
use fibre.Cache.Recency.{
  Entries, total, keys, cost_of, has, without, refresh, promote, Distinct, RecencyList,
}
use fibre.Cache.Recency.Entries.{
  total-append, total-without-le, Distinct-without, Distinct-append, Distinct-refresh,
  total-refresh, total-promote, Distinct-promote,
}

module _ {K : Type 0} (dec : Discrete K) where
  pub record Is (l xs : Entries K) : Type 0 where
    pub same : l ≡ xs
    pub distinct : Distinct dec l
    pub fits : total l < u64_mod

  pub tail-Is : (l xs : Entries K) → Is l xs → Is (tail l) (tail xs)
  tail-Is [] xs h = record { same = ap tail h.same; distinct = tt; fits = omega arith }
  tail-Is ((k, c) ∷ l) xs h = record {
    same = ap tail h.same;
    distinct = h.distinct.1;
    fits = omega (arith, h.fits);
  }

  pub touch-Is :
      (k : K) (c : ℕ) (l xs : Entries K)
      → Is l xs
      → total (without dec k xs) + c < u64_mod
      → Is
          (if has dec k l then refresh dec k c l else l)
          (if has dec k xs then refresh dec k c xs else xs)
  touch-Is k c l xs h room = elim (Bool-cases (has dec k l)) [
    | inl e ↦ record {
      same = ap (λ zs. if has dec k zs then refresh dec k c zs else zs) h.same;
      distinct = rw e (Distinct-refresh dec k c l h.distinct);
      fits =
          rw e (omega (arith, total-refresh dec k c l, ap (λ zs. total (without dec k zs)) h.same));
    }
    | inr e ↦ record {
      same = ap (λ zs. if has dec k zs then refresh dec k c zs else zs) h.same;
      distinct = rw e h.distinct;
      fits = rw e h.fits;
    }
  ]

  abbrev pub plain : RecencyList K dec
  plain = record {
    Repr = Entries K;
    Shows = Is;
    new = [];
    size = length;
    contains = has dec;
    current_total_cost = total;
    tail_key = λ l. head? (keys l);
    push_front = refresh dec;
    push_new = λ k c l. l ++ (k, c) ∷ [];
    touch = λ k c l. (has dec k l, if has dec k l then refresh dec k c l else l);
    move_to_front = promote dec;
    pop_back = λ l. (head? l, tail l);
    remove = λ k l. (cost_of dec k l, without dec k l);
    clear = λ l. [];
    new_lem = record { same = refl; distinct = tt; fits = omega arith };
    Shows-Distinct = λ l xs h. rw (h.same) at h.distinct;
    size_lem = λ l xs h. omega (arith, ap length h.same);
    contains_lem = λ k l xs h. ap (has dec k) h.same;
    cost_lem = λ l xs h. ap total h.same;
    fits_lem = λ l xs h. omega (arith, ap total h.same, h.fits);
    tail_lem = λ l xs h. ap (λ zs. head? (keys zs)) h.same;
    push_front_lem = λ k c l xs h room. record {
      same = ap (refresh dec k c) h.same;
      distinct = Distinct-refresh dec k c l h.distinct;
      fits = omega (arith, total-refresh dec k c l, ap (λ zs. total (without dec k zs)) h.same);
    };
    push_new_lem = λ k c l xs h absent room. record {
      same = ap (λ zs. zs ++ (k, c) ∷ []) h.same;
      distinct = Distinct-append dec l k c h.distinct (rw h.same absent);
      fits = omega (arith, total-append l ((k, c) ∷ []), ap total h.same);
    };
    touch_lem = λ k c l xs h room. (ap (has dec k) h.same, touch-Is k c l xs h room);
    move_to_front_lem = λ k l xs h. record {
      same = ap (promote dec k) h.same;
      distinct = Distinct-promote dec k l h.distinct;
      fits = omega (arith, total-promote dec k l h.distinct, h.fits);
    };
    pop_back_lem = λ l xs h. (ap head? h.same, tail-Is l xs h);
    remove_lem = λ k l xs h. (
      ap (cost_of dec k) h.same,
      record {
        same = ap (without dec k) h.same;
        distinct = Distinct-without dec k l h.distinct;
        fits = omega (arith, total-without-le dec k l, h.fits);
      },
    );
    clear_lem = λ l. record { same = refl; distinct = tt; fits = omega arith };
  }
