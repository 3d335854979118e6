-- ===== src/Cache/Policy/Contract.antt =====
-- What the trait `CachePolicy` of policy/mod.rs asks of `evict`, whatever the order of the victims.
use fibre.Base.{
  ℕ, ◌+◌, ◌-◌, ◌<◌, ◌≤◌, ◌≡◌, refl, List, [], ◌∷◌, ◌++◌, Option, none, some, arith, ite, true, inl,
  inr, ◌⊎◌,
}
use fibre.Base.HashMap
use fibre.Cache.Recency.{Entries, total, keys, cost_of, has, Distinct}

-- `a`, or `b` if there is none.
abbrev pub or_else : Option ℕ → Option ℕ → Option ℕ
or_else none b = b
or_else (some a) b = some a

-- An eviction asked to free `need`, between the costs of the tracked keys before and after it. The
-- victims are tracked keys, each named once, whose costs sum to what is reported; they and nothing
-- else stop being tracked; they cost `need`, or nothing is left; and without the last victim they
-- would have cost less.
pub record Evicted {K : Type 0} (dec : Discrete K) (need : ℕ) (before after : K → Option ℕ)
    (victims : List K) (freed : ℕ) : Type 0 where
  pub gone : Entries K
  pub named : victims ≡ keys gone
  pub cost : freed ≡ total gone
  pub distinct : Distinct dec gone
  pub tracked : (k : K) → before k ≡ or_else (cost_of dec k gone) (after k)
  pub untracked : (k : K) → has dec k gone ≡ true → after k ≡ none
  pub enough : (need ≤ total gone) ⊎ ((k : K) → after k ≡ none)
  pub shortest : (ys : Entries K) (k : K) (c : ℕ) → gone ≡ ys ++ (k, c) ∷ [] → total ys < need

module _ {K : Type 0} (dec : Discrete K) where
  pub Evicted-nil :
      (need : ℕ) (before after : K → Option ℕ)
      → ((k : K) → before k ≡ after k)
      → (need ≡ 0) ⊎ ((k : K) → after k ≡ none)
      → Evicted dec need before after [] 0
  unfolding HashMap.get
  Evicted-nil need before after same done = record {
    gone = [];
    named = refl;
    cost = refl;
    distinct = tt;
    tracked = same;
    untracked = λ k h. cc;
    enough = elim done [ inl e ↦ inl (omega arith) | inr e ↦ inr e ];
    shortest = λ ys k c h. absurd (nil_ne ys k c h);
  }
    where
      nil_ne : (ys : Entries K) (k : K) (c : ℕ) → [] ≡ ys ++ (k, c) ∷ [] → ⊥
      nil_ne [] k c h = cc
      nil_ne (y ∷ ys) k c h = cc

  pub Evicted-cons :
      (need : ℕ) (before mid after : K → Option ℕ) (k : K) (c : ℕ) (victims : List K) (freed : ℕ)
      → 0 < need
      → before k ≡ some c
      → ((j : K) → mid j ≡ ite (dec k j) none (before j))
      → Evicted dec (need - c) mid after victims freed
      → Evicted dec need before after (k ∷ victims) (c + freed)
  unfolding HashMap.get
  Evicted-cons need before mid after k c victims freed pos here step e = record {
    gone = (k, c) ∷ e.gone;
    named = ground (arith, e.named);
    cost = omega (arith, e.cost);
    distinct = (ground (arith, step k, e.tracked k), e.distinct);
    tracked = λ j. ground (arith, step j, e.tracked j, here);
    untracked = λ j h. ground (arith, step j, e.tracked j, e.untracked j);
    enough = elim e.enough [ inl h ↦ inl (omega arith) | inr h ↦ inr h ];
    shortest = λ ys j b h. last ys j b h;
  }
    where
      last :
          (ys : Entries K) (j : K) (b : ℕ) → (k, c) ∷ e.gone ≡ ys ++ (j, b) ∷ [] → total ys < need
      last [] j b h = pos
      last ((i, a) ∷ ys) j b h = ground (arith, e.shortest ys j b)

  -- Before the first victim, tracked keys may have been looked at and not changed.
  pub Evicted-same :
      (need : ℕ) (before mid after : K → Option ℕ) (victims : List K) (freed : ℕ)
      → ((j : K) → mid j ≡ before j)
      → Evicted dec need mid after victims freed
      → Evicted dec need before after victims freed
  Evicted-same need before mid after victims freed same e = record {
    gone = e.gone;
    named = e.named;
    cost = e.cost;
    distinct = e.distinct;
    tracked = λ j. ground (arith, same j, e.tracked j);
    untracked = e.untracked;
    enough = e.enough;
    shortest = e.shortest;
  }
