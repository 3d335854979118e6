-- ===== src/Cache/Policy/TinyLfu/Contest.antt =====
-- The contest of W-TinyLFU: where a candidate from the window goes, and which entries the window keeps.
use fibre.Base.{
  ℕ, ◌+◌, ◌<◌, ◌≤◌, ◌≡◌, refl, arith, List, [], ◌∷◌, ◌++◌, Option, none, some, true, false, ◌⊎◌,
  leb, Bool-cases, Option-cases, inl, inr, append-nil, add64_lem, u64_mod,
}
use fibre.Cache.Recency.{RecencyList, Entries, total}
use fibre.Cache.Policy.Slru
use fibre.Cache.Policy.Slru.Maintain.{Segments}
use fibre.Cache.Policy.Slru.Admit.{
  next_victim, peek_lru_lem, admitted, total-admitted-le, admit_internal-Segments,
}
use fibre.Cache.Policy.Sketch.{CountMinSketch, estimate}
use fibre.Cache.Policy.Sketch.Shape.{Shaped, estimate-Shaped}
use fibre.Cache.Policy.TinyLfu.{TinyLfuState, TinyLfuPolicy, admit_candidate, place_candidate}

module _ {K : Type 0} (dec : Discrete K) (hash : K → ℕ) (policy : TinyLfuPolicy)
    (sketch : CountMinSketch) (qs : Entries K) where
  -- A candidate wins against no victim, and against one that the sketch counts at most as often.
  pub data Wins (key : K) (ps : Entries K) : Type 0 where
    unopposed : next_victim ps qs ≡ none → Wins key ps
    as_frequent :
        (victim : K) (own other : ℕ)
        → next_victim ps qs ≡ some victim
        → estimate hash key sketch ≡ some own
        → estimate hash victim sketch ≡ some other
        → other ≤ own
        → Wins key ps

  -- It loses against a victim that the sketch counts more often.
  pub record Loses (key : K) (ps : Entries K) : Type 0 where
    pub victim : K
    pub own : ℕ
    pub other : ℕ
    pub opposed : next_victim ps qs ≡ some victim
    pub own_estimate : estimate hash key sketch ≡ some own
    pub other_estimate : estimate hash victim sketch ≡ some other
    pub rarer : own < other

  -- The probationary entries after a candidate, and the candidate if it is rejected: it is admitted
  -- when the main segments have room for it, or when it wins.
  pub data Placing (key : K) (c : ℕ) (ps : Entries K) : Entries K → List K → Type 0 where
    has_room :
        total ps + total qs + c ≤ policy.main_cache_cost
        → Placing key c ps (admitted dec key c ps qs) []
    better :
        policy.main_cache_cost < total ps + total qs + c
        → Wins key ps
        → Placing key c ps (admitted dec key c ps qs) []
    worse :
        policy.main_cache_cost < total ps + total qs + c
        → Loses key ps
        → Placing key c ps ps (key ∷ [])

  -- Which entries the window keeps, the probationary entries at the end, and the rejected candidates:
  -- the oldest entry leaves as long as the window is over its target.
  pub data Trimmed : Entries K → Entries K → Entries K → Entries K → List K → Type 0 where
    fits : {xs ps : Entries K} → total xs ≤ policy.window_target_cost → Trimmed xs ps xs ps []
    leaves :
        {xs ps ps1 kept ps2 : Entries K} {rejected out : List K} (key : K) (c : ℕ)
        → policy.window_target_cost < c + total xs
        → Placing key c ps ps1 rejected
        → Trimmed xs ps1 kept ps2 out
        → Trimmed ((key, c) ∷ xs) ps kept ps2 (rejected ++ out)

module _ {K : Type 0} {dec : Discrete K} (R : RecencyList K dec) (hash : K → ℕ)
    (policy : TinyLfuPolicy) where
  open R use {Repr, Shows}

  admit_candidate_lem :
      (key : K) (s : TinyLfuState Repr) (ps qs : Entries K)
      → Shaped s.sketch
      → Segments R s.main ps qs
      → ((admit_candidate R hash key s ≡ some true) × Wins dec hash policy s.sketch qs key ps)
        ⊎ ((admit_candidate R hash key s ≡ some false) × Loses dec hash policy s.sketch qs key ps)
  unfolding admit_candidate
  admit_candidate_lem key s ps qs k g =
      let peeked = peek_lru_lem R s.main ps qs g in
      elim (Option-cases (next_victim ps qs)) [
        | inl nothing ↦ inl (rw (admit_candidate, peeked, nothing) refl, unopposed nothing)
        | inr (victim, there) ↦
            let (own, a) = estimate-Shaped hash key s.sketch k in
            let (other, b) = estimate-Shaped hash victim s.sketch k in
            elim (Bool-cases (leb other own)) [
              | inl y ↦ inl (
                rw (admit_candidate, peeked, there, a, b, y) refl,
                as_frequent victim own other there a b (ground (arith, y)),
              )
              | inr n ↦ inr (
                rw (admit_candidate, peeked, there, a, b, n) refl,
                record {
                  victim = victim;
                  own = own;
                  other = other;
                  opposed = there;
                  own_estimate = a;
                  other_estimate = b;
                  rarer = ground (arith, n);
                },
              )
            ]
      ]

  pub record Placed (key : K) (c : ℕ) (rejected : List K) (s : TinyLfuState Repr)
      (ps qs : Entries K) (o : Option (List K × TinyLfuState Repr)) : Type 0 where
    pub state : TinyLfuState Repr
    pub after : Entries K
    pub out : List K
    pub runs : o ≡ some (rejected ++ out, state)
    pub window : state.window ≡ s.window
    pub sketch : state.sketch ≡ s.sketch
    pub segments : Segments R state.main after qs
    pub grows : total after ≤ total ps + c
    pub placing : Placing dec hash policy s.sketch qs key c ps after out

  module _ (key : K) (c : ℕ) (rejected : List K) (s : TinyLfuState Repr) (ps qs : Entries K)
      (k : Shaped s.sketch) (g : Segments R s.main ps qs)
      (room : total ps + total qs + c < u64_mod) where
    taken-Placed :
        Placing dec hash policy s.sketch qs key c ps (admitted dec key c ps qs) []
        → Placed key c rejected s ps qs
            (some (rejected, record s { main = Slru.admit_internal R key c s.main }))
    taken-Placed p = record {
      state = record s { main = Slru.admit_internal R key c s.main };
      after = admitted dec key c ps qs;
      out = [];
      runs = rw (append-nil rejected) refl;
      window = refl;
      sketch = refl;
      segments = admit_internal-Segments R key c s.main ps qs g room;
      grows = total-admitted-le dec key c ps qs;
      placing = p;
    }

    pub place_candidate-Placed :
        Placed key c rejected s ps qs (place_candidate R hash policy key c rejected s)
    unfolding place_candidate
    place_candidate-Placed =
        let first = R.cost_lem s.main.probationary ps g.prob in
        let second = R.cost_lem s.main.protected qs g.prot in
        let main = add64_lem (total ps) (total qs) (omega (arith, room)) in
        let whole = add64_lem (total ps + total qs) c room in
        elim (Bool-cases (leb (total ps + total qs + c) policy.main_cache_cost)) [
          | inl y ↦ rw (first, second, main, whole, y) (taken-Placed (has_room (ground (arith, y))))
          | inr n ↦ elim (admit_candidate_lem key s ps qs k g) [
            | inl (runs, wins) ↦
                rw (first, second, main, whole, n, runs)
                  (taken-Placed (better (ground (arith, n)) wins))
            | inr (runs, loses) ↦
                rw (first, second, main, whole, n, runs)
                  (record {
                    state = s;
                    after = ps;
                    out = key ∷ [];
                    runs = refl;
                    window = refl;
                    sketch = refl;
                    segments = g;
                    grows = omega arith;
                    placing = worse (ground (arith, n)) loses;
                  })
          ]
        ]
