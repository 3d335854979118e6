-- ===== src/Channels/Oneshot/System.antt =====
-- The threads of a oneshot channel, which step one at a time in any order.
use fibre.Base.{
  ℕ, ◌≡◌, ◌≢◌, ◌<◌, refl, sym, ap, ◌∙◌, subst, Option, none, some, arith, inl, inr, true, false,
  not, ◌==◌, if◌then◌else◌, ℕ_discrete,
}
use fibre.Channels.Oneshot.{
  OneShotShared, fresh, Pc, idle, sending, claimed, withdrawing, writing, written, leaving, closing,
  receiving, reclaiming, taking, Choice, drop_sender, Result, received, finished, sender_count,
  advance, rx_dropped,
}
use fibre.Channels.Oneshot.Claims.{Hold, free, hold, Ok, is_empty}
use fibre.Channels.Oneshot.Moves.{
  Moves, Honest, no_value, Own, claimed-Own, withdrawing-Own, writing-Own, written-Own, consume-Own,
}
use fibre.Channels.Oneshot.Others.{
  Other, begin-Other, send_step-Other, close_step-Other, recv_step-Other,
}

pub record System (T : Type 0) : Type 0 where
  pub shared : OneShotShared T
  pub places : ℕ → Pc T

module _ {T : Type 0} where
  abbrev pub start : System T
  start = record { shared = fresh; places = λ i. idle }

  abbrev pub moved : System T → ℕ → OneShotShared T → Pc T → System T
  moved s i shared place = record {
    shared = shared;
    places = λ j. if j == i then place else s.places j;
  }

  unfoldable pub place :
      System T → ℕ → Option (Result T × OneShotShared T × Pc T) → Option (Result T × System T)
  place s i none = none
  place s i (some (result, shared, pc)) = some (result, moved s i shared pc)

  -- A thread takes a step, with its result.
  unfoldable pub step : ℕ → Choice T → System T → Option (Result T × System T)
  step i c s = place s i (advance c s.shared (s.places i))

  -- A thread that drops a sender has one.
  abbrev pub Counted : Choice T → System T → Type 0
  Counted c s = c ≡ drop_sender → 0 < sender_count s.shared.state

  pub data Reach : System T → Type 0 where
    here : Reach start
    next :
        {s t : System T} (i : ℕ) (c : Choice T) (r : Result T)
        → Reach s
        → Counted c s
        → step i c s ≡ some (r, t)
        → Reach t

  -- One thread at most has a claim, and the core is as this claim says.
  pub record Owned (s : System T) : Type 0 where
    pub owner : ℕ
    pub others : (j : ℕ) → j ≢ owner → hold (s.places j) ≡ free
    pub core : Ok (hold (s.places owner)) s.shared

  -- Any step of a thread that has no claim.
  Other-Own :
      (s : OneShotShared T) (o : Option (Result T × OneShotShared T × Pc T))
      → Moves (Other free) o
      → Moves (Own s) o
  Other-Own s o m = record {
    result = m.result;
    state = m.state;
    place = m.place;
    runs = m.runs;
    keeps = (
      elim m.keeps.1 [
        | inl (none_held, ok) ↦ subst (λ h. Ok h m.state) (cc) ok
        | inr (is_free, ok) ↦ ok
      ],
      no_value m.keeps.0,
    );
  }

  module _ (c : Choice T) (s : OneShotShared T)
      (counted : c ≡ drop_sender → 0 < sender_count s.state) where
    advance-Other :
        (h : Hold T) (pc : Pc T) → hold pc ≡ free → Ok h s → Moves (Other h) (advance c s pc)
    unfolding advance
    advance-Other h idle e ok = begin-Other h s c counted ok
    advance-Other h (sending v cur) e ok = send_step-Other h s ok c v cur
    advance-Other h (leaving cur) e ok =
        close_step-Other h s ok c leaving (λ word. not (rx_dropped word)) cur (λ w. refl)
    advance-Other h (closing cur) e ok =
        close_step-Other h s ok c closing (λ word. false) cur (λ w. refl)
    advance-Other h (receiving cur) e ok = recv_step-Other h s ok c cur
    advance-Other h (claimed v) e ok = absurd cc
    advance-Other h (withdrawing v) e ok = absurd cc
    advance-Other h (writing v) e ok = absurd cc
    advance-Other h (written v) e ok = absurd cc
    advance-Other h reclaiming e ok = absurd cc
    advance-Other h taking e ok = absurd cc

    free-Own : (pc : Pc T) → hold pc ≡ free → Ok free s → Moves (Own s) (advance c s pc)
    free-Own pc e ok = Other-Own s (advance c s pc) (advance-Other free pc e ok)

    advance-Own : (pc : Pc T) → Ok (hold pc) s → Moves (Own s) (advance c s pc)
    unfolding advance
    advance-Own idle ok = free-Own idle refl ok
    advance-Own (sending v cur) ok = free-Own (sending v cur) refl ok
    advance-Own (leaving cur) ok = free-Own (leaving cur) refl ok
    advance-Own (closing cur) ok = free-Own (closing cur) refl ok
    advance-Own (receiving cur) ok = free-Own (receiving cur) refl ok
    advance-Own (claimed v) ok = claimed-Own c s v ok
    advance-Own (withdrawing v) ok = withdrawing-Own c s v ok
    advance-Own (writing v) ok = writing-Own c s v ok
    advance-Own (written v) ok = written-Own c s v ok
    advance-Own reclaiming ok = consume-Own (λ v. finished) s (λ v. inl refl) ok
    advance-Own taking ok = consume-Own received s (λ v. inr refl) ok

  moved_self :
      (s : System T) (i : ℕ) (t : OneShotShared T) (pc : Pc T) → (moved s i t pc).places i ≡ pc
  moved_self s i t pc = let same : (i == i) ≡ true = ground arith in rw same refl

  moved-other :
      (s : System T) (i j : ℕ) (t : OneShotShared T) (pc : Pc T)
      → j ≢ i
      → (moved s i t pc).places j ≡ s.places j
  moved-other s i j t pc ne = let other : (j == i) ≡ false = ground arith in rw other refl

  -- What a step does, given who has the claim.
  pub record Stepped (i : ℕ) (c : Choice T) (s : System T) : Type 0 where
    pub result : Result T
    pub after : System T
    pub runs : step i c s ≡ some (result, after)
    pub owned : Owned after
    pub honest : Honest s.shared result after.shared

  step-lem :
      (i : ℕ) (c : Choice T) (s : System T)
      → Counted c s
      → (m : (r : Result T) × (t : OneShotShared T) × (pc : Pc T) × (advance c s.shared (s.places i)
            ≡ some (r, t, pc))
          × Honest s.shared r t
          × Owned (moved s i t pc))
      → Stepped i c s
  unfolding step place
  step-lem i c s counted (r, t, pc, runs, honest, owned) = record {
    result = r;
    after = moved s i t pc;
    runs = ap (place s i) runs;
    owned = owned;
    honest = honest;
  }

  pub Owned-step : (i : ℕ) (c : Choice T) (s : System T) → Counted c s → Owned s → Stepped i c s
  Owned-step i c s counted o = elim (ℕ_discrete i o.owner) [
    | yes same ↦
        let m =
          advance-Own c s.shared counted (s.places i)
            (subst (λ k. Ok (hold (s.places k)) s.shared) (cc) o.core) in
        step-lem i c s counted (
          m.result,
          m.state,
          m.place,
          m.runs,
          m.keeps.1,
          record {
            owner = i;
            others =
                λ j ne. ap hold (moved-other s i j m.state m.place ne) ∙ o.others j (rw same at ne);
            core =
                subst (λ pc. Ok (hold pc) m.state) (sym (moved_self s i m.state m.place)) m.keeps.0;
          },
        )
    | no other ↦
        let m =
          advance-Other c s.shared counted (hold (s.places o.owner)) (s.places i) (o.others i other)
            o.core in
        step-lem i c s counted (
          m.result,
          m.state,
          m.place,
          m.runs,
          no_value m.keeps.0,
          elim m.keeps.1 [
            | inl (none_held, ok) ↦ record {
              owner = o.owner;
              others = λ j ne. elim (ℕ_discrete j i) [
                | yes self ↦ rw self (rw (moved_self s i m.state m.place) none_held)
                | no ne_i ↦ ap hold (moved-other s i j m.state m.place ne_i) ∙ o.others j ne
              ];
              core =
                  subst (λ pc. Ok (hold pc) m.state)
                    (sym (moved-other s i o.owner m.state m.place (λ e. other (sym e)))) ok;
            }
            | inr (is_free, ok) ↦ record {
              owner = i;
              others = λ j ne.
                  ap hold (moved-other s i j m.state m.place ne) ∙ elim (ℕ_discrete j o.owner) [
                    | yes own ↦ rw own is_free
                    | no ne_o ↦ o.others j ne_o
                  ];
              core = subst (λ pc. Ok (hold pc) m.state) (sym (moved_self s i m.state m.place)) ok;
            }
          ],
        )
  ]

  start-Owned : Owned start
  start-Owned = record {
    owner = 0;
    others = λ j ne. refl;
    core = is_empty refl refl refl refl refl;
  }

  pub Reach-Owned : {s : System T} → Reach s → Owned s
  Reach-Owned here = start-Owned
  Reach-Owned (next {s = s} {t = t} i c r reach counted runs) =
      let stepped = Owned-step i c s counted (Reach-Owned reach) in
      let same : stepped.after ≡ t = cc in subst (λ u. Owned u) same stepped.owned
