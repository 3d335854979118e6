-- ===== src/Cache/Policy/TinyLfu/Window.antt =====
-- How the window of W-TinyLFU gives its oldest entries to the contest for the main segments.
use fibre.Base.{
  ℕ, zero, suc, ◌+◌, ◌<◌, ◌≤◌, ◌≡◌, ◌⊎◌, refl, sym, ap, ◌∙◌, subst, arith, List, [], ◌∷◌, ◌++◌,
  Option, some, true, false, ltb, Bool-cases, inl, inr, length, append-nil, append_assoc, u64_mod,
}
use fibre.Cache.Recency.{RecencyList, Entries, total, refresh, has}
use fibre.Cache.Recency.Entries.{total-refresh, total-without-le}
use fibre.Cache.Policy.{AdmissionDecision, admit}
use fibre.Cache.Policy.Slru
use fibre.Cache.Policy.Slru.Maintain.{Segments}
use fibre.Cache.Policy.Slru.Touch.{Touched, absent, touch-Touched}
use fibre.Cache.Policy.Sketch.{increment}
use fibre.Cache.Policy.Sketch.Shape.{Shaped, increment-Shaped}
use fibre.Cache.Policy.TinyLfu.{
  TinyLfuState, TinyLfuPolicy, window_loop, manage_window, on_admit, decision,
}
use fibre.Cache.Policy.TinyLfu.Contest.{Trimmed, fits, leaves, place_candidate-Placed}

module _ {K : Type 0} {dec : Discrete K} (R : RecencyList K dec) (hash : K → ℕ)
    (policy : TinyLfuPolicy) where
  open R use {Repr, Shows}

  -- The window is trimmed, and the main segments have taken what they admitted.
  pub record Managed (xs ps qs : Entries K) (rejected : List K) (s : TinyLfuState Repr)
      (o : Option (List K × TinyLfuState Repr)) : Type 0 where
    pub kept : Entries K
    pub after : Entries K
    pub out : List K
    pub state : TinyLfuState Repr
    pub runs : o ≡ some (rejected ++ out, state)
    pub sketch : state.sketch ≡ s.sketch
    pub trimmed : Trimmed dec hash policy s.sketch qs xs ps kept after out
    pub shows : Shows state.window kept
    pub segments : Segments R state.main after qs

  done-Managed :
      (fuel : ℕ) (xs ps qs : Entries K) (rejected : List K) (s : TinyLfuState Repr)
      → Shows s.window xs
      → Segments R s.main ps qs
      → total xs ≤ policy.window_target_cost
      → Managed xs ps qs rejected s (window_loop R hash policy (suc fuel) rejected s)
  unfolding window_loop
  done-Managed fuel xs ps qs rejected s sh g le =
      let cost = R.cost_lem s.window xs sh in
      let within : ltb policy.window_target_cost (R.current_total_cost s.window) ≡ false =
        ground (arith, cost, le) in
      record {
        kept = xs;
        after = ps;
        out = [];
        state = s;
        runs = rw (window_loop, within, append-nil rejected) refl;
        sketch = refl;
        trimmed = fits le;
        shows = sh;
        segments = g;
      }

  window_loop-Managed :
      (fuel : ℕ) (xs ps qs : Entries K) (rejected : List K) (s : TinyLfuState Repr)
      → length xs < fuel
      → Shows s.window xs
      → Shaped s.sketch
      → Segments R s.main ps qs
      → total xs + total ps + total qs < u64_mod
      → Managed xs ps qs rejected s (window_loop R hash policy fuel rejected s)
  unfolding window_loop
  window_loop-Managed zero xs ps qs rejected s enough sh k g room = absurd (omega arith)
  window_loop-Managed (suc fuel) [] ps qs rejected s enough sh k g room =
      done-Managed fuel [] ps qs rejected s sh g (omega arith)
  window_loop-Managed (suc fuel) ((key, c) ∷ xs) ps qs rejected s enough sh k g room =
      elim (Bool-cases (ltb policy.window_target_cost (c + total xs))) [
        | inr within ↦
            done-Managed fuel ((key, c) ∷ xs) ps qs rejected s sh g (ground (arith, within))
        | inl more ↦
            let over : ltb policy.window_target_cost (R.current_total_cost s.window) ≡ true =
              rw (R.cost_lem s.window ((key, c) ∷ xs) sh) more in
            let (head, rest) = R.pop_back_lem s.window ((key, c) ∷ xs) sh in
            let t = record s { window = (R.pop_back s.window).1 } in
            let p =
              place_candidate-Placed R hash policy key c rejected t ps qs k g
                (omega (arith, room)) in
            let m =
              window_loop-Managed fuel xs p.after qs (rejected ++ p.out) p.state (omega arith)
                (subst (λ w. Shows w xs) (sym p.window) rest)
                (subst (λ u. Shaped u) (sym p.sketch) k) p.segments
                (omega (arith, p.grows, room)) in
            record {
              kept = m.kept;
              after = m.after;
              out = p.out ++ m.out;
              state = m.state;
              runs =
                  rw (window_loop, over, head, p.runs) m.runs
                  ∙ ap (λ (ks : List K). some (ks, m.state)) (append_assoc rejected p.out m.out);
              sketch = m.sketch ∙ p.sketch;
              trimmed = leaves key c (ground (arith, more)) p.placing (
                  subst (λ u. Trimmed dec hash policy u qs xs p.after m.kept m.after m.out) p.sketch
                    m.trimmed);
              shows = m.shows;
              segments = m.segments;
            }
      ]

  -- `touch` says whether the key was in a segment.
  absent-false :
      (cap : ℕ) (k : K) (c : ℕ) (xs ys xs' ys' : Entries K)
      → Touched R cap k c xs ys false xs' ys'
      → (has dec k ys ≡ false) × (has dec k xs ≡ false)
  absent-false cap k c xs ys xs' ys' (absent h p) = (h, p)

  -- On a sketch in shape, and on a window and main segments whose entries, with the new cost, cost less
  -- than 2^64, `on_admit` neither panics nor runs on, and counts the key in the sketch. If the key is in
  -- a main segment, it is admitted, the segments are touched, and the window stays. If not, it becomes
  -- the youngest entry of the window, and as long as the window costs more than its target, its oldest
  -- entry leaves: into the main segments when they have room for it, when they have no victim, or when
  -- the sketch counts it at least as often as the victim, and else out of the cache. The decision names
  -- just those that left the cache, in their order, and the protected segment does not change.
  pub on_admit_lem :
      (key : K) (cost : ℕ) (s : TinyLfuState Repr) (xs ps qs : Entries K)
      → Shaped s.sketch
      → Shows s.window xs
      → Segments R s.main ps qs
      → total xs + total ps + total qs + cost < u64_mod
      → (d : AdmissionDecision K) × (t : TinyLfuState Repr) × (on_admit R hash policy key cost s
          ≡ some (d, t))
        × (increment hash key s.sketch ≡ some t.sketch)
        × Shaped t.sketch
        × (((d ≡ admit)
              × (t.window ≡ s.window)
              × (ps' : Entries K) × (qs' : Entries K) × Touched R policy.main_prot_capacity key cost
                  ps qs true ps' qs'
              × Segments R t.main ps' qs')
            ⊎ ((has dec key qs ≡ false)
                × (has dec key ps ≡ false)
                × (kept : Entries K) × (ps' : Entries K) × (out : List K) × Trimmed dec hash policy
                    t.sketch qs
                    (refresh dec key cost xs)
                    ps
                    kept
                    ps'
                    out
                × (d ≡ decision out)
                × Shows t.window kept
                × Segments R t.main ps' qs))
  unfolding on_admit manage_window
  on_admit_lem key cost s xs ps qs k sh g room =
      let limit = policy.main_prot_capacity in
      let (sketch, counts, shaped) = increment-Shaped hash key s.sketch k in
      let (ps1, qs1, touched, after) =
        touch-Touched R key cost s.main ps qs g (omega (arith, room)) limit in
      elim (Bool-cases (Slru.touch R key cost limit s.main).0) [
        | inl in_main ↦ (
          admit,
          record s { main = (Slru.touch R key cost limit s.main).1; sketch = sketch },
          rw (on_admit, counts, in_main) refl,
          counts,
          shaped,
          inl (
            refl,
            refl,
            ps1,
            qs1,
            subst (λ b. Touched R limit key cost ps qs b ps1 qs1) in_main touched,
            after,
          ),
        )
        | inr not_in_main ↦
            let (no_prot, no_prob) =
              absent-false limit key cost ps qs ps1 qs1
                (subst (λ b. Touched R limit key cost ps qs b ps1 qs1) not_in_main touched) in
            let u = record s { window = R.push_front key cost s.window; sketch = sketch } in
            let less = total-without-le dec key xs in
            let pushed = R.push_front_lem key cost s.window xs sh (omega (arith, room, less)) in
            let size = R.size_lem u.window (refresh dec key cost xs) pushed in
            let m =
              window_loop-Managed (suc (R.size u.window)) (refresh dec key cost xs) ps qs [] u
                (omega arith) pushed shaped g
                (omega (arith, room, less, total-refresh dec key cost xs)) in
            let managed : manage_window R hash policy u ≡ some (decision m.out, m.state) =
              rw (manage_window, m.runs) refl in
            (
              decision m.out,
              m.state,
              rw (on_admit, counts, not_in_main) managed,
              counts ∙ ap (λ v. some v) (sym m.sketch),
              subst (λ v. Shaped v) (sym m.sketch) shaped,
              inr (
                no_prot,
                no_prob,
                m.kept,
                m.after,
                m.out,
                subst
                    (λ v.
                      Trimmed dec hash policy v qs (refresh dec key cost xs) ps m.kept m.after
                        m.out)
                    (sym m.sketch) m.trimmed,
                refl,
                m.shows,
                m.segments,
              ),
            )
      ]
