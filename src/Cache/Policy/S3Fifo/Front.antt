-- ===== src/Cache/Policy/S3Fifo/Front.antt =====
-- What a round of S3-FIFO's eviction does with the entry that it pops: the key is queued again or
-- released.
use fibre.Base.{
  ℕ, ◌+◌, ◌<◌, ◌≤◌, ◌≡◌, refl, List, [], ◌∷◌, Option, none, some, arith, ite, inl, inr, ◌⊎◌, length,
  Option-cases, u64_mod, head?, tail, ap, ◌∙◌,
}
use fibre.Base.HashMap.{HashMap, get, remove, get-remove}
use fibre.Base.HashMap.Values.{
  modify, get-modify, sum_of-modify, sum_of-modify-get, sum_of-remove, sum_of-remove-le,
}
use fibre.Cache.Policy.S3Fifo.{
  Queue, small, main, Meta, State, Round, broke, continues, victim, push, drop_ghost,
  remember_ghost, set_freq, live_meta, work,
}
use fibre.Cache.Policy.S3Fifo.Queues.{
  queue_of, pop, cost_sum, freq_sum, costs, IsQueued, queue_of-pop, entry_work, push-Pushed,
}

-- Each key has its entry in the queue that its record names, and the costs fit a `u64`.
pub record IsValid {K : Type 0} (dec : Discrete K) (s : State K) : Type 0 where
  pub listed : (k : K) → IsQueued dec s k
  pub fits : cost_sum s.metas < u64_mod

-- A round without a victim.
pub record Spares {K : Type 0} (dec : Discrete K) (s t : State K) : Type 0 where
  pub valid : IsValid dec t
  pub same : (j : K) → costs dec t j ≡ costs dec s j
  pub weight : cost_sum t.metas ≡ cost_sum s.metas
  pub lower : work dec t < work dec s

-- A round with a victim.
pub record Takes {K : Type 0} (dec : Discrete K) (s : State K) (k : K) (c : ℕ) (t : State K)
    : Type 0 where
  pub valid : IsValid dec t
  pub here : costs dec s k ≡ some c
  pub after : (j : K) → costs dec t j ≡ ite (dec k j) none (costs dec s j)
  pub lighter : cost_sum t.metas + c ≤ cost_sum s.metas
  pub lower : work dec t < work dec s

length-tail :
    {A : Type 0} (xs : List A) (x : A) → head? xs ≡ some x → length (tail xs) + 1 ≡ length xs
length-tail [] x h = cc
length-tail (y ∷ ys) x h = omega arith

module _ {K : Type 0} (dec : Discrete K) where
  -- What a round comes to.
  abbrev pub Outcome : State K → Option (Round dec) → Type 0
  Outcome s r =
      ((r ≡ some broke) × (s.smalls ≡ []) × (s.mains ≡ []))
      ⊎ ((t : State K) × (r ≡ some (continues t)) × Spares dec s t)
      ⊎ ((k : K) × (c : ℕ) × (t : State K) × (r ≡ some (victim k c t)) × Takes dec s k c t)

  -- A live entry at the front of a queue, with what popping it leaves of the measure.
  pub record Front (from : Queue) (s t : State K) (key : K) (m : Meta) : Type 0 where
    pub valid : IsValid dec s
    pub found : get dec key s.metas ≡ some m
    pub metas : t.metas ≡ s.metas
    pub others : (k : K) → (key ≡ k → ⊥) → IsQueued dec t k
    pub popped : entry_work t + (elim from [ small ↦ 2 | main ↦ 1 ]) ≡ entry_work s

  queue_of_metas :
      (queue : Queue) (s : State K) (metas : HashMap K Meta)
      → queue_of queue (record s { metas = metas }) ≡ queue_of queue s
  queue_of_metas small s metas = refl
  queue_of_metas main s metas = refl

  -- The key goes back to the main queue with a smaller frequency.
  pub requeue :
      (from : Queue) (s t : State K) (key : K) (m : Meta) (freq : ℕ)
      → Front from s t key m
      → freq + 1 < m.freq + (elim from [ small ↦ 2 | main ↦ 1 ])
      → (u : State K) × (push dec key main
            (record t { metas = modify dec key (set_freq dec freq) t.metas })
          ≡ some u)
        × Spares dec s u
  requeue from s t key m freq f lt =
      let change = set_freq dec freq in
      let marked : State K = record t { metas = modify dec key change t.metas } in
      let get' = λ (k : K). get-modify dec k key change t.metas in
      let (u, pushes, p) =
        push-Pushed dec key main marked (set_freq dec freq m)
          (ground (arith, f.found, f.metas, get' key)) in
      let weight = sum_of-modify dec key (λ (x : Meta). x.cost) change t.metas (λ x. refl) in
      let freqs =
        sum_of-modify-get dec key (λ (x : Meta). x.freq) change t.metas m
          (ground (arith, f.found, f.metas)) in
      (
        u,
        pushes,
        record {
          valid = record {
            listed = λ k. elim (dec key k) [
              | yes e ↦ λ w at. ground (arith, p.entry w, e, at)
              | no ne ↦ p.others k ne (λ w at.
                  rw (queue_of_metas w.queue t marked.metas)
                    (f.others k ne w (ground (arith, get' k, at, ne))))
            ];
            fits = rw (p.weight, weight, f.metas) f.valid.fits;
          };
          same = λ j. elim (Option-cases (get dec j s.metas)) [
            | inl n ↦ ground (arith, n, p.same j, get' j, f.metas)
            | inr (w, n) ↦ ground (arith, n, p.same j, get' j, f.metas)
          ];
          weight = rw (p.weight, weight, f.metas) refl;
          lower = omega (arith, p.freqs, p.longer, f.popped, freqs, ap freq_sum f.metas);
        },
      )

  pub entry_pos : (from : Queue) → 0 < (elim from [ small ↦ 2 | main ↦ 1 ])
  entry_pos small = omega arith
  entry_pos main = omega arith

  pub queue_of-same :
      (queue : Queue) (s t : State K)
      → t.smalls ≡ s.smalls
      → t.mains ≡ s.mains
      → queue_of queue t ≡ queue_of queue s
  queue_of-same small s t a b = a
  queue_of-same main s t a b = b

  -- The key leaves.
  pub release :
      (from : Queue) (s t u : State K) (key : K) (m : Meta)
      → Front from s t key m
      → u.metas ≡ remove dec key t.metas
      → u.smalls ≡ t.smalls
      → u.mains ≡ t.mains
      → Takes dec s key m.cost u
  release from s t u key m f metas smalls mains =
      let get' = λ (k : K). get-remove dec k key t.metas in
      let lighter = sum_of-remove dec key (λ (x : Meta). x.cost) s.metas m f.found in
      let freqs = sum_of-remove-le dec key (λ (x : Meta). x.freq) s.metas in
      let left : u.metas ≡ remove dec key s.metas = metas ∙ ap (remove dec key) f.metas in
      record {
        valid = record {
          listed = λ k. elim (dec key k) [
            | yes e ↦ λ w at. ground (arith, get' k, metas, e, at)
            | no ne ↦ λ w at.
                rw (queue_of-same w.queue t u smalls mains)
                  (f.others k ne w (ground (arith, get' k, metas, at, ne)))
          ];
          fits = omega (arith, lighter, ap cost_sum left, f.valid.fits);
        };
        here = ground (arith, f.found);
        after = λ j. ground (arith, get' j, metas, f.metas);
        lighter = omega (arith, lighter, ap cost_sum left);
        lower = omega (
          arith,
          freqs,
          f.popped,
          entry_pos from,
          ap freq_sum left,
          ap (λ (es : List (K × ℕ)). length es) smalls,
          ap (λ (es : List (K × ℕ)). length es) mains,
        );
      }

  pub remember_ghost-same :
      (key : K) (limit : ℕ) (s : State K)
      → let t = remember_ghost dec key limit s in
        (t.metas ≡ s.metas) × (t.smalls ≡ s.smalls) × (t.mains ≡ s.mains)
  unfolding remember_ghost drop_ghost
  remember_ghost-same key limit s = ground arith

  pub metas-pop : (from : Queue) (s : State K) → (pop from s).metas ≡ s.metas
  metas-pop small s = refl
  metas-pop main s = refl

  pub entry_work-pop :
      (from : Queue) (s : State K) (e : K × ℕ)
      → head? (queue_of from s) ≡ some e
      → entry_work (pop from s) + (elim from [ small ↦ 2 | main ↦ 1 ]) ≡ entry_work s
  entry_work-pop small s e h = omega (arith, length-tail s.smalls e h)
  entry_work-pop main s e h = omega (arith, length-tail s.mains e h)

  pub live_meta-Front :
      (from : Queue) (s : State K) (e : K × ℕ) (m : Meta)
      → IsValid dec s
      → head? (queue_of from s) ≡ some e
      → live_meta dec e from (pop from s) ≡ some m
      → Front from s (pop from s) e.0 m
  unfolding live_meta
  live_meta-Front from s e m v h live = record {
    valid = v;
    found = ground (arith, live, metas-pop from s);
    metas = metas-pop from s;
    others = λ k ne w at.
        queue_of-pop dec from w.queue s e k w.stamp h
          (v.listed k w (ground (arith, metas-pop from s, at))) (λ a b c. ne a);
    popped = entry_work-pop from s e h;
  }
