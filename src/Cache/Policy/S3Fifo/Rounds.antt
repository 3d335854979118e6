-- ===== src/Cache/Policy/S3Fifo/Rounds.antt =====
-- A round of the eviction loop in cache/src/policy/s3fifo.rs.
use fibre.Base.{
  ℕ, ◌-◌, ◌≡◌, refl, List, [], ◌∷◌, none, some, arith, true, false, inl, inr, length, Bool-cases,
  Option-cases, ltb, head?, ap, subst, sub64,
}
use fibre.Base.HashMap.{get, remove}
use fibre.Cache.Policy.S3Fifo.{
  Queue, small, main, Meta, State, S3FifoPolicy, is_live, remember_ghost, from_small_queue,
  from_main_queue, takes_small, live_meta, round,
}
use fibre.Cache.Policy.S3Fifo.Queues.{queue_of, pop, cost_sum, freq_sum, pop_stale-IsQueued}
use fibre.Cache.Policy.S3Fifo.Front.{
  IsValid, Spares, Outcome, Front, requeue, entry_pos, queue_of-same, release, remember_ghost-same,
  metas-pop, entry_work-pop, live_meta-Front,
}

module _ {K : Type 0} (dec : Discrete K) where
  Front-small_cost :
      (from : Queue) (s t : State K) (key : K) (m : Meta) (cost : ℕ)
      → Front dec from s t key m
      → Front dec from s (record t { small_cost = cost }) key m
  Front-small_cost from s t key m cost f = record {
    valid = f.valid;
    found = f.found;
    metas = f.metas;
    others = λ k ne w at.
        rw (queue_of-same dec w.queue t (record t { small_cost = cost }) refl refl)
          (f.others k ne w at);
    popped = f.popped;
  }

  -- A stale entry is dropped.
  stale-Spares :
      (from : Queue) (s : State K) (e : K × ℕ)
      → IsValid dec s
      → head? (queue_of from s) ≡ some e
      → live_meta dec e from (pop from s) ≡ none
      → Spares dec s (pop from s)
  unfolding live_meta is_live
  stale-Spares from s e v h stale = record {
    valid = record {
      listed = λ k w at.
          pop_stale-IsQueued dec from s e k h (not_live stale) (v.listed k) w
            (ground (arith, metas-pop dec from s, at));
      fits = rw (metas-pop dec from s) v.fits;
    };
    same = λ j.
        ap (λ metas. elim (get dec j metas) [ none ↦ none | some m ↦ some m.cost ])
          (metas-pop dec from s);
    weight = ap cost_sum (metas-pop dec from s);
    lower = omega (
      arith,
      entry_pos dec from,
      entry_work-pop dec from s e h,
      ap freq_sum (metas-pop dec from s),
    );
  }
    where
      not_live : live_meta dec e from (pop from s) ≡ none → is_live dec s.metas from e ≡ false
      not_live n = ground (arith, metas-pop dec from s)

  from_small_queue-Outcome :
      (policy : S3FifoPolicy) (s t : State K) (key : K) (m : Meta)
      → Front dec small s t key m
      → Outcome dec s (from_small_queue dec policy key m t)
  unfolding from_small_queue
  from_small_queue-Outcome policy s t key m f =
      let cost = sub64 t.small_cost m.cost in
      let left : State K = record t { small_cost = cost } in
      let front = Front-small_cost small s t key m cost f in
      let rest : State K = record left {
        metas = remove dec key t.metas;
        total_cost = sub64 t.total_cost m.cost;
      } in
      let ghost = remember_ghost-same dec key policy.ghost_cap rest in
      elim (Bool-cases (ltb 1 m.freq)) [
        | inl again ↦
            let (u, pushes, spares) =
              requeue dec small s left key m 0 front (ground (arith, again)) in
            inr (inl (u, ground (arith, again, pushes), spares))
        | inr gone ↦ inr (
            inr (
              key,
              m.cost,
              remember_ghost dec key policy.ghost_cap rest,
              ground (arith, gone),
              release dec small s left (remember_ghost dec key policy.ghost_cap rest) key m front
                  ghost.0 ghost.1 ghost.2,
            ))
      ]

  from_main_queue-Outcome :
      (s t : State K) (key : K) (m : Meta)
      → Front dec main s t key m
      → Outcome dec s (from_main_queue dec key m t)
  unfolding from_main_queue
  from_main_queue-Outcome s t key m f =
      let rest : State K = record t {
        metas = remove dec key t.metas;
        total_cost = sub64 t.total_cost m.cost;
      } in
      elim (Bool-cases (ltb 0 m.freq)) [
        | inl again ↦
            let (u, pushes, spares) =
              requeue dec main s t key m (m.freq - 1) f (ground (arith, again)) in
            inr (inl (u, ground (arith, again, pushes), spares))
        | inr gone ↦ inr (
            inr (
              key,
              m.cost,
              rest,
              ground (arith, gone),
              release dec main s t rest key m f refl refl refl,
            ))
      ]

  small_round :
      (policy : S3FifoPolicy) (s : State K) (e : K × ℕ)
      → IsValid dec s
      → takes_small dec policy s ≡ true
      → head? s.smalls ≡ some e
      → Outcome dec s (round dec policy s)
  unfolding round
  small_round policy s e v small_first h =
      elim (Option-cases (live_meta dec e small (pop small s))) [
        | inl n ↦
            inr (inl (pop small s, ground (arith, small_first, h, n), stale-Spares small s e v h n))
        | inr (m, live) ↦ subst (Outcome dec s) (ground (arith, small_first, h, live)) (
            from_small_queue-Outcome policy s (pop small s) e.0 m
              (live_meta-Front dec small s e m v h live))
      ]

  main_round :
      (policy : S3FifoPolicy) (s : State K) (e : K × ℕ)
      → IsValid dec s
      → takes_small dec policy s ≡ false
      → head? s.mains ≡ some e
      → Outcome dec s (round dec policy s)
  unfolding round
  main_round policy s e v main_first h = elim (Option-cases (live_meta dec e main (pop main s))) [
    | inl n ↦ inr (inl (pop main s, ground (arith, main_first, h, n), stale-Spares main s e v h n))
    | inr (m, live) ↦
        subst (Outcome dec s) (ground (arith, main_first, h, live))
          (from_main_queue-Outcome s (pop main s) e.0 m (live_meta-Front dec main s e m v h live))
  ]

  head?-none : {A : Type 0} (xs : List A) → head? xs ≡ none → xs ≡ []
  head?-none [] h = refl
  head?-none (x ∷ xs) h = cc

  -- No round panics, and each lowers the measure.
  pub round-Outcome :
      (policy : S3FifoPolicy) (s : State K) → IsValid dec s → Outcome dec s (round dec policy s)
  unfolding round takes_small
  round-Outcome policy s v = elim (Bool-cases (takes_small dec policy s)) [
    | inl t ↦ elim (Option-cases (head? s.smalls)) [
      | inl n ↦ absurd (ground (arith, t, head?-none s.smalls n))
      | inr (e, h) ↦ small_round policy s e v t h
    ]
    | inr f ↦ elim (Option-cases (head? s.mains)) [
      | inl n ↦ inl (
        ground (arith, f, n),
        no_smalls s.smalls (ground (arith, f, head?-none s.mains n)),
        head?-none s.mains n,
      )
      | inr (e, h) ↦ main_round policy s e v f h
    ]
  ]
    where
      no_smalls : (es : List (K × ℕ)) → length es ≡ 0 → es ≡ []
      no_smalls [] h = refl
      no_smalls (e ∷ es) h = absurd (omega arith)
