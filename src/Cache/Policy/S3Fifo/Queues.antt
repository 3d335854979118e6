-- ===== src/Cache/Policy/S3Fifo/Queues.antt =====
-- The queue entries of cache/src/policy/s3fifo.rs, and what `push` does to them.
use fibre.Base.{
  ℕ, ◌+◌, ◌*◌, ◌%◌, ◌^◌, add64, ◌≡◌, refl, List, [], ◌∷◌, ◌++◌, Option, none, some, arith, true,
  false, Bool, inl, inr, length, length-append, Option-cases, ◌==◌, head?, if◌then◌else◌, tail,
}
use fibre.Base.HashMap.{HashMap, get}
use fibre.Base.HashMap.Values.{modify, get-modify, sum_of, sum_of-modify}
use fibre.Cache.Policy.S3Fifo.{Queue, small, main, same_queue, Meta, State, push, is_live}

abbrev pub queue_of : {K : Type 0} → Queue → State K → List (K × ℕ)
queue_of small s = s.smalls
queue_of main s = s.mains

abbrev pub pop : {K : Type 0} → Queue → State K → State K
pop small s = record s { smalls = tail s.smalls }
pop main s = record s { mains = tail s.mains }

abbrev pub cost_sum : {K : Type 0} → HashMap K Meta → ℕ
cost_sum = sum_of (λ (m : Meta). m.cost)

abbrev pub freq_sum : {K : Type 0} → HashMap K Meta → ℕ
freq_sum = sum_of (λ (m : Meta). m.freq)

-- What the queue entries count in the measure of the eviction loop.
abbrev pub entry_work : {K : Type 0} → State K → ℕ
entry_work s = 2 * length s.smalls + length s.mains

module _ {K : Type 0} (dec : Discrete K) where
  -- Whether a queue has the entry.
  unfoldable pub queued : K → ℕ → List (K × ℕ) → Bool
  queued k stamp [] = false
  queued k stamp ((j, t) ∷ es) =
      let rest = queued k stamp es in
      elim (dec j k) [ yes _ ↦ (if t == stamp then true else rest) | no _ ↦ rest ]

  abbrev pub costs : State K → K → Option ℕ
  costs s k = elim (get dec k s.metas) [ none ↦ none | some m ↦ some m.cost ]

  -- A key's entry stands in the queue that its record names.
  abbrev pub IsQueued : State K → K → Type 0
  IsQueued s k =
      (m : Meta) → get dec k s.metas ≡ some m → queued k m.stamp (queue_of m.queue s) ≡ true

  pub queued-append :
      (k : K) (stamp : ℕ) (es : List (K × ℕ)) (e : K × ℕ)
      → queued k stamp es ≡ true
      → queued k stamp (es ++ e ∷ []) ≡ true
  unfolding queued
  queued-append k stamp [] e h = cc
  queued-append k stamp ((j, t) ∷ es) e h = ground (arith, queued-append k stamp es e)

  pub queued-append_one :
      (k : K) (stamp : ℕ) (es : List (K × ℕ)) → queued k stamp (es ++ (k, stamp) ∷ []) ≡ true
  unfolding queued
  queued-append_one k stamp [] = ground arith
  queued-append_one k stamp ((j, t) ∷ es) = ground (arith, queued-append_one k stamp es)

  queued-tail :
      (k : K) (stamp : ℕ) (es : List (K × ℕ)) (e : K × ℕ)
      → head? es ≡ some e
      → queued k stamp es ≡ true
      → (e.0 ≡ k → e.1 ≡ stamp → ⊥)
      → queued k stamp (tail es) ≡ true
  unfolding queued
  queued-tail k stamp [] e h q other = cc
  queued-tail k stamp ((j, t) ∷ es) e h q other = ground (arith, other)

  -- Popping an entry that is not the key's leaves the key's in its queue.
  pub queue_of-pop :
      (from at : Queue) (s : State K) (e : K × ℕ) (k : K) (stamp : ℕ)
      → head? (queue_of from s) ≡ some e
      → queued k stamp (queue_of at s) ≡ true
      → (e.0 ≡ k → e.1 ≡ stamp → same_queue at from ≡ true → ⊥)
      → queued k stamp (queue_of at (pop from s)) ≡ true
  queue_of-pop small small s e k stamp h q other =
      queued-tail k stamp s.smalls e h q (λ a b. other a b refl)
  queue_of-pop small main s e k stamp h q other = q
  queue_of-pop main small s e k stamp h q other = q
  queue_of-pop main main s e k stamp h q other =
      queued-tail k stamp s.mains e h q (λ a b. other a b refl)

  -- Popping a stale entry leaves the entry of every key in its queue.
  pub pop_stale-IsQueued :
      (from : Queue) (s : State K) (e : K × ℕ) (k : K)
      → head? (queue_of from s) ≡ some e
      → is_live dec s.metas from e ≡ false
      → IsQueued s k
      → (m : Meta) → get dec k s.metas ≡ some m
      → queued k m.stamp (queue_of m.queue (pop from s)) ≡ true
  unfolding is_live
  pop_stale-IsQueued from s e k h stale q m found =
      queue_of-pop from m.queue s e k m.stamp h (q m found) (λ a b c. ground (arith, found, stale))

  -- What `push` leaves when it does not panic: every other key as it was.
  pub record Pushed (key : K) (queue : Queue) (m : Meta) (s t : State K) : Type 0 where
    pub entry : IsQueued t key
    pub others : (k : K) → (key ≡ k → ⊥) → IsQueued s k → IsQueued t k
    pub same : (k : K) → costs t k ≡ costs s k
    pub weight : cost_sum t.metas ≡ cost_sum s.metas
    pub freqs : freq_sum t.metas ≡ freq_sum s.metas
    pub longer : entry_work t ≡ entry_work s + (elim queue [ small ↦ 2 | main ↦ 1 ])

  restamp : ℕ → Queue → Meta → Meta
  restamp stamp queue m = record m { stamp = stamp; queue = queue }

  -- The state that `push` leaves, for the stamp it takes.
  abbrev push_back : K → ℕ → Queue → Meta → State K → State K
  push_back key stamp small m s = record s {
    next_stamp = stamp;
    metas = modify dec key (restamp stamp small) s.metas;
    small_cost = add64 s.small_cost m.cost;
    smalls = s.smalls ++ (key, stamp) ∷ [];
  }
  push_back key stamp main m s = record s {
    next_stamp = stamp;
    metas = modify dec key (restamp stamp main) s.metas;
    mains = s.mains ++ (key, stamp) ∷ [];
  }

  queue_of-push_back :
      (at queue : Queue) (key k : K) (stamp old : ℕ) (m : Meta) (s : State K)
      → queued k old (queue_of at s) ≡ true
      → queued k old (queue_of at (push_back key stamp queue m s)) ≡ true
  queue_of-push_back small small key k stamp old m s h = queued-append k old s.smalls (key, stamp) h
  queue_of-push_back small main key k stamp old m s h = h
  queue_of-push_back main small key k stamp old m s h = h
  queue_of-push_back main main key k stamp old m s h = queued-append k old s.mains (key, stamp) h

  queue_of-push_back_entry :
      (queue : Queue) (key : K) (stamp : ℕ) (m : Meta) (s : State K)
      → queued key stamp (queue_of queue (push_back key stamp queue m s)) ≡ true
  queue_of-push_back_entry small key stamp m s = queued-append_one key stamp s.smalls
  queue_of-push_back_entry main key stamp m s = queued-append_one key stamp s.mains

  metas-push_back :
      (key : K) (stamp : ℕ) (queue : Queue) (m : Meta) (s : State K)
      → (push_back key stamp queue m s).metas ≡ modify dec key (restamp stamp queue) s.metas
  metas-push_back key stamp small m s = refl
  metas-push_back key stamp main m s = refl

  push-push_back :
      (key : K) (queue : Queue) (s : State K) (m : Meta)
      → get dec key s.metas ≡ some m
      → push dec key queue s ≡ some (push_back key ((s.next_stamp + 1) % 2 ^ 32) queue m s)
  unfolding push restamp
  push-push_back key small s m found = ground (arith, found)
  push-push_back key main s m found = ground (arith, found)

  entry_work-push_back :
      (key : K) (stamp : ℕ) (queue : Queue) (m : Meta) (s : State K)
      → entry_work (push_back key stamp queue m s)
        ≡ entry_work s + (elim queue [ small ↦ 2 | main ↦ 1 ])
  entry_work-push_back key stamp small m s =
      omega (arith, length-append s.smalls ((key, stamp) ∷ []))
  entry_work-push_back key stamp main m s = omega (arith, length-append s.mains ((key, stamp) ∷ []))

  -- `push` finds a tracked key, puts an entry for it at the end of the queue, and changes nothing for
  -- any other key.
  pub push-Pushed :
      (key : K) (queue : Queue) (s : State K) (m : Meta)
      → get dec key s.metas ≡ some m
      → (t : State K) × (push dec key queue s ≡ some t) × Pushed key queue m s t
  unfolding restamp
  push-Pushed key queue s m found =
      let stamp = (s.next_stamp + 1) % 2 ^ 32 in
      let t = push_back key stamp queue m s in
      let metas = metas-push_back key stamp queue m s in
      let get' = λ (k : K). get-modify dec k key (restamp stamp queue) s.metas in
      (
        t,
        push-push_back key queue s m found,
        record {
          entry = λ w at.
              ground (arith, found, metas, get' key, queue_of-push_back_entry queue key stamp m s);
          others = λ k other q w at.
              queue_of-push_back w.queue queue key k stamp w.stamp m s
                (q w (ground (arith, metas, get' k, other)));
          same = λ k. elim (Option-cases (get dec k s.metas)) [
            | inl n ↦ ground (arith, metas, get' k)
            | inr (w, n) ↦ ground (arith, metas, get' k)
          ];
          weight = rw (metas) (
              sum_of-modify dec key (λ (x : Meta). x.cost) (restamp stamp queue) s.metas
                (λ x. refl));
          freqs = rw (metas) (
              sum_of-modify dec key (λ (x : Meta). x.freq) (restamp stamp queue) s.metas
                (λ x. refl));
          longer = entry_work-push_back key stamp queue m s;
        },
      )
