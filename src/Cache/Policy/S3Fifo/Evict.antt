-- ===== src/Cache/Policy/S3Fifo/Evict.antt =====
-- `evict` of cache/src/policy/s3fifo.rs against the contract.
use fibre.Base.{
  ℕ, zero, suc, ◌+◌, ◌-◌, ◌<◌, ◌≡◌, refl, List, [], ◌∷◌, ◌++◌, Option, none, some, arith, inl, inr,
  ◌⊎◌, Bool-cases, Option-cases, u64_mod, ltb, add64_lem, append_assoc, append-nil,
}
use native.Mathlib.Nat.{zero-add}
use fibre.Base.HashMap.{get}
use fibre.Cache.Policy.Contract.{Evicted, Evicted-nil, Evicted-cons, Evicted-same}
use fibre.Cache.Policy.S3Fifo.{Queue, small, main, State, S3FifoPolicy, evict_loop, evict, work}
use fibre.Cache.Policy.S3Fifo.Queues.{queue_of, cost_sum, queued, costs}
use fibre.Cache.Policy.S3Fifo.Front.{IsValid}
use fibre.Cache.Policy.S3Fifo.Rounds.{round-Outcome}

module _ {K : Type 0} (dec : Discrete K) where
  empty_queue : (queue : Queue) (s : State K) → s.smalls ≡ [] → s.mains ≡ [] → queue_of queue s ≡ []
  empty_queue small s a b = a
  empty_queue main s a b = b

  nothing_left :
      (s : State K) → IsValid dec s → s.smalls ≡ [] → s.mains ≡ [] → (k : K) → costs dec s k ≡ none
  unfolding queued
  nothing_left s v a b k = elim (Option-cases (get dec k s.metas)) [
    | inl n ↦ ground (arith, n)
    | inr (m, n) ↦ absurd (ground (arith, v.listed k m n, empty_queue m.queue s a b))
  ]

  -- The result of the loop after what it has gathered.
  record Finishes (need : ℕ) (victims : List K) (freed : ℕ) (s : State K)
      (out : Option (List K × ℕ × State K)) : Type 0 where
    more : List K
    cost : ℕ
    final : State K
    returns : out ≡ some (victims ++ more, freed + cost, final)
    valid : IsValid dec final
    evicted : Evicted dec (need - freed) (costs dec s) (costs dec final) more cost

  stops :
      (need : ℕ) (victims : List K) (freed : ℕ) (s : State K) (out : Option (List K × ℕ × State K))
      → IsValid dec s
      → out ≡ some (victims, freed, s)
      → (need - freed ≡ 0) ⊎ ((k : K) → costs dec s k ≡ none)
      → Finishes need victims freed s out
  stops need victims freed s out v returns why = record {
    more = [];
    cost = 0;
    final = s;
    returns = ground (arith, returns, append-nil victims);
    valid = v;
    evicted = Evicted-nil dec (need - freed) (costs dec s) (costs dec s) (λ k. refl) why;
  }

  evict_loop-Finishes :
      (policy : S3FifoPolicy) (fuel need : ℕ) (victims : List K) (freed : ℕ) (s : State K)
      → IsValid dec s
      → work dec s < fuel
      → freed + cost_sum s.metas < u64_mod
      → Finishes need victims freed s (evict_loop dec policy fuel need victims freed s)
  unfolding evict_loop
  evict_loop-Finishes policy zero need victims freed s v lt fits = absurd (omega arith)
  evict_loop-Finishes policy (suc fuel) need victims freed s v lt fits =
      elim (Bool-cases (ltb freed need)) [
        | inr stop ↦
            stops need victims freed s _ v (ground (arith, stop)) (inl (ground (arith, stop)))
        | inl go ↦ elim (round-Outcome dec policy s v) [
          | inl (breaks, a, b) ↦
              stops need victims freed s _ v (ground (arith, go, breaks))
                (inr (nothing_left s v a b))
          | inr (inl (t, goes, spares)) ↦
              let rest =
                evict_loop-Finishes policy fuel need victims freed t spares.valid
                  (omega (arith, spares.lower)) (omega (arith, spares.weight)) in
              record {
                more = rest.more;
                cost = rest.cost;
                final = rest.final;
                returns = ground (arith, go, goes, rest.returns);
                valid = rest.valid;
                evicted =
                    Evicted-same dec (need - freed) (costs dec s) (costs dec t)
                      (costs dec rest.final) rest.more rest.cost spares.same rest.evicted;
              }
          | inr (inr (k, c, t, takes_one, takes)) ↦
              let rest =
                evict_loop-Finishes policy fuel need (victims ++ k ∷ []) (freed + c) t takes.valid
                  (omega (arith, takes.lower)) (omega (arith, takes.lighter)) in
              let left : need - (freed + c) ≡ need - freed - c = omega arith in
              record {
                more = k ∷ rest.more;
                cost = c + rest.cost;
                final = rest.final;
                returns = ground (
                  arith,
                  go,
                  takes_one,
                  rest.returns,
                  takes.lighter,
                  add64_lem freed c,
                  append_assoc victims (k ∷ []) rest.more,
                );
                valid = rest.valid;
                evicted =
                    Evicted-cons dec (need - freed) (costs dec s) (costs dec t)
                      (costs dec rest.final) k c rest.more rest.cost (ground (arith, go)) takes.here
                      takes.after (rw left at rest.evicted);
              }
        ]
      ]

  -- On a state in which each tracked key has its entry in its queue, and the costs fit a `u64`,
  -- `evict` neither panics nor runs on, whatever stale entries the queues hold: it returns an eviction
  -- as the contract asks, and leaves such a state.
  pub evict_s3fifo :
      (policy : S3FifoPolicy) (need : ℕ) (s : State K)
      → IsValid dec s
      → (victims : List K) × (freed : ℕ) × (t : State K) × (evict dec policy need s
          ≡ some (victims, freed, t))
        × IsValid dec t
        × Evicted dec need (costs dec s) (costs dec t) victims freed
  unfolding evict
  evict_s3fifo policy need s v =
      let f =
        evict_loop-Finishes policy (suc (work dec s)) need [] 0 s v (omega arith)
          (omega (arith, v.fits)) in
      let none_freed : need - 0 ≡ need = omega arith in
      (f.more, f.cost, f.final, rw zero-add at f.returns, f.valid, rw none_freed at f.evicted)
