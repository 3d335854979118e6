-- ===== src/Cache/Policy/Sieve/Evict.antt =====
-- `evict` and the other methods of cache/src/policy/sieve.rs against the contract.
use fibre.Base.{
  ℕ, zero, suc, ◌+◌, ◌-◌, ◌<◌, ◌≡◌, refl, List, [], ◌∷◌, ◌++◌, Option, none, some, arith, ite, true,
  false, inl, inr, ◌⊎◌, length, ltb, add64_lem, ◌&&◌, Bool-cases, Option-cases, u64_mod,
  append_assoc, append-nil,
}
use native.Mathlib.Nat.{zero-add}
use fibre.Base.HashMap.{get, get-insert}
use fibre.Base.HashMap.Values.{get-modify, sum_of-modify, sum_of-insert-le}
use fibre.Base.Keys.{
  contains, retain_ne, contains-retain_ne, Unique-retain_ne, contains_empty, retain_ne_absent,
}
use fibre.Cache.Policy.Contract.{Evicted, Evicted-nil, Evicted-cons}
use fibre.Cache.Policy.Sieve.{
  SieveEntry, SieveState, set_visited, costs, evict_loop, evict, on_access, on_admit,
}
use fibre.Cache.Policy.Sieve.Sweep.{IsValid, cost_sum, round-Takes}

module _ {K : Type 0} (dec : Discrete K) where
  nothing_left :
      (s : SieveState K) → IsValid dec s → length s.order ≡ 0 → (k : K) → costs dec s k ≡ none
  nothing_left s v e k = ground (arith, v.listed k, contains_empty dec k s.order e)

  -- The result of the loop after what it has gathered.
  record Finishes (need : ℕ) (victims : List K) (freed : ℕ) (s : SieveState K)
      (out : Option (List K × ℕ × SieveState K)) : Type 0 where
    more : List K
    cost : ℕ
    final : SieveState K
    returns : out ≡ some (victims ++ more, freed + cost, final)
    valid : IsValid dec final
    evicted : Evicted dec need (costs dec s) (costs dec final) more cost

  evict_loop-Finishes :
      (fuel need : ℕ) (victims : List K) (freed : ℕ) (s : SieveState K)
      → IsValid dec s
      → length s.order < fuel
      → freed + cost_sum s.items < u64_mod
      → Finishes need victims freed s (evict_loop dec fuel need victims freed s)
  unfolding evict_loop
  evict_loop-Finishes zero need victims freed s v lt fits = absurd (omega arith)
  evict_loop-Finishes (suc fuel) need victims freed s v lt fits =
      elim (Bool-cases (ltb 0 need && ltb 0 (length s.order))) [
        | inl go ↦
            let pos : 0 < length s.order = ground (arith, go) in
            let asked : 0 < need = ground (arith, go) in
            let (k, c, t, runs, takes) = round-Takes dec s v pos in
            let rest =
              evict_loop-Finishes fuel (need - c) (victims ++ k ∷ []) (freed + c) t takes.valid
                (omega (arith, takes.shorter)) (omega (arith, takes.lighter)) in
            record {
              more = k ∷ rest.more;
              cost = c + rest.cost;
              final = rest.final;
              returns = ground (
                arith,
                go,
                runs,
                rest.returns,
                takes.lighter,
                add64_lem freed c,
                append_assoc victims (k ∷ []) rest.more,
              );
              valid = rest.valid;
              evicted =
                  Evicted-cons dec need (costs dec s) (costs dec t) (costs dec rest.final) k c
                    rest.more rest.cost asked takes.here takes.after rest.evicted;
            }
        | inr stop ↦ record {
          more = [];
          cost = 0;
          final = s;
          returns = ground (arith, stop, append-nil victims);
          valid = v;
          evicted = Evicted-nil dec need (costs dec s) (costs dec s) (λ k. refl) (why stop);
        }
      ]
    where
      why :
          (ltb 0 need && ltb 0 (length s.order)) ≡ false
          → (need ≡ 0) ⊎ ((k : K) → costs dec s k ≡ none)
      why stop = elim (Bool-cases (ltb 0 need)) [
        | inl y ↦ inr (nothing_left s v (ground (arith, stop, y)))
        | inr n ↦ inl (ground arith)
      ]

  -- On a valid state `evict` neither panics nor runs on: it returns an eviction as the contract asks,
  -- and leaves a valid state.
  pub evict_sieve :
      (need : ℕ) (s : SieveState K)
      → IsValid dec s
      → (victims : List K) × (freed : ℕ) × (t : SieveState K) × (evict dec need s
          ≡ some (victims, freed, t))
        × IsValid dec t
        × Evicted dec need (costs dec s) (costs dec t) victims freed
  unfolding evict
  evict_sieve need s v =
      let f =
        evict_loop-Finishes (suc (length s.order)) need [] 0 s v (omega arith)
          (omega (arith, v.fits)) in
      (f.more, f.cost, f.final, rw zero-add at f.returns, f.valid, f.evicted)

  pub on_access-IsValid :
      (k : K) (c : ℕ) (s : SieveState K) → IsValid dec s → IsValid dec (on_access dec k c s)
  unfolding on_access
  on_access-IsValid k c s v = record {
    listed = λ j. elim (Option-cases (get dec j s.items)) [
      | inl n ↦ ground (arith, get-modify dec j k (set_visited true) s.items, v.listed j)
      | inr (w, n) ↦ ground (arith, get-modify dec j k (set_visited true) s.items, v.listed j)
    ];
    unique = v.unique;
    fits =
        rw (sum_of-modify dec k (λ (x : SieveEntry). x.cost) (set_visited true) s.items (λ x. refl))
          v.fits;
  }

  -- On a valid state that has room for the cost in a `u64`, `on_admit` keeps the state valid, also when
  -- the key was tracked: the key is at the front, once,
  -- before the other keys in their order, at its new cost and unvisited; the entry of no other key
  -- changes, neither its cost nor whether it was visited, and the hand stays.
  pub on_admit_sieve :
      (k : K) (c : ℕ) (s : SieveState K)
      → IsValid dec s
      → cost_sum s.items + c < u64_mod
      → let t = (on_admit dec k c s).1 in
        IsValid dec t
        × (t.order ≡ k ∷ retain_ne dec k s.order)
        × (t.hand ≡ s.hand)
        × ((j : K)
            → get dec j t.items
              ≡ ite (dec k j) (some (record { cost = c; visited = false })) (get dec j s.items))
        × ((j : K) → costs dec t j ≡ ite (dec k j) (some c) (costs dec s j))
  unfolding on_admit contains
  on_admit_sieve k c s v fits =
      let e : SieveEntry = record { cost = c; visited = false } in
      let absent = retain_ne_absent dec k s.order in
      (
        record {
          listed = λ j. ground (
            arith,
            absent,
            v.listed k,
            contains-retain_ne dec j k s.order,
            get-insert dec j k e s.items,
            v.listed j,
          );
          unique = ground (
            arith,
            absent,
            v.listed k,
            contains-retain_ne dec k k s.order,
            Unique-retain_ne dec k s.order v.unique,
          );
          fits = omega (arith, sum_of-insert-le dec k (λ (x : SieveEntry). x.cost) e s.items);
        },
        elim (Option-cases (get dec k s.items)) [
          | inl new_key ↦ ground (arith, absent, v.listed k, new_key)
          | inr (old, tracked) ↦ ground (arith, v.listed k, tracked)
        ],
        refl,
        λ j. get-insert dec j k e s.items,
        λ j. ground (arith, get-insert dec j k e s.items),
      )
