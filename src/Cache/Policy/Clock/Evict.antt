-- ===== src/Cache/Policy/Clock/Evict.antt =====
-- `evict` and the other methods of cache/src/policy/clock.rs against the contract.
use fibre.Base.{
  ℕ, zero, suc, ◌+◌, ◌-◌, ◌*◌, ◌<◌, ◌≡◌, refl, List, [], ◌∷◌, ◌++◌, Option, none, some, arith, ite,
  if◌then◌else◌, true, false, inl, inr, ◌⊎◌, length, get_elem?, remove_at, ltb, leb, add64_lem,
  ◌&&◌, Bool-cases, Option-cases, u64_mod, append_assoc, append-nil, length-append,
}
use native.Mathlib.Nat.{zero-add}
use fibre.Base.HashMap.{get, remove, get-remove, get-insert}
use fibre.Base.HashMap.Values.{get-modify, sum_of-modify, sum_of-remove-le, sum_of-insert-le}
use fibre.Base.Keys.{
  contains-retain_ne, Unique-retain_ne, remove_at-retain_ne, contains-append_one, Unique-append_one,
  position-get_elem?, contains_empty,
}
use fibre.Cache.Policy.Hand.{marked-le-length, length-remove_at}
use fibre.Cache.Policy.Contract.{Evicted, Evicted-nil, Evicted-cons}
use fibre.Cache.Policy.Clock.{
  ClockEntry, ClockState, set_referenced, costs, evict_loop, evict, on_access, on_admit, on_remove,
}
use fibre.Cache.Policy.Clock.Sweep.{IsValid, cost_sum, sweep-Takes}

module _ {K : Type 0} (dec : Discrete K) where
  nothing_left :
      (s : ClockState K) → IsValid dec s → length s.order ≡ 0 → (k : K) → costs dec s k ≡ none
  nothing_left s v e k = ground (arith, v.listed k, contains_empty dec k s.order e)

  -- The result of the loop after what it has gathered.
  record Finishes (need : ℕ) (victims : List K) (freed : ℕ) (s : ClockState K)
      (out : Option (List K × ℕ × ClockState K)) : Type 0 where
    more : List K
    cost : ℕ
    final : ClockState K
    returns : out ≡ some (victims ++ more, freed + cost, final)
    valid : IsValid dec final
    evicted : Evicted dec need (costs dec s) (costs dec final) more cost

  evict_loop-Finishes :
      (fuel need : ℕ) (victims : List K) (freed : ℕ) (s : ClockState K)
      → IsValid dec s
      → length s.order < fuel
      → freed + cost_sum s.items < u64_mod
      → Finishes need victims freed s (evict_loop dec fuel need victims freed s)
  unfolding evict_loop
  evict_loop-Finishes zero need victims freed s v lt fits = absurd (omega arith)
  evict_loop-Finishes (suc fuel) need victims freed s v lt fits =
      elim (Bool-cases (ltb 0 need && ltb 0 (length s.order))) [
        | inl go ↦
            let pos : 0 < length s.order = ground (arith, go) in
            let asked : 0 < need = ground (arith, go) in
            let (k, c, t, runs, takes) = sweep-Takes dec (length s.order * 2) s v pos (
              omega
                (arith, marked-le-length dec (λ (e : ClockEntry). e.referenced) s.items s.order)) in
            let rest =
              evict_loop-Finishes fuel (need - c) (victims ++ k ∷ []) (freed + c) t takes.valid
                (omega (arith, takes.shorter)) (omega (arith, takes.lighter)) in
            record {
              more = k ∷ rest.more;
              cost = c + rest.cost;
              final = rest.final;
              returns = ground (
                arith,
                go,
                runs,
                rest.returns,
                takes.lighter,
                add64_lem freed c,
                append_assoc victims (k ∷ []) rest.more,
              );
              valid = rest.valid;
              evicted =
                  Evicted-cons dec need (costs dec s) (costs dec t) (costs dec rest.final) k c
                    rest.more rest.cost asked takes.here takes.after rest.evicted;
            }
        | inr stop ↦ record {
          more = [];
          cost = 0;
          final = s;
          returns = ground (arith, stop, append-nil victims);
          valid = v;
          evicted = Evicted-nil dec need (costs dec s) (costs dec s) (λ k. refl) (why stop);
        }
      ]
    where
      why :
          (ltb 0 need && ltb 0 (length s.order)) ≡ false
          → (need ≡ 0) ⊎ ((k : K) → costs dec s k ≡ none)
      why stop = elim (Bool-cases (ltb 0 need)) [
        | inl y ↦ inr (nothing_left s v (ground (arith, stop, y)))
        | inr n ↦ inl (ground arith)
      ]

  -- On a valid state `evict` neither panics nor runs on: it returns an eviction as the contract asks,
  -- and leaves a valid state.
  pub evict_clock :
      (need : ℕ) (s : ClockState K)
      → IsValid dec s
      → (victims : List K) × (freed : ℕ) × (t : ClockState K) × (evict dec need s
          ≡ some (victims, freed, t))
        × IsValid dec t
        × Evicted dec need (costs dec s) (costs dec t) victims freed
  unfolding evict
  evict_clock need s v =
      let f =
        evict_loop-Finishes (suc (length s.order)) need [] 0 s v (omega arith)
          (omega (arith, v.fits)) in
      (f.more, f.cost, f.final, rw zero-add at f.returns, f.valid, f.evicted)

  on_access-IsValid :
      (k : K) (c : ℕ) (s : ClockState K) → IsValid dec s → IsValid dec (on_access dec k c s)
  unfolding on_access
  on_access-IsValid k c s v = record {
    listed = λ j. elim (Option-cases (get dec j s.items)) [
      | inl n ↦ ground (arith, get-modify dec j k (set_referenced true) s.items, v.listed j)
      | inr (w, n) ↦ ground (arith, get-modify dec j k (set_referenced true) s.items, v.listed j)
    ];
    unique = v.unique;
    hand_in = v.hand_in;
    fits =
        rw
          (sum_of-modify dec k (λ (x : ClockEntry). x.cost) (set_referenced true) s.items
            (λ x. refl))
          v.fits;
  }

  on_admit-IsValid :
      (k : K) (c : ℕ) (s : ClockState K)
      → IsValid dec s
      → cost_sum s.items + c < u64_mod
      → IsValid dec (on_admit dec k c s).1
  unfolding on_admit
  on_admit-IsValid k c s v fits = elim (Option-cases (get dec k s.items)) [
    | inl n ↦ rw n (record {
      listed = λ j. ground (
        arith,
        contains-append_one dec j k s.order,
        get-insert dec j k (record { cost = c; referenced = false }) s.items,
        v.listed j,
      );
      unique = Unique-append_one dec k s.order v.unique (ground (arith, v.listed k, n));
      hand_in = omega (arith, v.hand_in, length-append s.order (k ∷ []));
      fits = omega (
        arith,
        sum_of-insert-le dec k (λ (x : ClockEntry). x.cost)
            (record { cost = c; referenced = false }) s.items,
      );
    })
    | inr (e, n) ↦ rw n v
  ]

  -- The state without the key at index `i` of the order.
  abbrev drop_at : K → ℕ → ClockState K → ClockState K
  drop_at k i s = record {
    items = remove dec k s.items;
    order = remove_at s.order i;
    hand = if leb i s.hand && ltb 0 s.hand then s.hand - 1 else s.hand;
  }

  on_remove_cases :
      (k : K) (s : ClockState K)
      → IsValid dec s
      → (on_remove dec k s ≡ s) × (costs dec s k ≡ none)
        ⊎ ((i : ℕ) × (on_remove dec k s ≡ drop_at k i s)
            × (get_elem? s.order i ≡ some k)
            × (i < length s.order))
  unfolding on_remove
  on_remove_cases k s v = elim (Option-cases (get dec k s.items)) [
    | inl n ↦ inl (ground (arith, n), ground (arith, n))
    | inr (e, n) ↦
        let (i, found, at, inside) =
          position-get_elem? dec k s.order (ground (arith, v.listed k, n)) in
        inr (i, ground (arith, n, found), at, inside)
  ]

  -- `on_remove` keeps the state valid, and stops tracking its key and no other.
  pub on_remove_clock :
      (k : K) (s : ClockState K)
      → IsValid dec s
      → IsValid dec (on_remove dec k s)
        × ((j : K) → costs dec (on_remove dec k s) j ≡ ite (dec k j) none (costs dec s j))
  on_remove_clock k s v = elim (on_remove_cases k s v) [
    | inl (same, absent) ↦ rw same (v, λ j. ground (arith, absent))
    | inr (i, drops, at, inside) ↦
        let gone = remove_at-retain_ne dec k s.order i v.unique at in
        rw drops (
          record {
            listed = λ j. ground (
              arith,
              gone,
              contains-retain_ne dec j k s.order,
              get-remove dec j k s.items,
              v.listed j,
            );
            unique = ground (arith, gone, Unique-retain_ne dec k s.order v.unique);
            hand_in = ground (arith, length-remove_at s.order i inside, v.hand_in);
            fits =
                omega (arith, v.fits, sum_of-remove-le dec k (λ (x : ClockEntry). x.cost) s.items);
          },
          λ j. ground (arith, get-remove dec j k s.items),
        )
  ]
