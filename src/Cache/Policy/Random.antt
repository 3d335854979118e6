-- ===== src/Cache/Policy/Random.antt =====
-- `RandomPolicy` of cache/src/policy/random.rs, for any source of random choices.
use fibre.Base.{
  ℕ, zero, suc, ◌+◌, ◌-◌, ◌<◌, ◌≡◌, refl, List, [], ◌∷◌, ◌++◌, Option, none, some, arith, true,
  false, inl, inr, ◌⊎◌, length, ltb, add64, add64_lem, ◌&&◌, Bool-cases, u64_mod, append_assoc,
  append-nil,
}
use native.Mathlib.Nat.{zero-add}
use fibre.Base.HashMap
use fibre.Base.HashMap.{HashMap, get, get-remove, length-remove-lt}
use fibre.Base.HashMap.Values.{sum_of, sum_of-remove}
use fibre.Base.Keys.{contains}
use fibre.Cache.Policy.{AdmissionDecision, admit}
use fibre.Cache.Policy.Contract.{Evicted, Evicted-nil, Evicted-cons}

-- `IteratorRandom::choose` of the crate rand: nothing from an empty iterator, and otherwise one of its
-- elements.
pub record Chooser (K : Type 0) (dec : Discrete K) : Type 1 where
  pub Rng : Type 0
  pub choose : Rng → List K → Option K × Rng
  pub choose_empty : (rng : Rng) → (choose rng []).0 ≡ none
  pub choose_lem :
      (rng : Rng) (j : K) (ks : List K)
      → (k : K) × ((choose rng (j ∷ ks)).0 ≡ some k) × (contains dec k (j ∷ ks) ≡ true)

abbrev pub names : {K : Type 0} → HashMap K ℕ → List K
names [] = []
names ((k, c) ∷ items) = k ∷ names items

module _ {K : Type 0} {dec : Discrete K} (R : Chooser K dec) where
  open R use {Rng}

  abbrev pub new : HashMap K ℕ
  new = []

  abbrev pub on_access : K → ℕ → HashMap K ℕ → HashMap K ℕ
  on_access key cost items = items

  pub on_admit : K → ℕ → HashMap K ℕ → AdmissionDecision K × HashMap K ℕ
  on_admit key cost items = (admit, HashMap.insert dec key cost items)

  pub on_remove : K → HashMap K ℕ → HashMap K ℕ
  on_remove key items = HashMap.remove dec key items

  -- The `while`, on fuel, with the source of choices; `none` is the end of the fuel.
  pub evict_loop : ℕ → Rng → ℕ → List K → ℕ → HashMap K ℕ → Option (List K × ℕ × HashMap K ℕ)
  evict_loop zero rng cost_to_free victims freed items = none
  evict_loop (suc fuel) rng cost_to_free victims freed items =
      let (chosen, next) = R.choose rng (names items) in
      elim (ltb 0 cost_to_free && ltb 0 (length items)) [
        | false ↦ some (victims, freed, items)
        | true ↦ elim chosen [
          | none ↦ some (victims, freed, items)
          | some key ↦ elim (get dec key items) [
            | none ↦ evict_loop fuel next cost_to_free victims freed items
            | some cost ↦
                evict_loop fuel next (cost_to_free - cost) (victims ++ key ∷ []) (add64 freed cost)
                  (HashMap.remove dec key items)
          ]
        ]
      ]

  -- A round takes one key out: a round for each, and one more to see the end.
  pub evict : Rng → ℕ → HashMap K ℕ → Option (List K × ℕ × HashMap K ℕ)
  evict rng cost_to_free items = evict_loop (suc (length items)) rng cost_to_free [] 0 items

  abbrev pub clear : HashMap K ℕ → HashMap K ℕ
  clear items = []

  get_of_contains :
      (k : K) (items : HashMap K ℕ)
      → contains dec k (names items) ≡ true
      → (c : ℕ) × (get dec k items ≡ some c)
  unfolding contains get
  get_of_contains k [] h = cc
  get_of_contains k ((j, c) ∷ items) h = elim (dec j k) [
    | yes e ↦ (c, ground arith)
    | no ne ↦ let (b, found) = get_of_contains k items (ground arith) in (b, ground (arith, found))
  ]

  -- What is chosen from a map that holds a key, with its cost.
  choice :
      (rng : Rng) (items : HashMap K ℕ)
      → 0 < length items
      → (k : K) × (c : ℕ) × ((R.choose rng (names items)).0 ≡ some k) × (get dec k items ≡ some c)
  choice rng [] pos = absurd (omega arith)
  choice rng ((j, b) ∷ items) pos =
      let (k, chosen, inside) = R.choose_lem rng j (names items) in
      let (c, found) = get_of_contains k ((j, b) ∷ items) inside in (k, c, chosen, found)

  abbrev weight : HashMap K ℕ → ℕ
  weight = sum_of (λ (c : ℕ). c)

  -- The result of the loop after what it has gathered.
  record Finishes (need : ℕ) (victims : List K) (freed : ℕ) (items : HashMap K ℕ)
      (out : Option (List K × ℕ × HashMap K ℕ)) : Type 0 where
    more : List K
    cost : ℕ
    final : HashMap K ℕ
    returns : out ≡ some (victims ++ more, freed + cost, final)
    evicted : Evicted dec need (λ k. get dec k items) (λ k. get dec k final) more cost

  get_empty : (items : HashMap K ℕ) → length items ≡ 0 → (k : K) → get dec k items ≡ none
  unfolding get
  get_empty [] e k = refl
  get_empty (x ∷ items) e k = absurd (omega arith)

  evict_loop-Finishes :
      (fuel : ℕ) (rng : Rng) (need : ℕ) (victims : List K) (freed : ℕ) (items : HashMap K ℕ)
      → length items < fuel
      → freed + weight items < u64_mod
      → Finishes need victims freed items (evict_loop fuel rng need victims freed items)
  unfolding evict_loop
  evict_loop-Finishes zero rng need victims freed items lt fits = absurd (omega arith)
  evict_loop-Finishes (suc fuel) rng need victims freed items lt fits =
      elim (Bool-cases (ltb 0 need && ltb 0 (length items))) [
        | inl go ↦
            let (k, c, chosen, found) = choice rng items (ground (arith, go)) in
            let lighter = sum_of-remove dec k (λ (x : ℕ). x) items c found in
            let shorter = length-remove-lt dec k items c found in
            let rest =
              evict_loop-Finishes fuel (R.choose rng (names items)).1 (need - c) (victims ++ k ∷ [])
                (freed + c) (HashMap.remove dec k items) (omega (arith, shorter))
                (omega (arith, lighter)) in
            record {
              more = k ∷ rest.more;
              cost = c + rest.cost;
              final = rest.final;
              returns = ground (
                arith,
                go,
                chosen,
                found,
                rest.returns,
                lighter,
                add64_lem freed c,
                append_assoc victims (k ∷ []) rest.more,
              );
              evicted =
                  Evicted-cons dec need (λ j. get dec j items)
                    (λ j. get dec j (HashMap.remove dec k items)) (λ j. get dec j rest.final) k c
                    rest.more rest.cost (ground (arith, go)) found (λ j. get-remove dec j k items)
                    rest.evicted;
            }
        | inr stop ↦ record {
          more = [];
          cost = 0;
          final = items;
          returns = ground (arith, stop, append-nil victims);
          evicted =
              Evicted-nil dec need (λ j. get dec j items) (λ j. get dec j items) (λ j. refl)
                (why stop);
        }
      ]
    where
      why :
          (ltb 0 need && ltb 0 (length items)) ≡ false
          → (need ≡ 0) ⊎ ((k : K) → get dec k items ≡ none)
      why stop = elim (Bool-cases (ltb 0 need)) [
        | inl y ↦ inr (get_empty items (ground (arith, stop, y)))
        | inr n ↦ inl (ground arith)
      ]

  -- Whatever the choices are, `evict` on items whose costs sum to less than 2^64 does not run on: it
  -- returns an eviction as the contract asks.
  pub evict_random :
      (rng : Rng) (need : ℕ) (items : HashMap K ℕ)
      → weight items < u64_mod
      → (victims : List K) × (freed : ℕ) × (left : HashMap K ℕ) × (evict rng need items
          ≡ some (victims, freed, left))
        × Evicted dec need (λ k. get dec k items) (λ k. get dec k left) victims freed
  unfolding evict
  evict_random rng need items fits =
      let f =
        evict_loop-Finishes (suc (length items)) rng need [] 0 items (omega arith)
          (omega (arith, fits)) in
      (f.more, f.cost, f.final, rw zero-add at f.returns, f.evicted)
