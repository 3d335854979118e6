-- ===== src/Cache/Policy/Sieve/Sweep.antt =====
-- A round of SIEVE's eviction, the loop over the hand in cache/src/policy/sieve.rs.
use fibre.Base.{
  ℕ, zero, suc, ◌+◌, ◌-◌, ◌<◌, ◌≤◌, ◌≡◌, refl, Option, none, some, arith, ite, true, false, inl,
  inr, is_some, length, get_elem?, get_elem?-lt, Bool-cases, Option-cases, u64_mod, ◌∙◌, dec_lt, ap,
}
use fibre.Base.HashMap.{HashMap, get, get-remove}
use fibre.Base.HashMap.Values.{modify, get-modify, sum_of, sum_of-modify, sum_of-remove}
use fibre.Base.Keys.{contains, Unique, contains-retain_ne, Unique-retain_ne, remove_at-retain_ne}
use fibre.Cache.Policy.Hand.{contains_get_elem?, length-remove_at}
use fibre.Cache.Policy.Sieve.{
  SieveEntry, SieveState, set_visited, sweep, evict_oldest, round, costs, take_at,
}

abbrev pub cost_sum : {K : Type 0} → HashMap K SieveEntry → ℕ
cost_sum = sum_of (λ (e : SieveEntry). e.cost)

-- The order lists the keys of the table, each once, and the costs fit a `u64`. The hand may be
-- anywhere.
pub record IsValid {K : Type 0} (dec : Discrete K) (s : SieveState K) : Type 0 where
  pub listed : (k : K) → contains dec k s.order ≡ is_some (get dec k s.items)
  pub unique : Unique dec s.order
  pub fits : cost_sum s.items < u64_mod

-- What one victim taken from `s` leaves.
pub record Takes {K : Type 0} (dec : Discrete K) (s : SieveState K) (k : K) (c : ℕ)
    (t : SieveState K) : Type 0 where
  pub valid : IsValid dec t
  pub here : costs dec s k ≡ some c
  pub after : (j : K) → costs dec t j ≡ ite (dec k j) none (costs dec s j)
  pub shorter : length t.order + 1 ≡ length s.order
  pub lighter : cost_sum t.items + c ≤ cost_sum s.items

-- What a sweep without a victim leaves.
record Spares {K : Type 0} (dec : Discrete K) (s t : SieveState K) : Type 0 where
  valid : IsValid dec t
  same : (j : K) → costs dec t j ≡ costs dec s j
  order : t.order ≡ s.order
  weight : cost_sum t.items ≡ cost_sum s.items

module _ {K : Type 0} (dec : Discrete K) where
  round_of_victim :
      (s t : SieveState K) (k : K) (c : ℕ)
      → sweep dec (suc (length s.order)) s ≡ some (some (k, c), t)
      → round dec s ≡ some ((k, c), t)
  unfolding round
  round_of_victim s t k c e = ground (arith, e)

  round_of_oldest :
      (s t : SieveState K) (k : K) (entry : SieveEntry)
      → sweep dec (suc (length s.order)) s ≡ some (none, t)
      → get_elem? t.order (length t.order - 1) ≡ some k
      → get dec k t.items ≡ some entry
      → round dec s
        ≡ some ((k, entry.cost), record (take_at dec (length t.order - 1) k t) { hand = 0 })
  unfolding round evict_oldest
  round_of_oldest s t k entry e at found = ground (arith, e, at, found)

  -- A key of the order at an index, and its entry.
  record Found (s : SieveState K) (index : ℕ) : Type 0 where
    inside : index < length s.order
    key : K
    entry : SieveEntry
    at : get_elem? s.order index ≡ some key
    found : get dec key s.items ≡ some entry

  find : (s : SieveState K) (i : ℕ) → IsValid dec s → i < length s.order → Found s i
  find s i v inside =
      let (k, at) = get_elem?-lt s.order i inside in
      elim (Option-cases (get dec k s.items)) [
        | inl n ↦ absurd (ground (arith, n, v.listed k, contains_get_elem? dec k s.order i at))
        | inr (e, found) ↦ record { inside = inside; key = k; entry = e; at = at; found = found }
      ]

  module _ (s : SieveState K) (v : IsValid dec s) (i : ℕ) (f : Found s i) where
    take_at-Takes :
        (hand : ℕ) → Takes dec s f.key f.entry.cost (record (take_at dec i f.key s) { hand = hand })
    take_at-Takes hand =
        let gone = remove_at-retain_ne dec f.key s.order i v.unique f.at in
        let lighter =
          sum_of-remove dec f.key (λ (x : SieveEntry). x.cost) s.items f.entry f.found in
        record {
          valid = record {
            listed = λ j. ground (
              arith,
              gone,
              contains-retain_ne dec j f.key s.order,
              get-remove dec j f.key s.items,
              v.listed j,
            );
            unique = ground (arith, gone, Unique-retain_ne dec f.key s.order v.unique);
            fits = omega (arith, lighter, v.fits);
          };
          here = ground (arith, f.found);
          after = λ j. ground (arith, get-remove dec j f.key s.items);
          shorter = length-remove_at s.order i f.inside;
          lighter = lighter;
        }

    spare : SieveState K
    spare = record s { items = modify dec f.key (set_visited false) s.items; hand = s.hand + 1 }

    spare-Spares : Spares dec s spare
    unfolding spare
    spare-Spares = record {
      valid = record {
        listed = λ j. elim (Option-cases (get dec j s.items)) [
          | inl n ↦ ground (arith, get-modify dec j f.key (set_visited false) s.items, v.listed j)
          | inr (w, n) ↦
              ground (arith, get-modify dec j f.key (set_visited false) s.items, v.listed j)
        ];
        unique = v.unique;
        fits = rw weight v.fits;
      };
      same = λ j. elim (Option-cases (get dec j s.items)) [
        | inl n ↦ ground (arith, get-modify dec j f.key (set_visited false) s.items)
        | inr (w, n) ↦ ground (arith, get-modify dec j f.key (set_visited false) s.items)
      ];
      order = refl;
      weight = weight;
    }
      where
        weight : cost_sum (modify dec f.key (set_visited false) s.items) ≡ cost_sum s.items
        weight =
            sum_of-modify dec f.key (λ (x : SieveEntry). x.cost) (set_visited false) s.items
              (λ x. refl)

  Takes-after :
      (s t : SieveState K) (k : K) (c : ℕ) (u : SieveState K)
      → Spares dec s t
      → Takes dec t k c u
      → Takes dec s k c u
  Takes-after s t k c u sp tk = record {
    valid = tk.valid;
    here = ground (arith, tk.here, sp.same k);
    after = λ j. ground (arith, tk.after j, sp.same j);
    shorter = ground (arith, tk.shorter, sp.order);
    lighter = omega (arith, tk.lighter, sp.weight);
  }

  Spares-trans : (s t u : SieveState K) → Spares dec s t → Spares dec t u → Spares dec s u
  Spares-trans s t u a b = record {
    valid = b.valid;
    same = λ j. b.same j ∙ a.same j;
    order = b.order ∙ a.order;
    weight = b.weight ∙ a.weight;
  }

  -- A sweep takes a victim, or comes to the end with every key spared.
  data Swept (s : SieveState K) (out : Option (Option (K × ℕ) × SieveState K)) : Type 0 where
    takes :
        (k : K) (c : ℕ) (t : SieveState K)
        → out ≡ some (some (k, c), t)
        → Takes dec s k c t
        → Swept s out
    spares : (t : SieveState K) → out ≡ some (none, t) → Spares dec s t → Swept s out

  Swept-after :
      (s t : SieveState K) (out : Option (Option (K × ℕ) × SieveState K))
      → Spares dec s t
      → Swept t out
      → Swept s out
  Swept-after s t out sp (takes k c u e tk) = takes k c u e (Takes-after s t k c u sp tk)
  Swept-after s t out sp (spares u e sp') = spares u e (Spares-trans s t u sp sp')

  module _ (s : SieveState K) (f : Found s (length s.order - 1 - s.hand))
      (in_range : s.hand < length s.order) (fuel : ℕ) where
    sweep_stops :
        f.entry.visited ≡ false
        → sweep dec (suc fuel) s
          ≡ some (some (f.key, f.entry.cost), take_at dec (length s.order - 1 - s.hand) f.key s)
    unfolding sweep
    sweep_stops e = ground (arith, f.at, f.found, e)

    sweep_goes_on :
        (v : IsValid dec s)
        → f.entry.visited ≡ true
        → sweep dec (suc fuel) s ≡ sweep dec fuel (spare s v (length s.order - 1 - s.hand) f)
    unfolding sweep spare
    sweep_goes_on v e = ground (arith, f.at, f.found, e)

  sweep_end :
      (s : SieveState K) (fuel : ℕ)
      → length s.order ≤ s.hand
      → sweep dec (suc fuel) s ≡ some (none, s)
  unfolding sweep
  sweep_end s fuel h = ground arith

  sweep-Swept :
      (fuel : ℕ) (s : SieveState K)
      → IsValid dec s
      → length s.order - s.hand < fuel
      → Swept s (sweep dec fuel s)
  unfolding spare
  sweep-Swept zero s v lt = absurd (omega arith)
  sweep-Swept (suc fuel) s v lt = elim (dec_lt s.hand (length s.order)) [
    | no past ↦
        spares s (sweep_end s fuel (omega arith))
          (record { valid = v; same = λ j. refl; order = refl; weight = refl })
    | yes in_range ↦
        let i = length s.order - 1 - s.hand in
        let f = find s i v (omega arith) in
        elim (Bool-cases f.entry.visited) [
          | inl marked ↦
              let t = spare s v i f in
              rw (sweep_goes_on s f in_range fuel v marked) (
                Swept-after s t _ (spare-Spares s v i f)
                  (sweep-Swept fuel t (spare-Spares s v i f).valid (omega arith)))
          | inr clear ↦
              takes f.key f.entry.cost _ (sweep_stops s f in_range fuel clear)
                (take_at-Takes s v i f s.hand)
        ]
  ]

  -- A round over a valid state that has keys takes a victim.
  pub round-Takes :
      (s : SieveState K)
      → IsValid dec s
      → 0 < length s.order
      → (k : K) × (c : ℕ) × (t : SieveState K) × (round dec s ≡ some ((k, c), t))
        × Takes dec s k c t
  round-Takes s v pos = from_sweep (sweep-Swept (suc (length s.order)) s v (omega arith))
    where
      from_sweep :
          Swept s (sweep dec (suc (length s.order)) s)
          → (k : K) × (c : ℕ) × (t : SieveState K) × (round dec s ≡ some ((k, c), t))
            × Takes dec s k c t
      from_sweep (takes k c t e tk) = (k, c, t, round_of_victim s t k c e, tk)
      from_sweep (spares t e sp) =
          let i = length t.order - 1 in
          let start : SieveState K = record t { hand = 0 } in
          let startv : IsValid dec start = record {
            listed = sp.valid.listed;
            unique = sp.valid.unique;
            fits = sp.valid.fits;
          } in
          let f = find start i startv (omega (arith, ap length sp.order)) in
          (
            f.key,
            f.entry.cost,
            _,
            round_of_oldest s t f.key f.entry e f.at f.found,
            Takes-after s start f.key f.entry.cost _
                (record { valid = startv; same = sp.same; order = sp.order; weight = sp.weight })
                (take_at-Takes start startv i f 0),
          )
