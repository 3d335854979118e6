-- ===== src/Cache/Policy/Clock/Sweep.antt =====
-- The sweep of the Clock policy, the inner loop of `evict` in cache/src/policy/clock.rs.
use fibre.Base.{
  get_elem?-lt, ℕ, zero, suc, ◌+◌, ◌<◌, ◌≤◌, ◌≡◌, refl, none, some, arith, ite, if◌then◌else◌, true,
  false, Bool, inl, inr, is_some, length, get_elem?, remove_at, leb, Bool-cases, Option-cases,
  u64_mod, ◌∙◌,
}
use fibre.Base.HashMap.{HashMap, get, remove, get-remove}
use fibre.Base.HashMap.Values.{modify, get-modify, sum_of, sum_of-modify, sum_of-remove}
use fibre.Base.Keys.{
  contains, Unique, retain_ne, contains-retain_ne, Unique-retain_ne, remove_at-retain_ne,
}
use fibre.Cache.Policy.Hand.{
  contains_get_elem?, marked, flagged, marked-modify-lt, length-remove_at,
}
use fibre.Cache.Policy.Clock.{ClockEntry, ClockState, set_referenced, sweep, costs}

abbrev pub cost_sum : {K : Type 0} → HashMap K ClockEntry → ℕ
cost_sum = sum_of (λ (e : ClockEntry). e.cost)

-- The order lists the keys of the table, each once, the hand is on it or just past it, and the costs
-- fit a `u64`.
pub record IsValid {K : Type 0} (dec : Discrete K) (s : ClockState K) : Type 0 where
  pub listed : (k : K) → contains dec k s.order ≡ is_some (get dec k s.items)
  pub unique : Unique dec s.order
  pub hand_in : s.hand ≤ length s.order
  pub fits : cost_sum s.items < u64_mod

-- What one victim taken from `s` leaves.
pub record Takes {K : Type 0} (dec : Discrete K) (s : ClockState K) (k : K) (c : ℕ)
    (t : ClockState K) : Type 0 where
  pub valid : IsValid dec t
  pub here : costs dec s k ≡ some c
  pub after : (j : K) → costs dec t j ≡ ite (dec k j) none (costs dec s j)
  pub shorter : length t.order + 1 ≡ length s.order
  pub lighter : cost_sum t.items + c ≤ cost_sum s.items

module _ {K : Type 0} (dec : Discrete K) where
  module _ (s : ClockState K) (v : IsValid dec s) (h : ℕ) (k : K)
      (at : get_elem? s.order h ≡ some k) (e : ClockEntry)
      (found : get dec k s.items ≡ some e) where
    take_victim :
        (at_hand : h < length s.order)
        → Takes dec s k e.cost
            (record { items = remove dec k s.items; order = remove_at s.order h; hand = h })
    take_victim at_hand = record {
      valid = record {
        listed = λ j. ground (
          arith,
          gone,
          contains-retain_ne dec j k s.order,
          get-remove dec j k s.items,
          v.listed j,
        );
        unique = ground (arith, gone, Unique-retain_ne dec k s.order v.unique);
        hand_in = omega (arith, shorter);
        fits = omega (arith, lighter, v.fits);
      };
      here = ground (arith, found);
      after = λ j. ground (arith, get-remove dec j k s.items);
      shorter = shorter;
      lighter = lighter;
    }
      where
        gone : remove_at s.order h ≡ retain_ne dec k s.order
        gone = remove_at-retain_ne dec k s.order h v.unique at

        shorter : length (remove_at s.order h) + 1 ≡ length s.order
        shorter = length-remove_at s.order h at_hand

        lighter : cost_sum (remove dec k s.items) + e.cost ≤ cost_sum s.items
        lighter = sum_of-remove dec k (λ (x : ClockEntry). x.cost) s.items e found

    spare : ClockState K
    spare = record {
      items = modify dec k (set_referenced false) s.items;
      order = s.order;
      hand = h + 1;
    }

    spare-costs : (j : K) → costs dec spare j ≡ costs dec s j
    unfolding spare
    spare-costs j = elim (Option-cases (get dec j s.items)) [
      | inl n ↦ ground (arith, get-modify dec j k (set_referenced false) s.items)
      | inr (w, n) ↦ ground (arith, get-modify dec j k (set_referenced false) s.items)
    ]

    spare_sum : cost_sum spare.items ≡ cost_sum s.items
    unfolding spare
    spare_sum =
        sum_of-modify dec k (λ (x : ClockEntry). x.cost) (set_referenced false) s.items (λ x. refl)

    spare-IsValid : h < length s.order → IsValid dec spare
    unfolding spare
    spare-IsValid at_hand = record {
      listed = λ j. elim (Option-cases (get dec j s.items)) [
        | inl n ↦ ground (arith, get-modify dec j k (set_referenced false) s.items, v.listed j)
        | inr (w, n) ↦ ground (arith, get-modify dec j k (set_referenced false) s.items, v.listed j)
      ];
      unique = v.unique;
      hand_in = omega arith;
      fits = rw spare_sum v.fits;
    }

    -- What is taken after a spared key is taken from the state before.
    Takes-spare : (j : K) (c : ℕ) (t : ClockState K) → Takes dec spare j c t → Takes dec s j c t
    unfolding spare
    Takes-spare j c t takes = record {
      valid = takes.valid;
      here = ground (arith, takes.here, spare-costs j);
      after = λ i. ground (arith, takes.after i, spare-costs i);
      shorter = takes.shorter;
      lighter = rw spare_sum at takes.lighter;
    }

  abbrev hand_of : ClockState K → ℕ
  hand_of s = if leb (length s.order) s.hand then 0 else s.hand

  -- The key under the hand, and its entry.
  record AtHand (s : ClockState K) : Type 0 where
    in_order : hand_of s < length s.order
    key : K
    entry : ClockEntry
    at : get_elem? s.order (hand_of s) ≡ some key
    found : get dec key s.items ≡ some entry

  valid-AtHand : (s : ClockState K) → IsValid dec s → 0 < length s.order → AtHand s
  valid-AtHand s v pos =
      let in_order : hand_of s < length s.order = ground arith in
      let (k, at) = get_elem?-lt s.order (hand_of s) in_order in
      elim (Option-cases (get dec k s.items)) [
        | inl n ↦
            absurd (ground (arith, n, v.listed k, contains_get_elem? dec k s.order (hand_of s) at))
        | inr (e, found) ↦ record {
          in_order = in_order;
          key = k;
          entry = e;
          at = at;
          found = found;
        }
      ]

  abbrev is_referenced : ClockEntry → Bool
  is_referenced e = e.referenced

  module _ (s : ClockState K) (v : IsValid dec s) (a : AtHand s) where
    spared : ClockState K
    spared = spare s v (hand_of s) a.key a.at a.entry a.found

    sweep_spares :
        (rounds : ℕ)
        → a.entry.referenced ≡ true
        → sweep dec (suc rounds) s ≡ sweep dec rounds spared
    unfolding sweep spared spare
    sweep_spares rounds r = ground (arith, a.at, a.found, r)

    sweep_stops :
        (rounds : ℕ)
        → a.entry.referenced ≡ false
        → sweep dec (suc rounds) s
          ≡ some (
            some (a.key, a.entry.cost),
            record {
              items = remove dec a.key s.items;
              order = remove_at s.order (hand_of s);
              hand = hand_of s;
            },
          )
    unfolding sweep
    sweep_stops rounds r = ground (arith, a.at, a.found, r)

    spared_fewer :
        a.entry.referenced ≡ true
        → marked dec is_referenced spared.items spared.order
          < marked dec is_referenced s.items s.order
    unfolding spared spare
    spared_fewer r =
        let flag : flagged dec is_referenced s.items a.key ≡ true = ground (arith, a.found, r) in
        marked-modify-lt dec is_referenced (set_referenced false) (λ x. refl) a.key s.items s.order
          (hand_of s) a.at flag

    spared_length : length spared.order ≡ length s.order
    unfolding spared spare
    spared_length = refl

  -- Within as many rounds as keys are marked, and one more, a valid sweep takes a victim.
  pub sweep-Takes :
      (rounds : ℕ) (s : ClockState K)
      → IsValid dec s
      → 0 < length s.order
      → marked dec is_referenced s.items s.order < rounds
      → (k : K) × (c : ℕ) × (t : ClockState K) × (sweep dec rounds s ≡ some (some (k, c), t))
        × Takes dec s k c t
  unfolding spared
  sweep-Takes zero s v pos lt = absurd (omega arith)
  sweep-Takes (suc rounds) s v pos lt =
      let a = valid-AtHand s v pos in
      elim (Bool-cases a.entry.referenced) [
        | inl r ↦
            let (k, c, t, runs, takes) =
              sweep-Takes rounds (spared s v a)
                (spare-IsValid s v (hand_of s) a.key a.at a.entry a.found a.in_order)
                (omega (arith, spared_length s v a)) (omega (arith, spared_fewer s v a r)) in
            (
              k,
              c,
              t,
              sweep_spares s v a rounds r ∙ runs,
              Takes-spare s v (hand_of s) a.key a.at a.entry a.found k c t takes,
            )
        | inr r ↦ (
          a.key,
          a.entry.cost,
          _,
          sweep_stops s v a rounds r,
          take_victim s v (hand_of s) a.key a.at a.entry a.found a.in_order,
        )
      ]
