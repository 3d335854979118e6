-- ===== src/Cache/Tests/Sweeps.antt =====
-- Clock and SIEVE, on states that their unit tests build.
use fibre.Base.{
  ℕ, ◌≡◌, List, [], ◌∷◌, none, some, arith, refl, ℕ_discrete, ite, true, false, add64, is_some,
}
use fibre.Base.HashMap
use fibre.Base.HashMap.Values.{modify}
use fibre.Base.Keys.{contains, retain_ne}
use fibre.Cache.Policy.Contract.{Evicted}
use fibre.Cache.Policy.Clock
use fibre.Cache.Policy.Clock.{ClockState}
use fibre.Cache.Policy.Clock.Sweep as ClockSweep
use fibre.Cache.Policy.Clock.Evict as ClockEvict
use fibre.Cache.Policy.Sieve
use fibre.Cache.Policy.Sieve.{SieveState}
use fibre.Cache.Policy.Sieve.Sweep as SieveSweep
use fibre.Cache.Policy.Sieve.Evict as SieveEvict

-- Keys 1, 2 and 3 on the clock, 1 referenced, the hand on 1.
abbrev clock : ClockState ℕ
clock = record {
  items =
      (1, record { cost = 1; referenced = true })
      ∷ (2, record { cost = 2; referenced = false })
      ∷ (3, record { cost = 3; referenced = false })
      ∷ [];
  order = 1 ∷ 2 ∷ 3 ∷ [];
  hand = 0;
}

listed_by :
    (k : ℕ)
    → contains ℕ_discrete k (1 ∷ 2 ∷ 3 ∷ []) ≡ is_some (HashMap.get ℕ_discrete k clock.items)
unfolding contains HashMap.get
listed_by k = ground arith

clock-IsValid : ClockSweep.IsValid ℕ_discrete clock
unfolding contains ℕ_discrete
clock-IsValid = record {
  listed = listed_by;
  unique = (refl, (refl, (refl, tt)));
  hand_in = omega arith;
  fits = omega arith;
}

-- The referenced key gets its second chance.
clock_second_chance :
    Clock.evict ℕ_discrete 1 clock
    ≡ some (
      2 ∷ [],
      2,
      record {
        items =
            (1, record { cost = 1; referenced = false })
            ∷ (3, record { cost = 3; referenced = false })
            ∷ [];
        order = 1 ∷ 3 ∷ [];
        hand = 1;
      },
    )
unfolding Clock.evict Clock.evict_loop Clock.sweep modify HashMap.get HashMap.remove ℕ_discrete
    add64
clock_second_chance = refl

evict_clock_example :
    (victims : List ℕ) × (freed : ℕ) × (t : ClockState ℕ) × (Clock.evict ℕ_discrete 3 clock
      ≡ some (victims, freed, t))
    × ClockSweep.IsValid ℕ_discrete t
    × Evicted ℕ_discrete 3 (Clock.costs ℕ_discrete clock) (Clock.costs ℕ_discrete t) victims freed
evict_clock_example = ClockEvict.evict_clock ℕ_discrete 3 clock clock-IsValid

on_remove_clock_example :
    ClockSweep.IsValid ℕ_discrete (Clock.on_remove ℕ_discrete 2 clock)
    × ((j : ℕ)
        → Clock.costs ℕ_discrete (Clock.on_remove ℕ_discrete 2 clock) j
          ≡ ite (ℕ_discrete 2 j) none (Clock.costs ℕ_discrete clock j))
on_remove_clock_example = ClockEvict.on_remove_clock ℕ_discrete 2 clock clock-IsValid

-- Keys 3, 2 and 1, the newest in front, all visited.
abbrev sieve : SieveState ℕ
sieve = record {
  items =
      (1, record { cost = 1; visited = true })
      ∷ (2, record { cost = 2; visited = true })
      ∷ (3, record { cost = 3; visited = true })
      ∷ [];
  order = 3 ∷ 2 ∷ 1 ∷ [];
  hand = 0;
}

sieve_listed :
    (k : ℕ)
    → contains ℕ_discrete k (3 ∷ 2 ∷ 1 ∷ []) ≡ is_some (HashMap.get ℕ_discrete k sieve.items)
unfolding contains HashMap.get
sieve_listed k = ground arith

sieve-IsValid : SieveSweep.IsValid ℕ_discrete sieve
unfolding contains ℕ_discrete
sieve-IsValid = record {
  listed = sieve_listed;
  unique = (refl, (refl, (refl, tt)));
  fits = omega arith;
}

-- A sweep that finds every key visited evicts the oldest.
sieve_all_visited :
    Sieve.evict ℕ_discrete 1 sieve
    ≡ some (
      1 ∷ [],
      1,
      record {
        items =
            (2, record { cost = 2; visited = false })
            ∷ (3, record { cost = 3; visited = false })
            ∷ [];
        order = 3 ∷ 2 ∷ [];
        hand = 0;
      },
    )
unfolding Sieve.evict Sieve.evict_loop Sieve.round Sieve.evict_oldest Sieve.sweep modify HashMap.get
    HashMap.remove ℕ_discrete add64
sieve_all_visited = refl

evict_sieve_example :
    (victims : List ℕ) × (freed : ℕ) × (t : SieveState ℕ) × (Sieve.evict ℕ_discrete 3 sieve
      ≡ some (victims, freed, t))
    × SieveSweep.IsValid ℕ_discrete t
    × Evicted ℕ_discrete 3 (Sieve.costs ℕ_discrete sieve) (Sieve.costs ℕ_discrete t) victims freed
evict_sieve_example = SieveEvict.evict_sieve ℕ_discrete 3 sieve sieve-IsValid

on_admit_sieve_example :
    let t = (Sieve.on_admit ℕ_discrete 2 7 sieve).1 in
    SieveSweep.IsValid ℕ_discrete t
    × (t.order ≡ 2 ∷ retain_ne ℕ_discrete 2 sieve.order)
    × (t.hand ≡ sieve.hand)
    × ((j : ℕ)
        → HashMap.get ℕ_discrete j t.items
          ≡ ite
              (ℕ_discrete 2 j)
              (some (record { cost = 7; visited = false }))
              (HashMap.get ℕ_discrete j sieve.items))
    × ((j : ℕ)
        → Sieve.costs ℕ_discrete t j
          ≡ ite (ℕ_discrete 2 j) (some 7) (Sieve.costs ℕ_discrete sieve j))
on_admit_sieve_example = SieveEvict.on_admit_sieve ℕ_discrete 2 7 sieve sieve-IsValid (omega arith)
