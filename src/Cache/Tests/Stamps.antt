-- ===== src/Cache/Tests/Stamps.antt =====
-- S3-FIFO, on queues with a stale entry and a key that was read twice.
use fibre.Base.{
  ℕ, zero, suc, ◌+◌, ◌*◌, ◌≤◌, ◌<◌, ◌⊎◌, length, ◌≡◌, List, [], ◌∷◌, some, arith, refl, ℕ_discrete,
  none, Option, add64, sub64,
}
use fibre.Base.HashMap
use fibre.Base.HashMap.Values.{modify}
use fibre.Base.Keys.{contains}
use fibre.Cache.Policy.{admit}
use fibre.Cache.Policy.Contract.{Evicted}
use fibre.Cache.Policy.S3Fifo
use fibre.Cache.Policy.S3Fifo.{State, S3FifoPolicy, small, main}
use fibre.Cache.Policy.S3Fifo.Queues.{queued, costs}
use fibre.Cache.Policy.S3Fifo.Front.{IsValid}
use fibre.Cache.Policy.S3Fifo.Evict.{evict_s3fifo}
use fibre.Cache.Policy.S3Fifo.Compact.{Compacted, compact_lem}
use fibre.Cache.Policy.S3Fifo.Accounts.{on_admit-Accounts}
use fibre.Cache.Policy.S3Fifo.Methods.{
  Accounts, Admitted, Released, on_remove_s3fifo, on_admit_s3fifo,
}

abbrev policy : S3FifoPolicy
policy = record { small_target = 1; ghost_cap = 2 }

-- Key 1 was read twice; key 9 was removed and has left its entry; key 8 is a ghost.
abbrev queues : State ℕ
queues = record {
  metas =
      (1, record { cost = 1; freq = 2; queue = small; stamp = 2 })
      ∷ (2, record { cost = 2; freq = 0; queue = small; stamp = 3 })
      ∷ (3, record { cost = 3; freq = 1; queue = main; stamp = 4 })
      ∷ [];
  smalls = (9, 1) ∷ (1, 2) ∷ (2, 3) ∷ [];
  mains = (3, 4) ∷ [];
  small_cost = 3;
  total_cost = 6;
  ghost = 8 ∷ [];
  ghost_set = 8 ∷ [];
  next_stamp = 4;
}

queues-IsValid : IsValid ℕ_discrete queues
unfolding queued HashMap.get ℕ_discrete
queues-IsValid = record { listed = λ k m at. ground (arith, at); fits = omega arith }

-- What an eviction returns, and the ghosts it leaves.
abbrev returned : Option (List ℕ × ℕ × State ℕ) → Option (List ℕ × ℕ × List ℕ)
returned none = none
returned (some (victims, freed, s)) = some (victims, freed, s.ghost)

-- The key that was read twice moves to the main queue; key 2 is the victim and becomes a ghost.
evict_second_read :
    returned (S3Fifo.evict ℕ_discrete policy 1 queues) ≡ some (2 ∷ [], 2, 8 ∷ 2 ∷ [])
unfolding S3Fifo.evict S3Fifo.evict_loop S3Fifo.round S3Fifo.takes_small S3Fifo.live_meta
    S3Fifo.is_live S3Fifo.from_small_queue S3Fifo.from_main_queue S3Fifo.push S3Fifo.remember_ghost
    S3Fifo.drop_ghost modify HashMap.get HashMap.remove ℕ_discrete add64 sub64 contains
evict_second_read = refl

evict_s3fifo_example :
    (victims : List ℕ) × (freed : ℕ) × (t : State ℕ) × (S3Fifo.evict ℕ_discrete policy 4 queues
      ≡ some (victims, freed, t))
    × IsValid ℕ_discrete t
    × Evicted ℕ_discrete 4 (costs ℕ_discrete queues) (costs ℕ_discrete t) victims freed
evict_s3fifo_example = evict_s3fifo ℕ_discrete policy 4 queues queues-IsValid

queues-Accounts : Accounts ℕ_discrete queues
unfolding HashMap.get ℕ_discrete
queues-Accounts = record { distinct = (refl, (refl, (refl, tt))); total = refl; small_queue = refl }

on_remove_s3fifo_example : Released ℕ_discrete 2 queues (S3Fifo.on_remove ℕ_discrete 2 queues)
on_remove_s3fifo_example = on_remove_s3fifo ℕ_discrete 2 queues queues-IsValid queues-Accounts

on_admit_s3fifo_example :
    (t : State ℕ) × (S3Fifo.on_admit ℕ_discrete 8 5 queues ≡ some (admit, t))
    × Admitted ℕ_discrete 8 5 queues t
on_admit_s3fifo_example = on_admit_s3fifo ℕ_discrete 8 5 queues queues-IsValid (omega arith)

on_admit-Accounts_example :
    (t : State ℕ) × (S3Fifo.on_admit ℕ_discrete 8 5 queues ≡ some (admit, t))
    × Accounts ℕ_discrete t
on_admit-Accounts_example =
    on_admit-Accounts ℕ_discrete 8 5 queues queues-IsValid queues-Accounts (omega arith)

-- Stale entries of key 7, more than `compact` lets stand.
abbrev stale_entries : ℕ → List (ℕ × ℕ)
stale_entries zero = []
stale_entries (suc n) = (7, n) ∷ stale_entries n

abbrev crowded : State ℕ
crowded = record queues { smalls = stale_entries 80 }

compact_lem_example :
    ((length crowded.smalls + length crowded.mains ≤ 2 * length crowded.metas + 64)
      × (S3Fifo.compact ℕ_discrete crowded ≡ crowded))
    ⊎ ((2 * length crowded.metas + 64 < length crowded.smalls + length crowded.mains)
        × Compacted ℕ_discrete crowded (S3Fifo.compact ℕ_discrete crowded))
compact_lem_example = compact_lem ℕ_discrete crowded

-- The stale entries go, the live one stays.
stale_entries_leave : (S3Fifo.compact ℕ_discrete crowded).smalls ≡ []
unfolding S3Fifo.compact S3Fifo.retain S3Fifo.is_live HashMap.get ℕ_discrete
stale_entries_leave = refl

live_entries_stay : (S3Fifo.compact ℕ_discrete crowded).mains ≡ (3, 4) ∷ []
unfolding S3Fifo.compact S3Fifo.retain S3Fifo.is_live HashMap.get ℕ_discrete
live_entries_stay = refl
