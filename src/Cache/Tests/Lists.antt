-- ===== src/Cache/Tests/Lists.antt =====
-- Recency lists, and the policies over one list.
use fibre.Base.{ℕ, ◌≡◌, List, [], ◌∷◌, ◌++◌, some, arith, refl, ℕ_discrete, if◌then◌else◌}
use fibre.Base.HashMap
use fibre.Cache.Recency.{Entries, has}
use fibre.Cache.Recency.Plain.{plain, Is}
use fibre.Cache.Recency.Eviction.{Evicts}
use fibre.Cache.Arena.{ArenaLib}
use fibre.Cache.LruList
use fibre.Cache.LruList.{Node, List'}
use fibre.Cache.LruList.Chain.{Cell}
use fibre.Cache.LruList.Cells.{entries}
use fibre.Cache.LruList.Refine.{Holds}
use fibre.Cache.LruList.Run.{ListCall, push, move, pop, take_out, run, replay, run_refines}
use fibre.Cache.Policy.{Call, access, insert, removal, eviction}
use fibre.Cache.Policy.Fifo
use fibre.Cache.Policy.Lru
use fibre.Cache.Tests.Slots.{slots}

abbrev calls : List (ListCall ℕ)
calls = push 1 10 ∷ push 2 20 ∷ push 3 30 ∷ move 1 ∷ push 2 5 ∷ take_out 3 ∷ pop ∷ []

abbrev arena : ArenaLib ℕ (Node ℕ ℕ)
arena = slots (Node ℕ ℕ)

run_refines_example :
    (l : List' arena) × (run ℕ_discrete arena calls (LruList.new arena) ≡ some l)
    × (cells : List (Cell ℕ ℕ)) × Holds ℕ_discrete arena l cells
    × (entries cells ≡ replay ℕ_discrete arena calls [])
run_refines_example = run_refines ℕ_discrete arena calls (omega arith)

abbrev three : Entries ℕ
three = (1, 10) ∷ (2, 20) ∷ (3, 30) ∷ []

three-Is : Is ℕ_discrete three three
unfolding HashMap.get ℕ_discrete
three-Is = record { same = refl; distinct = (refl, (refl, (refl, tt))); fits = omega arith }

evict_in_order_example :
    let (victims, freed, l) = Fifo.evict (plain ℕ_discrete) 15 three in
    (rest : Entries ℕ) × Is ℕ_discrete l rest × Evicts 15 three victims freed rest
evict_in_order_example = Fifo.evict_in_order (plain ℕ_discrete) 15 three three three-Is

on_admit_once_example :
    Is ℕ_discrete
      (Fifo.on_admit (plain ℕ_discrete) 4 40 three).1
      (if has ℕ_discrete 4 three then three else three ++ (4, 40) ∷ [])
on_admit_once_example =
    Fifo.on_admit_once (plain ℕ_discrete) 4 40 three three three-Is (omega arith)

evict_least_recent_example :
    let (victims, freed, l) = Lru.evict (plain ℕ_discrete) 15 three in
    (rest : Entries ℕ) × Is ℕ_discrete l rest × Evicts 15 three victims freed rest
evict_least_recent_example = Lru.evict_least_recent (plain ℕ_discrete) 15 three three three-Is

abbrev uses : List (Call ℕ)
uses = insert 4 40 ∷ access 1 10 ∷ eviction 25 ∷ removal 1 ∷ []

run_tracks_use_example :
    Is ℕ_discrete (Lru.run (plain ℕ_discrete) uses three) (Lru.replay (plain ℕ_discrete) uses three)
run_tracks_use_example =
    Lru.run_tracks_use (plain ℕ_discrete) uses three three three-Is (omega arith)
