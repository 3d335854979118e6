-- ===== src/Cache/Tests/Ghosts.antt =====
-- ARC, on plain lists of entries.
use fibre.Base.{
  ℕ, ◌+◌, ◌<◌, u64_mod, ◌≡◌, ◌||◌, [], ◌∷◌, some, arith, refl, ℕ_discrete, if◌then◌else◌,
}
use fibre.Base.HashMap
use fibre.Cache.Recency.{Entries, RecencyList, has, total, without, refresh}
use fibre.Cache.Recency.Plain.{plain, Is}
use fibre.Cache.Policy.Arc
use fibre.Cache.Policy.Arc.{ArcState, on_access_arc, evict_frees_nothing}
use fibre.Cache.Policy.Arc.Evict.{Ends, evict_arc}

abbrev lists : RecencyList ℕ ℕ_discrete
lists = plain ℕ_discrete

abbrev recent : Entries ℕ
recent = (1, 1) ∷ (2, 1) ∷ []

abbrev frequent : Entries ℕ
frequent = (3, 2) ∷ []

abbrev both : ArcState (Entries ℕ)
both = record { p = 3; t1 = recent; t2 = frequent; b1 = []; b2 = [] }

abbrev only_recent : ArcState (Entries ℕ)
only_recent = record { p = 3; t1 = recent; t2 = []; b1 = []; b2 = [] }

recent-Is : Is ℕ_discrete recent recent
unfolding HashMap.get ℕ_discrete
recent-Is = record { same = refl; distinct = (refl, (refl, tt)); fits = omega arith }

frequent-Is : Is ℕ_discrete frequent frequent
unfolding HashMap.get ℕ_discrete
frequent-Is = record { same = refl; distinct = (refl, tt); fits = omega arith }

empty-Is : Is ℕ_discrete [] []
empty-Is = record { same = refl; distinct = tt; fits = omega arith }

room : total (without ℕ_discrete 1 frequent) + 4 < u64_mod
unfolding HashMap.remove ℕ_discrete
room = omega arith

on_access_arc_example :
    let t = Arc.on_access lists 1 4 both in
    Is ℕ_discrete t.t1 (without ℕ_discrete 1 recent)
    × Is ℕ_discrete t.t2 (
        if has ℕ_discrete 1 recent || has ℕ_discrete 1 frequent
        then refresh ℕ_discrete 1 4 frequent
        else frequent)
    × (t.p ≡ 3)
    × (t.b1 ≡ [])
    × (t.b2 ≡ [])
on_access_arc_example = on_access_arc lists 1 4 both recent frequent recent-Is frequent-Is room

evict_frees_nothing_example :
    (t : ArcState (Entries ℕ)) × (Arc.evict lists 10 1 only_recent ≡ some ([], 0, t))
    × Is ℕ_discrete t.t1 recent
    × Is ℕ_discrete t.t2 []
evict_frees_nothing_example =
    evict_frees_nothing lists 10 1 only_recent recent recent-Is empty-Is (omega arith)

evict_arc_example : Ends lists 4 4 (Arc.evict lists 10 4 both)
evict_arc_example =
    evict_arc lists 10 4 both recent frequent (record { t1 = recent-Is; t2 = frequent-Is })
      (omega arith)
