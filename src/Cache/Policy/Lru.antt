-- ===== src/Cache/Policy/Lru.antt =====
-- `LruPolicy` of cache/src/policy/lru.rs, over the recency list behind its lock.
use fibre.Base.{
  ℕ, zero, suc, ◌+◌, ◌-◌, ◌<◌, ◌≤◌, ◌≡◌, List, [], ◌∷◌, ◌++◌, none, some, arith, length, true,
  false, ltb, u64_mod, add64, add64_lem, append-nil, append_assoc,
}
use native.Mathlib.Nat.{zero-add}
use fibre.Cache.Recency.{Entries, total, keys, RecencyList, without, refresh, promote}
use fibre.Cache.Recency.Eviction.{due, kept, Evicts, due-Evicts, total-kept-le}
use fibre.Cache.Recency.Entries.{total-without-le, total-promote, total-refresh}
use fibre.Cache.Policy.{
  AdmissionDecision, admit, Call, access, insert, removal, eviction, wipe, inserted, inserted-cons,
}

module _ {K : Type 0} {dec : Discrete K} (R : RecencyList K dec) where
  open R use {Repr, Shows}

  pub new : Repr
  new = R.new

  pub on_access : K → ℕ → Repr → Repr
  on_access key cost list = R.move_to_front key list

  pub on_admit : K → ℕ → Repr → AdmissionDecision K × Repr
  on_admit key cost list = (admit, R.push_front key cost list)

  pub on_remove : K → Repr → Repr
  on_remove key list = (R.remove key list).1

  -- The `while`, on fuel: the victims, the cost freed and the list.
  pub evict_loop : ℕ → ℕ → List K → ℕ → Repr → List K × ℕ × Repr
  evict_loop zero cost_to_free victims freed list = (victims, freed, list)
  evict_loop (suc fuel) cost_to_free victims freed list =
      let (popped, rest) = R.pop_back list in
      elim (ltb freed cost_to_free) [
        | false ↦ (victims, freed, list)
        | true ↦ elim popped [
          | none ↦ (victims, freed, rest)
          | some (key, cost) ↦
              evict_loop fuel cost_to_free (victims ++ key ∷ []) (add64 freed cost) rest
        ]
      ]

  -- A round takes one entry out, so a round for each entry and one more are enough.
  pub evict : ℕ → Repr → List K × ℕ × Repr
  evict cost_to_free list = evict_loop (suc (R.size list)) cost_to_free [] 0 list

  pub clear : Repr → Repr
  clear list = R.clear list

  -- One call, and a sequence of calls.
  pub step : Call K → Repr → Repr
  step (access k c) list = on_access k c list
  step (insert k c) list = (on_admit k c list).1
  step (removal k) list = on_remove k list
  step (eviction n) list = (evict n list).2
  step wipe list = clear list

  pub run : List (Call K) → Repr → Repr
  run [] list = list
  run (call ∷ calls) list = run calls (step call list)

  evict_loop_lem :
      (xs : Entries K) (fuel target need : ℕ) (victims : List K) (freed : ℕ) (list : Repr)
      → Shows list xs
      → length xs < fuel
      → freed + total xs < u64_mod
      → need ≡ target - freed
      → let (vs, f, l) = evict_loop fuel target victims freed list in
        (vs ≡ victims ++ keys (due need xs))
        × (f ≡ freed + total (due need xs))
        × Shows l (kept need xs)
  unfolding evict_loop due kept
  evict_loop_lem [] (suc fuel) target need victims freed list h lt fits e =
      ground (arith, R.pop_back_lem list [] h, append-nil victims)
  evict_loop_lem ((k, c) ∷ xs) (suc fuel) target need victims freed list h lt fits e = ground (
    arith,
    R.pop_back_lem list ((k, c) ∷ xs) h,
    append-nil victims,
    add64_lem freed c,
    append_assoc victims (k ∷ []) (keys (due (need - c) xs)),
    evict_loop_lem xs fuel target (need - c) (victims ++ k ∷ []) (freed + c) (R.pop_back list).1,
  )
  evict_loop_lem xs zero target need victims freed list h lt fits e = absurd (omega arith)

  evict-due :
      (need : ℕ) (list : Repr) (xs : Entries K)
      → Shows list xs
      → let (victims, freed, l) = evict need list in
        (victims ≡ keys (due need xs)) × (freed ≡ total (due need xs)) × Shows l (kept need xs)
  unfolding evict
  evict-due need list xs h =
      let (named, cost, shows) =
        evict_loop_lem xs (suc (R.size list)) need need [] 0 list h
          (omega (arith, R.size_lem list xs h)) (omega (arith, R.fits_lem list xs h))
          (omega arith) in
      (named, rw zero-add at cost, shows)

  -- `evict` returns, least recently used first, the shortest run of least recently used entries that
  -- costs what was asked (all of them if they cost less), with its cost, and the list keeps exactly
  -- the others in their order.
  pub evict_least_recent :
      (need : ℕ) (list : Repr) (xs : Entries K)
      → Shows list xs
      → let (victims, freed, l) = evict need list in
        (rest : Entries K) × Shows l rest × Evicts need xs victims freed rest
  evict_least_recent need list xs h =
      let (named, cost, shows) = evict-due need list xs h in
      (kept need xs, shows, rw (named, cost) (due-Evicts need xs))

  -- What a call does to the entries in order of their last use.
  pub note : Call K → Entries K → Entries K
  note (access k c) xs = promote dec k xs
  note (insert k c) xs = refresh dec k c xs
  note (removal k) xs = without dec k xs
  note (eviction n) xs = kept n xs
  note wipe xs = []

  pub replay : List (Call K) → Entries K → Entries K
  replay [] xs = xs
  replay (call ∷ calls) xs = replay calls (note call xs)

  step-note :
      (call : Call K) (list : Repr) (xs : Entries K)
      → Shows list xs
      → total xs + inserted (call ∷ []) < u64_mod
      → Shows (step call list) (note call xs)
        × (total (note call xs) ≤ total xs + inserted (call ∷ []))
  unfolding step note on_access on_admit on_remove clear
  step-note (access k c) list xs h fits = (
    R.move_to_front_lem k list xs h,
    omega (arith, total-promote dec k xs (R.Shows-Distinct list xs h)),
  )
  step-note (insert k c) list xs h fits = (
    R.push_front_lem k c list xs h (omega (arith, total-without-le dec k xs)),
    omega (arith, total-refresh dec k c xs, total-without-le dec k xs),
  )
  step-note (removal k) list xs h fits =
      ((R.remove_lem k list xs h).1, omega (arith, total-without-le dec k xs))
  step-note (eviction n) list xs h fits =
      ((evict-due n list xs h).2, omega (arith, total-kept-le n xs))
  step-note wipe list xs h fits = (R.clear_lem list, omega arith)

  -- After any sequence of calls that brings in less than 2^64 of cost, the policy tracks the entries
  -- that the replay of the calls leaves, in order of their last use.
  pub run_tracks_use :
      (calls : List (Call K)) (list : Repr) (xs : Entries K)
      → Shows list xs
      → total xs + inserted calls < u64_mod
      → Shows (run calls list) (replay calls xs)
  unfolding run replay
  run_tracks_use [] list xs h fits = h
  run_tracks_use (call ∷ calls) list xs h fits =
      let split = inserted-cons call calls in
      let (shows, le) = step-note call list xs h (omega arith) in
      run_tracks_use calls (step call list) (note call xs) shows (omega arith)
