-- ===== src/Cache/Policy/Fifo.antt =====
-- `Fifo` of cache/src/policy/fifo.rs, over the recency list behind its lock.
use fibre.Base.{
  ℕ, zero, suc, ◌+◌, ◌-◌, ◌<◌, ◌≡◌, List, [], ◌∷◌, ◌++◌, none, some, arith, length, if◌then◌else◌,
  true, false, Option-cases, inl, inr, ltb, u64_mod, add64, add64_lem, append-nil, append_assoc,
}
use native.Mathlib.Nat.{zero-add}
use fibre.Cache.Recency.{Entries, total, keys, RecencyList, has, cost_of}
use fibre.Cache.Recency.Eviction.{due, kept, Evicts, due-Evicts}
use fibre.Cache.Recency.Entries.{without_absent, refresh_absent}
use fibre.Cache.Policy.{AdmissionDecision, admit}

module _ {K : Type 0} {dec : Discrete K} (R : RecencyList K dec) where
  open R use {Repr, Shows}

  pub new : Repr
  new = R.new

  pub on_access : K → ℕ → Repr → Repr
  on_access key cost list = list

  pub on_admit : K → ℕ → Repr → AdmissionDecision K × Repr
  on_admit key cost list =
      if R.contains key list then (admit, list) else (admit, R.push_front key cost list)

  pub on_remove : K → Repr → Repr
  on_remove key list = (R.remove key list).1

  -- The `while`, on fuel: the victims, the cost freed and the list.
  pub evict_loop : ℕ → ℕ → List K → ℕ → Repr → List K × ℕ × Repr
  evict_loop zero cost_to_free victims freed list = (victims, freed, list)
  evict_loop (suc fuel) cost_to_free victims freed list =
      let (popped, rest) = R.pop_back list in
      elim (ltb 0 cost_to_free) [
        | false ↦ (victims, freed, list)
        | true ↦ elim popped [
          | none ↦ (victims, freed, rest)
          | some (key, cost) ↦
              evict_loop fuel (cost_to_free - cost) (victims ++ key ∷ []) (add64 freed cost) rest
        ]
      ]

  -- A round takes one entry out, so a round for each entry and one more are enough.
  pub evict : ℕ → Repr → List K × ℕ × Repr
  evict cost_to_free list = evict_loop (suc (R.size list)) cost_to_free [] 0 list

  pub clear : Repr → Repr
  clear list = R.clear list

  evict_loop_lem :
      (xs : Entries K) (fuel need : ℕ) (victims : List K) (freed : ℕ) (list : Repr)
      → Shows list xs
      → length xs < fuel
      → freed + total xs < u64_mod
      → let (vs, f, l) = evict_loop fuel need victims freed list in
        (vs ≡ victims ++ keys (due need xs))
        × (f ≡ freed + total (due need xs))
        × Shows l (kept need xs)
  unfolding evict_loop due kept
  evict_loop_lem [] (suc fuel) need victims freed list h lt fits =
      ground (arith, R.pop_back_lem list [] h, append-nil victims)
  evict_loop_lem ((k, c) ∷ xs) (suc fuel) need victims freed list h lt fits = ground (
    arith,
    R.pop_back_lem list ((k, c) ∷ xs) h,
    append-nil victims,
    add64_lem freed c,
    append_assoc victims (k ∷ []) (keys (due (need - c) xs)),
    evict_loop_lem xs fuel (need - c) (victims ++ k ∷ []) (freed + c) (R.pop_back list).1,
  )
  evict_loop_lem xs zero need victims freed list h lt fits = absurd (omega arith)

  -- `evict` returns, oldest first, the shortest run of oldest entries that costs what was asked (all
  -- of them if they cost less), with its cost, and the list keeps exactly the others in their order.
  pub evict_in_order :
      (need : ℕ) (list : Repr) (xs : Entries K)
      → Shows list xs
      → let (victims, freed, l) = evict need list in
        (rest : Entries K) × Shows l rest × Evicts need xs victims freed rest
  unfolding evict
  evict_in_order need list xs h =
      let (named, cost, shows) =
        evict_loop_lem xs (suc (R.size list)) need [] 0 list h (omega (arith, R.size_lem list xs h))
          (omega (arith, R.fits_lem list xs h)) in
      (kept need xs, shows, rw (named, cost, zero-add) (due-Evicts need xs))

  -- A new key becomes the youngest entry; a tracked key changes nothing, neither its place nor its
  -- cost.
  pub on_admit_once :
      (k : K) (c : ℕ) (list : Repr) (xs : Entries K)
      → Shows list xs
      → total xs + c < u64_mod
      → Shows (on_admit k c list).1 (if has dec k xs then xs else xs ++ (k, c) ∷ [])
  unfolding on_admit
  on_admit_once k c list xs h fits = elim (Option-cases (cost_of dec k xs)) [
    | inl e ↦
        rw (R.contains_lem k list xs h, e, ← refresh_absent dec k c xs e)
          (R.push_front_lem k c list xs h (rw (without_absent dec k xs e) fits))
    | inr (b, e) ↦ rw (R.contains_lem k list xs h, e) h
  ]
