-- ===== src/Channels/Ring/Run.antt =====
-- Sequences of calls on a ring, beside the same calls on a bounded queue.
use fibre.Base.{
  ℕ, ◌*◌, ◌^◌, ◌<◌, ◌≤◌, ◌≡◌, refl, List, [], ◌∷◌, ◌++◌, Option, none, some, arith, length, ltb,
  if◌then◌else◌, Bool-cases, inl, inr,
}
use fibre.Channels.Ring.{Ring, Pushed, ok, err, next_power_of_two, new, push, pop, clear}
use fibre.Channels.Ring.Refine.{
  Holds, push_full, push_room, pop_empty, pop_value, clear-Holds, new-Holds,
}

pub data Call (T : Type 0) : Type 0 where
  push_call : T → Call T
  pop_call clear_call : Call T

pub data Reply (T : Type 0) : Type 0 where
  pushed : Pushed T → Reply T
  popped : Option T → Reply T
  cleared : Reply T

module _ {T : Type 0} where
  -- A call on the ring; a fault is `none`.
  unfoldable pub call : Call T → Ring T → Option (Reply T × Ring T)
  call (push_call v) r = elim (push v r) [ none ↦ none | some (p, t) ↦ some (pushed p, t) ]
  call pop_call r = elim (pop r) [ none ↦ none | some (p, t) ↦ some (popped p, t) ]
  call clear_call r = elim (clear r) [ none ↦ none | some t ↦ some (cleared, t) ]

  unfoldable pub run : List (Call T) → Ring T → Option (List (Reply T) × Ring T)
  run [] r = some ([], r)
  run (c ∷ calls) r = elim (call c r) [
    | none ↦ none
    | some (reply, t) ↦ elim (run calls t) [
      | none ↦ none
      | some (replies, u) ↦ some (reply ∷ replies, u)
    ]
  ]

  -- The same call on a queue with room for `size` values, oldest first.
  unfoldable pub queue_call : ℕ → Call T → List T → Reply T × List T
  queue_call size (push_call v) xs =
      if ltb (length xs) size then (pushed ok, xs ++ v ∷ []) else (pushed (err v), xs)
  queue_call size pop_call [] = (popped none, [])
  queue_call size pop_call (x ∷ xs) = (popped (some x), xs)
  queue_call size clear_call xs = (cleared, [])

  unfoldable pub queue_run : ℕ → List (Call T) → List T → List (Reply T) × List T
  queue_run size [] xs = ([], xs)
  queue_run size (c ∷ calls) xs =
      let (reply, ys) = queue_call size c xs in
      let (replies, zs) = queue_run size calls ys in (reply ∷ replies, zs)

  call_refines :
      (size : ℕ) (c : Call T) (r : Ring T) (xs : List T)
      → Holds size r xs
      → (t : Ring T) × (call c r ≡ some ((queue_call size c xs).0, t))
        × Holds size t (queue_call size c xs).1
  unfolding call queue_call
  call_refines size (push_call v) r xs h = elim (Bool-cases (ltb (length xs) size)) [
    | inl room ↦
        let (t, pushes, holds) = push_room size r xs h v (ground (arith, room)) in
        (t, ground (arith, room, pushes), rw room holds)
    | inr full ↦ (r, ground (arith, full, push_full size r xs h v, h.fits), rw full h)
  ]
  call_refines size pop_call r [] h = (r, ground (arith, pop_empty size r h), h)
  call_refines size pop_call r (x ∷ xs) h =
      let (t, pops, holds) = pop_value size r x xs h in (t, ground (arith, pops), holds)
  call_refines size clear_call r xs h =
      let (t, clears, holds) = clear-Holds size r xs h in (t, ground (arith, clears), holds)

  run-Holds :
      (size : ℕ) (calls : List (Call T)) (r : Ring T) (xs : List T)
      → Holds size r xs
      → (t : Ring T) × (run calls r ≡ some ((queue_run size calls xs).0, t))
        × Holds size t (queue_run size calls xs).1
  unfolding run queue_run
  run-Holds size [] r xs h = (r, refl, h)
  run-Holds size (c ∷ calls) r xs h =
      let (t, calls_one, holds) = call_refines size c r xs h in
      let (u, runs, last) = run-Holds size calls t (queue_call size c xs).1 holds in
      (u, ground (arith, calls_one, runs), last)

  -- A ring that `new` makes for a capacity of 1 to 2^63 never faults, whatever calls follow and
  -- however often its indices pass 2^64: it answers as a first-in first-out queue with room for the
  -- least power of two that is enough.
  pub ring_refines :
      (wanted : ℕ) (calls : List (Call T))
      → 0 < wanted
      → wanted ≤ 2 ^ 63
      → let size = next_power_of_two 63 1 wanted in
        (r : Ring T) × (t : Ring T) × (new wanted ≡ some r)
        × (run calls r ≡ some ((queue_run size calls []).0, t))
        × Holds size t (queue_run size calls []).1
        × (wanted ≤ size)
        × (size < 2 * wanted)
  ring_refines wanted calls pos small =
      let (r, makes, holds, up, low) = new-Holds wanted pos small in
      let (t, runs, last) = run-Holds (next_power_of_two 63 1 wanted) calls r [] holds in
      (r, t, makes, runs, last, up, low)
