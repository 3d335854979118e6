-- ===== src/Channels/Tests/Rings.antt =====
-- The ring, as its unit tests use it.
use fibre.Base.{ℕ, ◌<◌, ◌≤◌, ◌≡◌, refl, List, [], ◌∷◌, Option, none, some, arith, add64, sub64}
use fibre.Channels.Ring
use fibre.Channels.Ring.{Ring, ok, err, next_power_of_two}
use fibre.Channels.Ring.Refine.{Holds}
use fibre.Channels.Ring.Run.{
  Call, push_call, pop_call, clear_call, Reply, pushed, popped, cleared, run, call, queue_run,
  queue_call, ring_refines,
}

abbrev calls : List (Call ℕ)
calls =
    push_call 7
    ∷ push_call 8
    ∷ pop_call
    ∷ push_call 9
    ∷ push_call 10
    ∷ push_call 11
    ∷ push_call 12
    ∷ pop_call
    ∷ clear_call
    ∷ pop_call
    ∷ []

-- A capacity of 3 is rounded up to 4.
rounded_up : next_power_of_two 63 1 3 ≡ 4
unfolding next_power_of_two
rounded_up = refl

queue_answers :
    (queue_run 4 calls []).0
    ≡ pushed ok
      ∷ pushed ok
      ∷ popped (some 7)
      ∷ pushed ok
      ∷ pushed ok
      ∷ pushed ok
      ∷ pushed (err 12)
      ∷ popped (some 8)
      ∷ cleared
      ∷ popped none
      ∷ []
unfolding queue_run queue_call
queue_answers = refl

-- The indices wrap: the head stands at the last number of a word.
abbrev wrapping : Ring ℕ
wrapping = record {
  buffer = none ∷ none ∷ none ∷ some 5 ∷ [];
  mask = 3;
  head = 18446744073709551615;
  tail = 0;
}

abbrev popped_of : Option (List (Reply ℕ) × Ring ℕ) → List (Reply ℕ)
popped_of none = []
popped_of (some (replies, r)) = replies

wraps :
    popped_of (run (push_call 6 ∷ pop_call ∷ pop_call ∷ pop_call ∷ []) wrapping)
    ≡ pushed ok ∷ popped (some 5) ∷ popped (some 6) ∷ popped none ∷ []
unfolding run call Ring.push Ring.pop add64 sub64
wraps = refl

ring_refines_example :
    let size = next_power_of_two 63 1 3 in
    (r : Ring ℕ) × (t : Ring ℕ) × (Ring.new 3 ≡ some r)
    × (run calls r ≡ some ((queue_run size calls []).0, t))
    × Holds size t (queue_run size calls []).1
    × (3 ≤ size)
    × (size < 6)
ring_refines_example = ring_refines 3 calls (omega arith) (omega arith)
