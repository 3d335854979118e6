-- ===== src/Channels/Mpmc/Queue.antt =====
-- The values that a channel holds, under the operations on its queue.
use fibre.Base.{
  ℕ, zero, suc, ◌+◌, ◌<◌, ◌≤◌, ◌≡◌, refl, List, [], ◌∷◌, ◌++◌, none, some, arith, length, add64,
  sub64, length-append, take, drop, append-nil, append_assoc, ◌^◌,
}
use fibre.Channels.Ring.{Ring, next_power_of_two}
use fibre.Channels.Ring.Refine.{Holds, push_room, pop_empty, pop_value, new-Holds}
use fibre.Channels.Mpmc.{
  MpmcChannelInternal, new_around, new_internal, push_back, pop_front, drain_loop, drain_into,
  push_expect,
}

-- The channel holds the values, the oldest first, within its capacity.
pub record Carries {T : Type 0} (capacity : ℕ) (s : MpmcChannelInternal T) (xs : List T)
    : Type 0 where
  pub size : ℕ
  pub ring : Holds size s.queue xs
  pub pos : 0 < capacity
  pub room : capacity ≤ size
  pub len : s.queue_len ≡ length xs
  pub fits : length xs ≤ capacity

module _ {T : Type 0} (capacity : ℕ) where
  -- Nothing else of the state matters.
  pub Carries-same :
      (s t : MpmcChannelInternal T) (xs : List T)
      → t.queue ≡ s.queue
      → t.queue_len ≡ s.queue_len
      → Carries capacity s xs
      → Carries capacity t xs
  Carries-same s t xs queue len c = record {
    size = c.size;
    ring = rw queue c.ring;
    pos = c.pos;
    room = c.room;
    len = rw len c.len;
    fits = c.fits;
  }

  pub push_expect_lem :
      (item : T) (s : MpmcChannelInternal T) (xs : List T)
      → Carries capacity s xs
      → length xs < capacity
      → (q : Ring T) × (push_expect item s
          ≡ some (record s { queue = q; queue_len = add64 s.queue_len 1 }))
        × Carries capacity
            (record s { queue = q; queue_len = add64 s.queue_len 1 })
            (xs ++ item ∷ [])
  unfolding push_expect push_back add64
  push_expect_lem item s xs c room =
      let (q, pushes, holds) = push_room c.size s.queue xs c.ring item (omega (arith, c.room)) in
      (
        q,
        ground (arith, pushes),
        record {
          size = c.size;
          ring = holds;
          pos = c.pos;
          room = c.room;
          len = omega (
            arith,
            c.len,
            length-append xs (item ∷ []),
            c.fits,
            c.room,
            c.ring.is_capacity.small,
          );
          fits = omega (arith, length-append xs (item ∷ []));
        },
      )

  pub pop_front_empty :
      (s : MpmcChannelInternal T) → Carries capacity s [] → pop_front s ≡ some (none, s)
  unfolding pop_front
  pop_front_empty s c = ground (arith, pop_empty c.size s.queue c.ring)

  pub pop_front_item :
      (s : MpmcChannelInternal T) (x : T) (xs : List T)
      → Carries capacity s (x ∷ xs)
      → (q : Ring T) × (pop_front s
          ≡ some (some x, record s { queue = q; queue_len = sub64 s.queue_len 1 }))
        × Carries capacity (record s { queue = q; queue_len = sub64 s.queue_len 1 }) xs
  unfolding pop_front sub64
  pop_front_item s x xs c =
      let (q, pops, holds) = pop_value c.size s.queue x xs c.ring in
      (
        q,
        ground (arith, pops),
        record {
          size = c.size;
          ring = holds;
          pos = c.pos;
          room = c.room;
          len = omega (arith, c.len, c.fits, c.room, c.ring.is_capacity.small);
          fits = omega (arith, c.fits);
        },
      )

  drain_loop-Holds :
      (size n : ℕ) (out xs : List T) (r : Ring T)
      → Holds size r xs
      → n ≤ length xs
      → (q : Ring T) × (drain_loop n out r ≡ some (out ++ take n xs, q)) × Holds size q (drop n xs)
  unfolding drain_loop
  drain_loop-Holds size zero out xs r h le = (r, ground (arith, append-nil out), h)
  drain_loop-Holds size (suc n) out [] r h le = absurd (omega arith)
  drain_loop-Holds size (suc n) out (x ∷ xs) r h le =
      let (rest, pops, holds) = pop_value size r x xs h in
      let (q, drains, left) = drain_loop-Holds size n (out ++ x ∷ []) xs rest holds (omega arith) in
      (q, ground (arith, pops, drains, append_assoc out (x ∷ []) (take n xs)), left)

  length-drop : (n : ℕ) (xs : List T) → n ≤ length xs → length (drop n xs) + n ≡ length xs
  length-drop zero xs h = omega arith
  length-drop (suc n) [] h = absurd (omega arith)
  length-drop (suc n) (x ∷ xs) h = omega (arith, length-drop n xs (omega arith))

  pub drain_into_lem :
      (out : List T) (n : ℕ) (s : MpmcChannelInternal T) (xs : List T)
      → Carries capacity s xs
      → n ≤ length xs
      → (q : Ring T) × (drain_into out n s
          ≡ some (out ++ take n xs, record s { queue = q; queue_len = sub64 s.queue_len n }))
        × Carries capacity (record s { queue = q; queue_len = sub64 s.queue_len n }) (drop n xs)
  unfolding drain_into sub64
  drain_into_lem out n s xs c le =
      let (q, drains, holds) = drain_loop-Holds c.size n out xs s.queue c.ring le in
      (
        q,
        ground (arith, drains),
        record {
          size = c.size;
          ring = holds;
          pos = c.pos;
          room = c.room;
          len = omega (arith, c.len, c.fits, c.room, c.ring.is_capacity.small, length-drop n xs le);
          fits = omega (arith, c.fits, length-drop n xs le);
        },
      )

  -- A new channel is empty.
  pub new_internal-Carries :
      (cells : ℕ → ℕ)
      → 0 < capacity
      → capacity ≤ 2 ^ 63
      → (s : MpmcChannelInternal T) × (new_internal capacity cells ≡ some s) × Carries capacity s []
  unfolding new_internal
  new_internal-Carries cells pos small =
      let (r, makes, holds, up, low) = new-Holds {T = T} capacity pos small in
      (
        new_around r cells,
        ground (arith, makes),
        record {
          size = next_power_of_two 63 1 capacity;
          ring = holds;
          pos = pos;
          room = up;
          len = refl;
          fits = omega arith;
        },
      )
