-- ===== src/Channels/Mpmc/Core/Batch.antt =====
-- `try_send_batch_core` and `try_recv_batch_core` on the values that the channel holds.
use fibre.Base.{
  ℕ, zero, suc, ◌+◌, ◌-◌, min, ◌<◌, ◌≤◌, ◌≡◌, refl, List, [], ◌∷◌, ◌++◌, Option, none, some, arith,
  length, ltb, ◌==◌, if◌then◌else◌, ◌||◌, take, drop, inl, inr, Option-cases, Bool-cases,
  append-nil, append_assoc, length-append, dec_lt, sub64, subst, ◌∙◌,
}
use native.Mathlib.Nat.{zero-add}
use fibre.Channels.Mpmc.{MpmcChannelInternal, pop_waiting}
use fibre.Channels.Mpmc.Queue.{Carries, Carries-same, push_expect_lem, drain_into_lem}
use fibre.Channels.Mpmc.Core.{
  received, empty, disconnected, BatchSendErrorReason, hand_over, send_loop, try_send_batch_core,
  wake_senders, try_recv_batch_core,
}

module _ {T : Type 0} where
  -- What stays when only waiters change.
  pub record Keeps (s t : MpmcChannelInternal T) : Type 0 where
    pub queue : t.queue ≡ s.queue
    pub queue_len : t.queue_len ≡ s.queue_len
    pub sender_count : t.sender_count ≡ s.sender_count
    pub receiver_count : t.receiver_count ≡ s.receiver_count

  hand_over-Keeps : (s : MpmcChannelInternal T) → Keeps s (hand_over s).1
  unfolding hand_over
  hand_over-Keeps s = elim (Option-cases (pop_waiting s.cells s.waiting_async_receivers).0) [
    | inr (w, e) ↦ ground (arith, e)
    | inl e ↦ elim (Option-cases (pop_waiting s.cells s.waiting_sync_receivers).0) [
      | inr (w, e2) ↦ ground (arith, e, e2)
      | inl e2 ↦ ground (arith, e, e2)
    ]
  ]

  wake_senders-Keeps : (budget : ℕ) (s : MpmcChannelInternal T) → Keeps s (wake_senders budget s)
  unfolding wake_senders
  wake_senders-Keeps budget s = record {
    queue = refl;
    queue_len = refl;
    sender_count = refl;
    receiver_count = refl;
  }

module _ {T : Type 0} (capacity : ℕ) where
  -- One item goes to the queue, whether or not a receiver was woken for it.
  send_loop_step :
      (rounds sent_items : ℕ) (item : T) (iter : List T) (s : MpmcChannelInternal T) (xs : List T)
      → Carries capacity s xs
      → length xs < capacity
      → (t : MpmcChannelInternal T) × (send_loop (suc rounds) capacity sent_items (item ∷ iter) s
          ≡ send_loop rounds capacity (sent_items + 1) iter t)
        × Carries capacity t (xs ++ item ∷ [])
        × (t.sender_count ≡ s.sender_count)
        × (t.receiver_count ≡ s.receiver_count)
  unfolding send_loop
  send_loop_step rounds sent_items item iter s xs c room =
      let k = hand_over-Keeps s in
      let t : MpmcChannelInternal T = (hand_over s).1 in
      let (q, pushes, carries) =
        push_expect_lem capacity item t xs (Carries-same capacity s t xs k.queue k.queue_len c)
          room in
      (
        _,
        ground (arith, pushes, k.queue_len, c.len, c.fits, c.pos, room),
        carries,
        k.sender_count,
        k.receiver_count,
      )

  send_loop_stop :
      (rounds sent_items : ℕ) (iter : List T) (s : MpmcChannelInternal T) (xs : List T)
      → Carries capacity s xs
      → length xs ≡ capacity
      → send_loop rounds capacity sent_items iter s ≡ some (sent_items, iter, s)
  unfolding send_loop
  send_loop_stop zero sent_items iter s xs c e = refl
  send_loop_stop (suc rounds) sent_items iter s xs c e = ground (arith, c.len, c.pos, e)

  send_loop_lem :
      (rounds sent_items : ℕ) (iter : List T) (s : MpmcChannelInternal T) (xs : List T)
      → Carries capacity s xs
      → rounds ≤ length iter
      → let n = min rounds (capacity - length xs) in
        (t : MpmcChannelInternal T) × (send_loop rounds capacity sent_items iter s
          ≡ some (sent_items + n, drop n iter, t))
        × Carries capacity t (xs ++ take n iter)
        × (t.sender_count ≡ s.sender_count)
        × (t.receiver_count ≡ s.receiver_count)
  unfolding send_loop
  send_loop_lem zero sent_items iter s xs c le =
      let nothing : min 0 (capacity - length xs) ≡ 0 = omega arith in
      (s, rw nothing (ground arith), rw (nothing, append-nil) c, refl, refl)
  send_loop_lem (suc rounds) sent_items [] s xs c le = absurd (omega arith)
  send_loop_lem (suc rounds) sent_items (item ∷ iter) s xs c le =
      elim (dec_lt (length xs) capacity) [
        | no full ↦
            let nothing : min (suc rounds) (capacity - length xs) ≡ 0 = omega arith in
            (
              s,
              rw nothing (
                  ground (
                    arith,
                    send_loop_stop (suc rounds) sent_items (item ∷ iter) s xs c
                        (omega (arith, c.fits)),
                  )),
              rw (nothing, append-nil) c,
              refl,
              refl,
            )
        | yes room ↦
            let (t, steps, carries, sc, rc) =
              send_loop_step rounds sent_items item iter s xs c room in
            let (u, runs, holds, sc', rc') =
              send_loop_lem rounds (sent_items + 1) iter t (xs ++ item ∷ []) carries
                (omega arith) in
            let more : min (suc rounds) (capacity - length xs)
                ≡ suc (min rounds (capacity - length (xs ++ item ∷ []))) =
              omega (arith, length-append xs (item ∷ [])) in
            let n = min rounds (capacity - length (xs ++ item ∷ [])) in
            let count : sent_items + 1 + n ≡ sent_items + suc n = omega arith in
            (
              u,
              steps ∙ (runs ∙ rw (more, count) refl),
              rw more
                  (subst (Carries capacity u) (append_assoc xs (item ∷ []) (take n iter)) holds),
              sc' ∙ sc,
              rc' ∙ rc,
            )
      ]

  -- How many items a batch sends: as many as the limit and the room allow, and none to a channel that
  -- no receiver is left of.
  abbrev pub batch_count : ℕ → MpmcChannelInternal T → List T → ℕ
  batch_count limit s xs = if s.receiver_count == 0 then 0 else min limit (capacity - length xs)

  abbrev pub batch_reason : ℕ → MpmcChannelInternal T → List T → Option BatchSendErrorReason
  batch_reason limit s xs =
      if limit == 0
      then none
      else if s.receiver_count == 0
      then some BatchSendErrorReason.closed
      else if batch_count limit s xs == limit
      then none
      else some BatchSendErrorReason.full

  -- `try_send_batch_core` with at least as many items as its limit never faults: it sends the longest
  -- run of first items that the limit and the room allow, in their order, leaves the others with the
  -- caller, and gives a reason exactly when it sent fewer than the limit.
  pub try_send_batch_core_lem :
      (iter : List T) (limit : ℕ) (s : MpmcChannelInternal T) (xs : List T)
      → Carries capacity s xs
      → limit ≤ length iter
      → let n = batch_count limit s xs in
        (t : MpmcChannelInternal T) × (try_send_batch_core capacity iter limit s
          ≡ some (n, batch_reason limit s xs, drop n iter, t))
        × Carries capacity t (xs ++ take n iter)
        × (t.sender_count ≡ s.sender_count)
        × (t.receiver_count ≡ s.receiver_count)
  unfolding try_send_batch_core
  try_send_batch_core_lem iter limit s xs c le = elim (Bool-cases (s.receiver_count == 0)) [
    | inl gone ↦ (s, ground (arith, gone), rw (gone, append-nil) c, refl, refl)
    | inr alive ↦
        let (t, runs, carries, sc, rc) = send_loop_lem limit 0 iter s xs c le in
        elim (Bool-cases (limit == 0)) [
          | inl zero_limit ↦
              let nothing : min limit (capacity - length xs) ≡ 0 = ground (arith, zero_limit) in
              (
                s,
                rw (alive, nothing) (ground (arith, zero_limit)),
                rw (alive, nothing, append-nil) c,
                refl,
                refl,
              )
          | inr some_limit ↦ (
            t,
            rw alive
                (ground (arith, alive, some_limit, let counted = runs in rw zero-add at counted)),
            rw alive carries,
            sc,
            rc,
          )
        ]
  ]

  -- `try_recv_batch_core` never faults: it appends to the buffer the oldest values, as many as were
  -- asked for and are there, and returns their number; asked for some, on an empty channel it says
  -- disconnected when every sender is gone, and empty otherwise.
  pub try_recv_batch_core_lem :
      (out : List T) (max_items : ℕ) (s : MpmcChannelInternal T) (xs : List T)
      → Carries capacity s xs
      → let n = min max_items (length xs) in
        (t : MpmcChannelInternal T) × (try_recv_batch_core capacity out max_items s
          ≡ some (
            if max_items == 0 || ltb 0 n
                then received n
                else if s.sender_count == 0
                then disconnected
                else empty,
            out ++ take n xs,
            t,
          ))
        × Carries capacity t (drop n xs)
        × (t.sender_count ≡ s.sender_count)
        × (t.receiver_count ≡ s.receiver_count)
  unfolding try_recv_batch_core
  try_recv_batch_core_lem out max_items s xs c = elim (dec_lt 0 (min max_items (length xs))) [
    | no nothing ↦
        let n0 : min max_items (length xs) ≡ 0 = omega arith in
        (s, rw (n0, append-nil) (ground (arith, c.len)), rw n0 c, refl, refl)
    | yes several ↦
        let n = min max_items (length xs) in
        let (q, drains, carries) = drain_into_lem capacity out n s xs c (omega arith) in
        let drained : MpmcChannelInternal T = record s {
          queue = q;
          queue_len = sub64 s.queue_len n;
        } in
        let woken = wake_senders (n + (max_items - n)) drained in
        let k = wake_senders-Keeps (n + (max_items - n)) drained in
        (
          woken,
          ground (arith, several, c.len, c.pos, drains),
          Carries-same capacity drained woken (drop n xs) k.queue k.queue_len carries,
          k.sender_count,
          k.receiver_count,
        )
  ]
