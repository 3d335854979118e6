-- ===== src/Channels/Mpmc/Core/Single.antt =====
-- `try_send_core` and `try_recv_core` on the values that the channel holds.
use fibre.Base.{
  ℕ, ◌<◌, ◌≡◌, refl, List, [], ◌∷◌, ◌++◌, some, arith, Bool, length, ltb, ◌==◌, if◌then◌else◌, ◌&&◌,
  not, take, drop, sub64, inl, inr, Option-cases, Bool-cases, append-nil,
}
use fibre.Channels.Mpmc.{MpmcChannelInternal, Wake}
use fibre.Channels.Mpmc.Queue.{
  Carries, Carries-same, push_expect_lem, pop_front_empty, pop_front_item,
}
use fibre.Channels.Mpmc.Core.{
  TrySend, sent, TryRecv, received, empty, disconnected, take_receiver, wake_sender, sent_to,
  send_to_buffer, try_send_core, try_recv_core,
}
use fibre.Channels.Mpmc.Core.Waiters.{
  due_receivers, due_senders, Woke, Woke-self, take_receiver-none, take_receiver-some,
  wake_sender-Woke, SenderTaken, wake_sender-SenderTaken,
}

module _ {T : Type 0} (capacity : ℕ) where
  -- Whether a send finds a receiver alive and room.
  abbrev pub accepts : MpmcChannelInternal T → List T → Bool
  accepts s xs = not (s.receiver_count == 0) && ltb (length xs) capacity

  abbrev pub send_result : T → MpmcChannelInternal T → List T → TrySend T
  send_result item s xs =
      if s.receiver_count == 0
      then TrySend.closed item
      else if ltb (length xs) capacity
      then sent
      else TrySend.full item

  -- What a send leaves.
  pub record Sends (item : T) (s : MpmcChannelInternal T) (xs : List T) (t : MpmcChannelInternal T)
      : Type 0 where
    pub carries : Carries capacity t (if accepts s xs then xs ++ item ∷ [] else xs)
    pub woken : t.woken ≡ s.woken ++ (if accepts s xs then take 1 (due_receivers s) else [])
    pub sender_count : t.sender_count ≡ s.sender_count
    pub receiver_count : t.receiver_count ≡ s.receiver_count

  sent_to_lem :
      (item : T) (s t : MpmcChannelInternal T) (xs : List T) (wakes : List Wake)
      → Carries capacity s xs
      → length xs < capacity
      → Woke s t wakes
      → (u : MpmcChannelInternal T) × (sent_to item t ≡ some (sent, u))
        × Carries capacity u (xs ++ item ∷ [])
        × (u.woken ≡ s.woken ++ wakes)
        × (u.sender_count ≡ s.sender_count)
        × (u.receiver_count ≡ s.receiver_count)
  unfolding sent_to
  sent_to_lem item s t xs wakes c room w =
      let (q, pushes, carries) =
        push_expect_lem capacity item t xs (Carries-same capacity s t xs w.queue w.queue_len c)
          room in
      (_, ground (arith, pushes), carries, w.woken, w.sender_count, w.receiver_count)

  -- `try_send_core` never faults. With every receiver gone it says closed, on a full channel full, and
  -- gives the item back; otherwise the item becomes the last of the queue, and the receiver that has
  -- waited longest is woken, tasks before threads, if there is one.
  pub try_send_core_lem :
      (item : T) (s : MpmcChannelInternal T) (xs : List T)
      → Carries capacity s xs
      → (t : MpmcChannelInternal T) × (try_send_core capacity item s
          ≡ some (send_result item s xs, t))
        × Sends item s xs t
  unfolding try_send_core send_to_buffer
  try_send_core_lem item s xs c = elim (Bool-cases (s.receiver_count == 0)) [
    | inl gone ↦ (
      s,
      ground (arith, gone),
      record {
        carries = rw gone c;
        woken = ground (arith, gone, append-nil s.woken);
        sender_count = refl;
        receiver_count = refl;
      },
    )
    | inr alive ↦ elim (Bool-cases (ltb (length xs) capacity)) [
      | inr no_room ↦ (
        s,
        ground (arith, alive, no_room, c.len, c.fits, c.pos),
        record {
          carries = rw (alive, no_room) c;
          woken = ground (arith, alive, no_room, append-nil s.woken);
          sender_count = refl;
          receiver_count = refl;
        },
      )
      | inl room ↦ elim (Option-cases (take_receiver s)) [
        | inl nobody ↦
            let (u, sends, carries, woken, sc, rc) =
              sent_to_lem item s s xs [] c (ground (arith, room)) (Woke-self s) in
            (
              u,
              ground (arith, alive, room, nobody, c.len, c.fits, c.pos, sends),
              record {
                carries = rw (alive, room) carries;
                woken = ground (arith, alive, room, woken, take_receiver-none s nobody);
                sender_count = sc;
                receiver_count = rc;
              },
            )
        | inr (t, found) ↦
            let (u, sends, carries, woken, sc, rc) =
              sent_to_lem item s t xs (take 1 (due_receivers s)) c (ground (arith, room))
                (take_receiver-some s t found) in
            (
              u,
              ground (arith, alive, room, found, c.len, c.fits, c.pos, sends),
              record {
                carries = rw (alive, room) carries;
                woken = ground (arith, alive, room, woken);
                sender_count = sc;
                receiver_count = rc;
              },
            )
      ]
    ]
  ]

  -- What a receive returns, what it leaves in the queue and whom it wakes, by what the queue holds.
  abbrev pub recv_result : MpmcChannelInternal T → List T → TryRecv T
  recv_result s [] = if s.sender_count == 0 then disconnected else empty
  recv_result s (x ∷ xs) = received x

  abbrev pub recv_wakes : MpmcChannelInternal T → List T → List Wake
  recv_wakes s [] = []
  recv_wakes s (x ∷ xs) = take 1 (due_senders s)

  -- What a receive leaves: of an empty channel all, and otherwise the channel without its oldest value,
  -- and without the sender that was woken.
  abbrev pub Left : MpmcChannelInternal T → List T → MpmcChannelInternal T → Type 0
  Left s [] t = t ≡ s
  Left s (x ∷ xs) t = SenderTaken s t

  -- On a valid channel `try_recv_core` does not fault. It returns the oldest value and wakes the sender that has waited
  -- longest, tasks before threads, if there is one: this sender leaves its queue with its state byte set,
  -- and no other waiter changes. On an empty channel it says disconnected when every sender is gone,
  -- and empty otherwise, and changes nothing.
  pub try_recv_core_lem :
      (s : MpmcChannelInternal T) (xs : List T)
      → Carries capacity s xs
      → (t : MpmcChannelInternal T) × (try_recv_core capacity s ≡ some (recv_result s xs, t))
        × Carries capacity t (drop 1 xs)
        × (t.woken ≡ s.woken ++ recv_wakes s xs)
        × (t.sender_count ≡ s.sender_count)
        × (t.receiver_count ≡ s.receiver_count)
        × Left s xs t
  unfolding try_recv_core
  try_recv_core_lem s [] c = (
    s,
    ground (arith, pop_front_empty capacity s c),
    c,
    ground (arith, append-nil s.woken),
    refl,
    refl,
    refl,
  )
  try_recv_core_lem s (x ∷ xs) c =
      let (q, pops, carries) = pop_front_item capacity s x xs c in
      let popped : MpmcChannelInternal T = record s {
        queue = q;
        queue_len = sub64 s.queue_len 1;
      } in
      let w = wake_sender-Woke popped in
      let taken = wake_sender-SenderTaken popped in
      (
        wake_sender popped,
        ground (arith, pops, c.pos),
        Carries-same capacity popped (wake_sender popped) xs w.queue w.queue_len carries,
        w.woken,
        w.sender_count,
        w.receiver_count,
        record {
          async_receivers = taken.async_receivers;
          sync_receivers = taken.sync_receivers;
          async_senders = taken.async_senders;
          sync_senders = taken.sync_senders;
          cells = taken.cells;
        },
      )
