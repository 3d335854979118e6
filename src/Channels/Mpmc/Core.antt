-- ===== src/Channels/Mpmc/Core.antt =====
-- The operations of `MpmcShared` in channels/src/mpmc_v2/core.rs that send and receive, for a channel of
-- a capacity.
pub mod Waiters
pub mod Single
pub mod Batch
pub mod Run
use fibre.Base.{
  ℕ, zero, suc, ◌+◌, ◌-◌, min, List, [], ◌∷◌, ◌++◌, Option, none, some, Bool, true, false, ltb,
  ◌==◌, if◌then◌else◌, ◌&&◌, ◌||◌, not, length, ite, ℕ_discrete,
}
use fibre.Channels.Mpmc.{
  Waiter, Wake, thread, waker, MpmcChannelInternal, state_waiting, claim, find_waiting, pop_waiting,
  len, is_empty, is_full, pop_front, drain_into, push_expect,
}

-- The results of `try_send_core`: `TrySendError` has also `Sent`, which a oneshot channel returns.
pub data TrySend (T : Type 0) : Type 0 where
  sent : TrySend T
  full closed : T → TrySend T

pub data TryRecv (A : Type 0) : Type 0 where
  received : A → TryRecv A
  empty disconnected : TryRecv A

pub data BatchSendErrorReason : Type 0 where
  full closed : BatchSendErrorReason

-- Each of the two loops that wake senders: at most `budget` of the waiters, with how many may still
-- be woken, the waiters left, the state bytes and the handles woken.
unfoldable pub wake_waiting :
    (ℕ → Wake) → ℕ → List Waiter → (ℕ → ℕ) → List Wake → ℕ × List Waiter × (ℕ → ℕ) × List Wake
wake_waiting kind budget [] cells woken = (budget, [], cells, woken)
wake_waiting kind zero (w ∷ ws) cells woken = (zero, w ∷ ws, cells, woken)
wake_waiting kind (suc budget) (w ∷ ws) cells woken = elim (cells w.state == state_waiting) [
  | true ↦ wake_waiting kind budget ws (claim w.state cells) (woken ++ kind w.handle ∷ [])
  | false ↦
      let (left, rest, after, log) = wake_waiting kind (suc budget) ws cells woken in
      (left, w ∷ rest, after, log)
]

-- What the second critical section of a poll comes to.
pub data Polled : Type 0 where
  again ready_disconnected pending : Polled

unfoldable pub set_waker : Waiter → List Waiter → Option (List Waiter)
set_waker w [] = none
set_waker w (v ∷ vs) =
    if v.state == w.state
    then some (w ∷ vs)
    else elim (set_waker w vs) [ none ↦ none | some rest ↦ some (v ∷ rest) ]

module _ {T : Type 0} where
  -- The two loops that look for a receiver to wake, the tasks before the threads.
  unfoldable pub take_receiver : (MpmcChannelInternal T) → Option (MpmcChannelInternal T)
  take_receiver s = elim (find_waiting s.cells s.waiting_async_receivers) [
    | some (w, rest) ↦ some (record s {
      waiting_async_receivers = rest;
      cells = claim w.state s.cells;
      woken = s.woken ++ waker w.handle ∷ [];
    })
    | none ↦ elim (find_waiting s.cells s.waiting_sync_receivers) [
      | some (w, rest) ↦ some (record s {
        waiting_sync_receivers = rest;
        cells = claim w.state s.cells;
        woken = s.woken ++ thread w.handle ∷ [];
      })
      | none ↦ none
    ]
  ]

  unfoldable pub take_sender : (MpmcChannelInternal T) → Option (MpmcChannelInternal T)
  take_sender s = elim (find_waiting s.cells s.waiting_async_senders) [
    | some (w, rest) ↦ some (record s {
      waiting_async_senders = rest;
      cells = claim w.state s.cells;
      woken = s.woken ++ waker w.handle ∷ [];
    })
    | none ↦ elim (find_waiting s.cells s.waiting_sync_senders) [
      | some (w, rest) ↦ some (record s {
        waiting_sync_senders = rest;
        cells = claim w.state s.cells;
        woken = s.woken ++ thread w.handle ∷ [];
      })
      | none ↦ none
    ]
  ]

  unfoldable pub sent_to :
      T → (MpmcChannelInternal T) → Option (TrySend T × (MpmcChannelInternal T))
  sent_to item s = elim (push_expect item s) [ none ↦ none | some t ↦ some (sent, t) ]

  -- Without a receiver to wake.
  unfoldable pub send_to_buffer :
      ℕ → T → (MpmcChannelInternal T) → Option (TrySend T × (MpmcChannelInternal T))
  send_to_buffer capacity item s =
      if capacity == 0
      then some (full item, s)
      else if ltb (len s) capacity
      then sent_to item s
      else some (full item, s)

  unfoldable pub try_send_core :
      ℕ → T → (MpmcChannelInternal T) → Option (TrySend T × (MpmcChannelInternal T))
  try_send_core capacity item s = elim (s.receiver_count == 0) [
    | true ↦ some (closed item, s)
    | false ↦ elim (is_full capacity s) [
      | true ↦ send_to_buffer capacity item s
      | false ↦ elim (take_receiver s) [
        | some t ↦ sent_to item t
        | none ↦ send_to_buffer capacity item s
      ]
    ]
  ]

  -- A sender that waits is woken when there is one.
  unfoldable pub wake_sender : (MpmcChannelInternal T) → (MpmcChannelInternal T)
  wake_sender s = elim (take_sender s) [ none ↦ s | some t ↦ t ]

  unfoldable pub try_recv_core :
      ℕ → (MpmcChannelInternal T) → Option (TryRecv T × (MpmcChannelInternal T))
  try_recv_core capacity s = elim (pop_front s) [
    | none ↦ none
    | some (popped, t) ↦ elim popped [
      | some item ↦ some (received item, if ltb 0 capacity then wake_sender t else t)
      | none ↦ some (if t.sender_count == 0 then disconnected else empty, t)
    ]
  ]

  -- The two loops of `try_send_batch_core` that hand an item over: whether a receiver was woken.
  unfoldable pub hand_over : (MpmcChannelInternal T) → Bool × (MpmcChannelInternal T)
  hand_over s =
      let (task, tasks) = pop_waiting s.cells s.waiting_async_receivers in
      let (parked, threads) = pop_waiting s.cells s.waiting_sync_receivers in
      elim task [
        | some w ↦ (
          true,
          record s {
            waiting_async_receivers = tasks;
            cells = claim w.state s.cells;
            woken = s.woken ++ waker w.handle ∷ [];
          },
        )
        | none ↦ elim parked [
          | some w ↦ (
            true,
            record s {
              waiting_async_receivers = tasks;
              waiting_sync_receivers = threads;
              cells = claim w.state s.cells;
              woken = s.woken ++ thread w.handle ∷ [];
            },
          )
          | none ↦ (
            false,
            record s { waiting_async_receivers = tasks; waiting_sync_receivers = threads },
          )
        ]
      ]

  -- The `while` of `try_send_batch_core`, by the items that the limit still allows: how many were sent,
  -- with what the iterator has left.
  unfoldable pub send_loop :
      ℕ → ℕ → ℕ → List T → (MpmcChannelInternal T) → Option (ℕ × List T × (MpmcChannelInternal T))
  send_loop zero capacity sent_items iter s = some (sent_items, iter, s)
  send_loop (suc rounds) capacity sent_items iter s =
      let (handed, t) = if is_full capacity s then (false, s) else hand_over s in
      elim (handed || (not (capacity == 0) && ltb (len t) capacity)) [
        | false ↦ some (sent_items, iter, t)
        | true ↦ elim iter [
          | [] ↦ none
          | item ∷ rest ↦ elim (push_expect item t) [
            | none ↦ none
            | some u ↦ send_loop rounds capacity (sent_items + 1) rest u
          ]
        ]
      ]

  unfoldable pub try_send_batch_core :
      ℕ
      → List T
      → ℕ
      → (MpmcChannelInternal T)
      → Option (ℕ × Option BatchSendErrorReason × List T × (MpmcChannelInternal T))
  try_send_batch_core capacity iter limit s = elim (limit == 0) [
    | true ↦ some (0, none, iter, s)
    | false ↦ elim (s.receiver_count == 0) [
      | true ↦ some (0, some BatchSendErrorReason.closed, iter, s)
      | false ↦ elim (send_loop limit capacity 0 iter s) [
        | none ↦ none
        | some (sent_items, rest, t) ↦ some (
          sent_items,
          if sent_items == limit then none else some BatchSendErrorReason.full,
          rest,
          t,
        )
      ]
    ]
  ]

  unfoldable pub wake_senders : ℕ → (MpmcChannelInternal T) → (MpmcChannelInternal T)
  wake_senders budget s =
      let (left, tasks, cells, woken) =
        wake_waiting waker budget s.waiting_async_senders s.cells s.woken in
      let (_, threads, cells', woken') =
        wake_waiting thread left s.waiting_sync_senders cells woken in
      record s {
        waiting_async_senders = tasks;
        waiting_sync_senders = threads;
        cells = cells';
        woken = woken';
      }

  unfoldable pub try_recv_batch_core :
      ℕ
      → List T
      → ℕ
      → (MpmcChannelInternal T)
      → Option (TryRecv ℕ × List T × (MpmcChannelInternal T))
  try_recv_batch_core capacity out max_items s = elim (max_items == 0) [
    | true ↦ some (received 0, out, s)
    | false ↦
        let from_buffer = min max_items (len s) in
        elim (ltb 0 from_buffer) [
          | false ↦ some (if s.sender_count == 0 then disconnected else empty, out, s)
          | true ↦ elim (drain_into out from_buffer s) [
            | none ↦ none
            | some (taken, t) ↦ some (
              received from_buffer,
              taken,
              if ltb 0 capacity
                  then wake_senders (from_buffer + (max_items - from_buffer)) t
                  else t,
            )
          ]
        ]
  ]

  -- The second critical section of `poll_recv_internal` and `poll_recv_batch_internal`, for a task that
  -- found nothing: it looks again, and leaves its waker, in place of an older one of the same future.
  unfoldable pub register_receiver :
      ℕ → Waiter → (MpmcChannelInternal T) → Polled × (MpmcChannelInternal T)
  register_receiver capacity w s =
      elim (not (is_empty s)
        || (capacity == 0
            && (ltb 0 (length s.waiting_sync_senders) || ltb 0 (length s.waiting_async_senders)))) [
              | true ↦ (again, s)
              | false ↦ elim (s.sender_count == 0) [
                | true ↦ (ready_disconnected, s)
                | false ↦ elim (set_waker w s.waiting_async_receivers) [
                  | some waiters ↦ (pending, record s { waiting_async_receivers = waiters })
                  | none ↦ (
                    pending,
                    record s {
                      waiting_async_receivers = s.waiting_async_receivers ++ w ∷ [];
                      cells = λ a. ite (ℕ_discrete w.state a) state_waiting (s.cells a);
                    },
                  )
                ]
              ]
            ]
