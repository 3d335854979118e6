-- ===== src/Channels/Mpmc.antt =====
-- `MpmcChannelInternal` of channels/src/mpmc_v2/core.rs: the ring, its cached length, and the queues of
-- parked senders and receivers. Each function is one critical section under the central mutex. The
-- waiters' state bytes, which the code reaches by pointers, are a table from addresses; the handles
-- that are woken are kept in the order of the calls. A failed `expect` is a fault: `none` here.
pub mod Core
pub mod Queue
use fibre.Base.{
  ℕ, zero, suc, ◌+◌, ◌-◌, List, [], ◌∷◌, ◌++◌, Option, none, some, Bool, true, false, add64, sub64,
  ltb, ◌==◌, if◌then◌else◌, ite, ℕ_discrete,
}
use fibre.Channels.Ring.{Ring, Pushed, ok, err, push, pop, new}

abbrev pub state_waiting : ℕ
state_waiting = 0

abbrev pub state_success_space : ℕ
state_success_space = 3

-- `SyncWaiter` and `AsyncWaiter`: a handle to wake and the address of a state byte.
pub record Waiter : Type 0 where
  pub handle : ℕ
  pub state : ℕ

-- `WakeRef`, for the handle of each kind that was woken.
pub data Wake : Type 0 where
  thread : ℕ → Wake
  waker : ℕ → Wake

pub record MpmcChannelInternal (T : Type 0) : Type 0 where
  pub queue : Ring T
  pub queue_len : ℕ
  pub waiting_sync_senders : List Waiter
  pub waiting_async_senders : List Waiter
  pub waiting_sync_receivers : List Waiter
  pub waiting_async_receivers : List Waiter
  pub sender_count : ℕ
  pub receiver_count : ℕ
  pub cells : ℕ → ℕ
  pub woken : List Wake

-- A compare-exchange from waiting to success that succeeds at an address.
abbrev pub claim : ℕ → (ℕ → ℕ) → ℕ → ℕ
claim address cells a = ite (ℕ_discrete address a) state_success_space (cells a)

-- The first waiter whose compare-exchange succeeds, with the waiters that are left.
unfoldable pub find_waiting : (ℕ → ℕ) → List Waiter → Option (Waiter × List Waiter)
find_waiting cells [] = none
find_waiting cells (w ∷ ws) =
    if cells w.state == state_waiting
    then some (w, ws)
    else elim (find_waiting cells ws) [ none ↦ none | some (v, rest) ↦ some (v, w ∷ rest) ]

-- Waiters are taken off the front until a compare-exchange succeeds.
unfoldable pub pop_waiting : (ℕ → ℕ) → List Waiter → Option Waiter × List Waiter
pop_waiting cells [] = (none, [])
pop_waiting cells (w ∷ ws) =
    if cells w.state == state_waiting then (some w, ws) else pop_waiting cells ws

module _ {T : Type 0} where
  -- `MpmcShared::new`, with the state bytes that waiters may come to use.
  abbrev pub new_around : Ring T → (ℕ → ℕ) → MpmcChannelInternal T
  new_around queue cells = record {
    queue = queue;
    queue_len = 0;
    waiting_sync_senders = [];
    waiting_async_senders = [];
    waiting_sync_receivers = [];
    waiting_async_receivers = [];
    sender_count = 1;
    receiver_count = 1;
    cells = cells;
    woken = [];
  }

  pub new_internal : ℕ → (ℕ → ℕ) → Option (MpmcChannelInternal T)
  new_internal capacity cells = elim (new capacity) [
    | none ↦ none
    | some queue ↦ some (new_around queue cells)
  ]

  abbrev pub len : (MpmcChannelInternal T) → ℕ
  len s = s.queue_len

  abbrev pub is_empty : (MpmcChannelInternal T) → Bool
  is_empty s = s.queue_len == 0

  abbrev pub is_full : ℕ → (MpmcChannelInternal T) → Bool
  is_full capacity s = if capacity == 0 then s.queue_len == 1 else s.queue_len == capacity

  unfoldable pub push_back :
      T → (MpmcChannelInternal T) → Option (Pushed T × (MpmcChannelInternal T))
  push_back item s = elim (push item s.queue) [
    | none ↦ none
    | some (result, queue) ↦ elim result [
      | ok ↦ some (ok, record s { queue = queue; queue_len = add64 s.queue_len 1 })
      | err returned ↦ some (err returned, record s { queue = queue })
    ]
  ]

  unfoldable pub pop_front : (MpmcChannelInternal T) → Option (Option T × (MpmcChannelInternal T))
  pop_front s = elim (pop s.queue) [
    | none ↦ none
    | some (popped, queue) ↦ elim popped [
      | none ↦ some (none, record s { queue = queue })
      | some item ↦ some (some item, record s { queue = queue; queue_len = sub64 s.queue_len 1 })
    ]
  ]

  -- The `for` of `drain_into`.
  unfoldable pub drain_loop : ℕ → List T → Ring T → Option (List T × Ring T)
  drain_loop zero out queue = some (out, queue)
  drain_loop (suc count) out queue = elim (pop queue) [
    | none ↦ none
    | some (popped, rest) ↦ elim popped [
      | none ↦ drain_loop count out rest
      | some item ↦ drain_loop count (out ++ item ∷ []) rest
    ]
  ]

  unfoldable pub drain_into :
      List T → ℕ → (MpmcChannelInternal T) → Option (List T × (MpmcChannelInternal T))
  drain_into out count s = elim (drain_loop count out s.queue) [
    | none ↦ none
    | some (taken, queue) ↦
        some (taken, record s { queue = queue; queue_len = sub64 s.queue_len count })
  ]

  -- `push_back(item).ok().expect(…)`.
  unfoldable pub push_expect : T → (MpmcChannelInternal T) → Option (MpmcChannelInternal T)
  push_expect item s = elim (push_back item s) [
    | none ↦ none
    | some (result, t) ↦ elim result [ ok ↦ some t | err returned ↦ none ]
  ]
