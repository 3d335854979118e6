-- ===== src/Channels/Mailbox.antt =====
-- channels/src/spmc/topic/mailbox.rs: the bounded mailbox of one subscriber of a topic. Each method runs
-- under the mailbox's mutex, and a blocking receive is a loop of such critical sections, between which its
-- thread parks.
pub mod Calls
pub mod History
pub mod Wakes
use fibre.Base.{
  ℕ, List, [], ◌∷◌, ◌++◌, Option, none, some, Bool, true, false, leb, if◌then◌else◌, length, add64,
}

-- A thread or a task, by its number.
pub data Waiter : Type 0 where
  sync : ℕ → Waiter
  async : ℕ → Waiter

-- The state behind the mutex, with the log of the waiters that were woken.
pub record MailboxInternal (T : Type 0) : Type 0 where
  pub buffer : List T
  pub capacity : ℕ
  pub consumer_waiter : Option Waiter
  pub is_disconnected : Bool
  pub dropped_count : ℕ
  pub woken : List Waiter

-- What a critical section comes to: nothing to return, a value, an error, or the caller waits.
pub data Reply (T : Type 0) : Type 0 where
  done empty disconnected timeout parked : Reply T
  value : T → Reply T

abbrev pub waiters : Option Waiter → List Waiter
waiters none = []
waiters (some waiter) = waiter ∷ []

module _ {T : Type 0} where
  abbrev pub channel : ℕ → MailboxInternal T
  channel capacity = record {
    buffer = [];
    capacity = capacity;
    consumer_waiter = none;
    is_disconnected = false;
    dropped_count = 0;
    woken = [];
  }

  -- The waiter is taken out and woken, if there is one.
  unfoldable pub wake_consumer : MailboxInternal T → MailboxInternal T
  wake_consumer s = record s {
    consumer_waiter = none;
    woken = s.woken ++ waiters s.consumer_waiter;
  }

  unfoldable pub deliver : T → MailboxInternal T → MailboxInternal T
  deliver v s =
      if leb s.capacity (length s.buffer)
      then record s { dropped_count = add64 s.dropped_count 1 }
      else wake_consumer (record s { buffer = s.buffer ++ v ∷ [] })

  unfoldable pub disconnect : MailboxInternal T → MailboxInternal T
  disconnect s =
      if s.is_disconnected then s else wake_consumer (record s { is_disconnected = true })

  -- What every way to receive begins with, given what is in the buffer; `wait` is what the way does with
  -- an empty mailbox whose producer is alive.
  unfoldable pub receive_from :
      (MailboxInternal T → Reply T × MailboxInternal T)
      → MailboxInternal T
      → List T
      → Reply T × MailboxInternal T
  receive_from wait s (v ∷ rest) = (value v, record s { buffer = rest })
  receive_from wait s [] = if s.is_disconnected then (disconnected, s) else wait s

  unfoldable pub receive :
      (MailboxInternal T → Reply T × MailboxInternal T)
      → MailboxInternal T
      → Reply T × MailboxInternal T
  receive wait s = receive_from wait s s.buffer

  unfoldable pub try_recv : MailboxInternal T → Reply T × MailboxInternal T
  try_recv = receive (λ s. (empty, s))

  -- One round of the loop of `recv_sync` on a thread.
  unfoldable pub recv_sync : ℕ → MailboxInternal T → Reply T × MailboxInternal T
  recv_sync current = receive (λ s. (parked, record s { consumer_waiter = some (sync current) }))

  -- One round of the loop of `recv_timeout_sync`; `expired` says that the time has run out.
  unfoldable pub recv_timeout_sync : ℕ → Bool → MailboxInternal T → Reply T × MailboxInternal T
  recv_timeout_sync current expired = receive (λ s.
      if expired
      then (timeout, s)
      else (parked, record s { consumer_waiter = some (sync current) }))

  -- `poll` of `RecvFuture`. A waker that would wake the same task stays, which is the same waiter here.
  unfoldable pub poll : ℕ → MailboxInternal T → Reply T × MailboxInternal T
  poll task = receive (λ s. (parked, record s { consumer_waiter = some (async task) }))
