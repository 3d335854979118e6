-- ===== src/Channels/Tests/Mpmcs.antt =====
-- A channel of capacity 2 with a receiver that waits.
use fibre.Base.{
  ℕ, ◌≤◌, ◌≡◌, refl, List, [], ◌∷◌, ◌++◌, Option, none, some, arith, length, take, drop, min,
  if◌then◌else◌, ltb, ◌==◌, ◌||◌, add64, sub64,
}
use fibre.Channels.Ring
use fibre.Channels.Ring.Refine.{pow-IsCapacity}
use fibre.Channels.Mpmc.{
  MpmcChannelInternal, Wake, thread, new_internal, pop_waiting, push_expect, push_back,
}
use fibre.Channels.Mpmc.Queue.{Carries, new_internal-Carries}
use fibre.Channels.Mpmc.Core.{
  BatchSendErrorReason, hand_over, send_loop, received, empty, disconnected, try_send_core,
  try_recv_core, try_send_batch_core, try_recv_batch_core,
}
use fibre.Channels.Mpmc.Core.Single.{
  Sends, send_result, recv_wakes, Left, try_send_core_lem, try_recv_core_lem,
}
use fibre.Channels.Mpmc.Core.Batch.{
  batch_count, batch_reason, try_send_batch_core_lem, try_recv_batch_core_lem,
}
use fibre.Channels.Mpmc.Core.Run.{Trace, taken, here, next, send, delivered_in_order}

abbrev still_waiting : ℕ → ℕ
still_waiting address = 0

-- It holds the value 8; a thread waits to receive and a task to send.
abbrev one_value : MpmcChannelInternal ℕ
one_value = record {
  queue = record { buffer = some 8 ∷ none ∷ []; mask = 1; head = 0; tail = 1 };
  queue_len = 1;
  waiting_sync_senders = [];
  waiting_async_senders = record { handle = 6; state = 48 } ∷ [];
  waiting_sync_receivers = record { handle = 5; state = 40 } ∷ [];
  waiting_async_receivers = [];
  sender_count = 1;
  receiver_count = 1;
  cells = still_waiting;
  woken = [];
}

one_value-Carries : Carries 2 one_value (8 ∷ [])
one_value-Carries = record {
  size = 2;
  ring = record {
    is_capacity = pow-IsCapacity 1 (omega arith);
    mask = refl;
    slots = refl;
    start = 0;
    head = refl;
    tail = refl;
    fits = omega arith;
    at = (refl, tt);
  };
  pos = omega arith;
  room = omega arith;
  len = refl;
  fits = omega arith;
}

-- A batch of three sends one item, and the thread is woken for it.
abbrev batch_log :
    Option (ℕ × Option BatchSendErrorReason × List ℕ × MpmcChannelInternal ℕ)
    → ℕ × List ℕ × List Wake
batch_log none = (0, [], [])
batch_log (some (n, reason, rest, s)) = (n, rest, s.woken)

sends_one :
    batch_log (try_send_batch_core 2 (1 ∷ 2 ∷ 3 ∷ []) 3 one_value) ≡ (1, 2 ∷ 3 ∷ [], thread 5 ∷ [])
unfolding try_send_batch_core send_loop hand_over pop_waiting push_expect push_back Ring.push add64
    sub64
sends_one = refl

try_send_core_lem_example :
    (t : MpmcChannelInternal ℕ) × (try_send_core 2 7 one_value
      ≡ some (send_result 2 7 one_value (8 ∷ []), t))
    × Sends 2 7 one_value (8 ∷ []) t
try_send_core_lem_example = try_send_core_lem 2 7 one_value (8 ∷ []) one_value-Carries

try_recv_core_lem_example :
    (t : MpmcChannelInternal ℕ) × (try_recv_core 2 one_value ≡ some (received 8, t))
    × Carries 2 t []
    × (t.woken ≡ [] ++ recv_wakes 2 one_value (8 ∷ []))
    × (t.sender_count ≡ 1)
    × (t.receiver_count ≡ 1)
    × Left 2 one_value (8 ∷ []) t
try_recv_core_lem_example = try_recv_core_lem 2 one_value (8 ∷ []) one_value-Carries

try_send_batch_core_lem_example :
    let iter : List ℕ = 1 ∷ 2 ∷ 3 ∷ [] in
    let n = batch_count 2 3 one_value (8 ∷ []) in
    (t : MpmcChannelInternal ℕ) × (try_send_batch_core 2 iter 3 one_value
      ≡ some (n, batch_reason 2 3 one_value (8 ∷ []), drop n iter, t))
    × Carries 2 t ((8 ∷ []) ++ take n iter)
    × (t.sender_count ≡ 1)
    × (t.receiver_count ≡ 1)
try_send_batch_core_lem_example =
    try_send_batch_core_lem 2 (1 ∷ 2 ∷ 3 ∷ []) 3 one_value (8 ∷ []) one_value-Carries (omega arith)

try_recv_batch_core_lem_example :
    let xs : List ℕ = 8 ∷ [] in
    let n = min 4 (length xs) in
    (t : MpmcChannelInternal ℕ) × (try_recv_batch_core 2 [] 4 one_value
      ≡ some (
        if ◌==◌ 4 0 || ltb 0 n then received n else if ◌==◌ 1 0 then disconnected else empty,
        [] ++ take n xs,
        t,
      ))
    × Carries 2 t (drop n xs)
    × (t.sender_count ≡ 1)
    × (t.receiver_count ≡ 1)
try_recv_batch_core_lem_example =
    try_recv_batch_core_lem 2 [] 4 one_value (8 ∷ []) one_value-Carries

abbrev made : (s : MpmcChannelInternal ℕ) × (new_internal 2 still_waiting ≡ some s) × Carries 2 s []
made = new_internal-Carries 2 still_waiting (omega arith) (omega arith)

abbrev after_send :
    (t : MpmcChannelInternal ℕ) × (try_send_core 2 7 (made.0)
      ≡ some (send_result 2 7 (made.0) [], t))
    × Sends 2 7 (made.0) [] t
after_send = try_send_core_lem 2 7 (made.0) [] (made.2)

abbrev sent_trace : Trace ℕ
sent_trace = record {
  state = after_send.0;
  accepted = [] ++ taken 7 (send_result 2 7 (made.0) []);
  delivered = [];
}

delivered_in_order_example :
    (queued : List ℕ) × Carries 2 sent_trace.state queued
    × ([] ++ queued ≡ sent_trace.accepted)
    × (length queued ≤ 2)
delivered_in_order_example =
    delivered_in_order 2 still_waiting (made.0) sent_trace (omega arith) (omega arith) (made.1)
      (next here (send 7 (send_result 2 7 (made.0) []) (after_send.1) refl refl))
