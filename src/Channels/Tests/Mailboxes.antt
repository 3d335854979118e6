-- ===== src/Channels/Tests/Mailboxes.antt =====
-- A mailbox of capacity 1 whose consumer, the thread 4, waits.
use fibre.Base.{ℕ, ◌≡◌, ◌⊎◌, refl, arith, List, [], ◌∷◌, ◌++◌, none, some, false}
use fibre.Channels.Mailbox
use fibre.Channels.Mailbox.{
  MailboxInternal, Waiter, sync, channel, receive, receive_from, wake_consumer,
}
use fibre.Channels.Mailbox.Calls.{Call, call, run}
use fibre.Channels.Mailbox.History.{Holds, offered, received, run_lem}
use fibre.Channels.Mailbox.Wakes.{delivers, disconnects, calls_of, woken_once}

abbrev waiting : List (Call ℕ)
waiting = Call.recv_sync 4 ∷ []

abbrev crowded : List (Call ℕ)
crowded =
    Call.recv_sync 4
    ∷ Call.deliver 1
    ∷ Call.deliver 2
    ∷ Call.recv_sync 4
    ∷ Call.deliver 3
    ∷ Call.disconnect
    ∷ []

run_lem_example :
    Holds 1 (offered crowded) (received (run crowded (channel 1)).0) (run crowded (channel 1)).1
run_lem_example = run_lem 1 crowded (omega arith)

-- The second value is dropped.
crowded_result : received (run crowded (channel 1)).0 ≡ 1 ∷ []
unfolding run call Mailbox.deliver Mailbox.disconnect Mailbox.recv_sync receive receive_from
    wake_consumer
crowded_result = refl

waiting_waits : (run waiting (channel 1)).1.consumer_waiter ≡ some (sync 4)
unfolding run call Mailbox.recv_sync receive receive_from
waiting_waits = refl

woken_once_example :
    let s = (run waiting (channel 1)).1 in
    let t = (run (calls_of (delivers 7 ∷ disconnects ∷ [])) s).1 in
    ((t.consumer_waiter ≡ none) × (t.woken ≡ s.woken ++ sync 4 ∷ []))
    ⊎ ((t.consumer_waiter ≡ some (sync 4))
        × (t.woken ≡ s.woken)
        × (t.buffer ≡ [])
        × (t.is_disconnected ≡ false))
woken_once_example = woken_once 1 waiting (delivers 7 ∷ disconnects ∷ []) (sync 4) waiting_waits
