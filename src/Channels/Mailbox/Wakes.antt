-- ===== src/Channels/Mailbox/Wakes.antt =====
-- Whether a consumer that waits on a mailbox is woken.
use fibre.Base.{
  ℕ, ◌≡◌, ◌⊎◌, refl, ap, ◌∙◌, List, [], ◌∷◌, ◌++◌, none, some, true, false, leb, length, append-nil,
  if_cases, if◌then◌else◌, inl, inr,
}
use fibre.Channels.Mailbox
use fibre.Channels.Mailbox.{
  Waiter, sync, async, waiters, MailboxInternal, Reply, parked, empty, timeout, channel,
  wake_consumer, receive, receive_from,
}
use fibre.Channels.Mailbox.Calls.{Call, call, run}

-- What the producer calls.
pub data Produce (T : Type 0) : Type 0 where
  delivers : T → Produce T
  disconnects : Produce T

module _ {T : Type 0} where
  -- A consumer waits only on an empty mailbox whose producer is alive.
  pub record Idle (s : MailboxInternal T) : Type 0 where
    pub no_value : (w : Waiter) → s.consumer_waiter ≡ some w → s.buffer ≡ []
    pub connected : (w : Waiter) → s.consumer_waiter ≡ some w → s.is_disconnected ≡ false

  wake_consumer-Idle : (s : MailboxInternal T) → Idle (wake_consumer s)
  unfolding wake_consumer
  wake_consumer-Idle s = record { no_value = λ w e. absurd cc; connected = λ w e. absurd cc }

  receive-Idle :
      (wait : MailboxInternal T → Reply T × MailboxInternal T) (s : MailboxInternal T)
      → Idle s
      → (s.buffer ≡ [] → s.is_disconnected ≡ false → Idle (wait s).1)
      → Idle (receive wait s).1
  unfolding receive receive_from
  receive-Idle wait s idle waits = go s.buffer refl
    where
      go : (bs : List T) → s.buffer ≡ bs → Idle (receive_from wait s bs).1
      go [] e =
          if_cases (λ (a : Reply T × MailboxInternal T). Idle a.1) s.is_disconnected (λ gone. idle)
            (λ alive. waits e alive)
      go (v ∷ rest) e = record {
        no_value = λ w waits'. absurd (let h = idle.no_value w waits' in cc);
        connected = idle.connected;
      }

  parked-Idle :
      (s : MailboxInternal T) (w : Waiter)
      → s.buffer ≡ []
      → s.is_disconnected ≡ false
      → Idle (record s { consumer_waiter = some w })
  parked-Idle s w nothing alive = record { no_value = λ v e. nothing; connected = λ v e. alive }

  call-Idle : (c : Call T) (s : MailboxInternal T) → Idle s → Idle (call c s).1
  unfolding call Mailbox.deliver Mailbox.disconnect Mailbox.try_recv Mailbox.recv_sync Mailbox.poll
      Mailbox.recv_timeout_sync
  call-Idle (Call.deliver v) s idle =
      if_cases Idle (leb s.capacity (length s.buffer))
        (λ full. record { no_value = idle.no_value; connected = idle.connected })
        (λ room. wake_consumer-Idle (record s { buffer = s.buffer ++ v ∷ [] }))
  call-Idle Call.disconnect s idle =
      if_cases Idle s.is_disconnected (λ gone. idle)
        (λ alive. wake_consumer-Idle (record s { is_disconnected = true }))
  call-Idle Call.try_recv s idle = receive-Idle (λ s. (empty, s)) s idle (λ nothing alive. idle)
  call-Idle (Call.recv_sync current) s idle =
      receive-Idle (λ s. (parked, record s { consumer_waiter = some (sync current) })) s idle
        (parked-Idle s (sync current))
  call-Idle (Call.poll task) s idle =
      receive-Idle (λ s. (parked, record s { consumer_waiter = some (async task) })) s idle
        (parked-Idle s (async task))
  call-Idle (Call.recv_timeout_sync current expired) s idle =
      receive-Idle
        (λ s.
          if expired
          then (timeout, s)
          else (parked, record s { consumer_waiter = some (sync current) }))
        s idle
        (λ nothing alive.
          if_cases (λ (a : Reply T × MailboxInternal T). Idle a.1) expired (λ late. idle)
            (λ early. parked-Idle s (sync current) nothing alive))

  run-Idle : (calls : List (Call T)) (s : MailboxInternal T) → Idle s → Idle (run calls s).1
  unfolding run
  run-Idle [] s idle = idle
  run-Idle (c ∷ calls) s idle = run-Idle calls (call c s).1 (call-Idle c s idle)

  abbrev pub calls_of : List (Produce T) → List (Call T)
  calls_of [] = []
  calls_of (delivers v ∷ ps) = Call.deliver v ∷ calls_of ps
  calls_of (disconnects ∷ ps) = Call.disconnect ∷ calls_of ps

  abbrev Waits : Waiter → List Waiter → MailboxInternal T → Type 0
  Waits w log t = (t.consumer_waiter ≡ some w) × (t.woken ≡ log)

  abbrev Woken : List Waiter → MailboxInternal T → Type 0
  Woken log t = (t.consumer_waiter ≡ none) × (t.woken ≡ log)

  -- Nobody is woken while nobody waits.
  wake_consumer-Woken :
      (log : List Waiter) (s : MailboxInternal T) → Woken log s → Woken log (wake_consumer s)
  unfolding wake_consumer
  wake_consumer-Woken log s (nobody, same) =
      (refl, ap (λ o. s.woken ++ waiters o) nobody ∙ (append-nil s.woken ∙ same))

  wake_consumer-Waits :
      (w : Waiter) (log : List Waiter) (s : MailboxInternal T)
      → Waits w log s
      → Woken (log ++ w ∷ []) (wake_consumer s)
  unfolding wake_consumer
  wake_consumer-Waits w log s (waits, same) =
      (refl, ap (λ o. s.woken ++ waiters o) waits ∙ ap (λ xs. xs ++ w ∷ []) same)

  run-Woken :
      (log : List Waiter) (ps : List (Produce T)) (s : MailboxInternal T)
      → Woken log s
      → Woken log (run (calls_of ps) s).1
  unfolding run call Mailbox.deliver Mailbox.disconnect
  run-Woken log [] s k = k
  run-Woken log (delivers v ∷ ps) s k = run-Woken log ps (Mailbox.deliver v s) (
      if_cases (Woken log) (leb s.capacity (length s.buffer)) (λ full. k)
        (λ room. wake_consumer-Woken log (record s { buffer = s.buffer ++ v ∷ [] }) k))
  run-Woken log (disconnects ∷ ps) s k = run-Woken log ps (Mailbox.disconnect s) (
      if_cases (Woken log) s.is_disconnected (λ gone. k)
        (λ alive. wake_consumer-Woken log (record s { is_disconnected = true }) k))

  abbrev Either : Waiter → List Waiter → MailboxInternal T → Type 0
  Either w log t = Waits w log t ⊎ Woken (log ++ w ∷ []) t

  run-Either :
      (w : Waiter) (log : List Waiter) (ps : List (Produce T)) (s : MailboxInternal T)
      → Either w log s
      → Either w log (run (calls_of ps) s).1
  unfolding run call Mailbox.deliver Mailbox.disconnect
  run-Either w log ps s (inr k) = inr (run-Woken (log ++ w ∷ []) ps s k)
  run-Either w log [] s (inl k) = inl k
  run-Either w log (delivers v ∷ ps) s (inl k) = run-Either w log ps (Mailbox.deliver v s) (
      if_cases (Either w log) (leb s.capacity (length s.buffer)) (λ full. inl k)
        (λ room. inr (wake_consumer-Waits w log (record s { buffer = s.buffer ++ v ∷ [] }) k)))
  run-Either w log (disconnects ∷ ps) s (inl k) = run-Either w log ps (Mailbox.disconnect s) (
      if_cases (Either w log) s.is_disconnected (λ gone. inl k)
        (λ alive. inr (wake_consumer-Waits w log (record s { is_disconnected = true }) k)))

  -- A consumer that waits on a mailbox, however that came about, is not left asleep: once the producer
  -- has made any further calls, either the consumer was woken, exactly once, or it still waits, nothing
  -- was woken, and the mailbox is empty and its producer has not disconnected.
  pub woken_once :
      (capacity : ℕ) (calls : List (Call T)) (ps : List (Produce T)) (w : Waiter)
      → (run calls (channel capacity)).1.consumer_waiter ≡ some w
      → let s = (run calls (channel capacity)).1 in
        let t = (run (calls_of ps) s).1 in
        ((t.consumer_waiter ≡ none) × (t.woken ≡ s.woken ++ w ∷ []))
        ⊎ ((t.consumer_waiter ≡ some w)
            × (t.woken ≡ s.woken)
            × (t.buffer ≡ [])
            × (t.is_disconnected ≡ false))
  woken_once capacity calls ps w waits =
      let s = (run calls (channel capacity)).1 in
      let t = (run (calls_of ps) s).1 in
      let start : Idle (channel {T = T} capacity) = record {
        no_value = λ v e. refl;
        connected = λ v e. refl;
      } in
      let idle = run-Idle (calls_of ps) s (run-Idle calls (channel capacity) start) in
      elim (run-Either w s.woken ps s (inl (waits, refl))) [
        | inr k ↦ inl k
        | inl (same, log) ↦ inr (same, log, idle.no_value w same, idle.connected w same)
      ]
