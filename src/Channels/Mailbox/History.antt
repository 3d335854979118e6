-- ===== src/Channels/Mailbox/History.antt =====
-- What goes into a mailbox and what comes out of it.
use fibre.Base.{
  ℕ, ◌+◌, ◌<◌, ◌≤◌, ◌≡◌, refl, sym, subst, arith, List, [], ◌∷◌, ◌++◌, some, true, leb, length,
  length-append, append_assoc, append-nil, add64, u64_mod, if◌then◌else◌, if_cases,
}
use fibre.Channels.Mailbox.{
  Waiter, MailboxInternal, Reply, done, empty, disconnected, timeout, parked, value, channel,
  wake_consumer, receive, receive_from, sync, async,
}
use fibre.Channels.Mailbox
use fibre.Base.Sublists.{Sub, nil, keep, skip}
use fibre.Channels.Mailbox.Calls.{Call, call, run}

module _ {T : Type 0} where
  Sub-keep_last : {xs ys : List T} (v : T) → Sub xs ys → Sub (xs ++ v ∷ []) (ys ++ v ∷ [])
  Sub-keep_last v nil = keep v nil
  Sub-keep_last v (keep x s) = keep x (Sub-keep_last v s)
  Sub-keep_last v (skip y s) = skip y (Sub-keep_last v s)

  Sub-skip_last : {xs ys : List T} (v : T) → Sub xs ys → Sub xs (ys ++ v ∷ [])
  Sub-skip_last v nil = skip v nil
  Sub-skip_last v (keep x s) = keep x (Sub-skip_last v s)
  Sub-skip_last v (skip y s) = skip y (Sub-skip_last v s)

  -- The values that the producer offers, and those that the consumer is given.
  abbrev pub offered : List (Call T) → List T
  offered [] = []
  offered (Call.deliver v ∷ calls) = v ∷ offered calls
  offered (Call.disconnect ∷ calls) = offered calls
  offered (Call.try_recv ∷ calls) = offered calls
  offered (Call.recv_sync current ∷ calls) = offered calls
  offered (Call.poll task ∷ calls) = offered calls
  offered (Call.recv_timeout_sync current expired ∷ calls) = offered calls

  abbrev pub given : Reply T → List T
  given (value v) = v ∷ []
  given done = []
  given empty = []
  given disconnected = []
  given timeout = []
  given parked = []

  abbrev pub received : List (Reply T) → List T
  received [] = []
  received (r ∷ replies) = given r ++ received replies

  -- The values in and out so far, with the state that they lead to.
  pub record Holds (capacity : ℕ) (ins : List T) (outs : List T) (s : MailboxInternal T)
      : Type 0 where
    pub size : s.capacity ≡ capacity
    pub fits : length s.buffer ≤ capacity
    pub order : Sub (outs ++ s.buffer) ins
    pub count : length ins ≡ length outs + length s.buffer + s.dropped_count

  wake_consumer-Holds :
      (capacity : ℕ) (ins outs : List T) (s : MailboxInternal T)
      → Holds capacity ins outs s
      → Holds capacity ins outs (wake_consumer s)
  unfolding wake_consumer
  wake_consumer-Holds capacity ins outs s h = record {
    size = h.size;
    fits = h.fits;
    order = h.order;
    count = h.count;
  }

  module _ (capacity : ℕ) (ins outs : List T) where
    deliver-Holds :
        (v : T) (s : MailboxInternal T)
        → length ins + 1 < u64_mod
        → Holds capacity ins outs s
        → Holds capacity (ins ++ v ∷ []) outs (Mailbox.deliver v s)
    unfolding Mailbox.deliver add64
    deliver-Holds v s few h =
        let longer = length-append ins (v ∷ []) in
        if_cases (λ t. Holds capacity (ins ++ v ∷ []) outs t) (leb s.capacity (length s.buffer))
          (λ full. record {
            size = h.size;
            fits = h.fits;
            order = Sub-skip_last v h.order;
            count = omega (arith, longer, h.count, few);
          })
          (λ room.
            wake_consumer-Holds capacity (ins ++ v ∷ []) outs
              (record s { buffer = s.buffer ++ v ∷ [] })
              (record {
                size = h.size;
                fits = ground (arith, h.size, room, length-append s.buffer (v ∷ []));
                order =
                    subst (λ xs. Sub xs (ins ++ v ∷ [])) (append_assoc outs s.buffer (v ∷ []))
                      (Sub-keep_last v h.order);
                count = omega (arith, longer, h.count, length-append s.buffer (v ∷ []));
              }))

    abbrev After : Reply T × MailboxInternal T → Type 0
    After (reply, t) = Holds capacity ins (outs ++ given reply) t

    receive-After :
        (wait : MailboxInternal T → Reply T × MailboxInternal T) (s : MailboxInternal T)
        → After (wait s)
        → Holds capacity ins outs s
        → After (receive wait s)
    unfolding receive receive_from
    receive-After wait s waits h = go s.buffer refl
      where
        go : (bs : List T) → s.buffer ≡ bs → After (receive_from wait s bs)
        go [] e = if_cases After s.is_disconnected (λ gone. rw append-nil h) (λ alive. waits)
        go (v ∷ rest) e = record {
          size = h.size;
          fits = let le = h.fits in ground (arith, e, le);
          order =
              subst (λ xs. Sub xs ins) (sym (append_assoc outs (v ∷ []) rest)) (rw e at h.order);
          count = ground (arith, e, h.count, length-append outs (v ∷ []));
        }

  offered-cons :
      (c : Call T) (calls : List (Call T)) → offered (c ∷ calls) ≡ offered (c ∷ []) ++ offered calls
  offered-cons (Call.deliver v) calls = refl
  offered-cons Call.disconnect calls = refl
  offered-cons Call.try_recv calls = refl
  offered-cons (Call.recv_sync current) calls = refl
  offered-cons (Call.poll task) calls = refl
  offered-cons (Call.recv_timeout_sync current expired) calls = refl

  offered-length : (c : Call T) → length (offered (c ∷ [])) ≤ 1
  offered-length (Call.deliver v) = omega arith
  offered-length Call.disconnect = omega arith
  offered-length Call.try_recv = omega arith
  offered-length (Call.recv_sync current) = omega arith
  offered-length (Call.poll task) = omega arith
  offered-length (Call.recv_timeout_sync current expired) = omega arith

  module _ (capacity : ℕ) (ins outs : List T) (s : MailboxInternal T)
      (h : Holds capacity ins outs s) where
    parks : (w : Waiter) → After capacity ins outs (parked, record s { consumer_waiter = some w })
    parks w = record {
      size = h.size;
      fits = h.fits;
      order = rw append-nil h.order;
      count = rw append-nil h.count;
    }

    receives :
        (wait : MailboxInternal T → Reply T × MailboxInternal T)
        → After capacity ins outs (wait s)
        → Holds capacity (ins ++ []) (outs ++ given (receive wait s).0) (receive wait s).1
    receives wait waits = rw (append-nil ins) (receive-After capacity ins outs wait s waits h)

    call-Holds :
        (c : Call T)
        → length ins + 1 < u64_mod
        → Holds capacity (ins ++ offered (c ∷ [])) (outs ++ given (call c s).0) (call c s).1
    unfolding call Mailbox.disconnect Mailbox.try_recv Mailbox.recv_sync Mailbox.poll
        Mailbox.recv_timeout_sync
    call-Holds (Call.deliver v) few =
        rw (append-nil outs) (deliver-Holds capacity ins outs v s few h)
    call-Holds Call.disconnect few =
        rw (append-nil outs, append-nil ins)
          (if_cases (λ t. Holds capacity ins outs t) s.is_disconnected (λ gone. h)
            (λ alive.
              wake_consumer-Holds capacity ins outs (record s { is_disconnected = true })
                (record { size = h.size; fits = h.fits; order = h.order; count = h.count })))
    call-Holds Call.try_recv few = receives (λ s. (empty, s)) (rw (append-nil outs) h)
    call-Holds (Call.recv_sync current) few =
        receives (λ s. (parked, record s { consumer_waiter = some (sync current) }))
          (parks (sync current))
    call-Holds (Call.poll task) few =
        receives (λ s. (parked, record s { consumer_waiter = some (async task) }))
          (parks (async task))
    call-Holds (Call.recv_timeout_sync current expired) few =
        receives
          (λ s.
            if expired
            then (timeout, s)
            else (parked, record s { consumer_waiter = some (sync current) }))
          (if_cases (After capacity ins outs) expired (λ late. rw (append-nil outs) h)
            (λ early. parks (sync current)))

  run-Holds :
      (capacity : ℕ) (ins outs : List T) (s : MailboxInternal T) (calls : List (Call T))
      → length ins + length calls < u64_mod
      → Holds capacity ins outs s
      → Holds capacity (ins ++ offered calls) (outs ++ received (run calls s).0) (run calls s).1
  unfolding run
  run-Holds capacity ins outs s [] few h = rw (append-nil ins, append-nil outs) h
  run-Holds capacity ins outs s (c ∷ calls) few h =
      let ins' = ins ++ offered (c ∷ []) in
      let outs' = outs ++ given (call c s).0 in
      let more = length-append ins (offered (c ∷ [])) in
      let rest =
        run-Holds capacity ins' outs' (call c s).1 calls
          (omega (arith, few, more, offered-length c))
          (call-Holds capacity ins outs s h c (omega arith)) in
      rw
        (
          offered-cons c calls,
          ← append_assoc ins (offered (c ∷ [])) (offered calls),
          ← append_assoc outs (given (call c s).0) (received (run calls (call c s).1).0),
        )
        rest

  -- Whatever is called on a new mailbox, in whatever order, fewer than 2^64 times: the values received and
  -- those in the buffer are together the values offered, in their order, with some left out, and those
  -- left out are as many as the mailbox counted as dropped. The buffer is within the capacity.
  pub run_lem :
      (capacity : ℕ) (calls : List (Call T))
      → length calls < u64_mod
      → Holds capacity
          (offered calls)
          (received (run calls (channel capacity)).0)
          (run calls (channel capacity)).1
  run_lem capacity calls few =
      run-Holds capacity [] [] (channel capacity) calls (omega (arith, few))
        (record { size = refl; fits = omega arith; order = nil; count = refl })
