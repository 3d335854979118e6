-- ===== src/Channels/Mpmc/Core/Run.antt =====
-- Critical sections of a channel in any order, and the values that pass through it.
use fibre.Base.{
  ℕ, ◌<◌, ◌≤◌, ◌≡◌, ◌^◌, refl, List, [], ◌∷◌, ◌++◌, Option, some, arith, length, take, drop, min,
  if◌then◌else◌, ltb, ◌==◌, take-append-drop, append_assoc, append-nil, Bool-cases, inl, inr, ap,
  sym, subst, ◌∙◌,
}
use fibre.Channels.Mpmc.{MpmcChannelInternal, new_internal}
use fibre.Channels.Mpmc.Queue.{Carries, Carries-same, new_internal-Carries}
use fibre.Channels.Mpmc.Core.{
  TrySend, sent, TryRecv, received, empty, disconnected, BatchSendErrorReason, try_send_core,
  try_recv_core, try_send_batch_core, try_recv_batch_core,
}
use fibre.Channels.Mpmc.Core.Single.{accepts, recv_result, try_send_core_lem, try_recv_core_lem}
use fibre.Channels.Mpmc.Core.Batch.{batch_count, try_send_batch_core_lem, try_recv_batch_core_lem}

-- A channel with the values that it accepted and those that it delivered, in order.
pub record Trace (T : Type 0) : Type 0 where
  pub state : MpmcChannelInternal T
  pub accepted : List T
  pub delivered : List T

module _ {T : Type 0} where
  abbrev pub taken : T → TrySend T → List T
  taken item sent = item ∷ []
  taken item (TrySend.full v) = []
  taken item (TrySend.closed v) = []

  abbrev pub given : TryRecv T → List T
  given (received v) = v ∷ []
  given empty = []
  given disconnected = []

  -- One critical section. The last kind is any that leaves the queue alone: waiters come and go, their
  -- state bytes change, handles are cloned and dropped.
  pub data Step (capacity : ℕ) (a : Trace T) (b : Trace T) : Type 0 where
    send :
        (item : T) (r : TrySend T)
        → try_send_core capacity item a.state ≡ some (r, b.state)
        → b.accepted ≡ a.accepted ++ taken item r
        → b.delivered ≡ a.delivered
        → Step capacity a b
    recv :
        (r : TryRecv T)
        → try_recv_core capacity a.state ≡ some (r, b.state)
        → b.accepted ≡ a.accepted
        → b.delivered ≡ a.delivered ++ given r
        → Step capacity a b
    send_batch :
        (iter : List T) (limit n : ℕ) (reason : Option BatchSendErrorReason) (rest : List T)
        → limit ≤ length iter
        → try_send_batch_core capacity iter limit a.state ≡ some (n, reason, rest, b.state)
        → b.accepted ≡ a.accepted ++ take n iter
        → b.delivered ≡ a.delivered
        → Step capacity a b
    recv_batch :
        (max_items : ℕ) (r : TryRecv ℕ) (out : List T)
        → try_recv_batch_core capacity [] max_items a.state ≡ some (r, out, b.state)
        → b.accepted ≡ a.accepted
        → b.delivered ≡ a.delivered ++ out
        → Step capacity a b
    elsewhere :
        b.state.queue ≡ a.state.queue
        → b.state.queue_len ≡ a.state.queue_len
        → b.accepted ≡ a.accepted
        → b.delivered ≡ a.delivered
        → Step capacity a b

  pub data Reach (capacity : ℕ) (a : Trace T) : Trace T → Type 0 where
    here : Reach capacity a a
    next : {b c : Trace T} → Reach capacity a b → Step capacity b c → Reach capacity a c

  -- What the queue holds is what was accepted and not yet delivered.
  pub record InTransit (capacity : ℕ) (a : Trace T) : Type 0 where
    pub queued : List T
    pub carries : Carries capacity a.state queued
    pub order : a.delivered ++ queued ≡ a.accepted

  -- What leaves the front of the queue goes to the end of the delivered values, and what enters it at
  -- the end to the end of the accepted ones.
  passed :
      (delivered queued accepted entered left kept : List T)
      → delivered ++ queued ≡ accepted
      → left ++ kept ≡ queued ++ entered
      → (delivered ++ left) ++ kept ≡ accepted ++ entered
  passed delivered queued accepted entered left kept order split =
      append_assoc delivered left kept
      ∙ (ap (λ (xs : List T). delivered ++ xs) split
          ∙ (sym (append_assoc delivered queued entered)
              ∙ ap (λ (xs : List T). xs ++ entered) order))

  same_result :
      {A : Type 0} {o : Option (A × MpmcChannelInternal T)} {x y : A} {s t : MpmcChannelInternal T}
      → o ≡ some (x, s)
      → o ≡ some (y, t)
      → (x ≡ y) × (s ≡ t)
  same_result h k = (cc, cc)

  module _ (capacity : ℕ) (a b : Trace T) (i : InTransit capacity a) where
    send-InTransit :
        (item : T) (r : TrySend T)
        → try_send_core capacity item a.state ≡ some (r, b.state)
        → b.accepted ≡ a.accepted ++ taken item r
        → b.delivered ≡ a.delivered
        → InTransit capacity b
    send-InTransit item r runs acc del =
        let (t, same, s) = try_send_core_lem capacity item a.state i.queued i.carries in
        let (result, state) = same_result same runs in
        record {
          queued = if accepts capacity a.state i.queued then i.queued ++ item ∷ [] else i.queued;
          carries =
              subst
                (λ u.
                  Carries capacity u
                    (if accepts capacity a.state i.queued then i.queued ++ item ∷ [] else i.queued))
                state s.carries;
          order = elim (Bool-cases (a.state.receiver_count == 0)) [
            | inl gone ↦ ground (arith, gone, result, acc, del, i.order, append-nil a.accepted)
            | inr alive ↦ elim (Bool-cases (ltb (length i.queued) capacity)) [
              | inr full ↦
                  ground (arith, alive, full, result, acc, del, i.order, append-nil a.accepted)
              | inl room ↦ ground (
                arith,
                alive,
                room,
                result,
                acc,
                del,
                i.order,
                append_assoc a.delivered i.queued (item ∷ []),
              )
            ]
          ];
        }

    recv-InTransit :
        (r : TryRecv T)
        → try_recv_core capacity a.state ≡ some (r, b.state)
        → b.accepted ≡ a.accepted
        → b.delivered ≡ a.delivered ++ given r
        → InTransit capacity b
    recv-InTransit r runs acc del =
        let (t, same, carries, _, _, _, _) =
          try_recv_core_lem capacity a.state i.queued i.carries in
        let (result, state) = same_result same runs in
        record {
          queued = drop 1 i.queued;
          carries = subst (λ u. Carries capacity u (drop 1 i.queued)) state carries;
          order =
              rw (acc, del, ← result)
                (rw append-nil at (
                  passed a.delivered i.queued a.accepted []
                    (given (recv_result capacity a.state i.queued)) (drop 1 i.queued) i.order
                    (front i.queued)));
        }
      where
        front : (xs : List T) → given (recv_result capacity a.state xs) ++ drop 1 xs ≡ xs ++ []
        front [] = ground arith
        front (x ∷ xs) = ground (arith, append-nil xs)

    send_batch-InTransit :
        (iter : List T) (limit n : ℕ) (reason : Option BatchSendErrorReason) (rest : List T)
        → limit ≤ length iter
        → try_send_batch_core capacity iter limit a.state ≡ some (n, reason, rest, b.state)
        → b.accepted ≡ a.accepted ++ take n iter
        → b.delivered ≡ a.delivered
        → InTransit capacity b
    send_batch-InTransit iter limit n reason rest le runs acc del =
        let (t, same, carries, _, _) =
          try_send_batch_core_lem capacity iter limit a.state i.queued i.carries le in
        let count : batch_count capacity limit a.state i.queued ≡ n = cc in
        let state : t ≡ b.state = cc in
        record {
          queued = i.queued ++ take n iter;
          carries =
              subst (λ u. Carries capacity u (i.queued ++ take n iter)) state (rw count at carries);
          order =
              ground (arith, acc, del, i.order, append_assoc a.delivered i.queued (take n iter));
        }

    recv_batch-InTransit :
        (max_items : ℕ) (r : TryRecv ℕ) (out : List T)
        → try_recv_batch_core capacity [] max_items a.state ≡ some (r, out, b.state)
        → b.accepted ≡ a.accepted
        → b.delivered ≡ a.delivered ++ out
        → InTransit capacity b
    recv_batch-InTransit max_items r out runs acc del =
        let (t, same, carries, _, _) =
          try_recv_batch_core_lem capacity [] max_items a.state i.queued i.carries in
        let n = min max_items (length i.queued) in
        let took : take n i.queued ≡ out = cc in
        let state : t ≡ b.state = cc in
        record {
          queued = drop n i.queued;
          carries = subst (λ u. Carries capacity u (drop n i.queued)) state carries;
          order =
              rw (acc, del, ← took)
                (rw append-nil at (
                  passed a.delivered i.queued a.accepted [] (take n i.queued) (drop n i.queued)
                    i.order (rw append-nil (take-append-drop n i.queued))));
        }

  Step-InTransit :
      (capacity : ℕ) (a b : Trace T)
      → Step capacity a b
      → InTransit capacity a
      → InTransit capacity b
  Step-InTransit capacity a b (send item r runs acc del) i =
      send-InTransit capacity a b i item r runs acc del
  Step-InTransit capacity a b (recv r runs acc del) i = recv-InTransit capacity a b i r runs acc del
  Step-InTransit capacity a b (send_batch iter limit n reason rest le runs acc del) i =
      send_batch-InTransit capacity a b i iter limit n reason rest le runs acc del
  Step-InTransit capacity a b (recv_batch max_items r out runs acc del) i =
      recv_batch-InTransit capacity a b i max_items r out runs acc del
  Step-InTransit capacity a b (elsewhere queue len acc del) i = record {
    queued = i.queued;
    carries = Carries-same capacity a.state b.state i.queued queue len i.carries;
    order = ground (arith, acc, del, i.order);
  }

  Reach-InTransit :
      (capacity : ℕ) (a b : Trace T)
      → Reach capacity a b
      → InTransit capacity a
      → InTransit capacity b
  Reach-InTransit capacity a b here i = i
  Reach-InTransit capacity a c (next {b = b} r s) i =
      Step-InTransit capacity b c s (Reach-InTransit capacity a b r i)

  -- In every state that a new channel of a capacity of 1 to 2^63 comes to, whatever critical sections
  -- ran in whatever order, the values delivered and those in the queue are together the values
  -- accepted, in their order, and the queue is within the capacity: none is lost, made up, delivered
  -- twice or overtaken.
  pub delivered_in_order :
      (capacity : ℕ) (cells : ℕ → ℕ) (s : MpmcChannelInternal T) (b : Trace T)
      → 0 < capacity
      → capacity ≤ 2 ^ 63
      → new_internal capacity cells ≡ some s
      → Reach capacity (record { state = s; accepted = []; delivered = [] }) b
      → (queued : List T) × Carries capacity b.state queued
        × (b.delivered ++ queued ≡ b.accepted)
        × (length queued ≤ capacity)
  delivered_in_order capacity cells s b pos small made r =
      let (t, makes, carries) = new_internal-Carries {T = T} capacity cells pos small in
      let same : t ≡ s = cc in
      let i =
        Reach-InTransit capacity (record { state = s; accepted = []; delivered = [] }) b r
          (record {
            queued = [];
            carries = subst (λ u. Carries capacity u []) same carries;
            order = refl;
          }) in
      (i.queued, i.carries, i.order, i.carries.fits)
