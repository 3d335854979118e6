-- ===== src/Channels/Mpmc/Core/Waiters.antt =====
-- Which waiter a send or a receive wakes.
use fibre.Base.{
  ℕ, ◌≡◌, refl, List, [], ◌∷◌, ◌++◌, Option, none, some, arith, ◌==◌, if◌then◌else◌, map, take, inl,
  inr, Option-cases, Bool-cases, append-nil,
}
use fibre.Channels.Mpmc.{
  Waiter, Wake, thread, waker, MpmcChannelInternal, state_waiting, find_waiting, claim,
}
use fibre.Channels.Mpmc.Core.{take_receiver, take_sender, wake_sender}

-- The handles of the waiters that still wait, in the order of their queue.
pub waiting : (ℕ → ℕ) → List Waiter → List ℕ
waiting cells [] = []
waiting cells (w ∷ ws) =
    let rest = waiting cells ws in if cells w.state == state_waiting then w.handle ∷ rest else rest

-- The wakes that are due to the waiters of one side: the tasks' before the threads'.
abbrev pub due : (ℕ → ℕ) → List Waiter → List Waiter → List Wake
due cells tasks threads = map waker (waiting cells tasks) ++ map thread (waiting cells threads)

find_waiting-none :
    (cells : ℕ → ℕ) (ws : List Waiter) → find_waiting cells ws ≡ none → waiting cells ws ≡ []
unfolding find_waiting waiting
find_waiting-none cells [] h = refl
find_waiting-none cells (w ∷ ws) h = ground (arith, find_waiting-none cells ws)

find_waiting-some :
    (cells : ℕ → ℕ) (ws : List Waiter) (w : Waiter) (rest : List Waiter)
    → find_waiting cells ws ≡ some (w, rest)
    → (more : List ℕ) × (waiting cells ws ≡ w.handle ∷ more)
unfolding find_waiting waiting
find_waiting-some cells [] w rest h = cc
find_waiting-some cells (v ∷ ws) w rest h = elim (Bool-cases (cells v.state == state_waiting)) [
  | inl y ↦ (waiting cells ws, ground (arith, y))
  | inr n ↦ elim (Option-cases (find_waiting cells ws)) [
    | inl e ↦ absurd (ground (arith, n, e))
    | inr (found, e) ↦
        let (more, same) = find_waiting-some cells ws found.0 found.1 e in
        (more, ground (arith, n, e, same))
  ]
]

-- The first waiter that still waits, and the others when it is taken out.
abbrev pub first_waiting : (ℕ → ℕ) → List Waiter → Option Waiter
first_waiting cells [] = none
first_waiting cells (w ∷ ws) =
    if cells w.state == state_waiting then some w else first_waiting cells ws

abbrev pub others : (ℕ → ℕ) → List Waiter → List Waiter
others cells [] = []
others cells (w ∷ ws) = if cells w.state == state_waiting then ws else w ∷ others cells ws

find_waiting_first :
    (cells : ℕ → ℕ) (ws : List Waiter) (w : Waiter) (rest : List Waiter)
    → find_waiting cells ws ≡ some (w, rest)
    → (first_waiting cells ws ≡ some w) × (others cells ws ≡ rest)
unfolding find_waiting
find_waiting_first cells [] w rest h = absurd cc
find_waiting_first cells (v ∷ ws) w rest h = elim (Bool-cases (cells v.state == state_waiting)) [
  | inl y ↦ (ground (arith, y, h), ground (arith, y, h))
  | inr n ↦ elim (Option-cases (find_waiting cells ws)) [
    | inl e ↦ absurd (ground (arith, n, e, h))
    | inr (found, e) ↦
        let (first, rest') = find_waiting_first cells ws found.0 found.1 e in
        (ground (arith, n, e, h, first), ground (arith, n, e, h, rest'))
  ]
]

find_waiting_nobody :
    (cells : ℕ → ℕ) (ws : List Waiter)
    → find_waiting cells ws ≡ none
    → (first_waiting cells ws ≡ none) × (others cells ws ≡ ws)
unfolding find_waiting
find_waiting_nobody cells [] h = (refl, refl)
find_waiting_nobody cells (v ∷ ws) h = elim (Bool-cases (cells v.state == state_waiting)) [
  | inl y ↦ absurd (ground (arith, y, h))
  | inr n ↦ elim (Option-cases (find_waiting cells ws)) [
    | inr (found, e) ↦ absurd (ground (arith, n, e, h))
    | inl e ↦
        let (first, rest) = find_waiting_nobody cells ws e in
        (ground (arith, n, first), ground (arith, n, rest))
  ]
]

module _ {T : Type 0} where
  abbrev pub due_receivers : MpmcChannelInternal T → List Wake
  due_receivers s = due s.cells s.waiting_async_receivers s.waiting_sync_receivers

  abbrev pub due_senders : MpmcChannelInternal T → List Wake
  due_senders s = due s.cells s.waiting_async_senders s.waiting_sync_senders

  -- What a search for a waiter changes and what it leaves alone.
  pub record Woke (s t : MpmcChannelInternal T) (wakes : List Wake) : Type 0 where
    pub queue : t.queue ≡ s.queue
    pub queue_len : t.queue_len ≡ s.queue_len
    pub sender_count : t.sender_count ≡ s.sender_count
    pub receiver_count : t.receiver_count ≡ s.receiver_count
    pub woken : t.woken ≡ s.woken ++ wakes

  pub Woke-self : (s : MpmcChannelInternal T) → Woke s s []
  Woke-self s = record {
    queue = refl;
    queue_len = refl;
    sender_count = refl;
    receiver_count = refl;
    woken = ground (arith, append-nil s.woken);
  }

  pub take_receiver-none :
      (s : MpmcChannelInternal T) → take_receiver s ≡ none → due_receivers s ≡ []
  unfolding take_receiver
  take_receiver-none s h = elim (Option-cases (find_waiting s.cells s.waiting_async_receivers)) [
    | inr (f, e) ↦ absurd (ground (arith, e))
    | inl e ↦ elim (Option-cases (find_waiting s.cells s.waiting_sync_receivers)) [
      | inr (f, e2) ↦ absurd (ground (arith, e, e2))
      | inl e2 ↦ ground (
        arith,
        find_waiting-none s.cells s.waiting_async_receivers e,
        find_waiting-none s.cells s.waiting_sync_receivers e2,
      )
    ]
  ]

  pub take_receiver-some :
      (s t : MpmcChannelInternal T) → take_receiver s ≡ some t → Woke s t (take 1 (due_receivers s))
  unfolding take_receiver
  take_receiver-some s t h = elim (Option-cases (find_waiting s.cells s.waiting_async_receivers)) [
    | inr (f, e) ↦
        let (more, same) = find_waiting-some s.cells s.waiting_async_receivers f.0 f.1 e in
        ground (arith, e, same)
    | inl e ↦ elim (Option-cases (find_waiting s.cells s.waiting_sync_receivers)) [
      | inl e2 ↦ absurd (ground (arith, e, e2))
      | inr (f, e2) ↦
          let (more, same) = find_waiting-some s.cells s.waiting_sync_receivers f.0 f.1 e2 in
          ground (arith, e, e2, same, find_waiting-none s.cells s.waiting_async_receivers e)
    ]
  ]

  -- A sender that waits is woken, and when none does nothing is.
  pub wake_sender-Woke :
      (s : MpmcChannelInternal T) → Woke s (wake_sender s) (take 1 (due_senders s))
  unfolding wake_sender take_sender
  wake_sender-Woke s = elim (Option-cases (find_waiting s.cells s.waiting_async_senders)) [
    | inr (f, e) ↦
        let (more, same) = find_waiting-some s.cells s.waiting_async_senders f.0 f.1 e in
        ground (arith, e, same)
    | inl e ↦ elim (Option-cases (find_waiting s.cells s.waiting_sync_senders)) [
      | inl e2 ↦ ground (
        arith,
        e,
        e2,
        append-nil s.woken,
        find_waiting-none s.cells s.waiting_async_senders e,
        find_waiting-none s.cells s.waiting_sync_senders e2,
      )
      | inr (f, e2) ↦
          let (more, same) = find_waiting-some s.cells s.waiting_sync_senders f.0 f.1 e2 in
          ground (arith, e, e2, same, find_waiting-none s.cells s.waiting_async_senders e)
    ]
  ]

  -- What waking the sender that has waited longest leaves of the waiters: it is taken out of its queue
  -- and its state byte says that there is space; every other waiter and every receiver stays.
  pub record SenderTaken (s t : MpmcChannelInternal T) : Type 0 where
    pub async_receivers : t.waiting_async_receivers ≡ s.waiting_async_receivers
    pub sync_receivers : t.waiting_sync_receivers ≡ s.waiting_sync_receivers
    pub async_senders : t.waiting_async_senders ≡ others s.cells s.waiting_async_senders
    pub sync_senders :
        t.waiting_sync_senders ≡ (elim (first_waiting s.cells s.waiting_async_senders) [
          | some w ↦ s.waiting_sync_senders
          | none ↦ others s.cells s.waiting_sync_senders
        ])
    pub cells : t.cells ≡ (elim (first_waiting s.cells s.waiting_async_senders) [
      | some w ↦ claim w.state s.cells
      | none ↦ elim (first_waiting s.cells s.waiting_sync_senders) [
        | some w ↦ claim w.state s.cells
        | none ↦ s.cells
      ]
    ])

  pub wake_sender-SenderTaken : (s : MpmcChannelInternal T) → SenderTaken s (wake_sender s)
  unfolding wake_sender take_sender
  wake_sender-SenderTaken s = elim (Option-cases (find_waiting s.cells s.waiting_async_senders)) [
    | inr (f, e) ↦
        let (first, rest) = find_waiting_first s.cells s.waiting_async_senders f.0 f.1 e in
        record {
          async_receivers = ground (arith, e);
          sync_receivers = ground (arith, e);
          async_senders = ground (arith, e, rest);
          sync_senders = ground (arith, e, first);
          cells = ground (arith, e, first);
        }
    | inl e ↦
        let (first, rest) = find_waiting_nobody s.cells s.waiting_async_senders e in
        elim (Option-cases (find_waiting s.cells s.waiting_sync_senders)) [
          | inr (f, e2) ↦
              let (first2, rest2) = find_waiting_first s.cells s.waiting_sync_senders f.0 f.1 e2 in
              record {
                async_receivers = ground (arith, e, e2);
                sync_receivers = ground (arith, e, e2);
                async_senders = ground (arith, e, e2, rest);
                sync_senders = ground (arith, e, e2, first, rest2);
                cells = ground (arith, e, e2, first, first2);
              }
          | inl e2 ↦
              let (first2, rest2) = find_waiting_nobody s.cells s.waiting_sync_senders e2 in
              record {
                async_receivers = ground (arith, e, e2);
                sync_receivers = ground (arith, e, e2);
                async_senders = ground (arith, e, e2, rest);
                sync_senders = ground (arith, e, e2, first, rest2);
                cells = ground (arith, e, e2, first, first2);
              }
        ]
  ]
