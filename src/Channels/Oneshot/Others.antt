-- ===== src/Channels/Oneshot/Others.antt =====
-- A step of a thread that has no claim on the slot.
use fibre.Base.{
  ℕ, ◌-◌, ◌≡◌, ◌<◌, refl, ◌∙◌, ap, [], Option, some, Bool, arith, Bool-cases, inl, inr, true, false,
  ltb, add64, sub64, ◌==◌, ◌||◌, ◌⊎◌,
}
use fibre.Channels.Oneshot.{
  phase, with_phase, with_rx_dropped, sender_count, rx_dropped, OneShotShared, Pc, idle, sending,
  claimed, leaving, closing, receiving, reclaiming, taking, Choice, send, clone_sender, drop_sender,
  drop_receiver, try_recv, go, spurious, Result, finished, continues, send_closed, send_sent,
  recv_empty, recv_disconnected, begin, send_step, close_step, recv_step, swaps, state_empty,
  state_writing, state_sent, state_taken, state_closed, count_unit,
}
use fibre.Channels.Oneshot.Claims.{
  Hold, free, hold, Ok, is_closed, is_writing, is_taking, Ok-word, Ok-phase, Ok-empty, Ok-sent,
  phase-with_phase, phase-with_rx_dropped, phase-add_unit, phase-sub_unit,
}
use fibre.Channels.Oneshot.Moves.{Moves, gets}

equal-true : (a b : ℕ) → (a == b) ≡ true → a ≡ b
equal-true a b h = ground arith

module _ {T : Type 0} where
  -- The thread still has no claim and those of the others stand, or there was none and it has its own.
  abbrev pub Other : Hold T → Result T → OneShotShared T → Pc T → Type 0
  Other h r s pc = (gets r ≡ []) × (((hold pc ≡ free) × Ok h s) ⊎ ((h ≡ free) × Ok (hold pc) s))

  module _ {h : Hold T} {o : Option (Result T × OneShotShared T × Pc T)} where
    kept :
        (r : Result T)
        → gets r ≡ []
        → (s : OneShotShared T) (pc : Pc T) → Ok h s
        → hold pc ≡ free
        → o ≡ some (r, s, pc)
        → Moves (Other h) o
    kept r no_value s pc ok none_held e = record {
      result = r;
      state = s;
      place = pc;
      runs = e;
      keeps = (no_value, inl (none_held, ok));
    }

    changed :
        (r : Result T)
        → gets r ≡ []
        → (s : OneShotShared T) (pc : Pc T) → h ≡ free
        → Ok (hold pc) s
        → o ≡ some (r, s, pc)
        → Moves (Other h) o
    changed r no_value s pc is_free ok e = record {
      result = r;
      state = s;
      place = pc;
      runs = e;
      keeps = (no_value, inr (is_free, ok));
    }

  swaps-true : (c : Choice T) (s : OneShotShared T) (cur : ℕ) → swaps c s cur ≡ true → s.state ≡ cur
  swaps-true spurious s cur h = absurd cc
  swaps-true (send v) s cur h = equal-true s.state cur h
  swaps-true clone_sender s cur h = equal-true s.state cur h
  swaps-true drop_sender s cur h = equal-true s.state cur h
  swaps-true drop_receiver s cur h = equal-true s.state cur h
  swaps-true try_recv s cur h = equal-true s.state cur h
  swaps-true go s cur h = equal-true s.state cur h

  -- A swap of the phase, from the one that was seen.
  swap :
      (c : Choice T) (s : OneShotShared T) (cur p q : ℕ)
      → swaps c s cur ≡ true
      → (phase cur == p) ≡ true
      → q < 8
      → (phase s.state ≡ p) × (phase (with_phase cur q) ≡ q)
  swap c s cur p q swapped seen small =
      let same = swaps-true c s cur swapped in
      (ap phase same ∙ equal-true (phase cur) p seen, phase-with_phase cur q small)

  pub begin-Other :
      (h : Hold T) (s : OneShotShared T) (c : Choice T)
      → (c ≡ drop_sender → 0 < sender_count s.state)
      → Ok h s
      → Moves (Other h) (begin c s)
  unfolding begin
  begin-Other h s (send v) counted ok = kept continues refl s (sending v s.state) ok refl refl
  begin-Other h s clone_sender counted ok =
      kept finished refl (record s { state = add64 s.state count_unit }) idle
        (Ok-word h s (add64 s.state count_unit) (phase-add_unit s.state) ok) refl refl
  begin-Other h s drop_sender counted ok =
      let positive = counted refl in
      let some_left : (sender_count s.state == 0) ≡ false = ground arith in
      let left = record s { state = sub64 s.state count_unit } in
      let left_ok = Ok-word h s (sub64 s.state count_unit) (phase-sub_unit s.state) ok in
      elim (Bool-cases (sender_count s.state == 1)) [
        | inl last ↦
            kept continues refl left (leaving (s.state - count_unit)) left_ok refl
              (rw (some_left, last) refl)
        | inr more ↦ kept finished refl left idle left_ok refl (rw (some_left, more) refl)
      ]
  begin-Other h s drop_receiver counted ok =
      let word = with_rx_dropped s.state in
      kept continues refl (record s { state = word }) (closing word)
        (Ok-word h s word (phase-with_rx_dropped s.state) ok) refl refl
  begin-Other h s try_recv counted ok = kept continues refl s (receiving s.state) ok refl refl
  begin-Other h s go counted ok = kept finished refl s idle ok refl refl
  begin-Other h s spurious counted ok = kept finished refl s idle ok refl refl

  module _ (h : Hold T) (s : OneShotShared T) (ok : Ok h s) (c : Choice T) where
    pub send_step-Other : (v : T) (cur : ℕ) → Moves (Other h) (send_step c s v cur)
    unfolding send_step
    send_step-Other v cur = elim (Bool-cases (rx_dropped cur)) [
      | inl gone ↦ kept (send_closed v) refl s idle ok refl (rw gone refl)
      | inr alive ↦ elim (Bool-cases (phase cur == state_empty)) [
        | inr other ↦ kept (send_sent v) refl s idle ok refl (rw (alive, other) refl)
        | inl seen ↦ elim (Bool-cases (swaps c s cur)) [
          | inr failed ↦
              kept continues refl s (sending v s.state) ok refl (rw (alive, seen, failed) refl)
          | inl swapped ↦
              let (now, then_) = swap c s cur 0 state_writing swapped seen (omega arith) in
              let (is_free, slot, pub_eq, con) = Ok-empty h s now ok in
              changed continues refl (record s { state = with_phase cur state_writing }) (claimed v)
                is_free (is_writing refl then_ slot pub_eq con) (rw (alive, seen, swapped) refl)
        ]
      ]
    ]

    pub close_step-Other :
        (again : ℕ → Pc T) (stays : ℕ → Bool) (cur : ℕ)
        → ((w : ℕ) → hold (again w) ≡ free)
        → Moves (Other h) (close_step again stays c s cur)
    unfolding close_step
    close_step-Other again stays cur no_claim = elim (Bool-cases (phase cur == state_empty)) [
      | inl seen ↦ elim (Bool-cases (swaps c s cur)) [
        | inr failed ↦
            kept continues refl s (again s.state) ok (no_claim s.state) (rw (seen, failed) refl)
        | inl swapped ↦
            let (now, then_) = swap c s cur 0 state_closed swapped seen (omega arith) in
            let (is_free, slot, pub_eq, con) = Ok-empty h s now ok in
            changed finished refl (record s { state = with_phase cur state_closed }) idle is_free
              (is_closed refl then_ slot pub_eq con) (rw (seen, swapped) refl)
      ]
      | inr other ↦ elim (Bool-cases (phase cur == state_sent)) [
        | inr neither ↦ kept finished refl s idle ok refl (rw (other, neither) refl)
        | inl seen ↦ elim (Bool-cases (stays cur)) [
          | inl left ↦ kept finished refl s idle ok refl (rw (other, seen, left) refl)
          | inr gone ↦ elim (Bool-cases (swaps c s cur)) [
            | inr failed ↦
                kept continues refl s (again s.state) ok (no_claim s.state)
                  (rw (other, seen, gone, failed) refl)
            | inl swapped ↦
                let (now, then_) = swap c s cur 2 state_taken swapped seen (omega arith) in
                let (v, is_free, slot, pub_eq, con) = Ok-sent h s now ok in
                changed continues refl (record s { state = with_phase cur state_taken }) reclaiming
                  is_free (is_taking v refl then_ slot pub_eq con)
                  (rw (other, seen, gone, swapped) refl)
          ]
        ]
      ]
    ]

    pub recv_step-Other : (cur : ℕ) → Moves (Other h) (recv_step c s cur)
    unfolding recv_step
    recv_step-Other cur = elim (Bool-cases (phase cur == state_sent)) [
      | inl seen ↦ elim (Bool-cases (swaps c s cur)) [
        | inr failed ↦ kept continues refl s (receiving s.state) ok refl (rw (seen, failed) refl)
        | inl swapped ↦
            let (now, then_) = swap c s cur 2 state_taken swapped seen (omega arith) in
            let (v, is_free, slot, pub_eq, con) = Ok-sent h s now ok in
            changed continues refl (record s { state = with_phase cur state_taken }) taking is_free
              (is_taking v refl then_ slot pub_eq con) (rw (seen, swapped) refl)
      ]
      | inr unsent ↦ elim (Bool-cases (phase cur == state_taken || phase cur == state_writing)) [
        | inl waits ↦ kept recv_empty refl s idle ok refl (rw (unsent, waits) refl)
        | inr quiet ↦ elim (Bool-cases (phase cur == state_closed)) [
          | inl shut ↦ kept recv_disconnected refl s idle ok refl (rw (unsent, quiet, shut) refl)
          | inr opened ↦ elim (Bool-cases (ltb 0 (sender_count cur))) [
            | inl senders ↦
                kept recv_empty refl s idle ok refl (rw (unsent, quiet, opened, senders) refl)
            | inr alone ↦ elim (Bool-cases (swaps c s cur)) [
              | inr failed ↦
                  kept continues refl s (receiving s.state) ok refl
                    (rw (unsent, quiet, opened, alone, failed) refl)
              | inl swapped ↦
                  let same = swaps-true c s cur swapped in
                  let now : phase s.state ≡ 0 =
                    ground (arith, Ok-phase h s ok, ap phase same, unsent, quiet, opened) in
                  let (is_free, slot, pub_eq, con) = Ok-empty h s now ok in
                  changed recv_disconnected refl (record s { state = with_phase cur state_closed })
                    idle is_free
                    (is_closed refl (phase-with_phase cur state_closed (omega arith)) slot pub_eq
                      con)
                    (rw (unsent, quiet, opened, alone, swapped) refl)
            ]
          ]
        ]
      ]
    ]
