-- ===== src/Channels/Oneshot.antt =====
-- `OneShotShared` of channels/src/oneshot/core.rs, one atomic operation at a time. The word holds the
-- phase in its bits 0 to 2, the flag of a dropped receiver in bit 3 and the count of senders above
-- them. The slot is `none` while it is uninitialised. Reading or dropping an uninitialised slot, and a
-- failed `debug_assert`, are faults: `none` here. Beside the state stand the values that were published,
-- and those taken out or dropped in place.
pub mod Claims
pub mod Moves
pub mod Others
pub mod System
pub mod Safety
use fibre.Base.{
  ℕ, ◌+◌, ◌-◌, ◌*◌, ◌/◌, ◌%◌, List, [], ◌∷◌, ◌++◌, Option, none, some, Bool, true, false, ltb, ◌==◌,
  if◌then◌else◌, not, ◌&&◌, ◌||◌, add64, sub64,
}

abbrev pub state_empty : ℕ
state_empty = 0

abbrev pub state_writing : ℕ
state_writing = 1

abbrev pub state_sent : ℕ
state_sent = 2

abbrev pub state_taken : ℕ
state_taken = 3

abbrev pub state_closed : ℕ
state_closed = 4

abbrev pub count_unit : ℕ
count_unit = 16

-- `word & PHASE_MASK`
abbrev pub phase : ℕ → ℕ
phase word = word % 8

-- `word & RX_DROPPED != 0`
abbrev pub rx_dropped : ℕ → Bool
rx_dropped word = word / 8 % 2 == 1

-- `word >> COUNT_SHIFT`
abbrev pub sender_count : ℕ → ℕ
sender_count word = word / 16

-- `(word & !PHASE_MASK) | new_phase`
abbrev pub with_phase : ℕ → ℕ → ℕ
with_phase word new_phase = word - phase word + new_phase

-- `word | RX_DROPPED`
abbrev pub with_rx_dropped : ℕ → ℕ
with_rx_dropped word = if rx_dropped word then word else word + 8

pub record OneShotShared (T : Type 0) : Type 0 where
  pub state : ℕ
  pub value_slot : Option T
  pub published : List T
  pub consumed : List T

abbrev pub fresh : {T : Type 0} → OneShotShared T
fresh = record { state = count_unit; value_slot = none; published = []; consumed = [] }

-- What a thread does next: the operations of the code between two of its atomic ones, with the word
-- that it last saw.
pub data Pc (T : Type 0) : Type 0 where
  idle : Pc T
  -- `send`: about to claim, claimed, sees the receiver gone, sees it alive, has written
  sending : T → ℕ → Pc T
  claimed withdrawing writing written : T → Pc T
  -- the loops of `decrement_senders`, `mark_receiver_dropped` and `try_recv`
  leaving closing receiving : ℕ → Pc T
  -- has claimed a sent value, to drop it or to take it
  reclaiming taking : Pc T

-- Which operation an idle thread begins, and whether a weak compare-exchange fails for no reason.
pub data Choice (T : Type 0) : Type 0 where
  send : T → Choice T
  clone_sender drop_sender drop_receiver try_recv : Choice T
  go spurious : Choice T

-- The result that an operation returns, if this was its last step.
pub data Result (T : Type 0) : Type 0 where
  continues finished sent : Result T
  send_closed send_sent received : T → Result T
  recv_empty recv_disconnected : Result T

module _ {T : Type 0} where
  -- A weak compare-exchange.
  abbrev pub swaps : Choice T → OneShotShared T → ℕ → Bool
  swaps spurious s cur = false
  swaps _ s cur = s.state == cur

  unfoldable pub begin : Choice T → OneShotShared T → Option (Result T × OneShotShared T × Pc T)
  begin (send value) s = some (continues, s, sending value s.state)
  begin clone_sender s = some (finished, record s { state = add64 s.state count_unit }, idle)
  begin drop_sender s =
      let left = record s { state = sub64 s.state count_unit } in
      if sender_count s.state == 0
      then none
      else if sender_count s.state == 1
      then some (continues, left, leaving (s.state - count_unit))
      else some (finished, left, idle)
  begin drop_receiver s =
      let word = with_rx_dropped s.state in
      some (continues, record s { state = word }, closing word)
  begin try_recv s = some (continues, s, receiving s.state)
  begin go s = some (finished, s, idle)
  begin spurious s = some (finished, s, idle)

  unfoldable pub send_step :
      Choice T → OneShotShared T → T → ℕ → Option (Result T × OneShotShared T × Pc T)
  send_step c s value cur =
      if rx_dropped cur
      then some (send_closed value, s, idle)
      else if not (phase cur == state_empty)
      then some (send_sent value, s, idle)
      else if swaps c s cur
      then some (continues, record s { state = with_phase cur state_writing }, claimed value)
      else some (continues, s, sending value s.state)

  -- Either loop that closes an empty channel or claims a sent value; `stays` says that the value is
  -- left to a living receiver.
  unfoldable pub close_step :
      (ℕ → Pc T)
      → (ℕ → Bool)
      → Choice T
      → OneShotShared T
      → ℕ
      → Option (Result T × OneShotShared T × Pc T)
  close_step again stays c s cur =
      if phase cur == state_empty
      then (if swaps c s cur
          then some (finished, record s { state = with_phase cur state_closed }, idle)
          else some (continues, s, again s.state))
      else if phase cur == state_sent
      then (if stays cur
          then some (finished, s, idle)
          else if swaps c s cur
          then some (continues, record s { state = with_phase cur state_taken }, reclaiming)
          else some (continues, s, again s.state))
      else some (finished, s, idle)

  unfoldable pub recv_step :
      Choice T → OneShotShared T → ℕ → Option (Result T × OneShotShared T × Pc T)
  recv_step c s cur =
      if phase cur == state_sent
      then (if swaps c s cur
          then some (continues, record s { state = with_phase cur state_taken }, taking)
          else some (continues, s, receiving s.state))
      else if phase cur == state_taken || phase cur == state_writing
      then some (recv_empty, s, idle)
      else if phase cur == state_closed
      then some (recv_disconnected, s, idle)
      else if ltb 0 (sender_count cur)
      then some (recv_empty, s, idle)
      else if swaps c s cur
      then some (recv_disconnected, record s { state = with_phase cur state_closed }, idle)
      else some (continues, s, receiving s.state)

  unfoldable pub publish : OneShotShared T → T → Option (Result T × OneShotShared T × Pc T)
  publish s value =
      if phase s.state == state_writing
      then some
          (sent, record s { state = add64 s.state 1; published = s.published ++ value ∷ [] }, idle)
      else none

  -- The value leaves the slot, by `take_value` or `drop_value`.
  unfoldable pub consume :
      (T → Result T) → OneShotShared T → Option (Result T × OneShotShared T × Pc T)
  consume result s = elim s.value_slot [
    | none ↦ none
    | some value ↦
        some
          (result value, record s { value_slot = none; consumed = s.consumed ++ value ∷ [] }, idle)
  ]

  -- One step of a thread.
  unfoldable pub advance :
      Choice T → OneShotShared T → Pc T → Option (Result T × OneShotShared T × Pc T)
  advance c s idle = begin c s
  advance c s (sending value cur) = send_step c s value cur
  advance c s (claimed value) =
      some (continues, s, if rx_dropped s.state then withdrawing value else writing value)
  advance c s (withdrawing value) =
      some (send_closed value, record s { state = sub64 s.state 1 }, idle)
  advance c s (writing value) =
      some (continues, record s { value_slot = some value }, written value)
  advance c s (written value) = publish s value
  advance c s (leaving cur) = close_step leaving (λ word. not (rx_dropped word)) c s cur
  advance c s (closing cur) = close_step closing (λ word. false) c s cur
  advance c s (receiving cur) = recv_step c s cur
  advance c s reclaiming = consume (λ value. finished) s
  advance c s taking = consume received s

  -- `drop` of the shared core, when no handle is left: a value still in the slot is dropped.
  unfoldable pub drop : OneShotShared T → Option (OneShotShared T)
  drop s =
      if phase s.state == state_sent
      then elim s.value_slot [
        | none ↦ none
        | some value ↦ some (record s { value_slot = none; consumed = s.consumed ++ value ∷ [] })
      ]
      else some s

  pub is_receiver_dropped : OneShotShared T → Bool
  is_receiver_dropped s = rx_dropped s.state

  pub is_sent : OneShotShared T → Bool
  is_sent s = phase s.state == state_sent || phase s.state == state_taken

  pub is_closed_for_receiver : OneShotShared T → Bool
  is_closed_for_receiver s =
      if phase s.state == state_taken || phase s.state == state_closed
      then true
      else if phase s.state == state_empty || phase s.state == state_writing
      then sender_count s.state == 0
      else false
