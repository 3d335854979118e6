-- ===== src/Channels/Oneshot/Claims.antt =====
-- Which part of the slot a thread may use, and the states of the core that go with it.
use fibre.Base.{add64, sub64, ℕ, ◌≡◌, [], ◌∷◌, none, some, arith, ◌<◌}
use fibre.Channels.Oneshot.{
  phase, with_phase, with_rx_dropped, count_unit, OneShotShared, Pc, idle, sending, claimed,
  withdrawing, writing, written, leaving, closing, receiving, reclaiming, taking,
}

-- The claim of a thread on the slot: none, to write it, to publish what it wrote, to empty it.
pub data Hold (T : Type 0) : Type 0 where
  free to_write to_empty : Hold T
  to_publish : T → Hold T

module _ {T : Type 0} where
  abbrev pub hold : Pc T → Hold T
  hold idle = free
  hold (sending v cur) = free
  hold (claimed v) = to_write
  hold (withdrawing v) = to_write
  hold (writing v) = to_write
  hold (written v) = to_publish v
  hold (leaving cur) = free
  hold (closing cur) = free
  hold (receiving cur) = free
  hold reclaiming = to_empty
  hold taking = to_empty

  -- The state of the core while one thread at most has a claim, `h`.
  pub data Ok (h : Hold T) (s : OneShotShared T) : Type 0 where
    is_empty :
        h ≡ free
        → phase s.state ≡ 0
        → s.value_slot ≡ none
        → s.published ≡ []
        → s.consumed ≡ []
        → Ok h s
    is_closed :
        h ≡ free
        → phase s.state ≡ 4
        → s.value_slot ≡ none
        → s.published ≡ []
        → s.consumed ≡ []
        → Ok h s
    is_writing :
        h ≡ to_write
        → phase s.state ≡ 1
        → s.value_slot ≡ none
        → s.published ≡ []
        → s.consumed ≡ []
        → Ok h s
    is_written :
        (v : T)
        → h ≡ to_publish v
        → phase s.state ≡ 1
        → s.value_slot ≡ some v
        → s.published ≡ []
        → s.consumed ≡ []
        → Ok h s
    is_sent :
        (v : T)
        → h ≡ free
        → phase s.state ≡ 2
        → s.value_slot ≡ some v
        → s.published ≡ v ∷ []
        → s.consumed ≡ []
        → Ok h s
    is_taking :
        (v : T)
        → h ≡ to_empty
        → phase s.state ≡ 3
        → s.value_slot ≡ some v
        → s.published ≡ v ∷ []
        → s.consumed ≡ []
        → Ok h s
    is_taken :
        (v : T)
        → h ≡ free
        → phase s.state ≡ 3
        → s.value_slot ≡ none
        → s.published ≡ v ∷ []
        → s.consumed ≡ v ∷ []
        → Ok h s

  -- Only the phase of the word counts.
  pub Ok-word :
      (h : Hold T) (s : OneShotShared T) (word : ℕ)
      → phase word ≡ phase s.state
      → Ok h s
      → Ok h (record s { state = word })
  Ok-word h s word e (is_empty a p b c d) = is_empty a (cc) b c d
  Ok-word h s word e (is_closed a p b c d) = is_closed a (cc) b c d
  Ok-word h s word e (is_writing a p b c d) = is_writing a (cc) b c d
  Ok-word h s word e (is_written v a p b c d) = is_written v a (cc) b c d
  Ok-word h s word e (is_sent v a p b c d) = is_sent v a (cc) b c d
  Ok-word h s word e (is_taking v a p b c d) = is_taking v a (cc) b c d
  Ok-word h s word e (is_taken v a p b c d) = is_taken v a (cc) b c d

  -- An empty core, and one with a published value, are claimed by no thread.
  pub Ok-empty :
      (h : Hold T) (s : OneShotShared T)
      → phase s.state ≡ 0
      → Ok h s
      → (h ≡ free) × (s.value_slot ≡ none) × (s.published ≡ []) × (s.consumed ≡ [])
  Ok-empty h s e (is_empty a p b c d) = (a, b, c, d)
  Ok-empty h s e (is_closed a p b c d) = absurd (omega arith)
  Ok-empty h s e (is_writing a p b c d) = absurd (omega arith)
  Ok-empty h s e (is_written v a p b c d) = absurd (omega arith)
  Ok-empty h s e (is_sent v a p b c d) = absurd (omega arith)
  Ok-empty h s e (is_taking v a p b c d) = absurd (omega arith)
  Ok-empty h s e (is_taken v a p b c d) = absurd (omega arith)

  pub Ok-sent :
      (h : Hold T) (s : OneShotShared T)
      → phase s.state ≡ 2
      → Ok h s
      → (v : T) × (h ≡ free) × (s.value_slot ≡ some v) × (s.published ≡ v ∷ []) × (s.consumed ≡ [])
  Ok-sent h s e (is_empty a p b c d) = absurd (omega arith)
  Ok-sent h s e (is_closed a p b c d) = absurd (omega arith)
  Ok-sent h s e (is_writing a p b c d) = absurd (omega arith)
  Ok-sent h s e (is_written v a p b c d) = absurd (omega arith)
  Ok-sent h s e (is_sent v a p b c d) = (v, a, b, c, d)
  Ok-sent h s e (is_taking v a p b c d) = absurd (omega arith)
  Ok-sent h s e (is_taken v a p b c d) = absurd (omega arith)

  pub Ok-phase : (h : Hold T) (s : OneShotShared T) → Ok h s → phase s.state < 5
  Ok-phase h s (is_empty a p b c d) = omega arith
  Ok-phase h s (is_closed a p b c d) = omega arith
  Ok-phase h s (is_writing a p b c d) = omega arith
  Ok-phase h s (is_written v a p b c d) = omega arith
  Ok-phase h s (is_sent v a p b c d) = omega arith
  Ok-phase h s (is_taking v a p b c d) = omega arith
  Ok-phase h s (is_taken v a p b c d) = omega arith

  -- What a claim says of the core.
  pub Ok-to_write :
      (s : OneShotShared T)
      → Ok to_write s
      → (phase s.state ≡ 1) × (s.value_slot ≡ none) × (s.published ≡ []) × (s.consumed ≡ [])
  Ok-to_write s (is_empty a p b c d) = absurd cc
  Ok-to_write s (is_closed a p b c d) = absurd cc
  Ok-to_write s (is_writing a p b c d) = (p, b, c, d)
  Ok-to_write s (is_written v a p b c d) = absurd cc
  Ok-to_write s (is_sent v a p b c d) = absurd cc
  Ok-to_write s (is_taking v a p b c d) = absurd cc
  Ok-to_write s (is_taken v a p b c d) = absurd cc

  pub Ok-to_publish :
      (s : OneShotShared T) {w : T}
      → Ok (to_publish w) s
      → (phase s.state ≡ 1) × (s.value_slot ≡ some w) × (s.published ≡ []) × (s.consumed ≡ [])
  Ok-to_publish s (is_empty a p b c d) = absurd cc
  Ok-to_publish s (is_closed a p b c d) = absurd cc
  Ok-to_publish s (is_writing a p b c d) = absurd cc
  Ok-to_publish s (is_written v a p b c d) = (p, (cc), c, d)
  Ok-to_publish s (is_sent v a p b c d) = absurd cc
  Ok-to_publish s (is_taking v a p b c d) = absurd cc
  Ok-to_publish s (is_taken v a p b c d) = absurd cc

  pub Ok-to_empty :
      (s : OneShotShared T)
      → Ok to_empty s
      → (v : T) × (phase s.state ≡ 3)
        × (s.value_slot ≡ some v)
        × (s.published ≡ v ∷ [])
        × (s.consumed ≡ [])
  Ok-to_empty s (is_empty a p b c d) = absurd cc
  Ok-to_empty s (is_closed a p b c d) = absurd cc
  Ok-to_empty s (is_writing a p b c d) = absurd cc
  Ok-to_empty s (is_written v a p b c d) = absurd cc
  Ok-to_empty s (is_sent v a p b c d) = absurd cc
  Ok-to_empty s (is_taking v a p b c d) = (v, p, b, c, d)
  Ok-to_empty s (is_taken v a p b c d) = absurd cc

-- What the atomic operations do to the phase.
pub phase-with_phase : (w p : ℕ) → p < 8 → phase (with_phase w p) ≡ p
phase-with_phase w p h = omega arith

pub phase-with_rx_dropped : (w : ℕ) → phase (with_rx_dropped w) ≡ phase w
phase-with_rx_dropped w = ground arith

pub phase-add_unit : (w : ℕ) → phase (add64 w count_unit) ≡ phase w
unfolding add64
phase-add_unit w = omega arith

pub phase-sub_unit : (w : ℕ) → phase (sub64 w count_unit) ≡ phase w
unfolding sub64
phase-sub_unit w = omega arith

pub phase-publish : (w : ℕ) → phase w ≡ 1 → phase (add64 w 1) ≡ 2
unfolding add64
phase-publish w h = omega arith

pub phase-withdraw : (w : ℕ) → phase w ≡ 1 → phase (sub64 w 1) ≡ 0
unfolding sub64
phase-withdraw w h = omega arith
