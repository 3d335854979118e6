-- ===== src/Channels/Ring.antt =====
-- `UnsynchronizedRingBuffer` of channels/src/internal/unsynchronized_ring.rs. A slot is `none` until a
-- value is written to it and again after the value is read out; an index out of bounds and a read of
-- such a slot are faults: `none` here.
pub mod Window
pub mod Refine
pub mod Run
use fibre.Base.{
  ℕ, zero, suc, ◌+◌, ◌-◌, ◌*◌, List, [], ◌∷◌, Option, none, some, Bool, true, false, add64, sub64,
  length, get_elem?, set, ltb, ◌==◌, if◌then◌else◌,
}
use Prim.Native.Nat.{bit_and}

pub record Ring (T : Type 0) : Type 0 where
  pub buffer : List (Option T)
  pub mask : ℕ
  pub head : ℕ
  pub tail : ℕ

-- The `Result` of `push`, whose error hands the value back.
pub data Pushed (T : Type 0) : Type 0 where
  ok : Pushed T
  err : T → Pushed T

-- `usize::next_power_of_two`, by doublings from a power of two.
unfoldable pub next_power_of_two : ℕ → ℕ → ℕ → ℕ
next_power_of_two zero power n = power
next_power_of_two (suc rounds) power n = elim (ltb power n) [
  | true ↦ next_power_of_two rounds (power * 2) n
  | false ↦ power
]

module _ {T : Type 0} where
  abbrev pub uninit : ℕ → List (Option T)
  uninit zero = []
  uninit (suc n) = none ∷ uninit n

  -- The `assert!` on the capacity is a fault.
  unfoldable pub new : ℕ → Option (Ring T)
  new capacity =
      let size = next_power_of_two 63 1 capacity in
      if ltb 0 capacity
      then some (record { buffer = uninit size; mask = size - 1; head = 0; tail = 0 })
      else none

  abbrev pub capacity : Ring T → ℕ
  capacity r = add64 r.mask 1

  abbrev pub len : Ring T → ℕ
  len r = sub64 r.tail r.head

  abbrev pub is_empty : Ring T → Bool
  is_empty r = r.head == r.tail

  abbrev pub is_full : Ring T → Bool
  is_full r = len r == capacity r

  unfoldable pub push : T → Ring T → Option (Pushed T × Ring T)
  push val r =
      let index = bit_and r.tail r.mask in
      elim (is_full r) [
        | true ↦ some (err val, r)
        | false ↦ elim (get_elem? r.buffer index) [
          | none ↦ none
          | some slot ↦
              some (ok, record r { buffer = set r.buffer index (some val); tail = add64 r.tail 1 })
        ]
      ]

  unfoldable pub pop : Ring T → Option (Option T × Ring T)
  pop r =
      let index = bit_and r.head r.mask in
      elim (is_empty r) [
        | true ↦ some (none, r)
        | false ↦ elim (get_elem? r.buffer index) [
          | none ↦ none
          | some slot ↦ elim slot [
            | none ↦ none
            | some val ↦
                some
                  (some val, record r { buffer = set r.buffer index none; head = add64 r.head 1 })
          ]
        ]
      ]

  -- The `while` of `clear`, on fuel.
  unfoldable pub clear_loop : ℕ → Ring T → Option (Ring T)
  clear_loop zero r = none
  clear_loop (suc fuel) r = elim (pop r) [
    | none ↦ none
    | some (popped, rest) ↦ elim popped [ none ↦ some rest | some val ↦ clear_loop fuel rest ]
  ]

  -- A round takes one value out.
  unfoldable pub clear : Ring T → Option (Ring T)
  clear r = clear_loop (suc (len r)) r
