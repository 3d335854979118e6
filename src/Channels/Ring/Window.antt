-- ===== src/Channels/Ring/Window.antt =====
-- The slots that hold a ring's values: those from its head on, round the buffer.
use fibre.Base.{
  ℕ, suc, ◌+◌, ◌-◌, ◌%◌, ◌<◌, ◌≡◌, ◌≢◌, List, [], ◌∷◌, ◌++◌, Option, some, arith, length, get_elem?,
  set, get_elem?-set_ne, dec_lt,
}
use native.Mathlib.Nat.{mod-lt, mod-eq_of_lt, mod-eq-sub-mod, mod-add-mod, add-zero}

-- Fewer than `size` steps on lead to another slot.
pub mod_ne : (size p k : ℕ) → suc k < size → p % size ≢ (p + suc k) % size
mod_ne size p k h e =
    let small = mod-lt p {m = size} (omega arith) in
    elim (dec_lt (p % size + suc k) size) [
      | yes inside ↦ omega (arith, e, mod-add-mod p size (suc k), mod-eq_of_lt inside)
      | no round ↦ omega (
        arith,
        e,
        small,
        mod-add-mod p size (suc k),
        mod-eq-sub-mod {n = p % size + suc k} {m = size} (omega arith),
        mod-eq_of_lt {n = p % size + suc k - size} {m = size} (omega arith),
      )
    ]

module _ {T : Type 0} (size : ℕ) where
  -- The buffer holds the values from position `p` on.
  abbrev pub At : List (Option T) → ℕ → List T → Type 0
  At buffer p [] = Unit {0}
  At buffer p (x ∷ xs) = (get_elem? buffer (p % size) ≡ some (some x)) × At buffer (suc p) xs

  -- A write to a slot that no value stands in.
  pub At-set :
      (buffer : List (Option T)) (i p : ℕ) (v : Option T) (xs : List T)
      → At buffer p xs
      → ((k : ℕ) → k < length xs → i ≢ (p + k) % size)
      → At (set buffer i v) p xs
  At-set buffer i p v [] at other = tt
  At-set buffer i p v (x ∷ xs) at other = (
    let first = other 0 (omega arith) in
        rw (get_elem?-set_ne buffer i (p % size) v (rw add-zero at first)) at.0,
    At-set buffer i (suc p) v xs at.1 (λ k h.
        rw (let e : suc p + k ≡ p + suc k = omega arith in e) (other (suc k) (omega arith))),
  )

  -- The slot after the last value.
  pub At-append_one :
      (buffer : List (Option T)) (p : ℕ) (v : T) (xs : List T)
      → At buffer p xs
      → get_elem? buffer ((p + length xs) % size) ≡ some (some v)
      → At buffer p (xs ++ v ∷ [])
  At-append_one buffer p v [] at last = (rw add-zero at last, tt)
  At-append_one buffer p v (x ∷ xs) at last = (
    at.0,
    At-append_one buffer (suc p) v xs at.1
        (rw (let e : suc p + length xs ≡ p + suc (length xs) = omega arith in e) last),
  )
