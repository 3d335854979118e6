-- ===== src/Channels/Ring/Refine.antt =====
-- The ring as a bounded queue: what each call does to the values that it holds.
use fibre.Base.{
  ℕ, zero, suc, ◌+◌, ◌-◌, ◌*◌, ◌%◌, ◌^◌, ◌<◌, ◌≤◌, ◌≡◌, refl, List, [], ◌∷◌, ◌++◌, none, some,
  arith, length, set, get_elem?-lt, length-set, get_elem?-set_self, ap, sym, ◌∙◌, add64, sub64,
  u64_mod, ltb, ◌==◌, Bool-cases, inl, inr, length-append,
}
use Prim.Native.Nat.{bit_and, ◌∣◌}
use native.Mathlib.Nat.{mod-lt, mod-mod_of_dvd, pow-le-pow_right, pow-suc, add-zero}
use fibre.Base.Bits.{pow_pos, bit_and_mask, pow-dvd-pow}
use fibre.Channels.Ring.{
  Ring, ok, err, next_power_of_two, uninit, new, capacity, len, is_empty, push, pop, clear,
  clear_loop,
}
use fibre.Channels.Ring.Window.{mod_ne, At, At-set, At-append_one}

-- What the code relies on of a capacity: a power of two that a `usize` has room for.
pub record IsCapacity (size : ℕ) : Type 0 where
  pub pos : 0 < size
  pub small : size < u64_mod
  pub divides : size ∣ u64_mod
  pub masks : (x : ℕ) → bit_and x (size - 1) ≡ x % size

pub pow-IsCapacity : (k : ℕ) → k < 64 → IsCapacity (2 ^ k)
pow-IsCapacity k h =
    let bound : 2 ^ k ≤ 2 ^ 63 =
      let le : k ≤ 63 = omega arith in pow-le-pow_right (omega arith) le in
    record {
      pos = pow_pos k;
      small = omega (arith, bound);
      divides = pow-dvd-pow k 64 (omega arith);
      masks = bit_and_mask k;
    }

pub next_power_of_two-pow :
    (rounds k n : ℕ)
    → n ≤ 2 ^ (k + rounds)
    → 2 ^ k < 2 * n
    → (j : ℕ) × (next_power_of_two rounds (2 ^ k) n ≡ 2 ^ j)
      × (j ≤ k + rounds)
      × (n ≤ 2 ^ j)
      × (2 ^ j < 2 * n)
unfolding next_power_of_two
next_power_of_two-pow zero k n enough least = (k, refl, omega arith, rw add-zero at enough, least)
next_power_of_two-pow (suc rounds) k n enough least = elim (Bool-cases (ltb (2 ^ k) n)) [
  | inr stop ↦ (k, ground (arith, stop), omega arith, ground (arith, stop), least)
  | inl more ↦
      let shift : k + suc rounds ≡ suc k + rounds = omega arith in
      let (j, runs, below, up, low) =
        next_power_of_two-pow rounds (suc k) n (rw shift at enough)
          (ground (arith, more, pow-suc 2 k)) in
      (j, ground (arith, more, pow-suc 2 k, runs), omega arith, up, low)
]

length-uninit : (T : Type 0) (n : ℕ) → length (uninit {T = T} n) ≡ n
length-uninit T zero = refl
length-uninit T (suc n) = ap suc (length-uninit T n)

module _ {T : Type 0} where
  -- The ring holds the values, the oldest at position `start`, which counts all values ever taken out.
  pub record Holds (size : ℕ) (r : Ring T) (xs : List T) : Type 0 where
    pub is_capacity : IsCapacity size
    pub mask : r.mask ≡ size - 1
    pub slots : length r.buffer ≡ size
    pub start : ℕ
    pub head : r.head ≡ start % u64_mod
    pub tail : r.tail ≡ (start + length xs) % u64_mod
    pub fits : length xs ≤ size
    pub at : At size r.buffer start xs

  module _ (size : ℕ) (r : Ring T) (xs : List T) (h : Holds size r xs) where
    pub capacity_lem : capacity r ≡ size
    unfolding add64
    capacity_lem = omega (arith, h.mask, h.is_capacity.pos, h.is_capacity.small)

    pub len_lem : len r ≡ length xs
    unfolding sub64
    len_lem = omega (arith, h.head, h.tail, h.fits, h.is_capacity.small)

    pub is_empty_lem : is_empty r ≡ (length xs == 0)
    is_empty_lem = ground (arith, h.head, h.tail, h.fits, h.is_capacity.small)

    head_index : bit_and r.head r.mask ≡ h.start % size
    head_index =
        rw (h.mask, h.head, h.is_capacity.masks) (mod-mod_of_dvd size h.start h.is_capacity.divides)

    tail_index : bit_and r.tail r.mask ≡ (h.start + length xs) % size
    tail_index =
        rw (h.mask, h.tail, h.is_capacity.masks)
          (mod-mod_of_dvd size (h.start + length xs) h.is_capacity.divides)

    -- `push` on a full ring.
    pub push_full : (v : T) → length xs ≡ size → push v r ≡ some (err v, r)
    unfolding push
    push_full v full = ground (arith, capacity_lem, len_lem)

    pub push_room :
        (v : T)
        → length xs < size
        → (t : Ring T) × (push v r ≡ some (ok, t)) × Holds size t (xs ++ v ∷ [])
    unfolding push add64
    push_room v room =
        let index = (h.start + length xs) % size in
        let inside : index < length r.buffer =
          omega (arith, h.slots, mod-lt (h.start + length xs) h.is_capacity.pos) in
        (
          record r { buffer = set r.buffer index (some v); tail = add64 r.tail 1 },
          (let (slot, there) = get_elem?-lt r.buffer index inside in
              ground (arith, capacity_lem, len_lem, tail_index, there)),
          record {
            is_capacity = h.is_capacity;
            mask = h.mask;
            slots = rw (length-set r.buffer index (some v)) h.slots;
            start = h.start;
            head = h.head;
            tail = omega (arith, h.tail, length-append xs (v ∷ []));
            fits = omega (arith, length-append xs (v ∷ []));
            at =
                At-append_one size (set r.buffer index (some v)) h.start v xs
                  (At-set size r.buffer index h.start (some v) xs h.at (λ k small e.
                    mod_ne size (h.start + k) (length xs - k - 1) (omega arith)
                      (sym e ∙ ap (λ (i : ℕ). i % size) (omega arith))))
                  (get_elem?-set_self r.buffer index (some v) inside);
          },
        )

  -- `pop` on an empty ring.
  pub pop_empty : (size : ℕ) (r : Ring T) → Holds size r [] → pop r ≡ some (none, r)
  unfolding pop
  pop_empty size r h = ground (arith, is_empty_lem size r [] h)

  pub pop_value :
      (size : ℕ) (r : Ring T) (x : T) (xs : List T)
      → Holds size r (x ∷ xs)
      → (t : Ring T) × (pop r ≡ some (some x, t)) × Holds size t xs
  unfolding pop add64
  pop_value size r x xs h =
      let index = h.start % size in
      (
        record r { buffer = set r.buffer index none; head = add64 r.head 1 },
        ground (arith, is_empty_lem size r (x ∷ xs) h, head_index size r (x ∷ xs) h, h.at.0),
        record {
          is_capacity = h.is_capacity;
          mask = h.mask;
          slots = rw (length-set r.buffer index none) h.slots;
          start = suc h.start;
          head = omega (arith, h.head);
          tail =
              rw (let e : suc h.start + length xs ≡ h.start + suc (length xs) = omega arith in e)
                h.tail;
          fits = omega (arith, h.fits);
          at = At-set size r.buffer index (suc h.start) none xs h.at.1 (λ k small e.
              mod_ne size h.start k (omega (arith, h.fits))
                (e ∙ ap (λ (i : ℕ). i % size) (omega arith)));
        },
      )

  -- `clear` on any ring it holds.
  pub clear_loop-Holds :
      (size fuel : ℕ) (r : Ring T) (xs : List T)
      → Holds size r xs
      → length xs < fuel
      → (t : Ring T) × (clear_loop fuel r ≡ some t) × Holds size t []
  unfolding clear_loop
  clear_loop-Holds size zero r xs h lt = absurd (omega arith)
  clear_loop-Holds size (suc fuel) r [] h lt = (r, ground (arith, pop_empty size r h), h)
  clear_loop-Holds size (suc fuel) r (x ∷ xs) h lt =
      let (rest, popped, left) = pop_value size r x xs h in
      let (t, runs, holds) = clear_loop-Holds size fuel rest xs left (omega arith) in
      (t, ground (arith, popped, runs), holds)

  pub clear-Holds :
      (size : ℕ) (r : Ring T) (xs : List T)
      → Holds size r xs
      → (t : Ring T) × (clear r ≡ some t) × Holds size t []
  unfolding clear
  clear-Holds size r xs h =
      clear_loop-Holds size (suc (len r)) r xs h (omega (arith, len_lem size r xs h))

  -- A new ring is empty, and its capacity is the least power of two that is enough.
  pub new-Holds :
      (wanted : ℕ)
      → 0 < wanted
      → wanted ≤ 2 ^ 63
      → (r : Ring T) × (new wanted ≡ some r)
        × Holds (next_power_of_two 63 1 wanted) r []
        × (wanted ≤ next_power_of_two 63 1 wanted)
        × (next_power_of_two 63 1 wanted < 2 * wanted)
  unfolding new
  new-Holds wanted pos small =
      let (j, is_power, below, up, low) = next_power_of_two-pow 63 0 wanted small (omega arith) in
      let size = next_power_of_two 63 1 wanted in
      (
        record { buffer = uninit size; mask = size - 1; head = 0; tail = 0 },
        ground (arith, pos),
        record {
          is_capacity = rw is_power (pow-IsCapacity j (omega arith));
          mask = refl;
          slots = length-uninit T size;
          start = 0;
          head = omega arith;
          tail = omega arith;
          fits = omega arith;
          at = tt;
        },
        omega (arith, is_power),
        omega (arith, is_power),
      )
