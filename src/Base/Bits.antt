-- ===== src/Base/Bits.antt =====
-- Masks of low bits, and powers of two.
use Prim.Native.Nat.{
  ℕ, zero, suc, ◌+◌, ◌-◌, ◌*◌, ◌/◌, ◌%◌, ◌^◌, ◌≤◌, ◌<◌, ◌∣◌, min, bit_and, digits, bit_and-bitwise,
}
use mathlib.Core.Path.{◌≡◌, ◌∙◌, ap, sym, ap₂, ◌≡⟨◌⟩◌, ◌∎}
use native.Mathlib.Nat.{
  two-pow-succ, one-le-pow, dvd_refl, dvd-mul_right_of_dvd, mod-eq_of_lt, pow-suc, mod-add-div,
  mul-add-mod_self_left, mod-lt,
}
use native.Mathlib.Decide.{dec_lt}
use native.Mathlib.Omega.{arith}

pub pow_pos : (k : ℕ) → 0 < 2 ^ k
pow_pos k = one-le-pow k 2 (omega arith)

-- A number modulo a doubled modulus is made of its last bit and its half modulo the modulus.
half_mod : (m a : ℕ) → 0 < m → (a / 2) % m * 2 + a % 2 ≡ a % (m + m)
half_mod m a pos =
    let rest : ℕ = (a / 2) % m * 2 + a % 2 in
    let small : rest < m + m = omega (arith, mod-lt (a / 2) pos) in
    let whole : a ≡ (m + m) * (a / 2 / m) + rest = omega (arith, mod-add-div (a / 2) m) in
    sym (
      a % (m + m)
      ≡⟨ ap (λ (x : ℕ). x % (m + m)) whole ⟩ ((m + m) * (a / 2 / m) + rest) % (m + m)
      ≡⟨ mul-add-mod_self_left (m + m) (a / 2 / m) rest ⟩ rest % (m + m)
      ≡⟨ mod-eq_of_lt small ⟩ rest ∎)

-- The lowest bits of a number, with enough digits to read it.
digits_mask : (k n a : ℕ) → a ≤ n → digits (λ b. zero) min n a (2 ^ k - 1) ≡ a % 2 ^ k
digits_mask k zero zero h = omega (arith, mod-eq_of_lt (pow_pos k))
digits_mask k zero (suc a) h = absurd (omega arith)
digits_mask k (suc n) zero h = omega (arith, mod-eq_of_lt (pow_pos k))
digits_mask zero (suc n) (suc a) h = omega (arith, digits_mask zero n (suc a / 2) (omega arith))
digits_mask (suc k) (suc n) (suc a) h =
    let double : 2 ^ suc k ≡ 2 ^ k + 2 ^ k = two-pow-succ k in
    let half : (2 ^ suc k - 1) / 2 ≡ 2 ^ k - 1 = omega (arith, double, pow_pos k) in
    let low : (2 ^ suc k - 1) % 2 ≡ 1 = omega (arith, double, pow_pos k) in
    let rest = digits_mask k n (suc a / 2) (omega arith) in
    ap₂ (λ (b c : ℕ). digits (λ b'. zero) min n (suc a / 2) b * 2 + min (suc a % 2) c) half low
    ∙ omega (arith, rest, half_mod (2 ^ k) (suc a) (pow_pos k), ap (λ (m : ℕ). suc a % m) double)

-- `a & (2^k - 1)`.
pub bit_and_mask : (k a : ℕ) → bit_and a (2 ^ k - 1) ≡ a % 2 ^ k
bit_and_mask k a = bit_and-bitwise a (2 ^ k - 1) ∙ digits_mask k a a (omega arith)

-- A smaller power of two divides a larger one.
pub pow-dvd-pow : (k n : ℕ) → k ≤ n → 2 ^ k ∣ 2 ^ n
pow-dvd-pow k zero h = rw (let e : k ≡ 0 = omega arith in e) (dvd_refl 1)
pow-dvd-pow k (suc n) h = elim (dec_lt n k) [
  | yes p ↦ rw (let e : k ≡ suc n = omega arith in e) (dvd_refl (2 ^ suc n))
  | no p ↦ rw (pow-suc 2 n) (dvd-mul_right_of_dvd (2 ^ k) (pow-dvd-pow k n (omega arith)) 2)
]
