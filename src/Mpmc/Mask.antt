-- ===== src/Mpmc/Mask.antt =====
-- The mask of the queue of `kernel/src/mpmc.rs`: the capacity is a power of two, and `&` with one
-- less is the remainder.
use Prim.Native.Nat.{digits, bit_and, bit_and-bitwise}
use native.Mathlib.Nat.{mod-add-div, mod-eq_of_lt, mod-lt, add-mul-mod_self_right}
use node_replicated_kernel.Prelude.{
  ℕ, zero, suc, ◌+◌, ◌-◌, ◌*◌, ◌/◌, ◌%◌, ◌^◌, ◌≤◌, ◌<◌, ◌≡◌, refl, sym, ap, ◌∙◌, ◌==◌, Bool-cases,
  inl, inr, ◌⊎◌, min, arith,
}

abbrev and_digits : ℕ → ℕ → ℕ → ℕ
and_digits n a b = digits (λ b. zero) min n a b

-- Even or odd.
Nat-parity : (c : ℕ) → ((d : ℕ) × (c ≡ 2 * d)) ⊎ ((d : ℕ) × (c ≡ 2 * d + 1))
Nat-parity c = elim (Bool-cases (c % 2 == 0)) [
  | inl t ↦ inl (c / 2, ground arith)
  | inr f ↦ inr (c / 2, ground arith)
]

pub pow2-suc : (k : ℕ) → 2 ^ suc k ≡ 2 * 2 ^ k
pow2-suc k = grind arith

pub pow2-pos : (k : ℕ) → 0 < 2 ^ k
pow2-pos zero = omega arith
pow2-pos (suc k) = omega (arith, pow2-pos k, pow2-suc k)

halved-mod : (x m : ℕ) → 0 < m → (x / 2) % m * 2 + x % 2 ≡ x % (2 * m)
halved-mod x m h =
    let q = x / 2 / m in
    let r = x / 2 % m in
    let parts : r + m * q ≡ x / 2 = mod-add-div (x / 2) m in
    let less : r < m = mod-lt (x / 2) h in
    let whole : x ≡ (r * 2 + x % 2) + q * (2 * m) = grind arith in
    sym (
      ap (λ n. n % (2 * m)) whole
      ∙ add-mul-mod_self_right (r * 2 + x % 2) q (2 * m)
      ∙ mod-eq_of_lt (omega arith))

mask_digits : (n k a : ℕ) → a ≤ n → and_digits n a (2 ^ k - 1) ≡ a % 2 ^ k
mask_digits zero k zero h = sym (mod-eq_of_lt (pow2-pos k))
mask_digits zero k (suc a) h = absurd (omega arith)
mask_digits (suc n) k zero h = sym (mod-eq_of_lt (pow2-pos k))
mask_digits (suc n) zero (suc a) h = omega (arith, mask_digits n zero (suc a / 2) (omega arith))
mask_digits (suc n) (suc k) (suc a) h =
    let half : (2 ^ suc k - 1) / 2 ≡ 2 ^ k - 1 = omega (arith, pow2-suc k, pow2-pos k) in
    let odd : (2 ^ suc k - 1) % 2 ≡ 1 = omega (arith, pow2-suc k, pow2-pos k) in
    rw (half, odd, mask_digits n k (suc a / 2) (omega arith))
      (omega (arith, halved-mod (suc a) (2 ^ k) (pow2-pos k), ap (λ m. suc a % m) (pow2-suc k)))

-- `&` with a mask is the remainder by the power of two.
pub bit_and-mask : (k a : ℕ) → bit_and a (2 ^ k - 1) ≡ a % 2 ^ k
bit_and-mask k a = bit_and-bitwise a (2 ^ k - 1) ∙ mask_digits a k a (omega arith)

digits_self : (n a : ℕ) → a ≤ n → and_digits n a a ≡ a
digits_self zero zero h = refl
digits_self zero (suc a) h = absurd (omega arith)
digits_self (suc n) zero h = refl
digits_self (suc n) (suc a) h = omega (arith, digits_self n (suc a / 2) (omega arith))

digits-power : (n c : ℕ) → suc c ≤ n → and_digits n (suc c) c ≡ 0 → (k : ℕ) × (suc c ≡ 2 ^ k)
digits-power zero c h e = absurd (omega arith)
digits-power (suc n) c h e = elim (Nat-parity c) [
  | inl (d, even) ↦
      let up : suc c / 2 ≡ d = omega arith in
      let down : c / 2 ≡ d = omega arith in
      let halves : and_digits n d d * 2 + min (suc c % 2) (c % 2) ≡ 0 = rw (up, down) at e in
      (0, omega (arith, digits_self n d (omega arith)))
  | inr (d, odd) ↦
      let up : suc c / 2 ≡ suc d = omega arith in
      let down : c / 2 ≡ d = omega arith in
      let halves : and_digits n (suc d) d * 2 + min (suc c % 2) (c % 2) ≡ 0 = rw (up, down) at e in
      let (k, p) = digits-power n d (omega arith) (omega arith) in
      (suc k, omega (arith, pow2-suc k))
]

-- The test of `with_capacity` for a power of two.
pub bit_and-power : (c : ℕ) → 0 < c → bit_and c (c - 1) ≡ 0 → (k : ℕ) × (c ≡ 2 ^ k)
bit_and-power zero h e = absurd (omega arith)
bit_and-power (suc c) h e =
    let less : suc c - 1 ≡ c = omega arith in
    digits-power (suc c) c (omega arith) (sym (bit_and-bitwise (suc c) c) ∙ (rw less at e))
