-- ===== src/Base/Bits.antt =====
-- A mask of ones as a remainder by a power of two.
use Prim.Native.Nat.{
  ℕ, zero, suc, ◌+◌, ◌-◌, ◌*◌, ◌/◌, ◌%◌, ◌^◌, ◌≤◌, ◌<◌, min, max, bit_and, bit_or, digits,
  bit_and-bitwise, bit_or-bitwise,
}
use mathlib.Core.Path.{◌≡◌, refl, ap, ◌∙◌}
use native.Mathlib.Nat.{
  mul_assoc, pow-suc, zero-mod, div-add-mod, mod-lt, mod-eq_of_lt, add-mul-mod_self_right,
}
use native.Mathlib.Omega.{arith}

pub pow_pos : (k : ℕ) → 0 < 2 ^ k
pow_pos zero = omega arith
pow_pos (suc k) = rw pow-suc (omega (arith, pow_pos k))

-- The remainder by twice a number, digit by digit.
double-mod : (m a : ℕ) → 0 < m → a % (m * 2) ≡ (a / 2 % m) * 2 + a % 2
double-mod m a h =
    let r = (a / 2 % m) * 2 + a % 2 in
    let whole : a ≡ r + (a / 2 / m) * (m * 2) = omega (arith, div-add-mod (a / 2) m) in
    let small : r < m * 2 = omega (arith, mod-lt (a / 2) h) in
    ap (λ t. t % (m * 2)) whole ∙ add-mul-mod_self_right r (a / 2 / m) (m * 2) ∙ mod-eq_of_lt small

-- What `bit_and` stands for, at a mask of `k` ones and with `depth` digits of `a` to read.
masked : (depth k a : ℕ) → a ≤ depth → digits (λ b. zero) min depth a (2 ^ k - 1) ≡ a % 2 ^ k
masked zero k zero h = omega (arith, zero-mod (2 ^ k))
masked (suc depth) k zero h = omega (arith, zero-mod (2 ^ k))
masked zero k (suc a) h = absurd (omega arith)
masked (suc depth) zero (suc a) h = omega (arith, masked depth zero (suc a / 2) (omega arith))
masked (suc depth) (suc k) (suc a) h =
    let below : (2 ^ k * 2 - 1) / 2 ≡ 2 ^ k - 1 = omega (arith, pow_pos k) in
    rw (pow-suc, below, masked depth k (suc a / 2) (omega arith))
      (omega (arith, pow_pos k, double-mod (2 ^ k) (suc a) (pow_pos k)))

-- A mask of ones keeps the remainder by the power of two.
pub bit_and-mask : (k a : ℕ) → bit_and a (2 ^ k - 1) ≡ a % 2 ^ k
bit_and-mask k a = bit_and-bitwise a (2 ^ k - 1) ∙ masked a k a (omega arith)

-- What `bit_or` stands for where the numbers share no digit.
joined :
    (depth k h a b : ℕ)
    → a ≡ h * 2 ^ k
    → b < 2 ^ k
    → a ≤ depth
    → digits (λ b. b) max depth a b ≡ a + b
joined zero k h zero b e s l = omega arith
joined (suc depth) k h zero b e s l = omega arith
joined zero k h (suc a) b e s l = absurd (omega arith)
joined (suc depth) zero h (suc a) b e s l =
    let b_zero : b ≡ 0 = omega (arith) in
    rw
      (
        b_zero,
        joined depth zero (suc a / 2) (suc a / 2) 0 (omega arith) (omega arith) (omega arith),
      )
      (omega arith)
joined (suc depth) (suc k) h (suc a) b e s l =
    let e' : suc a ≡ h * (2 ^ k * 2) = rw pow-suc at e in
    let e2 : suc a ≡ (h * 2 ^ k) * 2 = omega (arith, mul_assoc h (2 ^ k) 2) in
    let s' : b < 2 ^ k * 2 = rw pow-suc at s in
    rw (joined depth k h (suc a / 2) (b / 2) (omega arith) (omega arith) (omega arith))
      (omega arith)

-- Digits beside each other are added.
pub bit_or-beside : (k h b : ℕ) → b < 2 ^ k → bit_or (h * 2 ^ k) b ≡ h * 2 ^ k + b
bit_or-beside k h b s =
    bit_or-bitwise (h * 2 ^ k) b ∙ joined (h * 2 ^ k) k h (h * 2 ^ k) b refl s (omega arith)

above_both :
    (depth a b : ℕ)
    → a ≤ depth
    → (a ≤ digits (λ b. b) max depth a b) × (b ≤ digits (λ b. b) max depth a b)
above_both zero zero b h = (omega arith, omega arith)
above_both (suc depth) zero b h = (omega arith, omega arith)
above_both zero (suc a) b h = absurd (omega arith)
above_both (suc depth) (suc a) b h =
    let (left, right) = above_both depth (suc a / 2) (b / 2) (omega arith) in
    (omega arith, omega arith)

-- No digit is lost.
pub bit_or-ge : (a b : ℕ) → (a ≤ bit_or a b) × (b ≤ bit_or a b)
bit_or-ge a b = rw (bit_or-bitwise a b) (above_both a a b (omega arith))
