-- ===== src/Prelude/Bits.antt =====
-- The operations on binary digits stay below a power of two.
use Prim.Native.Nat.{
  ℕ, zero, suc, ◌*◌, ◌/◌, ◌%◌, ◌^◌, ◌<◌, ◌≤◌, digits, differ, bit_xor, bit_xor-bitwise,
}
use native.Mathlib.Omega.{arith}

-- `m` is a power of two.
module _ (z : ℕ → ℕ) (f : ℕ → ℕ → ℕ) where
  Closed : ℕ → Type 0
  Closed m = (n a b : ℕ) → a < m → b < m → digits z f n a b < m

abbrev power : ℕ → ℕ
power zero = 1
power (suc k) = power k * 2

module _ (z : ℕ → ℕ) (f : ℕ → ℕ → ℕ) (out : (b : ℕ) → z b ≤ b)
    (bit : (x y : ℕ) → x < 2 → y < 2 → f x y < 2) where
  double : (m : ℕ) → Closed z f m → Closed z f (m * 2)
  unfolding Closed
  double m h zero a b ha hb = omega (arith, out b)
  double m h (suc n) zero b ha hb = omega (arith, out b)
  double m h (suc n) (suc a) b ha hb = omega (
    arith,
    h n (suc a / 2) (b / 2) (omega arith) (omega arith),
    bit (suc a % 2) (b % 2) (omega arith) (omega arith),
  )

  Closed-power : (k : ℕ) → Closed z f (power k)
  unfolding Closed
  Closed-power zero zero a b ha hb = omega (arith, out b)
  Closed-power zero (suc n) zero b ha hb = omega (arith, out b)
  Closed-power zero (suc n) (suc a) b ha hb = absurd (omega arith)
  Closed-power (suc k) n a b ha hb = double (power k) (Closed-power k) n a b ha hb

differ_bit : (x y : ℕ) → x < 2 → y < 2 → differ x y < 2
differ_bit zero y hx hy = hy
differ_bit (suc x) zero hx hy = hx
differ_bit (suc x) (suc y) hx hy = differ_bit x y (omega arith) (omega arith)

pub bit_xor-byte : (a b : ℕ) → a < 2 ^ 8 → b < 2 ^ 8 → bit_xor a b < 2 ^ 8
unfolding Closed
bit_xor-byte a b ha hb =
    simp bit_xor-bitwise (Closed-power (λ x. x) differ (λ x. omega arith) differ_bit 8 a a b ha hb)

pub bit_xor-dword : (a b : ℕ) → a < 2 ^ 32 → b < 2 ^ 32 → bit_xor a b < 2 ^ 32
unfolding Closed
bit_xor-dword a b ha hb =
    simp bit_xor-bitwise (Closed-power (λ x. x) differ (λ x. omega arith) differ_bit 32 a a b ha hb)
