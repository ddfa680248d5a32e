-- ===== src/Prelude/Words.antt =====
-- Casts to the fixed widths of C, and bytes.
use Prim.Native.Nat.{ℕ, ◌-◌, ◌*◌, ◌+◌, ◌/◌, ◌%◌, ◌^◌, ◌<◌}

abbrev pub u8 : ℕ → ℕ
u8 n = n % 2 ^ 8

abbrev pub u16 : ℕ → ℕ
u16 n = n % 2 ^ 16

abbrev pub u32 : ℕ → ℕ
u32 n = n % 2 ^ 32

-- `(uint8_t)(x - d)`; `d` is reduced first, since `-` on numbers stops at 0.
abbrev pub sub8 : ℕ → ℕ → ℕ
sub8 x d = u8 (x + 256 - u8 d)

infixl 75 ◌<<<◌ ◌>>>◌
abbrev pub ◌<<<◌ : ℕ → ℕ → ℕ
x <<< k = x * 2 ^ k

abbrev pub ◌>>>◌ : ℕ → ℕ → ℕ
x >>> k = x / 2 ^ k

-- The value is stored in one byte.
abbrev pub IsByte : ℕ → Type 0
IsByte x = x < 256

-- The values of an `int` that may be negative: `negsuc n` is `-(n + 1)`.
pub data ℤ : Type 0 where
  pos negsuc : ℕ → ℤ
