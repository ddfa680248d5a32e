-- ===== src/Handshake/Numbers.antt =====
-- `getbe` and `putbe` of `ventrilo3_handshake.c`.
use ventmac.Prelude.{
  ℕ, zero, suc, ◌+◌, ◌*◌, ◌/◌, ◌^◌, ◌≤◌, ◌<◌, ◌≡◌, refl, sym, ap, ◌∙◌, List, ◌++◌, some, arith,
  bit_or, u8, u32, ◌<<<◌, ◌>>>◌,
}
use native.Mathlib.Nat.{mul_assoc}
use Prim.Native.Nat.{digits, bit_or-bitwise, max}
use ventmac.Handshake.{getbe_loop, getbe, putbe_loop, putbe}

pow_suc : (k : ℕ) → 2 ^ suc k ≡ 2 ^ k * 2
pow_suc k = omega arith

product_suc : (x k : ℕ) → x * 2 ^ suc k ≡ x * 2 ^ k * 2
product_suc x k = rw (pow_suc k) (sym (mul_assoc x (2 ^ k) 2))

-- Numbers with no digit in common are added by `|`.
digits-add : (n a b k x : ℕ) → a ≤ n → a ≡ x * 2 ^ k → b < 2 ^ k → digits (λ b. b) max n a b ≡ a + b
digits-add zero a b k x h e small = let z : a ≡ 0 = omega arith in rw z (omega arith)
digits-add (suc n) zero b k x h e small = omega arith
digits-add (suc n) (suc a) b zero x h e small =
    let rec =
      digits-add n (suc a / 2) (b / 2) zero (suc a / 2) (omega arith) (omega arith) (omega arith) in
    rw rec (omega arith)
digits-add (suc n) (suc a) b (suc k) x h e small =
    let double : 2 ^ suc k ≡ 2 ^ k * 2 = pow_suc k in
    let even : suc a ≡ x * 2 ^ k * 2 = e ∙ product_suc x k in
    let rec = digits-add n (suc a / 2) (b / 2) k x (omega arith) (omega arith) (omega arith) in
    rw rec (omega arith)

bit_or-add : (a b k x : ℕ) → a ≡ x * 2 ^ k → b < 2 ^ k → bit_or a b ≡ a + b
bit_or-add a b k x e small =
    (λ i. bit_or-bitwise a b i) ∙ digits-add a a b k x (omega arith) e small

-- The part of `num` above its last `left` bytes, in place.
abbrev top : ℕ → ℕ → ℕ
top left num = num / 2 ^ (left * 8) * 2 ^ (left * 8)

top_step :
    (left num : ℕ)
    → left < 4
    → num < 2 ^ 32
    → u32 (bit_or (top (suc left) num) (u8 (num >>> (left <<< 3)) <<< (left <<< 3))) ≡ top left num
top_step zero num h small =
    rw (bit_or-add (top 1 num) (u8 (num >>> 0) <<< 0) 8 (num / 2 ^ 8) refl (omega arith))
      (omega arith)
top_step (suc zero) num h small =
    rw (bit_or-add (top 2 num) (u8 (num >>> 8) <<< 8) 16 (num / 2 ^ 16) refl (omega arith))
      (omega arith)
top_step (suc (suc zero)) num h small =
    rw (bit_or-add (top 3 num) (u8 (num >>> 16) <<< 16) 24 (num / 2 ^ 24) refl (omega arith))
      (omega arith)
top_step (suc (suc (suc zero))) num h small =
    rw (bit_or-add (top 4 num) (u8 (num >>> 24) <<< 24) 32 (num / 2 ^ 32) refl (omega arith))
      (omega arith)
top_step (suc (suc (suc (suc left)))) num h small = omega arith

getbe_loop-putbe_loop :
    (left num : ℕ) (rest : List ℕ)
    → left ≤ 4
    → num < 2 ^ 32
    → getbe_loop left (top left num) (putbe_loop left num ++ rest) ≡ some num
unfolding getbe_loop putbe_loop
getbe_loop-putbe_loop zero num rest h small = ap some (omega arith)
getbe_loop-putbe_loop (suc left) num rest h small =
    rw (top_step left num (omega arith) small)
      (getbe_loop-putbe_loop left num rest (omega arith) small)

top_zero : (bytes num : ℕ) → bytes ≤ 4 → num < 2 ^ (bytes * 8) → top bytes num ≡ 0
top_zero zero num h small = omega arith
top_zero (suc zero) num h small = omega arith
top_zero (suc (suc zero)) num h small = omega arith
top_zero (suc (suc (suc zero))) num h small = omega arith
top_zero (suc (suc (suc (suc zero)))) num h small = omega arith
top_zero (suc (suc (suc (suc (suc bytes))))) num h small = omega arith

below_word : (bytes num : ℕ) → bytes ≤ 4 → num < 2 ^ (bytes * 8) → num < 2 ^ 32
below_word zero num h small = omega arith
below_word (suc zero) num h small = omega arith
below_word (suc (suc zero)) num h small = omega arith
below_word (suc (suc (suc zero))) num h small = omega arith
below_word (suc (suc (suc (suc zero)))) num h small = omega arith
below_word (suc (suc (suc (suc (suc bytes))))) num h small = omega arith

-- A number of `bytes` bytes, four at most, is read back as it was written, whatever follows.
pub getbe-putbe :
    (bytes num : ℕ) (rest : List ℕ)
    → bytes ≤ 4
    → num < 2 ^ (bytes * 8)
    → getbe (putbe num (bytes * 8) ++ rest) (bytes * 8) ≡ some num
unfolding getbe putbe
getbe-putbe bytes num rest h small =
    let whole : (bytes * 8) >>> 3 ≡ bytes = omega arith in
    rw (whole, sym (top_zero bytes num h small))
      (getbe_loop-putbe_loop bytes num rest h (below_word bytes num h small))
