-- ===== src/Wire/Scalars.antt =====
-- Strings and arrays in a packet are read as they were written.
use ventmac.Prelude.{
  ℕ, zero, suc, ◌+◌, ◌-◌, ◌*◌, ◌/◌, ◌^◌, ◌<◌, ◌≡◌, refl, ap, List, [], ◌∷◌, ◌++◌, some, arith,
  length, length-append, All, drop, take_all, take_prefix, drop_prefix, u8, u16,
}
use ventmac.Wire.{
  be16, memcpy, v3_get_msg_string, get_elements, v3_get_msg_uint16_array, put_elements,
  v3_put_msg_uint16_array, v3_put_msg_string,
}
use ventmac.Wire.Structs.{next_string, next_array}

-- A string whose length, with the two bytes before it, fits the `uint16_t` that counts them.
abbrev pub IsShort : List ℕ → Type 0
IsShort s = length s < 65534

abbrev pub IsWord : ℕ → Type 0
IsWord x = x < 2 ^ 16

-- As many bytes as there are in the first part are copied from it.
pub memcpy-prefix : (xs rest : List ℕ) (n : ℕ) → length xs ≡ n → memcpy n (xs ++ rest) ≡ some xs
unfolding memcpy
memcpy-prefix xs rest n e = rw (← e, take_prefix xs rest) (ground (arith, length-append xs rest))

pub drop_of_length : (xs rest : List ℕ) (n : ℕ) → length xs ≡ n → drop n (xs ++ rest) ≡ rest
drop_of_length xs rest n e = rw (← e) (drop_prefix xs rest)

bytes_of_word : (n : ℕ) → IsWord n → u8 (n / 2 ^ 8) * 2 ^ 8 + u8 n ≡ n
bytes_of_word n h = omega arith

pub v3_get_msg_string-v3_put_msg_string :
    (s rest : List ℕ)
    → IsShort s
    → v3_get_msg_string (v3_put_msg_string (some s) ++ rest) ≡ some (s, length s + 2)
unfolding v3_get_msg_string v3_put_msg_string
v3_get_msg_string-v3_put_msg_string s rest h =
    let n : u16 (length s) ≡ length s = omega arith in
    let m : u16 (length s + 2) ≡ length s + 2 = omega arith in
    rw (n, take_all s, bytes_of_word (length s) (omega arith), take_prefix s rest)
      (ground (arith, length-append s rest, m))

pub length-v3_put_msg_string :
    (s : List ℕ) → IsShort s → length (v3_put_msg_string (some s)) ≡ length s + 2
unfolding v3_put_msg_string
length-v3_put_msg_string s h =
    let n : u16 (length s) ≡ length s = omega arith in rw (n, take_all s) (omega arith)

drop-v3_put_msg_string :
    (s rest : List ℕ) → IsShort s → drop (length s + 2) (v3_put_msg_string (some s) ++ rest) ≡ rest
unfolding v3_put_msg_string
drop-v3_put_msg_string s rest h =
    let n : u16 (length s) ≡ length s = omega arith in
    let k : length s + 2 ≡ suc (suc (length s)) = omega arith in
    rw (n, take_all s, k) (drop_prefix s rest)

-- A string is read back as it was written, and reading goes on behind it.
pub next_string-v3_put_msg_string :
    (s rest : List ℕ)
    → IsShort s
    → next_string (v3_put_msg_string (some s) ++ rest) ≡ some (s, rest)
unfolding next_string
next_string-v3_put_msg_string s rest h =
    rw (v3_get_msg_string-v3_put_msg_string s rest h)
      (ap (λ t. some (s, t)) (drop-v3_put_msg_string s rest h))

-- The bytes of an array whose elements are all there.
abbrev pub words : List ℕ → List ℕ
words [] = []
words (x ∷ xs) = be16 x ++ words xs

put_elements-words : (xs : List ℕ) → put_elements (length xs) xs ≡ some (words xs)
unfolding put_elements
put_elements-words [] = refl
put_elements-words (x ∷ xs) = rw (put_elements-words xs)

get_elements-words :
    (xs rest : List ℕ) → All IsWord xs → get_elements (length xs) (words xs ++ rest) ≡ some xs
unfolding get_elements
get_elements-words [] rest w = refl
get_elements-words (x ∷ xs) rest w =
    let e : u8 (x / 2 ^ 8) * 2 ^ 8 + u8 x ≡ x = omega (arith, w.0) in
    rw (get_elements-words xs rest w.1, e)

drop-words : (xs rest : List ℕ) (n : ℕ) → n ≡ 2 * length xs → drop n (words xs ++ rest) ≡ rest
drop-words [] rest zero h = refl
drop-words [] rest (suc n) h = absurd (omega arith)
drop-words (x ∷ xs) rest zero h = absurd (omega arith)
drop-words (x ∷ xs) rest (suc zero) h = absurd (omega arith)
drop-words (x ∷ xs) rest (suc (suc n)) h = drop-words xs rest n (omega arith)

-- What the two functions on arrays do, for an array of as many elements as are counted.
pub v3_put_msg_uint16_array-words :
    (xs : List ℕ)
    → length xs < 32767
    → v3_put_msg_uint16_array (length xs) xs ≡ some (be16 (length xs) ++ words xs)
unfolding v3_put_msg_uint16_array
v3_put_msg_uint16_array-words xs h =
    let n : u16 (length xs) ≡ length xs = omega arith in rw (n, put_elements-words xs)

-- An array is read back as it was written, with its count, and reading goes on behind it.
pub next_array-words :
    (xs rest : List ℕ)
    → length xs < 32767
    → All IsWord xs
    → next_array (be16 (length xs) ++ (words xs ++ rest)) ≡ some (xs, length xs, rest)
unfolding next_array v3_get_msg_uint16_array
next_array-words xs rest h w =
    let m : u16 (length xs * 2 + 2) ≡ suc (suc (length xs * 2)) = omega arith in
    let c : (suc (suc (length xs * 2)) - 2) / 2 ≡ length xs = omega arith in
    rw
      (
        bytes_of_word (length xs) (omega arith),
        get_elements-words xs rest w,
        m,
        c,
        drop-words xs rest (length xs * 2) (omega arith),
      )
      (ground arith)
