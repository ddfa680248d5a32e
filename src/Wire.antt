-- ===== src/Wire.antt =====
-- Sources/CVentrilo3/libventrilo3_message.c, the functions up to `_v3_strip_c0_set`: strings, arrays
-- and the structures that several messages share, in the bytes of a packet.
-- `offset` is the list of the bytes from there to the end of the packet; `none` is a read past that
-- end, which the source does not check. Lengths and array elements are in network order, the fields
-- that are copied with `memcpy` in the order of the host, which is little-endian.
pub mod Structs
pub mod Scalars
pub mod Filters
mod Examples
use ventmac.Prelude.{
  ℕ, zero, suc, ◌+◌, ◌-◌, ◌*◌, ◌/◌, ◌%◌, ◌^◌, Bool, true, false, List, [], ◌∷◌, ◌++◌, Option, none,
  some, length, take, drop, u8, u16, ltb, leb, ◌==◌, if◌then◌else◌, ◌>>=◌,
}

-- Two bytes, most significant first, as `ntohs` reads them and `htons` leaves them in memory.
abbrev pub be16 : ℕ → List ℕ
be16 n = u8 (n / 2 ^ 8) ∷ u8 n ∷ []

pub get_be16 : List ℕ → Option ℕ
get_be16 (hi ∷ lo ∷ xs) = some (hi * 2 ^ 8 + lo)
get_be16 _ = none

-- `memcpy(_, offset, n)`: all `n` bytes must be there.
unfoldable pub memcpy : ℕ → List ℕ → Option (List ℕ)
memcpy n offset = if leb n (length offset) then some (take n offset) else none

-- The string and the value left in `*len`, a `uint16_t`.
unfoldable pub v3_get_msg_string : List ℕ → Option (List ℕ × ℕ)
unfolding get_be16 memcpy
v3_get_msg_string offset = do
  n ← get_be16 offset
  s ← memcpy n (drop 2 offset)
  some (s, u16 (n + 2))

-- `n` elements, each through `ntohs`.
unfoldable pub get_elements : ℕ → List ℕ → Option (List ℕ)
get_elements zero xs = some []
get_elements (suc n) (hi ∷ lo ∷ xs) = do rest ← get_elements n xs; some ((hi * 2 ^ 8 + lo) ∷ rest)
get_elements (suc n) _ = none

unfoldable pub v3_get_msg_uint16_array : List ℕ → Option (List ℕ × ℕ)
unfolding get_be16 get_elements
v3_get_msg_uint16_array offset = do
  n ← get_be16 offset
  s ← get_elements n (drop 2 offset)
  some (s, u16 (n * 2 + 2))

pub put_elements : ℕ → List ℕ → Option (List ℕ)
put_elements zero array = some []
put_elements (suc n) [] = none
put_elements (suc n) (x ∷ array) = do rest ← put_elements n array; some (be16 x ++ rest)

-- The bytes written to `buffer`; their number is the result. `none` is a read past the end of `array`.
unfoldable pub v3_put_msg_uint16_array : ℕ → List ℕ → Option (List ℕ)
unfolding put_elements
v3_put_msg_uint16_array len array = do
  xs ← put_elements (u16 len) array
  some (be16 (u16 len) ++ xs)

-- `none` is a NULL pointer; a string is its bytes before the final NUL.
unfoldable pub v3_put_msg_string : Option (List ℕ) → List ℕ
v3_put_msg_string none = be16 0
v3_put_msg_string (some s) = let len = u16 (length s) in be16 len ++ take len s

-- `*str = (*str < 0x20) ? 0x20 : *str` up to the final NUL.
unfoldable pub v3_strip_c0_set : List ℕ → List ℕ
v3_strip_c0_set [] = []
v3_strip_c0_set (c ∷ s) =
    if c == 0 then c ∷ s else (if ltb c 0x20 then 0x20 else c) ∷ v3_strip_c0_set s

-- `strchr(s, ',')`: the bytes before the comma and those after it, or NULL.
pub split_comma : List ℕ → Option (List ℕ × List ℕ)
split_comma [] = none
split_comma (c ∷ s) =
    if c == b','
    then some ([], s)
    else (do (before, after) ← split_comma s; some (c ∷ before, after))

pub record Filter : Type 0 where
  pub action : ℕ
  pub interval : ℕ
  pub times : ℕ

-- `atoi` is a parameter; its result is cut to the width of each field. `none` where false is
-- returned and the filter is left as it was.
pub v3_parse_filter : (List ℕ → ℕ) → List ℕ → Option Filter
unfolding split_comma
v3_parse_filter atoi value = do
  (a, rest) ← split_comma value
  (i, t) ← split_comma rest
  some (record { action = u8 (atoi a); interval = u16 (atoi i); times = u8 (atoi t) })
