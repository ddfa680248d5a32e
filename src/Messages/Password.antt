-- ===== src/Messages/Password.antt =====
-- `_v3_hash_password` of Sources/CVentrilo3/libventrilo3.c, which fills the 32 bytes of a hash one by
-- one from the password, a checksum of the bytes so far and a counter.
-- `none` is an access out of bounds or, for the search, no end within the fuel.
pub mod Total
use ventmac.Prelude.{
  ℕ, zero, suc, ◌+◌, ◌-◌, ◌/◌, ◌%◌, ◌^◌, bit_xor, List, [], ◌∷◌, ◌++◌, Option, none, some,
  get_elem?, get_or, length, take, set, u8, u32, ltb, ◌==◌, if◌then◌else◌, ◌>>=◌,
}
use ventmac.Messages.HashTable.{v3_hash_table}

-- `for (j = 0, crc = 0; j < i + 1; j++)` over the bytes up to `hash[i]`.
unfoldable pub crc_loop : List ℕ → ℕ → Option ℕ
crc_loop [] crc = some crc
crc_loop (h ∷ hs) crc = do
  entry ← get_elem? v3_hash_table (bit_xor h (u8 crc))
  crc_loop hs (bit_xor entry (crc / 2 ^ 8))

-- `*(uint32_t *)tmp = htonl(crc)`
abbrev pub be32 : ℕ → List ℕ
be32 n = u8 (n / 2 ^ 24) ∷ u8 (n / 2 ^ 16) ∷ u8 (n / 2 ^ 8) ∷ u8 n ∷ []

-- `tmp[cnt & 3]`
abbrev pub tmp_byte : List ℕ → ℕ → ℕ
tmp_byte tmp cnt = get_or tmp (cnt % 4) 0

-- `while (!tmp[cnt & 3]) cnt++`, on fuel.
unfoldable pub skip_zeros : ℕ → List ℕ → ℕ → Option ℕ
skip_zeros zero tmp cnt = none
skip_zeros (suc fuel) tmp cnt =
    let rest = skip_zeros fuel tmp (u32 (cnt + 1)) in
    if tmp_byte tmp cnt == 0 then rest else some cnt

-- The byte that is put at `i` first; `hash` holds what its memory held before.
unfoldable pub first_value : List ℕ → List ℕ → List ℕ → ℕ → ℕ → Option ℕ
first_value password hash tmp cnt i =
    let len = length password in
    if ltb i len
    then get_elem? password i
    else (do old ← get_elem? hash (i - len); some ((tmp_byte tmp (cnt + 1) + old + 65) % 2 ^ 7))

-- One round: the new hash, `tmp` and `cnt`.
unfoldable pub hash_round : List ℕ → List ℕ → List ℕ → ℕ → ℕ → Option (List ℕ × List ℕ × ℕ)
unfolding first_value crc_loop skip_zeros
hash_round password hash tmp cnt i = do
  h ← first_value password hash tmp cnt i
  let hash = set hash i h
  crc ← crc_loop (take (i + 1) hash) 0
  let tmp = be32 crc
  cnt ← (if crc == 0 then some (u32 (cnt + h)) else skip_zeros 4 tmp (u32 (cnt + h)))
  some (set hash i (u8 (h + tmp_byte tmp cnt)), tmp, u32 (cnt + 1))

-- `for (i = 0; i < 32; i++, cnt++)`, with `n` rounds to go.
unfoldable pub hash_loop : List ℕ → ℕ → ℕ → List ℕ → List ℕ → ℕ → Option (List ℕ)
unfolding hash_round
hash_loop password zero i hash tmp cnt = some hash
hash_loop password (suc n) i hash tmp cnt = do
  (hash, tmp, cnt) ← hash_round password hash tmp cnt i
  hash_loop password n (i + 1) hash tmp cnt

-- The 32 bytes at `hash` after the call.
unfoldable pub v3_hash_password : List ℕ → List ℕ → Option (List ℕ)
unfolding hash_loop
v3_hash_password password hash =
    hash_loop password 32 0 hash (0 ∷ 0 ∷ 0 ∷ 0 ∷ []) (u32 (length password))
