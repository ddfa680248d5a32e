-- ===== src/Messages/Records.antt =====
-- The messages that carry keys, ranks or channels: 0x06, 0x33, 0x36, 0x49 and 0x60.
-- The parsers of lists take as many entries as the message says, wherever it ends.
use ventmac.Prelude.{
  ℕ, zero, suc, ◌+◌, ◌-◌, ◌/◌, bit_and, not, ◌||◌, List, [], ◌∷◌, ◌++◌, Option, none, some, length,
  take, drop, replicate, u16, ◌==◌, if◌then◌else◌, ◌>>=◌,
}
use ventmac.Wire.{memcpy, v3_get_msg_uint16_array}
use ventmac.Wire.Structs.{
  MsgChannel, MsgRank, le16, v3_get_msg_channel, v3_put_msg_channel, v3_get_msg_rank,
  v3_put_msg_rank,
}
use ventmac.Handlers.Channels.{Msg0x49}
use ventmac.Handlers.Editors.{Msg0x36}
use ventmac.Handlers.Connection.{Msg0x06}
use ventmac.Messages.{Built, allocate, le32, word, dword, Parsed, parsed}
use ventmac.Messages.Password.{v3_hash_password}

-- `count` entries one behind the other; `get` gives an entry and the bytes behind it.
unfoldable pub entries {ℓ} :
    {A : Type ℓ} → (List ℕ → Option (A × List ℕ)) → ℕ → List ℕ → Option (List A)
entries get zero xs = some []
entries get (suc count) xs = do
  (entry, behind) ← get xs
  rest ← entries get count behind
  some (entry ∷ rest)

-- Without keys the byte behind the structure is read.
unfoldable pub v3_get_0x06 : List ℕ → Parsed Msg0x06
v3_get_0x06 xs = do
  head ← memcpy 12 xs
  let subtype = dword head 8
  let key = drop 12 xs
  unused ← (if bit_and subtype 4 == 0 then memcpy 1 key else some [])
  parsed (record {
    subtype = subtype;
    error_id = word head 6;
    encryption_key = key;
    key_len = length xs - 12;
  })

-- The numbers, as many as the length that is left in `len` says; the loop that prints them reads past
-- the array when that length wraps around to 0.
unfoldable pub v3_get_0x33 : List ℕ → Parsed (List ℕ)
v3_get_0x33 xs = do
  head ← memcpy 52 xs
  (ids, len) ← v3_get_msg_uint16_array (drop 52 xs)
  if len == 0 then none else parsed (take ((len - 2) / 2) ids)

unfoldable pub v3_get_0x36 : List ℕ → Parsed Msg0x36
unfolding entries
v3_get_0x36 xs = do
  head ← memcpy 16 xs
  rank_list ← entries v3_get_msg_rank (word head 10) (drop 16 xs)
  parsed (record { subtype = word head 4; error_id = word head 6; rank_list = rank_list })

-- `strlen` of a string that may be NULL.
abbrev pub strlen : Option (List ℕ) → ℕ
strlen none = 0
strlen (some s) = length s

-- `m->len` and the memory that is allocated; `len` and the memory are not set for other subtypes.
-- The strings of a rank are not NULL.
abbrev pub sizes_0x36 : ℕ → Option MsgRank → Option (ℕ × ℕ)
sizes_0x36 subtype rank =
    if (subtype == 1) || (subtype == 2)
    then some (16, 16)
    else if (subtype == 3) || (subtype == 5)
    then (do r ← rank; let len = u16 (24 + length r.name + length r.description); some (len, len))
    else if subtype == 4
    then some (20, 24)
    else none

abbrev pub rank_bytes : Option MsgRank → List ℕ
rank_bytes none = []
rank_bytes (some r) = v3_put_msg_rank r

unfoldable pub v3_put_0x36 : (subtype : ℕ) → Option MsgRank → Option Built
v3_put_0x36 subtype rank = do
  (len, size) ← sizes_0x36 subtype rank
  bytes ←
      allocate size
        (le32 0x36 ++ (le16 subtype ++ (le32 0 ++ (le16 1 ++ (le32 0 ++ rank_bytes rank)))))
  some (record { len = len; bytes = bytes })

-- A field of 32 bytes, zeroed, for the hash of a password that may be NULL or empty.
unfoldable pub hash_field : Option (List ℕ) → Option (List ℕ)
hash_field none = some (replicate 32 0)
hash_field (some []) = some (replicate 32 0)
hash_field (some (c ∷ s)) = v3_hash_password (c ∷ s) (replicate 32 0)

unfoldable pub v3_get_0x49 : List ℕ → Parsed Msg0x49
v3_get_0x49 xs = do
  head ← memcpy 40 xs
  (channel, behind) ← v3_get_msg_channel (drop 40 xs)
  parsed (record { subtype = word head 6; channel = channel })

-- `m->len`: a structure of 40 bytes, the 48 bytes of the channel that are copied, and its strings.
abbrev pub len_0x49 : ℕ → MsgChannel → ℕ
len_0x49 subtype c =
    if (subtype == 1) || (subtype == 5)
    then u16 (94 + length c.name + length c.phonetic + length c.comment)
    else 94

-- What is allocated; `_v3_msg_channel` has 48 bytes and four pointers of eight bytes.
abbrev pub size_0x49 : ℕ → MsgChannel → ℕ
size_0x49 subtype c = if (subtype == 1) || (subtype == 5) then len_0x49 subtype c else 120

-- The inner `none` is the NULL that is returned for other subtypes. Strings of a channel that are NULL
-- are empty here.
unfoldable pub v3_put_0x49 :
    (subtype user_id : ℕ) → Option (List ℕ) → MsgChannel → Option (Option Built)
unfolding hash_field
v3_put_0x49 subtype user_id channel_password channel =
    if not (((subtype == 1) || (subtype == 2)) || ((subtype == 3) || (subtype == 5)))
    then some none
    else (do
      hash ← hash_field channel_password
      bytes ←
          allocate (size_0x49 subtype channel)
            (le32 0x49 ++ (le16 user_id ++ (le16 subtype ++ (hash ++ v3_put_msg_channel channel))))
      some (some (record { len = len_0x49 subtype channel; bytes = bytes })))

unfoldable pub v3_get_0x60 : List ℕ → Parsed (List MsgChannel)
unfolding entries
v3_get_0x60 xs = do
  head ← memcpy 8 xs
  channel_list ← entries v3_get_msg_channel (dword head 4) (drop 8 xs)
  parsed channel_list
