-- ===== src/Messages/Texts.antt =====
-- The messages that carry one string: 0x3a, 0x3f, 0x42, 0x4c, 0x59 and 0x5a.
-- A parser that needs the memory of the whole structure, with the pointer at its end, extends a shorter
-- message with `realloc`.
use ventmac.Prelude.{
  ℕ, ◌+◌, ◌||◌, List, [], ◌++◌, Option, none, some, length, drop, u16, ltb, ◌==◌, if◌then◌else◌,
  ◌>>=◌,
}
use ventmac.Wire.{memcpy, v3_get_msg_string, v3_put_msg_string}
use ventmac.Wire.Structs.{le16}
use ventmac.Handlers.Chat.{Msg0x42, Msg0x5a}
use ventmac.Handlers.Connection.{Msg0x59}
use ventmac.Handlers.Properties.{Msg0x4c}
use ventmac.Messages.{Built, allocate, le32, word, dword, Parsed, parsed, realloc}

-- `user_id` and the text.
unfoldable pub v3_get_0x3a : List ℕ → List ℕ → Parsed (ℕ × List ℕ)
v3_get_0x3a fill msg = do
  let xs = realloc 18 fill msg
  (text, len) ← v3_get_msg_string (drop 8 xs)
  parsed (dword xs 4, text)

unfoldable pub v3_get_0x3f : List ℕ → List ℕ → Parsed (ℕ × List ℕ)
v3_get_0x3f fill msg = do
  let xs = realloc 18 fill msg
  (text, len) ← v3_get_msg_string (drop 8 xs)
  parsed (dword xs 4, text)

-- `_v3_put_0x3a` and `_v3_put_0x3f`, which differ in the type; `len` has 16 bits.
unfoldable pub speech : ℕ → Option (List ℕ) → Option Built
speech type none = do
  bytes ← allocate 10 (le32 type ++ le32 0)
  some (record { len = 10; bytes = bytes })
speech type (some message) = do
  let len = u16 (10 + length message)
  bytes ← allocate len (le32 type ++ (le32 0 ++ v3_put_msg_string (some message)))
  some (record { len = len; bytes = bytes })

unfoldable pub v3_put_0x3a : Option (List ℕ) → Option Built
v3_put_0x3a message = speech 0x3a message

unfoldable pub v3_put_0x3f : Option (List ℕ) → Option Built
v3_put_0x3f message = speech 0x3f message

-- The text is read for the subtypes 2 and 3; `msg` is not set for the others, which do not use it.
unfoldable pub v3_get_0x42 : List ℕ → List ℕ → Parsed Msg0x42
v3_get_0x42 fill msg = do
  let xs = realloc 22 fill msg
  (text, len) ←
      (if (word xs 6 == 2) || (word xs 6 == 3)
        then v3_get_msg_string (drop 12 xs)
        else some ([], 0))
  parsed (record { subtype = word xs 6; user_id = word xs 4; msg = text })

-- A structure of `base` bytes and a string behind it.
unfoldable pub with_text : ℕ → List ℕ → Option (List ℕ) → Option Built
with_text base head none = do
  bytes ← allocate base head
  some (record { len = base; bytes = bytes })
with_text base head (some message) = do
  let len = u16 (base + length message + 2)
  bytes ← allocate len (head ++ v3_put_msg_string (some message))
  some (record { len = len; bytes = bytes })

unfoldable pub v3_put_0x42 : (subtype user_id : ℕ) → Option (List ℕ) → Option Built
v3_put_0x42 subtype user_id message =
    with_text 12 (le32 0x42 ++ (le16 user_id ++ (le16 subtype ++ le32 0))) message

unfoldable pub v3_get_0x4c : List ℕ → List ℕ → Parsed Msg0x4c
v3_get_0x4c fill msg = do
  let xs = realloc 20 fill msg
  value ←
      (if ltb 12 (length msg)
        then (do (text, len) ← v3_get_msg_string (drop 12 xs); some (some text))
        else some none)
  parsed (record {
    subtype = word xs 4;
    property = word xs 6;
    transaction_id = word xs 10;
    value = value;
  })

unfoldable pub v3_put_0x4c : (subtype property transaction_id : ℕ) → Option (List ℕ) → Option Built
v3_put_0x4c subtype property transaction_id value =
    with_text 12 (le32 0x4c ++ (le16 subtype ++ (le16 property ++ (le16 0 ++ le16 transaction_id))))
      value

unfoldable pub v3_get_0x59 : List ℕ → Parsed Msg0x59
v3_get_0x59 xs = do
  head ← memcpy 20 xs
  (text, len) ← v3_get_msg_string (drop 20 xs)
  parsed (record {
    error = word head 4;
    minutes_banned = word head 6;
    close_connection = word head 10;
    message = text;
  })

-- The text is read for the subtype 2; `msg` is not set for the others, which do not use it.
unfoldable pub v3_get_0x5a : List ℕ → List ℕ → Parsed Msg0x5a
v3_get_0x5a fill msg = do
  let xs = realloc 22 fill msg
  (text, len) ← (if word xs 4 == 2 then v3_get_msg_string (drop 12 xs) else some ([], 0))
  parsed (record {
    subtype = word xs 4;
    error = word xs 6;
    user1 = word xs 8;
    user2 = word xs 10;
    msg = text;
  })

unfoldable pub v3_put_0x5a : (subtype user1 user2 : ℕ) → Option (List ℕ) → Option Built
v3_put_0x5a subtype user1 user2 message =
    with_text 12 (le32 0x5a ++ (le16 subtype ++ (le16 0 ++ (le16 user1 ++ le16 user2)))) message
