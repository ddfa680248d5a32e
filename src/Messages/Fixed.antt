-- ===== src/Messages/Fixed.antt =====
-- The messages of a fixed size: 0x37, 0x3b, 0x3c, 0x46, 0x4b, 0x53, 0x57, 0x58, 0x5c, 0x61 and 0x62.
-- Their parsers compare `msg->len` with the size of the structure and give it as it is.
use ventmac.Prelude.{
  u16, ℕ, ◌+◌, ◌||◌, ◌&&◌, not, List, [], ◌∷◌, ◌++◌, Option, none, some, length, take, drop,
  replicate, ltb, ◌==◌, if◌then◌else◌,
}
use ventmac.Wire.Structs.{le16}
use ventmac.Handlers.Users.{Msg0x46, Msg0x58}
use ventmac.Handlers.Channels.{Msg0x3b}
use ventmac.Handlers.Chat.{Msg0x61}
use ventmac.Handlers.Connection.{Msg0x37, Msg0x57}
use ventmac.Messages.{Built, whole, le32, word, dword, strncpy, Parsed, refused, parsed}

-- `msg->len != sizeof(structure)`.
abbrev pub exactly : {A : Type 0} → ℕ → A → List ℕ → Parsed A
exactly size m xs = if length xs == size then parsed m else refused

unfoldable pub v3_get_0x37 : List ℕ → Parsed Msg0x37
v3_get_0x37 xs =
    exactly 12 (record { user_id = word xs 4; sequence = word xs 6; ping = word xs 8 }) xs

-- The first two arguments are `v3_luser.id` and `v3_luser.ping`.
unfoldable pub v3_put_0x37 : (user_id ping sequence : ℕ) → Built
v3_put_0x37 user_id ping sequence =
    whole 12 (le32 0x37 ++ (le16 user_id ++ (le16 sequence ++ (le16 ping ++ le16 0))))

unfoldable pub v3_get_0x3b : List ℕ → Parsed Msg0x3b
v3_get_0x3b xs =
    exactly 12 (record { id = word xs 4; channel_id = word xs 6; error_id = dword xs 8 }) xs

unfoldable pub v3_put_0x3b : (id channel_id : ℕ) → Built
v3_put_0x3b id channel_id = whole 12 (le32 0x3b ++ (le16 id ++ (le16 channel_id ++ le32 0)))

-- `codec` and `codec_format`.
unfoldable pub v3_get_0x3c : List ℕ → Parsed (ℕ × ℕ)
v3_get_0x3c xs = exactly 24 (word xs 8, word xs 10) xs

unfoldable pub v3_get_0x46 : List ℕ → Parsed Msg0x46
v3_get_0x46 xs =
    exactly 12 (record { user_id = word xs 4; setting = word xs 6; value = dword xs 8 }) xs

-- The parameter `value` has two bytes, the field four.
unfoldable pub v3_put_0x46 : (user_id setting value : ℕ) → Built
v3_put_0x46 user_id setting value =
    whole 12 (le32 0x46 ++ (le16 user_id ++ (le16 setting ++ le32 (u16 value))))

-- `now` is `time(NULL)`.
unfoldable pub v3_put_0x4b : (now : ℕ) → Built
v3_put_0x4b now = whole 12 (le32 0x4b ++ (le32 now ++ le32 0))

-- `user_id` and `channel_id`.
unfoldable pub v3_get_0x53 : List ℕ → Parsed (ℕ × ℕ)
v3_get_0x53 xs = exactly 8 (word xs 4, word xs 6) xs

unfoldable pub v3_get_0x57 : List ℕ → Parsed Msg0x57
v3_get_0x57 xs =
    exactly 108
      (record {
        is_licensed = word xs 6;
        port = word xs 8;
        max_clients = word xs 10;
        connected_clients = word xs 12;
        name = take 32 (drop 28 xs);
        version = take 16 (drop 60 xs);
      })
      xs

unfoldable pub v3_get_0x58 : List ℕ → Parsed Msg0x58
v3_get_0x58 xs =
    exactly 20
      (record {
        subtype = word xs 4;
        error_id = word xs 6;
        real_user_id = word xs 10;
        phantom_user_id = word xs 12;
        channel_id = word xs 14;
      })
      xs

-- `real` is `v3_luser.id`. A phantom is added to a channel and removed by its number.
unfoldable pub v3_put_0x58 : (real subtype channel phantom_user_id : ℕ) → Built
v3_put_0x58 real subtype channel phantom_user_id = whole 20 (
    le32 0x58
    ++ (le16 subtype
        ++ (le16 0
            ++ (le16 0
                ++ (le16 real
                    ++ (le16 (if subtype == 1 then phantom_user_id else 0)
                        ++ (le16 (if subtype == 0 then channel else 0) ++ le32 0)))))))

-- `subtype`; the sums are not read.
unfoldable pub v3_get_0x5c : List ℕ → Parsed ℕ
v3_get_0x5c xs = exactly 12 (word xs 4) xs

unfoldable pub v3_get_0x61 : List ℕ → Parsed Msg0x61
v3_get_0x61 xs =
    exactly 212
      (record {
        ban_id = word xs 18;
        ban_count = word xs 16;
        bitmask_id = dword xs 8;
        ip_address = dword xs 12;
        banned_user = take 32 (drop 20 xs);
        banned_by = take 32 (drop 52 xs);
        ban_reason = take 128 (drop 84 xs);
      })
      xs

-- A field of `n` bytes that keeps its last byte zero; nothing is copied from NULL.
abbrev pub text_field : ℕ → Option (List ℕ) → List ℕ
text_field n none = replicate (n + 1) 0
text_field n (some s) = strncpy n s ++ (0 ∷ [])

-- The number of the mask of a ban that is added is left out from 0x20 on.
abbrev pub sent_bitmask : ℕ → ℕ → ℕ
sent_bitmask subtype bitmask_id =
    if (subtype == 1) || ((subtype == 2) && ltb bitmask_id 0x20) then bitmask_id else 0

unfoldable pub v3_put_0x61 :
    (subtype bitmask_id ip_address : ℕ) (banned_user ban_reason : Option (List ℕ)) → Built
v3_put_0x61 subtype bitmask_id ip_address banned_user ban_reason = whole 212 (
    le32 0x61
    ++ (le32 subtype
        ++ (le32 (sent_bitmask subtype bitmask_id)
            ++ (le32 ip_address
                ++ (le16 (if not (subtype == 0) then 1 else 0)
                    ++ (le16 0
                        ++ (text_field 31 banned_user
                            ++ (replicate 32 0 ++ text_field 127 ban_reason))))))))

-- `user_id_to` and `user_id_from`.
unfoldable pub v3_get_0x62 : List ℕ → Parsed (ℕ × ℕ)
v3_get_0x62 xs = exactly 12 (word xs 4, word xs 6) xs

-- `from` is `v3_luser.id`.
unfoldable pub v3_put_0x62 : (from user_id : ℕ) → Built
v3_put_0x62 from user_id = whole 12 (le32 0x62 ++ (le16 user_id ++ (le16 from ++ le32 0)))
