-- ===== src/Messages/RoundTrip.antt =====
-- The library's own parsers read what it sends: from the arguments of a builder over the bytes on the
-- socket to what the handler of the message is given.
pub mod Fixed
pub mod Texts
pub mod Records
pub mod Members
pub mod Every
use ventmac.Prelude.{
  ℕ, ◌+◌, ◌^◌, ◌<◌, ◌≤◌, ◌*◌, All, IsByte, ◌≡◌, ◌⊎◌, List, [], ◌∷◌, ◌++◌, Option, none, some,
  length, map, replicate, u8, not, ◌==◌, if◌then◌else◌, ◌>>=◌,
}
use ventmac.Wire.Scalars.{IsWord}
use ventmac.Wire.Structs.{MsgUser, MsgChannel, MsgAccount}
use ventmac.Wire.Structs.RoundTrip.{FitsUser, FitsRank, FitsChannel, FitsAccount}
use ventmac.Roster.{account_id}
use ventmac.Handlers.Dispatch.{
  Message, unparsed, other, x36, x37, x3a, x3b, x3f, x42, x46, x49, x4a, x58, x5a, x5d, x61, x62,
}
use ventmac.Messages.{word}
use ventmac.Messages.Fixed.{text_field, sent_bitmask}
use ventmac.Messages.Records.{len_0x49}
use ventmac.Messages.Members.{as_user, len_0x4a, user_bytes}
use ventmac.Messages.Outgoing.{
  Outgoing, put_0x36, put_0x37, put_0x3a, put_0x3b, put_0x3f, put_0x42, put_0x46, put_0x48,
  put_0x49, put_0x4a, put_0x4b, put_0x4c, put_0x58, put_0x5a, put_0x5d, put_0x61, put_0x62,
  put_0x63, bytes_sent,
}
use ventmac.Messages.Incoming.{v3_get_message}

-- What the parser finds in a message that is sent.
abbrev pub received : List ℕ → Outgoing → Option Message
received fill p = do xs ← bytes_sent p; v3_get_message fill (word xs 0) xs

abbrev pub IsDword : ℕ → Type 0
IsDword n = n < 2 ^ 32

-- A channel is added or modified with its texts.
abbrev pub IsPlaced : ℕ → Type 0
IsPlaced subtype = (subtype ≡ 1) ⊎ (subtype ≡ 5)

-- A channel is removed or entered, for which its number is enough.
abbrev pub IsNumbered : ℕ → Type 0
IsNumbered subtype = (subtype ≡ 2) ⊎ (subtype ≡ 3)

abbrev pub IsBare : MsgChannel → Type 0
IsBare c = (length c.name ≡ 0) × (length c.phonetic ≡ 0) × (length c.comment ≡ 0)

-- The password, if there is one, is made of bytes.
abbrev pub IsHashable : Option (List ℕ) → Type 0
IsHashable none = Unit
IsHashable (some s) = All IsByte s

-- The bytes of a message with the account.
abbrev pub account_size : MsgAccount → ℕ
account_size a =
    20
    + 104
    + length a.username
    + 2
    + length a.owner
    + 2
    + length a.notes
    + 2
    + length a.lock_reason
    + 2
    + (a.chan_admin_count * 2 + 2)
    + (a.chan_auth_count * 2 + 2)

-- The messages that the parsers know, with numbers and texts that fit their fields.
abbrev pub Fits : Outgoing → Type 0
Fits (put_0x36 subtype (some r)) =
    ((subtype ≡ 3) ⊎ (subtype ≡ 5))
    × FitsRank r
    × (24 + length r.name + length r.description < 2 ^ 16)
Fits (put_0x37 user_id ping sequence) = IsWord user_id × IsWord ping × IsWord sequence
Fits (put_0x3a (some s)) = length s < 65526
Fits (put_0x3f (some s)) = length s < 65526
Fits (put_0x3b id channel_id) = IsWord id × IsWord channel_id
Fits (put_0x42 subtype user_id none) = IsWord user_id × ((subtype ≡ 0) ⊎ (subtype ≡ 1))
Fits (put_0x42 subtype user_id (some s)) =
    IsWord user_id × ((subtype ≡ 2) ⊎ (subtype ≡ 3)) × (length s < 65522)
Fits (put_0x46 user_id setting value) = IsWord user_id × IsWord setting × IsWord value
Fits (put_0x49 subtype user_id password c) =
    IsWord user_id
    × (IsPlaced subtype ⊎ (IsNumbered subtype × IsBare c))
    × FitsChannel c
    × (94 + length c.name + length c.phonetic + length c.comment < 2 ^ 16)
    × IsHashable password
Fits (put_0x4a subtype (some a) none) =
    ((subtype ≡ 1) ⊎ (subtype ≡ 3)) × FitsAccount a × (account_size a < 2 ^ 16)
Fits (put_0x58 real subtype channel phantom_user_id) =
    IsWord real × ((subtype ≡ 0) ⊎ (subtype ≡ 1)) × IsWord channel × IsWord phantom_user_id
Fits (put_0x5a subtype user1 user2 none) =
    IsWord user1 × IsWord user2 × ((subtype ≡ 0) ⊎ (subtype ≡ 1))
Fits (put_0x5a subtype user1 user2 (some s)) =
    IsWord user1 × IsWord user2 × (subtype ≡ 2) × (length s < 65522)
Fits (put_0x5d subtype users) =
    IsWord subtype
    × IsWord (length users)
    × All FitsUser users
    × (8 + length (user_bytes users) ≤ 512 * length users + 24)
    × (8 + length (user_bytes users) < 2 ^ 16)
Fits (put_0x61 subtype bitmask_id ip_address banned_user ban_reason) =
    IsDword subtype × IsDword bitmask_id × IsDword ip_address
Fits (put_0x62 from user_id) = IsWord from × IsWord user_id
Fits _ = ⊥

-- What each of them says.
abbrev pub reading : Outgoing → Message
reading (put_0x36 subtype (some r)) =
    x36 (record { subtype = subtype; error_id = 0; rank_list = r ∷ [] })
reading (put_0x37 user_id ping sequence) =
    x37 (record { user_id = user_id; sequence = sequence; ping = ping })
reading (put_0x3a (some s)) = x3a 0 s
reading (put_0x3f (some s)) = x3f 0 s
reading (put_0x3b id channel_id) = x3b (record { id = id; channel_id = channel_id; error_id = 0 })
reading (put_0x42 subtype user_id none) =
    x42 (record { subtype = subtype; user_id = user_id; msg = [] })
reading (put_0x42 subtype user_id (some s)) =
    x42 (record { subtype = subtype; user_id = user_id; msg = s })
reading (put_0x46 user_id setting value) =
    x46 (record { user_id = user_id; setting = setting; value = value })
reading (put_0x49 subtype user_id password c) = x49 (record { subtype = subtype; channel = c })
reading (put_0x4a subtype (some a) none) = x4a (record {
  subtype = subtype;
  error_id = 0;
  count = 1;
  end_id = 0;
  acct_list = a ∷ [];
  perms = [];
  account_id = 0;
  replace_owner_id = 0;
})
reading (put_0x58 real subtype channel phantom_user_id) = x58 (record {
  subtype = subtype;
  error_id = 0;
  real_user_id = real;
  phantom_user_id = if subtype == 1 then phantom_user_id else 0;
  channel_id = if subtype == 0 then channel else 0;
})
reading (put_0x5a subtype user1 user2 none) =
    x5a (record { subtype = subtype; error = 0; user1 = user1; user2 = user2; msg = [] })
reading (put_0x5a subtype user1 user2 (some s)) =
    x5a (record { subtype = subtype; error = 0; user1 = user1; user2 = user2; msg = s })
reading (put_0x5d subtype users) = x5d (record { subtype = subtype; user_list = map as_user users })
reading (put_0x61 subtype bitmask_id ip_address banned_user ban_reason) = x61 (record {
  ban_id = 0;
  ban_count = if not (subtype == 0) then 1 else 0;
  bitmask_id = sent_bitmask subtype bitmask_id;
  ip_address = ip_address;
  banned_user = text_field 31 banned_user;
  banned_by = replicate 32 0;
  ban_reason = text_field 127 ban_reason;
})
reading (put_0x62 from user_id) = x62 user_id from
reading _ = other
