-- ===== src/Wire/Structs.antt =====
-- The structures of `include/ventrilo3.h` that travel in messages, read and written.
pub mod RoundTrip
use ventmac.Prelude.{
  ℕ, zero, suc, ◌+◌, ◌-◌, ◌*◌, ◌/◌, ◌%◌, ◌^◌, List, [], ◌∷◌, ◌++◌, Option, none, some, drop, u8,
  u16, ◌==◌, if◌then◌else◌, ◌>>=◌,
}
use ventmac.Wire.{
  memcpy, v3_get_msg_string, v3_get_msg_uint16_array, v3_put_msg_uint16_array, v3_put_msg_string,
}

-- A `uint16_t` in the memory of the host.
abbrev pub le16 : ℕ → List ℕ
le16 n = u8 n ∷ u8 (n / 2 ^ 8) ∷ []

pub u16s : ℕ → List ℕ → Option (List ℕ)
u16s zero xs = some []
u16s (suc n) (lo ∷ hi ∷ xs) = do rest ← u16s n xs; some ((lo + hi * 2 ^ 8) ∷ rest)
u16s (suc n) _ = none

-- The part of `_v3_msg_user` that is sent; `id`, `channel`, `bitfield` and `rank_id` are its first
-- eight bytes.
pub record MsgUser : Type 0 where
  pub id : ℕ
  pub channel : ℕ
  pub bitfield : ℕ
  pub rank_id : ℕ
  pub name : List ℕ
  pub phonetic : List ℕ
  pub comment : List ℕ
  pub integration_text : List ℕ
  pub url : List ℕ

-- `_v3_msg_channel`: `id`, `parent`, the two bytes `unknown_1` and `password_protected`, and twenty-one
-- more fields of two bytes, `unknown_2` to `allow_command_target`, in `settings`.
pub record MsgChannel : Type 0 where
  pub id : ℕ
  pub parent : ℕ
  pub unknown_1 : ℕ
  pub password_protected : ℕ
  pub settings : List ℕ
  pub name : List ℕ
  pub phonetic : List ℕ
  pub comment : List ℕ

pub record MsgRank : Type 0 where
  pub id : ℕ
  pub level : ℕ
  pub name : List ℕ
  pub description : List ℕ

-- `perms` is the memory of the packed `v3_permissions`, `sizeof` bytes.
pub record MsgAccount : Type 0 where
  pub perms : List ℕ
  pub username : List ℕ
  pub owner : List ℕ
  pub notes : List ℕ
  pub lock_reason : List ℕ
  pub chan_admin_count : ℕ
  pub chan_admin : List ℕ
  pub chan_auth_count : ℕ
  pub chan_auth : List ℕ

-- The bytes of `v3_permissions`.
abbrev pub sizeof_permissions : ℕ
sizeof_permissions = 2 + 2 + 32 + 2 + 2 + 2 + 62

-- Each string is read where the one before it ends; the value is the string and the rest.
unfoldable pub next_string : List ℕ → Option (List ℕ × List ℕ)
next_string offset = do (s, len) ← v3_get_msg_string offset; some (s, drop len offset)

unfoldable pub next_array : List ℕ → Option (List ℕ × ℕ × List ℕ)
next_array offset = do
  (s, len) ← v3_get_msg_uint16_array offset
  some (s, (if len == 0 then 2 ^ 32 - 1 else (len - 2) / 2), drop len offset)

-- The structure that is filled in, and the bytes from the new `offset` on.
pub v3_get_msg_user : List ℕ → Option (MsgUser × List ℕ)
v3_get_msg_user (i0 ∷ i1 ∷ c0 ∷ c1 ∷ b0 ∷ b1 ∷ r0 ∷ r1 ∷ offset) = do
  (name, offset) ← next_string offset
  (phonetic, offset) ← next_string offset
  (comment, offset) ← next_string offset
  (integration_text, offset) ← next_string offset
  (url, offset) ← next_string offset
  some (
    record {
      id = i0 + i1 * 2 ^ 8;
      channel = c0 + c1 * 2 ^ 8;
      bitfield = b0 + b1 * 2 ^ 8;
      rank_id = r0 + r1 * 2 ^ 8;
      name = name;
      phonetic = phonetic;
      comment = comment;
      integration_text = integration_text;
      url = url;
    },
    offset,
  )
v3_get_msg_user _ = none

unfoldable pub v3_put_msg_user : MsgUser → List ℕ
v3_put_msg_user user =
    (le16 user.id ++ le16 user.channel ++ le16 user.bitfield ++ le16 user.rank_id)
    ++ (v3_put_msg_string (some user.name)
        ++ (v3_put_msg_string (some user.phonetic)
            ++ (v3_put_msg_string (some user.comment)
                ++ (v3_put_msg_string (some user.integration_text)
                    ++ v3_put_msg_string (some user.url)))))

pub v3_get_msg_channel : List ℕ → Option (MsgChannel × List ℕ)
v3_get_msg_channel (i0 ∷ i1 ∷ p0 ∷ p1 ∷ u ∷ w ∷ offset) = do
  settings ← u16s 21 offset
  (name, offset) ← next_string (drop 42 offset)
  (phonetic, offset) ← next_string offset
  (comment, offset) ← next_string offset
  some (
    record {
      id = i0 + i1 * 2 ^ 8;
      parent = p0 + p1 * 2 ^ 8;
      unknown_1 = u;
      password_protected = w;
      settings = settings;
      name = name;
      phonetic = phonetic;
      comment = comment;
    },
    offset,
  )
v3_get_msg_channel _ = none

unfoldable pub le16s : List ℕ → List ℕ
le16s [] = []
le16s (x ∷ xs) = le16 x ++ le16s xs

unfoldable pub v3_put_msg_channel : MsgChannel → List ℕ
v3_put_msg_channel channel =
    (le16 channel.id ++ le16 channel.parent)
    ++ (u8 channel.unknown_1
        ∷ u8 channel.password_protected
        ∷ (le16s channel.settings
            ++ (v3_put_msg_string (some channel.name)
                ++ (v3_put_msg_string (some channel.phonetic)
                    ++ v3_put_msg_string (some channel.comment)))))

pub v3_get_msg_rank : List ℕ → Option (MsgRank × List ℕ)
v3_get_msg_rank (i0 ∷ i1 ∷ l0 ∷ l1 ∷ offset) = do
  (name, offset) ← next_string offset
  (description, offset) ← next_string offset
  some (
    record {
      id = i0 + i1 * 2 ^ 8;
      level = l0 + l1 * 2 ^ 8;
      name = name;
      description = description;
    },
    offset,
  )
v3_get_msg_rank _ = none

unfoldable pub v3_put_msg_rank : MsgRank → List ℕ
v3_put_msg_rank rank =
    (le16 rank.id ++ le16 rank.level)
    ++ (v3_put_msg_string (some rank.name) ++ v3_put_msg_string (some rank.description))

pub v3_get_msg_account : List ℕ → Option (MsgAccount × List ℕ)
v3_get_msg_account offset = do
  perms ← memcpy sizeof_permissions offset
  (username, offset) ← next_string (drop sizeof_permissions offset)
  (owner, offset) ← next_string offset
  (notes, offset) ← next_string offset
  (lock_reason, offset) ← next_string offset
  (chan_admin, chan_admin_count, offset) ← next_array offset
  (chan_auth, chan_auth_count, offset) ← next_array offset
  some (
    record {
      perms = perms;
      username = username;
      owner = owner;
      notes = notes;
      lock_reason = lock_reason;
      chan_admin_count = chan_admin_count;
      chan_admin = chan_admin;
      chan_auth_count = chan_auth_count;
      chan_auth = chan_auth;
    },
    offset,
  )

unfoldable pub v3_put_msg_account : MsgAccount → Option (List ℕ)
v3_put_msg_account account = do
  admin ← v3_put_msg_uint16_array account.chan_admin_count account.chan_admin
  auth ← v3_put_msg_uint16_array account.chan_auth_count account.chan_auth
  some (
      account.perms
      ++ (v3_put_msg_string (some account.username)
          ++ (v3_put_msg_string (some account.owner)
              ++ (v3_put_msg_string (some account.notes)
                  ++ (v3_put_msg_string (some account.lock_reason) ++ (admin ++ auth))))))
