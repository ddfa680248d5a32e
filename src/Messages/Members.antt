-- ===== src/Messages/Members.antt =====
-- The messages about accounts and users, the login, the message of the day and the requests of
-- administrators: 0x48, 0x4a, 0x50, 0x5d and 0x63.
use ventmac.Prelude.{
  ℕ, ◌+◌, ◌*◌, bit_xor, not, ◌||◌, List, [], ◌∷◌, ◌++◌, map, Option, none, some, length, take, drop,
  replicate, u16, ◌==◌, if◌then◌else◌, ◌>>=◌,
}
use ventmac.Wire.{memcpy}
use ventmac.Wire.Structs.{
  MsgUser, MsgAccount, sizeof_permissions, le16, v3_get_msg_user, v3_put_msg_user,
  v3_get_msg_account, v3_put_msg_account,
}
use ventmac.Roster.{User, account_id}
use ventmac.Handlers.Userlist.{Msg0x5d}
use ventmac.Handlers.Editors.{Msg0x4a}
use ventmac.Handlers.Connection.{Msg0x50}
use ventmac.Messages.{Built, allocate, whole, le32, word, strncpy, Parsed, refused, parsed}
use ventmac.Messages.Password.{v3_hash_password}
use ventmac.Messages.Records.{entries, hash_field}

-- The header alone, with the fields that an answer of this kind does not have left empty.
abbrev pub header_0x4a : List ℕ → List MsgAccount → Msg0x4a
header_0x4a xs acct_list = record {
  subtype = word xs 4;
  error_id = word xs 6;
  count = word xs 10;
  end_id = word xs 14;
  acct_list = acct_list;
  perms = [];
  account_id = 0;
  replace_owner_id = 0;
}

-- A message with an error is not looked at further; the subtypes 0, 1 and 3 carry accounts, the
-- subtypes 2, 5 and 6 permissions.
unfoldable pub v3_get_0x4a : List ℕ → Parsed Msg0x4a
unfolding entries
v3_get_0x4a xs = do
  start ← memcpy 8 xs
  let subtype = word start 4
  (if not (word start 6 == 0)
      then parsed (header_0x4a xs [])
      else if (subtype == 0) || ((subtype == 1) || (subtype == 3))
      then (do
        head ← memcpy 20 xs
        acct_list ← entries v3_get_msg_account (word head 10) (drop 20 xs)
        parsed (header_0x4a head acct_list))
      else if (subtype == 2) || ((subtype == 5) || (subtype == 6))
      then (if not (length xs == 20 + sizeof_permissions)
          then refused
          else parsed (record (header_0x4a xs []) {
            perms = drop 20 xs;
            account_id = word xs 20;
            replace_owner_id = word xs 22;
          }))
      else refused)

-- The header that is sent: the type, the subtype, `count` and `start_id`.
abbrev pub put_header_0x4a : (subtype count start_id : ℕ) → List ℕ
put_header_0x4a subtype count start_id =
    le32 0x4a
    ++ (le16 subtype
        ++ (le16 0 ++ (le16 0 ++ (le16 count ++ (le16 start_id ++ (le16 0 ++ le32 0))))))

-- The header with permissions that are zero but for two numbers.
abbrev pub perms_0x4a : (subtype account replace_owner : ℕ) → Built
perms_0x4a subtype account replace_owner =
    whole 124
      (put_header_0x4a subtype 1 0 ++ (le16 account ++ (le16 replace_owner ++ replicate 100 0)))

abbrev pub len_0x4a : MsgAccount → ℕ
len_0x4a a = u16 (
    20
    + sizeof_permissions
    + length a.username
    + 2
    + length a.owner
    + 2
    + length a.notes
    + 2
    + length a.lock_reason
    + 2
    + (a.chan_admin_count * 2 + 2)
    + (a.chan_auth_count * 2 + 2))

-- `none` is also the access through an account that is NULL, where one is needed, and the use of `mc`
-- before it is set for other subtypes.
unfoldable pub v3_put_0x4a : (subtype : ℕ) (account account2 : Option MsgAccount) → Option Built
v3_put_0x4a subtype account account2 =
    if subtype == 0
    then some (whole 20 (put_header_0x4a 0 0 (elim account [ none ↦ 0 | some a ↦ account_id a ])))
    else if subtype == 4
    then some (whole 20 (put_header_0x4a 4 0 0))
    else if (subtype == 1) || (subtype == 3)
    then (do
      a ← account
      fields ← v3_put_msg_account a
      bytes ← allocate (len_0x4a a) (put_header_0x4a subtype 1 0 ++ fields)
      some (record { len = len_0x4a a; bytes = bytes }))
    else if subtype == 2
    then (do a ← account; some (perms_0x4a 2 (account_id a) 0))
    else if subtype == 6
    then (do a ← account; b ← account2; some (perms_0x4a 6 (account_id a) (account_id b)))
    else none

-- `contents` is the message as it came; `message` has 256 bytes.
unfoldable pub v3_get_0x50 : List ℕ → Parsed Msg0x50
v3_get_0x50 xs = do
  head ← memcpy 16 xs
  parsed (record {
    guest_motd_flag = word head 8;
    message_num = word head 10;
    message_id = word head 12;
    message_size = word head 14;
    message = take 256 (drop 16 xs);
  })

-- The list comes from `calloc`, so that what does not travel is 0.
abbrev pub as_user : MsgUser → User
as_user u = record {
  sent = u;
  is_transmitting = 0;
  accept_pages = 0;
  accept_u2u = 0;
  accept_chat = 0;
  allow_recording = 0;
  global_mute = 0;
  channel_mute = 0;
  guest = 0;
  real_user_id = 0;
}

unfoldable pub v3_get_0x5d : List ℕ → Parsed Msg0x5d
unfolding entries
v3_get_0x5d xs = do
  head ← memcpy 8 xs
  users ← entries v3_get_msg_user (word head 6) (drop 8 xs)
  parsed (record { subtype = word head 4; user_list = map as_user users })

unfoldable pub user_bytes : List MsgUser → List ℕ
user_bytes [] = []
user_bytes (u ∷ us) = v3_put_msg_user u ++ user_bytes us

-- `V3_MAX_USER_SIZE` bytes are allocated for each user, with the 24 bytes of the structure; the number
-- of users is that of the list.
unfoldable pub v3_put_0x5d : (subtype : ℕ) → List MsgUser → Option Built
v3_put_0x5d subtype users = do
  let contents = le32 0x5d ++ (le16 subtype ++ (le16 (length users) ++ user_bytes users))
  bytes ← allocate (512 * length users + 24) contents
  some (record { len = u16 (length contents); bytes = bytes })

-- What a request of an administrator carries, in 128 bytes: the hash of a password, a reason or zeros.
-- `none` is the access to a string that is NULL.
unfoldable pub contents_0x63 : (subtype : ℕ) → Option (List ℕ) → Option (List ℕ)
contents_0x63 subtype string =
    if subtype == 0
    then (do
      password ← string
      hash ← v3_hash_password password (replicate 32 0)
      some (hash ++ replicate 96 0))
    else if (subtype == 1) || ((subtype == 3) || (subtype == 5))
    then (do reason ← string; some (strncpy 128 reason))
    else some (replicate 128 0)

unfoldable pub v3_put_0x63 : (subtype user_id : ℕ) → Option (List ℕ) → Option Built
unfolding contents_0x63
v3_put_0x63 subtype user_id string = do
  contents ← contents_0x63 subtype string
  some (
      whole 140 (
        le32 0x63
        ++ (le16 subtype
            ++ (le16 (if (subtype == 1) || ((subtype == 3) || (subtype == 5)) then user_id else 0)
                ++ (le32 0 ++ contents)))))

-- `v3_server` and `v3_luser`, as far as the login sends them.
pub record Account0x48 : Type 0 where
  pub ip : ℕ
  pub port : ℕ
  pub auth_server_index : ℕ
  pub handshake : List ℕ
  pub name : List ℕ
  pub phonetic : List ℕ
  pub password : List ℕ

-- "3.1.0", for both versions.
abbrev pub version_string : List ℕ
version_string = b'3' ∷ b'.' ∷ b'1' ∷ b'.' ∷ b'0' ∷ []

unfoldable pub v3_put_0x48 : Account0x48 → Option Built
v3_put_0x48 a = do
  handshake ← memcpy 16 a.handshake
  hash ← hash_field (some a.password)
  some (
      whole 280 (
        (le32 0x48 ++ (le32 2 ++ (le32 0 ++ le32 a.ip)))
        ++ ((le16 (bit_xor a.port 0xffff) ++ (le16 1 ++ (le16 0 ++ le16 a.auth_server_index)))
            ++ (handshake
                ++ (strncpy 16 version_string
                    ++ (replicate 48 0
                        ++ (strncpy 16 version_string
                            ++ (hash
                                ++ (strncpy 32 a.name
                                    ++ (strncpy 32 a.phonetic
                                        ++ strncpy 64
                                            (b'W' ∷ b'I' ∷ b'N' ∷ b'3' ∷ b'2' ∷ [])))))))))))
