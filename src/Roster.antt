-- ===== src/Roster.antt =====
-- Sources/CVentrilo3/libventrilo3.c: the lists of channels, users, ranks and accounts, with the
-- functions that update, remove, look up, count and destroy their entries.
-- A list holds its entries by value: each entry owns its strings and arrays, which every update
-- copies and every removal frees. Strings are not NULL, as the message parsers leave them. Every
-- operation runs under the mutex of its list; the locks themselves are not modelled.
pub mod Keyed
pub mod Lookup
pub mod Tree
pub mod History
pub mod Answers
mod Examples
use ventmac.Prelude.{
  ℕ, ◌+◌, ◌-◌, ◌*◌, ◌/◌, ◌%◌, ◌^◌, Bool, true, false, List, [], ◌∷◌, Option, none, some, bit_and,
  length, get_or, take, u16, u32, ltb, leb, ◌==◌, if◌then◌else◌, ◌>>=◌,
}
use ventmac.Roster.Keyed.{put_entry, remove_entry, find_entry}
use ventmac.Wire.Structs.{MsgUser, MsgChannel, MsgRank, MsgAccount}

-- A copy up to the first NUL.
unfoldable pub strdup : List ℕ → List ℕ
strdup [] = []
strdup (c ∷ s) = let rest = strdup s in if c == 0 then [] else c ∷ rest

-- `sent` is the part that travels in messages, the other fields are kept by the client.
pub record User : Type 0 where
  pub sent : MsgUser
  pub is_transmitting : ℕ
  pub accept_pages : ℕ
  pub accept_u2u : ℕ
  pub accept_chat : ℕ
  pub allow_recording : ℕ
  pub global_mute : ℕ
  pub channel_mute : ℕ
  pub guest : ℕ
  pub real_user_id : ℕ

abbrev pub user_id : User → ℕ
user_id u = u.sent.id

abbrev pub account_id : MsgAccount → ℕ
account_id a = get_or a.perms 0 0 + get_or a.perms 1 0 * 2 ^ 8

-- The four lists and `_v3_user_volumes`.
pub record Lists : Type 0 where
  pub channels : List MsgChannel
  pub users : List User
  pub ranks : List MsgRank
  pub accounts : List MsgAccount
  pub user_volumes : ℕ → ℕ

abbrev pub copy_channel : MsgChannel → MsgChannel
copy_channel c = record c {
  name = strdup c.name;
  phonetic = strdup c.phonetic;
  comment = strdup c.comment;
}

abbrev pub copy_user : User → User
copy_user u = record u {
  sent = record u.sent {
    name = strdup u.sent.name;
    phonetic = strdup u.sent.phonetic;
    comment = strdup u.sent.comment;
    integration_text = strdup u.sent.integration_text;
    url = strdup u.sent.url;
  };
}

abbrev pub copy_rank : MsgRank → MsgRank
copy_rank r = record r { name = strdup r.name; description = strdup r.description }

-- `malloc(count * 2)` and `memcpy` of as many bytes; `none` is a read past the end of the array.
unfoldable pub copy_array : ℕ → List ℕ → Option (List ℕ)
copy_array count array = if leb count (length array) then some (take count array) else none

unfoldable pub copy_account : MsgAccount → Option MsgAccount
unfolding copy_array
copy_account a = do
  admin ← copy_array a.chan_admin_count a.chan_admin
  auth ← copy_array a.chan_auth_count a.chan_auth
  some (record a {
    username = strdup a.username;
    owner = strdup a.owner;
    notes = strdup a.notes;
    lock_reason = strdup a.lock_reason;
    chan_admin = admin;
    chan_auth = auth;
  })

unfoldable pub v3_update_channel : Lists → MsgChannel → Lists
v3_update_channel l channel =
    let c = copy_channel channel in
    record l { channels = put_entry MsgChannel.id (λ old. c) c l.channels }

abbrev pub guest_bit : User → ℕ
guest_bit user = if bit_and user.sent.bitfield 0x400 == 0 then 0 else 1

-- A user that is not in the list yet.
abbrev pub new_user : User → User
new_user user = record (copy_user user) { guest = guest_bit user }

-- The fields that stay as they were in the list.
abbrev pub merge_user : User → User → User
merge_user user old = record (new_user user) {
  sent = record (copy_user user).sent { name = old.sent.name; phonetic = old.sent.phonetic };
  is_transmitting = old.is_transmitting;
  accept_pages = old.accept_pages;
  accept_u2u = old.accept_u2u;
  accept_chat = old.accept_chat;
  allow_recording = old.allow_recording;
  global_mute = old.global_mute;
  channel_mute = old.channel_mute;
}

-- `_v3_user_volumes[id] = level`; the array has 65535 elements.
unfoldable pub set_volume : ℕ → ℕ → Lists → Option Lists
set_volume id level l =
    if ltb id 65535
    then some (record l { user_volumes = λ i. if i == id then level else l.user_volumes i })
    else none

unfoldable pub v3_update_user : Lists → User → Option Lists
v3_update_user l user =
    let updated = record l {
      users = put_entry user_id (merge_user user) (new_user user) l.users;
    } in
    elim (find_entry user_id (user_id user) l.users) [
      | none ↦ set_volume (user_id user) 79 updated
      | some old ↦ some updated
    ]

unfoldable pub v3_update_rank : Lists → MsgRank → Lists
v3_update_rank l rank =
    let r = copy_rank rank in record l { ranks = put_entry MsgRank.id (λ old. r) r l.ranks }

unfoldable pub v3_update_account : Lists → MsgAccount → Option Lists
v3_update_account l account = do
  a ← copy_account account
  some (record l { accounts = put_entry account_id (λ old. a) a l.accounts })

-- Whether an entry was removed.
unfoldable pub v3_remove_user : Lists → ℕ → Bool × Lists
v3_remove_user l id =
    let (found, users) = remove_entry user_id id l.users in (found, record l { users = users })

unfoldable pub v3_remove_channel : Lists → ℕ → Bool × Lists
v3_remove_channel l id =
    let (found, channels) = remove_entry MsgChannel.id id l.channels in
    (found, record l { channels = channels })

unfoldable pub v3_remove_rank : Lists → ℕ → Bool × Lists
v3_remove_rank l id =
    let (found, ranks) = remove_entry MsgRank.id id l.ranks in (found, record l { ranks = ranks })

unfoldable pub v3_remove_account : Lists → ℕ → Bool × Lists
v3_remove_account l id =
    let (found, accounts) = remove_entry account_id id l.accounts in
    (found, record l { accounts = accounts })

-- The walk frees every entry and leaves the empty list.
unfoldable pub destroy {ℓ} : {A : Type ℓ} → List A → List A
destroy [] = []
destroy (x ∷ xs) = destroy xs

unfoldable pub v3_destroy_channellist : Lists → Lists
v3_destroy_channellist l = record l { channels = destroy l.channels }

unfoldable pub v3_destroy_userlist : Lists → Lists
v3_destroy_userlist l = record l { users = destroy l.users }

unfoldable pub v3_destroy_ranklist : Lists → Lists
v3_destroy_ranklist l = record l { ranks = destroy l.ranks }

unfoldable pub v3_destroy_accountlist : Lists → Lists
v3_destroy_accountlist l = record l { accounts = destroy l.accounts }
