-- ===== src/Messages/Outgoing.antt =====
-- The messages that the client sends, by the function that builds each and its arguments.
use ventmac.Prelude.{ℕ, List, Option, none, some, ◌>>=◌}
use ventmac.Wire.Structs.{MsgUser, MsgChannel, MsgRank, MsgAccount}
use ventmac.Messages.{Built, sent}
use ventmac.Messages.Fixed.{
  v3_put_0x37, v3_put_0x3b, v3_put_0x46, v3_put_0x4b, v3_put_0x58, v3_put_0x61, v3_put_0x62,
}
use ventmac.Messages.Texts.{v3_put_0x3a, v3_put_0x3f, v3_put_0x42, v3_put_0x4c, v3_put_0x5a}
use ventmac.Messages.Records.{v3_put_0x36, v3_put_0x49}
use ventmac.Messages.Members.{Account0x48, v3_put_0x48, v3_put_0x4a, v3_put_0x5d, v3_put_0x63}

-- `real`, `from` and, for 0x37, `user_id` and `ping` are taken from `v3_luser`.
pub data Outgoing : Type 0 where
  put_0x36 : (subtype : ℕ) (rank : Option MsgRank) → Outgoing
  put_0x37 : (user_id ping sequence : ℕ) → Outgoing
  put_0x3a put_0x3f : (message : Option (List ℕ)) → Outgoing
  put_0x3b : (id channel_id : ℕ) → Outgoing
  put_0x42 : (subtype user_id : ℕ) (message : Option (List ℕ)) → Outgoing
  put_0x46 : (user_id setting value : ℕ) → Outgoing
  put_0x48 : Account0x48 → Outgoing
  put_0x49 :
      (subtype user_id : ℕ) (channel_password : Option (List ℕ)) (channel : MsgChannel) → Outgoing
  put_0x4a : (subtype : ℕ) (account account2 : Option MsgAccount) → Outgoing
  put_0x4b : (now : ℕ) → Outgoing
  put_0x4c : (subtype property transaction_id : ℕ) (value : Option (List ℕ)) → Outgoing
  put_0x58 : (real subtype channel phantom_user_id : ℕ) → Outgoing
  put_0x5a : (subtype user1 user2 : ℕ) (message : Option (List ℕ)) → Outgoing
  put_0x5d : (subtype : ℕ) (users : List MsgUser) → Outgoing
  put_0x61 :
      (subtype bitmask_id ip_address : ℕ) (banned_user ban_reason : Option (List ℕ)) → Outgoing
  put_0x62 : (from user_id : ℕ) → Outgoing
  put_0x63 : (subtype user_id : ℕ) (string : Option (List ℕ)) → Outgoing

-- A NULL message is dereferenced by `_v3_send`.
abbrev pub not_null : Option (Option Built) → Option Built
not_null none = none
not_null (some m) = m

unfoldable pub build : Outgoing → Option Built
build (put_0x36 subtype rank) = v3_put_0x36 subtype rank
build (put_0x37 user_id ping sequence) = some (v3_put_0x37 user_id ping sequence)
build (put_0x3a message) = v3_put_0x3a message
build (put_0x3f message) = v3_put_0x3f message
build (put_0x3b id channel_id) = some (v3_put_0x3b id channel_id)
build (put_0x42 subtype user_id message) = v3_put_0x42 subtype user_id message
build (put_0x46 user_id setting value) = some (v3_put_0x46 user_id setting value)
build (put_0x48 account) = v3_put_0x48 account
build (put_0x49 subtype user_id channel_password channel) =
    not_null (v3_put_0x49 subtype user_id channel_password channel)
build (put_0x4a subtype account account2) = v3_put_0x4a subtype account account2
build (put_0x4b now) = some (v3_put_0x4b now)
build (put_0x4c subtype property transaction_id value) =
    v3_put_0x4c subtype property transaction_id value
build (put_0x58 real subtype channel phantom_user_id) =
    some (v3_put_0x58 real subtype channel phantom_user_id)
build (put_0x5a subtype user1 user2 message) = v3_put_0x5a subtype user1 user2 message
build (put_0x5d subtype users) = v3_put_0x5d subtype users
build (put_0x61 subtype bitmask_id ip_address banned_user ban_reason) =
    some (v3_put_0x61 subtype bitmask_id ip_address banned_user ban_reason)
build (put_0x62 from user_id) = some (v3_put_0x62 from user_id)
build (put_0x63 subtype user_id string) = v3_put_0x63 subtype user_id string

-- The bytes of a message, as they are given to the socket.
unfoldable pub bytes_sent : Outgoing → Option (List ℕ)
unfolding build
bytes_sent p = do m ← build p; sent m
