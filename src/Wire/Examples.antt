-- ===== src/Wire/Examples.antt =====
-- Tests of the packet formats, and their theorems at concrete inputs.
use ventmac.Prelude.{◌≡◌, [], ◌∷◌, none, some, arith, length, replicate}
use ventmac.Wire.{v3_parse_filter}
use ventmac.Wire.Structs.{MsgUser, MsgChannel, MsgAccount}
use ventmac.Wire.Structs.RoundTrip.{FitsUser}
use ventmac.Wire.Filters.{v3_parse_filter_parts}

abbrev guest : MsgUser
guest = record {
  id = 7;
  channel = 258;
  bitfield = 1024;
  rank_id = 0;
  name = b'g' ∷ b'u' ∷ [];
  phonetic = [];
  comment = b'h' ∷ b'i' ∷ [];
  integration_text = [];
  url = [];
}

guest-FitsUser : FitsUser guest
guest-FitsUser = omega arith

abbrev lobby_side : MsgChannel
lobby_side = record {
  id = 300;
  parent = 2;
  unknown_1 = 0;
  password_protected = 1;
  settings = 513 ∷ replicate 20 1;
  name = b'n' ∷ [];
  phonetic = [];
  comment = [];
}

abbrev admin : MsgAccount
admin = record {
  perms = replicate 104 1;
  username = b'r' ∷ [];
  owner = [];
  notes = [];
  lock_reason = [];
  chan_admin_count = 2;
  chan_admin = 5 ∷ 600 ∷ [];
  chan_auth_count = 0;
  chan_auth = [];
}

v3_parse_filter_parts_example :
    (v3_parse_filter length (1 ∷ b',' ∷ 2 ∷ 2 ∷ b',' ∷ [])
      ≡ some (record { action = 1; interval = 2; times = 0 }))
    × (v3_parse_filter length (1 ∷ b',' ∷ 2 ∷ 2 ∷ []) ≡ none)
    × (v3_parse_filter length (1 ∷ []) ≡ none)
v3_parse_filter_parts_example =
    v3_parse_filter_parts length (1 ∷ []) (2 ∷ 2 ∷ []) [] (omega arith) (omega arith)
