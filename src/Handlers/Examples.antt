-- ===== src/Handlers/Examples.antt =====
-- Tests of the handlers, and their theorems at concrete inputs.
use ventmac.Prelude.{
  Bool, ℕ, ◌≡◌, ◌≢◌, refl, true, false, List, [], ◌∷◌, map, length, take, Option, none, some, arith,
  replicate,
}
use ventmac.Wire.Structs.{MsgAccount, MsgChannel}
use ventmac.Roster.{
  User, user_id, strdup, set_volume, v3_update_channel, v3_update_user, v3_remove_user,
}
use ventmac.Roster.Keyed.{Distinct, find_entry, put_entry, remove_entry}
use ventmac.Roster.Lookup.{v3_get_user}
use ventmac.Roster.Answers.{no_entries}
use ventmac.Handlers.{
  Client, Effect, disconnect, admin_auth, user_login, user_logout, user_chan_move, chan_add,
  chan_move, display_motd,
}
use ventmac.Handlers.Channels.{place, move_channel, process_0x60, Msg0x3b, process_0x3b}
use ventmac.Handlers.Channels.Moved.{Moved, process_0x3b-Moved}
use ventmac.Handlers.Connection.{
  process_0x3c, process_0x34, failure, Msg0x06, disabled_text, process_0x06, Msg0x50,
}
use ventmac.Handlers.Connection.Motd.{Fragments, last, next, whole, with_motd, Fragments-whole}
use ventmac.Handlers.Connection.Reports.{logged_out, process_0x06-disconnects}
use ventmac.Handlers.Dispatch.{
  x3c, x34, Message, x3b, x50, x53, x5d, x60, v3_process_message, process_all,
}
use ventmac.Handshake.{ventrilo3_algo_scramble}
use ventmac.Handlers.Login.{v3_login, login_loop}
use ventmac.Handlers.Editors.{Msg0x4a, process_0x4a}
use ventmac.Handlers.Editors.Owner.{process_0x4a-keeps_owners}
use ventmac.Handlers.Mirror.{View, replay, Agrees}
use ventmac.Handlers.Mirror.Run.{process_all-Mirrors}
use ventmac.Handlers.Users.{process_0x53}
use ventmac.Handlers.Userlist.{process_0x5d}
use ventmac.Handlers.Userlist.Phantoms.{has_phantom, process_0x5d-removes}

abbrev lobby : MsgChannel
lobby = record {
  id = 3;
  parent = 0;
  unknown_1 = 0;
  password_protected = 0;
  settings = replicate 21 0;
  name = b'a' ∷ [];
  phonetic = [];
  comment = [];
}

abbrev room : MsgChannel
room = record lobby { id = 8; name = b'b' ∷ [] }

abbrev guest : User
guest = record {
  sent = record {
    id = 7;
    channel = 3;
    bitfield = 1024;
    rank_id = 0;
    name = b'g' ∷ [];
    phonetic = [];
    comment = [];
    integration_text = [];
    url = [];
  };
  is_transmitting = 0;
  accept_pages = 0;
  accept_u2u = 0;
  accept_chat = 0;
  allow_recording = 0;
  global_mute = 0;
  channel_mute = 0;
  guest = 0;
  real_user_id = 0;
}

abbrev phantom_user : User
phantom_user = record guest { sent = record guest.sent { id = 9 }; real_user_id = 7 }

abbrev fresh_client : Client
fresh_client = record {
  lists = no_entries (λ i. 0);
  luser = record {
    id = some 1;
    ping = 0;
    name = [];
    phonetic = [];
    is_freed = false;
    comment = [];
    integration_text = [];
    url = [];
    accept_pages = 1;
    accept_u2u = 1;
    accept_chat = 1;
    allow_recording = 0;
    perms = replicate 104 1;
  };
  channel_admin = λ i. 0;
  server = record {
    name = [];
    version = [];
    port = 3784;
    max_clients = 8;
    connected_clients = 1;
    is_licensed = 0;
    codec = 3;
    codec_format = 1;
    motd = none;
    guest_motd = none;
    client_key = record { key = replicate 256 7; size = 8; pos = 0 };
    server_key = record { key = replicate 256 9; size = 8; pos = 0 };
    handshake_key = replicate 64 5;
  };
  loggedin = true;
}

abbrev messages : List Message
messages =
    x60 (lobby ∷ room ∷ [])
    ∷ x5d (record { subtype = 1; user_list = guest ∷ [] })
    ∷ x53 7 8
    ∷ x3b (record { id = 8; channel_id = 3; error_id = 0 })
    ∷ x5d (record { subtype = 0; user_list = guest ∷ [] })
    ∷ []

abbrev told : List Effect
told =
    chan_add 3
    ∷ chan_add 8
    ∷ user_login 7 3 0
    ∷ user_chan_move 7 8
    ∷ chan_move 8 3
    ∷ user_logout 7 3 (b'g' ∷ [])
    ∷ []

abbrev client_of : Option (Client × List Effect) → Client
client_of none = fresh_client
client_of (some (c, out)) = c

-- What `_v3_process_message` makes of them.
abbrev end_client : Client
end_client = client_of (process_all messages fresh_client)

messages_run : process_all messages fresh_client ≡ some (end_client, told)
unfolding process_all v3_process_message process_0x60 process_0x5d v3_update_user find_entry
    v3_update_channel set_volume process_0x53 v3_get_user put_entry process_0x3b move_channel
    v3_remove_user remove_entry strdup
messages_run = refl

end_channels : map MsgChannel.id end_client.lists.channels ≡ 8 ∷ 3 ∷ []
unfolding process_all v3_process_message process_0x60 process_0x5d v3_update_user find_entry
    v3_update_channel set_volume process_0x53 v3_get_user put_entry process_0x3b move_channel
    v3_remove_user remove_entry strdup
end_channels = refl

abbrev no_view : View
no_view = record {
  user = λ i. none;
  channel = λ i. false;
  hidden = false;
  rank = λ i. false;
  account = λ i. false;
}

fresh_client-Agrees : Agrees fresh_client.lists no_view
unfolding find_entry
fresh_client-Agrees = record {
  channels = record { distinct = tt; same = λ i shown. refl };
  users = record { distinct = tt; same = λ i. refl };
  ranks = record { distinct = tt; same = λ i. refl };
  accounts = record { distinct = tt; same = λ i. refl };
}

process_all-Mirrors_example : Agrees end_client.lists (replay told no_view)
process_all-Mirrors_example =
    process_all-Mirrors messages fresh_client end_client told no_view fresh_client-Agrees
      messages_run

abbrev with_channels : Client
with_channels = record fresh_client {
  lists = record fresh_client.lists { channels = lobby ∷ room ∷ [] };
}

with_channels-Distinct : Distinct MsgChannel.id with_channels.lists.channels
unfolding find_entry
with_channels-Distinct = (refl, (refl, tt))

abbrev move_room : Msg0x3b
move_room = record { id = 8; channel_id = 3; error_id = 0 }

no_user : v3_get_user with_channels.lists 8 ≡ none
unfolding v3_get_user find_entry
no_user = refl

room_placed : place 8 with_channels.lists.channels ≢ none
unfolding place
room_placed e = cc

lobby_placed : place 3 with_channels.lists.channels ≢ none
unfolding place
lobby_placed e = cc

process_0x3b-Moved_example : Moved 8 3 with_channels (process_0x3b move_room with_channels)
process_0x3b-Moved_example =
    process_0x3b-Moved move_room with_channels with_channels-Distinct refl no_user
      (λ e. omega arith) room_placed lobby_placed

abbrev part : ℕ → List ℕ → Msg0x50
part i text = record {
  guest_motd_flag = 0;
  message_num = 2;
  message_id = i;
  message_size = length text;
  message = text;
}

abbrev parts : List Msg0x50
parts = part 0 (b'h' ∷ b'e' ∷ []) ∷ part 1 (b'y' ∷ 0 ∷ b'z' ∷ []) ∷ []

parts-Fragments : Fragments 0 2 0 parts
parts-Fragments =
    next (part 0 (b'h' ∷ b'e' ∷ [])) (omega arith) refl refl refl (omega arith)
      (next (part 1 (b'y' ∷ 0 ∷ b'z' ∷ [])) (omega arith) refl refl refl (omega arith) last)

whole_test : whole parts ≡ b'h' ∷ b'e' ∷ b'y' ∷ []
unfolding whole strdup
whole_test = refl

Fragments-whole_example :
    process_all (map x50 parts) fresh_client
    ≡ some (with_motd 0 (whole parts) fresh_client, display_motd 0 (take 32767 (whole parts)) ∷ [])
Fragments-whole_example = Fragments-whole 0 2 parts fresh_client parts-Fragments refl (λ e. cc)

abbrev kick : Msg0x06
kick = record { subtype = 0x43; error_id = 0; encryption_key = []; key_len = 0 }

kick_known : disabled_text kick ≢ none
unfolding disabled_text
kick_known e = cc

process_0x06-disconnects_example :
    process_0x06 kick fresh_client
    ≡ some (failure, logged_out fresh_client, disconnect ∷ admin_auth ∷ [])
process_0x06-disconnects_example =
    process_0x06-disconnects kick fresh_client refl refl kick_known refl

abbrev haunted : Client
haunted = record fresh_client {
  lists = record fresh_client.lists { users = guest ∷ phantom_user ∷ [] };
}

haunted-Distinct : Distinct user_id haunted.lists.users
unfolding find_entry
haunted-Distinct = (refl, (refl, tt))

guest_found : find_entry user_id 7 haunted.lists.users ≡ some guest
unfolding find_entry
guest_found = refl

process_0x5d-removes_example :
    process_0x5d (record { subtype = 0; user_list = guest ∷ [] }) haunted ≡ none
unfolding has_phantom
process_0x5d-removes_example = process_0x5d-removes guest haunted haunted-Distinct guest_found

abbrev account : ℕ → MsgAccount
account id = record {
  perms = id ∷ replicate 103 0;
  username = id ∷ [];
  owner = 4 ∷ [];
  notes = [];
  lock_reason = [];
  chan_admin_count = 1;
  chan_admin = 3 ∷ [];
  chan_auth_count = 0;
  chan_auth = [];
}

-- Both accounts are listed, and the second belongs to the first.
abbrev owned_client : Client
owned_client = record fresh_client {
  lists = record fresh_client.lists { accounts = account 4 ∷ account 5 ∷ [] };
}

abbrev new_owner : Msg0x4a
new_owner = record {
  subtype = 6;
  error_id = 0;
  count = 0;
  end_id = 0;
  acct_list = [];
  perms = [];
  account_id = 4;
  replace_owner_id = 5;
}

process_0x4a-keeps_owners_example : process_0x4a new_owner owned_client ≡ some (owned_client, [])
process_0x4a-keeps_owners_example =
    process_0x4a-keeps_owners new_owner owned_client refl refl
      ((omega arith, omega arith), ((omega arith, omega arith), tt))

abbrev login_messages : List (ℕ × Message)
login_messages =
    (0x3c, x3c 3 1) ∷ (0x60, x60 (lobby ∷ room ∷ [])) ∷ (0x34, x34) ∷ (0x53, x53 7 8) ∷ []

abbrev stranger_client : Client
stranger_client = record fresh_client { loggedin = false }

abbrev answer_of : Option (Bool × Client × List Effect) → Option (Bool × List ℕ)
answer_of none = none
answer_of (some (done, c, out)) = some (done, map MsgChannel.id c.lists.channels)

login_test : answer_of (v3_login login_messages stranger_client) ≡ some (true, 3 ∷ 8 ∷ [])
unfolding v3_login login_loop v3_process_message process_0x3c process_0x60 v3_update_channel
    put_entry strdup process_0x34 ventrilo3_algo_scramble
login_test = refl
