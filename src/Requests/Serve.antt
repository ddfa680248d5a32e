-- ===== src/Requests/Serve.antt =====
-- The first half of `_v3_recv`: what is sent for an event from the pipe. The events of the microphone,
-- which need an encoder, are left out.
use ventmac.Prelude.{
  ℕ, ◌+◌, Bool, true, false, List, [], ◌∷◌, ◌++◌, Option, none, some, replicate, u16, bit_and,
  bit_or, ◌==◌, if◌then◌else◌, ◌>>=◌,
}
use ventmac.Wire.Structs.{MsgUser, MsgChannel, MsgAccount}
use ventmac.Roster.{User}
use ventmac.Roster.Lookup.{v3_get_user, v3_get_account}
use ventmac.Handlers.{Client, Effect, v3_get_user_id}
use ventmac.Handlers.Connection.{v3_logout}
use ventmac.Handlers.Properties.{ServerProp}
use ventmac.Messages.Outgoing.{
  Outgoing, put_0x36, put_0x3a, put_0x3b, put_0x3f, put_0x42, put_0x46, put_0x49, put_0x4a,
  put_0x4c, put_0x58, put_0x5a, put_0x5d, put_0x61, put_0x62, put_0x63,
}
use ventmac.Requests.{
  ClientEvent, disconnect, untyped, chat_join, chat_leave, chat_message, text_to_speech_message,
  play_wave_file_message, private_chat_start, private_chat_end, private_chat_away,
  private_chat_back, private_chat_message, user_page, phantom_add, phantom_remove, force_chan_move,
  change_channel, chan_remove, chan_add, chan_modify, user_modify, ranklist_open, ranklist_close,
  rank_add, rank_modify, rank_remove, admin_login, admin_logout, admin_kick, admin_ban,
  admin_channel_ban, admin_global_mute, admin_channel_mute, userlist_open, userlist_close,
  userlist_remove, userlist_add, userlist_modify, userlist_change_owner, srv_prop_open,
  srv_prop_close, srv_prop_update, admin_ban_list, admin_ban_add, admin_ban_remove,
}

-- The client with `_v3_server_prop_tid` and `_v3_server_prop`.
pub record Session : Type 0 where
  pub client : Client
  pub server_prop_tid : ℕ
  pub server_prop : ServerProp

-- The session, the events for the client and the messages that are built and sent.
abbrev pub Served : Type 0
Served = Option (Session × List Effect × List Outgoing)

abbrev pub send : Outgoing → Session → Served
send p s = some (s, [], p ∷ [])

abbrev pub ignore : Session → Served
ignore s = some (s, [], [])

-- `memset(&channel, 0, sizeof(_v3_msg_channel))` and its number.
abbrev pub bare_channel : ℕ → MsgChannel
bare_channel id = record {
  id = id;
  parent = 0;
  unknown_1 = 0;
  password_protected = 0;
  settings = replicate 21 0;
  name = [];
  phonetic = [];
  comment = [];
}

-- Mutes are switched: what is sent is the opposite of what is known of the user.
abbrev pub mute : ℕ → ℕ → (User → ℕ) → Session → Served
mute user setting flag s = elim (v3_get_user s.client.lists user) [
  | none ↦ ignore s
  | some u ↦ send (put_0x46 user setting (if flag u == 0 then 1 else 0)) s
]

-- The user's own entry with the new texts; `name` and `phonetic` are sent empty.
abbrev pub own_entry : Bool → (comment url integration_text : List ℕ) → User → MsgUser
own_entry silent comment url integration_text u = record u.sent {
  bitfield = if silent then bit_or u.sent.bitfield 0x100 else bit_and u.sent.bitfield 0xfeff;
  name = [];
  phonetic = [];
  comment = comment;
  url = url;
  integration_text = integration_text;
}

-- An account is looked up; one that is not known is passed on as NULL.
abbrev pub with_account : ℕ → (Option MsgAccount → Session → Served) → Session → Served
with_account id f s = do a ← v3_get_account s.client.lists id; f a s

-- A new number for the exchange of properties goes into the session and into the message.
abbrev pub send_property : ℕ → (ℕ → Outgoing) → Session → Served
send_property tid p s = send (p tid) (record s { server_prop_tid = tid })

-- `rand` is the next random number, `decimal` the text of "%u".
module _ (rand : ℕ) (decimal : ℕ → List ℕ) where
  -- What is sent for one event.
  unfoldable pub serve : ClientEvent → Session → Served
  serve disconnect s = do
    (c, effects) ← v3_logout s.client
    some (record s { client = c }, effects, [])
  serve untyped s = ignore s
  serve chat_join s = send (put_0x42 0 (v3_get_user_id s.client) none) s
  serve chat_leave s = send (put_0x42 1 (v3_get_user_id s.client) none) s
  serve (chat_message text) s = send (put_0x42 2 (v3_get_user_id s.client) (some text)) s
  serve (text_to_speech_message text) s = send (put_0x3a (some text)) s
  serve (play_wave_file_message text) s = send (put_0x3f (some text)) s
  serve (private_chat_start user) s = send (put_0x5a 0 user (v3_get_user_id s.client) none) s
  serve (private_chat_end user) s = send (put_0x5a 1 user (v3_get_user_id s.client) none) s
  serve (private_chat_message user text) s =
      send (put_0x5a 2 user (v3_get_user_id s.client) (some text)) s
  serve (private_chat_away user) s = ignore s
  serve (private_chat_back user) s = ignore s
  serve (user_page user) s = send (put_0x62 (v3_get_user_id s.client) user) s
  serve (phantom_add channel) s = send (put_0x58 (v3_get_user_id s.client) 0 channel 0) s
  serve (phantom_remove user) s = send (put_0x58 (v3_get_user_id s.client) 1 0 user) s
  serve (force_chan_move user channel) s = send (put_0x3b user channel) s
  serve (change_channel channel password) s =
      send (put_0x49 3 (v3_get_user_id s.client) (some password) (bare_channel channel)) s
  serve (chan_remove channel) s =
      send (put_0x49 2 (v3_get_user_id s.client) none (bare_channel channel)) s
  serve (chan_add channel password) s =
      send
        (put_0x49 (if channel.id == 0 then 1 else 5) (v3_get_user_id s.client) (some password)
          channel)
        s
  serve (chan_modify channel password) s =
      send
        (put_0x49 (if channel.id == 0 then 1 else 5) (v3_get_user_id s.client) (some password)
          channel)
        s
  serve (user_modify silent comment url integration_text) s =
      elim (v3_get_user s.client.lists (v3_get_user_id s.client)) [
        | none ↦ ignore s
        | some u ↦ send (put_0x5d 2 (own_entry silent comment url integration_text u ∷ [])) s
      ]
  serve ranklist_open s = send (put_0x36 1 none) s
  serve ranklist_close s = send (put_0x36 2 none) s
  serve (rank_add rank) s = send (put_0x36 3 (some rank)) s
  serve (rank_modify rank) s = send (put_0x36 5 (some rank)) s
  serve (rank_remove id level) s =
      send (put_0x36 4 (some (record { id = id; level = level; name = []; description = [] }))) s
  serve (admin_login password) s = send (put_0x63 0 0 (some password)) s
  serve admin_logout s = send (put_0x63 4 0 none) s
  serve (admin_kick user reason) s = send (put_0x63 1 user (some reason)) s
  serve (admin_ban user reason) s = send (put_0x63 3 user (some reason)) s
  serve (admin_channel_ban user reason) s = send (put_0x63 5 user (some reason)) s
  serve (admin_global_mute user) s = mute user 4 User.global_mute s
  serve (admin_channel_mute user) s = mute user 5 User.channel_mute s
  serve userlist_open s = send (put_0x4a 0 none none) s
  serve userlist_close s = send (put_0x4a 4 none none) s
  serve (userlist_remove id) s = with_account id (λ a. send (put_0x4a 2 a none)) s
  serve (userlist_add account) s = send (put_0x4a 1 (some account) none) s
  serve (userlist_modify account) s = send (put_0x4a 3 (some account) none) s
  serve (userlist_change_owner id id2) s =
      with_account id (λ a. with_account id2 (λ b. send (put_0x4a 6 a b))) s
  serve srv_prop_open s = send_property (u16 rand) (λ tid. put_0x4c 0 0 tid none) s
  serve srv_prop_close s = send_property 0 (λ tid. put_0x4c 4 0 tid none) s
  serve (srv_prop_update srvprop) s =
      send_property (u16 rand) (λ tid. put_0x4c 1 2 tid (some (decimal srvprop.chat_filter)))
        (record s { server_prop = srvprop })
  serve admin_ban_list s = send (put_0x61 0 0 0 none none) s
  serve (admin_ban_add bitmask_id ip_address user reason) s =
      send (put_0x61 2 bitmask_id ip_address (some user) (some reason)) s
  serve (admin_ban_remove bitmask_id ip_address) s =
      send (put_0x61 1 bitmask_id ip_address none none) s

-- A logout closes the pipe, and what is left in it is lost.
abbrev closes_pipe : ClientEvent → Bool
closes_pipe disconnect = true
closes_pipe ev = false

-- The loop that empties the pipe; `rand n` is the random number that is drawn for its event `n`.
unfoldable pub serve_all :
    (rand : ℕ → ℕ) (decimal : ℕ → List ℕ) → ℕ → List ClientEvent → Session → Served
unfolding serve
serve_all rand decimal n [] s = some (s, [], [])
serve_all rand decimal n (ev ∷ evs) s = do
  (s1, effects, out) ← serve (rand n) decimal ev s
  (s2, more_effects, more) ←
      (let rest = serve_all rand decimal (n + 1) evs s1 in
        if closes_pipe ev then ignore s1 else rest)
  some (s2, effects ++ more_effects, out ++ more)
