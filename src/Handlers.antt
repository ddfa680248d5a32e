-- ===== src/Handlers.antt =====
-- `_v3_process_message` of Sources/CVentrilo3/libventrilo3.c: the state that messages change, and what
-- a handler does with it. Each child holds the handlers of one part of the protocol; `Dispatch`
-- brings them together.
-- A handler is given the contents of its message as the parser left them. It gives the new state and,
-- in order, the events that it queues and the packets that it sends; `none` is a fault. Recordings
-- (`_v3_vrf_record_event`) and debug output are left out.
pub mod Users
pub mod Userlist
pub mod Channels
pub mod Editors
pub mod Chat
pub mod Connection
pub mod Properties
pub mod Dispatch
pub mod Mirror
pub mod Login
mod Examples
use ventmac.Prelude.{
  ℕ, Bool, ◌-◌, List, [], ◌∷◌, ◌++◌, Option, none, some, u16, ltb, if◌then◌else◌, ◌>>=◌, get_or,
  not, ◌&&◌, ◌==◌, true, false,
}
use ventmac.Crypt.{KeyCtx}
use ventmac.Roster.{Lists}

abbrev pub is_nil {ℓ} : {A : Type ℓ} → List A → Bool
is_nil [] = true
is_nil (x ∷ xs) = false

-- `v3_luser`; an `id` of -1 is `none`. `is_freed` tells that `name` and `phonetic` point to what
-- `_v3_logout` has freed.
pub record Luser : Type 0 where
  pub id : Option ℕ
  pub ping : ℕ
  pub name : List ℕ
  pub phonetic : List ℕ
  pub is_freed : Bool
  pub comment : List ℕ
  pub integration_text : List ℕ
  pub url : List ℕ
  pub accept_pages : ℕ
  pub accept_u2u : ℕ
  pub accept_chat : ℕ
  pub allow_recording : ℕ
  pub perms : List ℕ

-- The fields of `v3_server` that messages change or read; NULL is `none`.
pub record Server : Type 0 where
  pub name : List ℕ
  pub version : List ℕ
  pub port : ℕ
  pub max_clients : ℕ
  pub connected_clients : ℕ
  pub is_licensed : ℕ
  pub codec : ℕ
  pub codec_format : ℕ
  pub motd : Option (List ℕ)
  pub guest_motd : Option (List ℕ)
  pub client_key : KeyCtx
  pub server_key : KeyCtx
  pub handshake_key : List ℕ

pub record Client : Type 0 where
  pub lists : Lists
  pub luser : Luser
  pub channel_admin : ℕ → ℕ
  pub server : Server
  pub loggedin : Bool

abbrev pub v3_get_user_id : Client → ℕ
v3_get_user_id c = elim c.luser.id [ none ↦ 65535 | some id ↦ u16 id ]

-- The texts of error events; a number is the index of a text in its table, `none` is "Unknown".
pub data Phrase : Type 0 where
  disconnected password_incorrect no_chat_access wrong_channel_password : Phrase
  server_disabled : ℕ → Phrase
  rank_editor user_editor phantom : Option ℕ → Phrase
  server_error : (error : ℕ) (message : List ℕ) (minutes_banned : ℕ) → Phrase

-- The messages that are sent in reply, by the functions that build them.
pub data Packet : Type 0 where
  put_0x37 : (sequence : ℕ) → Packet
  put_0x46 : (user_id setting value : ℕ) → Packet
  put_0x48 : Packet
  put_0x4a_open : (account_id : ℕ) → Packet
  put_0x5c : (subtype : ℕ) → Packet

-- The events, by their type, with the fields that are set, and the packets.
pub data Effect : Type 0 where
  disconnect admin_auth chan_admin_updated perms_updated login_complete : Effect
  status : (percent : ℕ) → Effect
  error_msg : (is_disconnected : Bool) (text : List Phrase) → Effect
  ping : ℕ → Effect
  user_login : (user channel flags : ℕ) → Effect
  user_logout : (user channel : ℕ) (name : List ℕ) → Effect
  user_modify user_chan_move : (user channel : ℕ) → Effect
  user_rank_change user_global_mute_changed user_channel_mute_changed user_page :
      (user : ℕ) → Effect
  chan_add chan_modify chan_remove chan_badpass : (channel : ℕ) → Effect
  chan_move : (id channel : ℕ) → Effect
  rank_add rank_modify : (rank level : ℕ) (name description : List ℕ) → Effect
  rank_remove : (rank : ℕ) → Effect
  userlist_add userlist_modify userlist_remove : (account : ℕ) → Effect
  chat_join chat_leave : (user : ℕ) → Effect
  text_to_speech_message play_wave_file_message chat_message : (user : ℕ) (text : List ℕ) → Effect
  private_chat_start private_chat_end private_chat_back private_chat_away :
      (user1 user2 : ℕ) → Effect
  private_chat_message : (user1 user2 flags : ℕ) (text : List ℕ) → Effect
  display_motd : (flags : ℕ) (text : List ℕ) → Effect
  admin_ban_list : (ban_id ban_count bitmask_id ip_address : ℕ) (user by reason : List ℕ) → Effect
  send : Packet → Effect

abbrev pub Act : Type 0
Act = Client → Option (Client × List Effect)

abbrev pub skip : Act
skip c = some (c, [])

-- What `v3_queue_event` tests: the permission `see_chan_list`, which has the offset 100, and whether there
-- are channels.
abbrev pub may_see_channels : Client → Bool
may_see_channels c = not (get_or c.luser.perms 100 0 == 0)

abbrev pub sees_channels : Client → Bool
sees_channels c = may_see_channels c && not (is_nil c.lists.channels)

-- A client that may not see channels takes any channel for the lobby.
abbrev pub seen_channel : Bool → ℕ → ℕ
seen_channel sees channel = if sees then channel else 0

-- What `v3_queue_event` makes of the channel of an event.
abbrev pub queued : Bool → Effect → Effect
queued sees (user_login user channel flags) = user_login user (seen_channel sees channel) flags
queued sees (user_logout user channel name) = user_logout user (seen_channel sees channel) name
queued sees (user_modify user channel) = user_modify user (seen_channel sees channel)
queued sees (user_chan_move user channel) = user_chan_move user (seen_channel sees channel)
queued sees (chan_add channel) = chan_add (seen_channel sees channel)
queued sees (chan_modify channel) = chan_modify (seen_channel sees channel)
queued sees (chan_remove channel) = chan_remove (seen_channel sees channel)
queued sees (chan_badpass channel) = chan_badpass (seen_channel sees channel)
queued sees (chan_move id channel) = chan_move id (seen_channel sees channel)
queued sees e = e

abbrev pub post : Effect → Act
post e c = some (c, queued (sees_channels c) e ∷ [])

infixl 5 ◌&>◌
abbrev pub ◌&>◌ : Act → Act → Act
◌&>◌ f g c = do (c1, out1) ← f c; (c2, out2) ← g c1; some (c2, out1 ++ out2)

-- `for (ctr = 0; ctr < count; ctr++)`
unfoldable pub each {ℓ} : {A : Type ℓ} → (A → Act) → List A → Act
each f [] = skip
each f (x ∷ xs) = f x &> each f xs

-- A change of the lists that may fault, and one that may not.
abbrev pub try_lists : (Lists → Option Lists) → Act
try_lists f c = do l ← f c.lists; some (record c { lists = l }, [])

abbrev pub on_lists : (Lists → Lists) → Act
on_lists f c = some (record c { lists = f c.lists }, [])

-- The entry of an error table of `size` texts.
abbrev pub table_entry : ℕ → ℕ → Option ℕ
table_entry size error_id = if ltb size error_id then none else some (error_id - 1)
