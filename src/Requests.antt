-- ===== src/Requests.antt =====
-- Sources/CVentrilo3/libventrilo3.c: what the client asks for. A public function, from `v3_join_chat` to
-- `v3_rank_remove`, writes an event into a pipe; the thread that runs `_v3_recv` reads it there and sends
-- the message it stands for (`Serve`).
-- `none` is a fault. A string is its bytes before the final NUL, and `none` for NULL.
pub mod Write
pub mod Admin
pub mod Serve
pub mod Calls
pub mod LoggedOut
pub mod Bounds
pub mod Travels
mod Examples
pub mod Served
pub mod Built
pub mod Proper
use ventmac.Prelude.{ℕ, Bool, List, [], ◌∷◌, Option, none, some, take, ◌-◌, if◌then◌else◌}
use ventmac.Wire.Structs.{MsgChannel, MsgRank, MsgAccount}
use ventmac.Handlers.{Client}
use ventmac.Handlers.Properties.{ServerProp}

-- `v3_event` in the pipe, by its type, with the fields that are set; `untyped` has the type 0.
pub data ClientEvent : Type 0 where
  disconnect untyped chat_join chat_leave admin_logout : ClientEvent
  userlist_open userlist_close srv_prop_open srv_prop_close : ClientEvent
  admin_ban_list ranklist_open ranklist_close : ClientEvent
  chat_message text_to_speech_message play_wave_file_message : (chatmessage : List ℕ) → ClientEvent
  private_chat_start private_chat_end private_chat_away private_chat_back : (user : ℕ) → ClientEvent
  user_page phantom_remove admin_global_mute admin_channel_mute : (user : ℕ) → ClientEvent
  private_chat_message : (user : ℕ) (chatmessage : List ℕ) → ClientEvent
  phantom_add chan_remove : (channel : ℕ) → ClientEvent
  force_chan_move : (user channel : ℕ) → ClientEvent
  change_channel : (channel : ℕ) (password : List ℕ) → ClientEvent
  admin_login : (password : List ℕ) → ClientEvent
  admin_kick admin_ban admin_channel_ban : (user : ℕ) (reason : List ℕ) → ClientEvent
  userlist_remove : (account : ℕ) → ClientEvent
  userlist_add userlist_modify : (account : MsgAccount) → ClientEvent
  userlist_change_owner : (id id2 : ℕ) → ClientEvent
  srv_prop_update : (srvprop : ServerProp) → ClientEvent
  admin_ban_add : (bitmask_id ip_address : ℕ) (user reason : List ℕ) → ClientEvent
  admin_ban_remove : (bitmask_id ip_address : ℕ) → ClientEvent
  user_modify : (silent : Bool) (comment url integration_text : List ℕ) → ClientEvent
  chan_add chan_modify : (channel : MsgChannel) (password : List ℕ) → ClientEvent
  rank_add rank_modify : (rank : MsgRank) → ClientEvent
  rank_remove : (id level : ℕ) → ClientEvent

-- A public function: the client after it, and what it writes into the pipe.
abbrev pub Call : Type 0
Call = Client → Option (Client × List ClientEvent)

abbrev pub nothing : Call
nothing c = some (c, [])

abbrev pub write : ClientEvent → Call
write ev c = some (c, ev ∷ [])

-- `if (!v3_is_loggedin()) return;`
abbrev pub logged_in : Call → Call
logged_in f c = if c.loggedin then f c else nothing c

-- `strncpy` into a zeroed field of `size` bytes that keeps its last byte; NULL faults.
abbrev pub field : ℕ → List ℕ → List ℕ
field size s = take (size - 1) s

-- The same under a test for NULL.
abbrev pub optional_field : ℕ → Option (List ℕ) → List ℕ
optional_field size none = []
optional_field size (some s) = field size s
