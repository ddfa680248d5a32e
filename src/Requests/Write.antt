-- ===== src/Requests/Write.antt =====
-- The public functions about chats, texts, channels, phantoms, the user's own texts and ranks.
use ventmac.Prelude.{
  ℕ, Bool, false, not, ◌&&◌, List, [], ◌∷◌, Option, none, some, ◌==◌, if◌then◌else◌, ◌>>=◌,
}
use ventmac.Wire.{v3_strip_c0_set}
use ventmac.Wire.Structs.{MsgChannel, MsgRank}
use ventmac.Roster.{User}
use ventmac.Roster.Lookup.{v3_get_rank}
use ventmac.Requests.{
  disconnect, chat_join, chat_leave, chat_message, text_to_speech_message, play_wave_file_message,
  private_chat_start, private_chat_end, private_chat_away, private_chat_back, private_chat_message,
  user_page, phantom_add, phantom_remove, force_chan_move, change_channel, chan_remove, chan_add,
  chan_modify, user_modify, ranklist_open, ranklist_close, rank_add, rank_modify, rank_remove, Call,
  nothing, write, logged_in, field, optional_field,
}

unfoldable pub v3_logout : Call
v3_logout = logged_in (write disconnect)

unfoldable pub v3_join_chat : Call
v3_join_chat = logged_in (write chat_join)

unfoldable pub v3_leave_chat : Call
v3_leave_chat = logged_in (write chat_leave)

-- The text is cut to 255 bytes, and its control characters become blanks.
unfoldable pub v3_send_chat_message : Option (List ℕ) → Call
v3_send_chat_message none = nothing
v3_send_chat_message (some message) =
    logged_in (write (chat_message (v3_strip_c0_set (field 256 message))))

unfoldable pub v3_start_privchat : ℕ → Call
v3_start_privchat userid = logged_in (write (private_chat_start userid))

unfoldable pub v3_end_privchat : ℕ → Call
v3_end_privchat userid = logged_in (write (private_chat_end userid))

-- `message` is given to `strncpy` without a test.
abbrev pub with_message : (List ℕ → Call) → Option (List ℕ) → Call
with_message f message c = do s ← message; f (field 256 s) c

unfoldable pub v3_send_privchat_message : ℕ → Option (List ℕ) → Call
v3_send_privchat_message userid message =
    logged_in (with_message (λ s. write (private_chat_message userid s)) message)

unfoldable pub v3_send_privchat_away : ℕ → Call
v3_send_privchat_away userid = logged_in (write (private_chat_away userid))

unfoldable pub v3_send_privchat_back : ℕ → Call
v3_send_privchat_back userid = logged_in (write (private_chat_back userid))

unfoldable pub v3_send_tts_message : Option (List ℕ) → Call
v3_send_tts_message message =
    logged_in (with_message (λ s. write (text_to_speech_message s)) message)

unfoldable pub v3_send_play_wave_message : Option (List ℕ) → Call
v3_send_play_wave_message message =
    logged_in (with_message (λ s. write (play_wave_file_message s)) message)

unfoldable pub v3_send_user_page : ℕ → Call
v3_send_user_page user_id = logged_in (write (user_page user_id))

-- The first user in the channel that is a phantom of this client; an `id` of -1 is compared as it is.
unfoldable pub own_phantom : ℕ → Option ℕ → List User → Option User
own_phantom channel_id luser_id [] = none
own_phantom channel_id luser_id (u ∷ us) =
    let rest = own_phantom channel_id luser_id us in
    let mine : Bool = elim luser_id [ none ↦ false | some id ↦ u.real_user_id == id ] in
    if (u.sent.channel == channel_id) && mine then some u else rest

unfoldable pub v3_phantom_remove : ℕ → Call
unfolding own_phantom
v3_phantom_remove channel_id = logged_in λ c.
    elim (own_phantom channel_id c.luser.id c.lists.users) [
      | none ↦ nothing c
      | some u ↦ write (phantom_remove u.sent.id) c
    ]

unfoldable pub v3_phantom_add : ℕ → Call
v3_phantom_add channel_id = logged_in (write (phantom_add channel_id))

unfoldable pub v3_force_channel_move : (id channel_id : ℕ) → Call
v3_force_channel_move id channel_id = logged_in (write (force_chan_move id channel_id))

unfoldable pub v3_change_channel : ℕ → Option (List ℕ) → Call
v3_change_channel channel_id password =
    logged_in (write (change_channel channel_id (optional_field 32 password)))

-- `v3_strip_c0_set` works on a copy in the event.
abbrev pub own_text : Option (List ℕ) → List ℕ
own_text none = []
own_text (some s) = v3_strip_c0_set (field 128 s)

unfoldable pub v3_set_text : (comment url integration_text : Option (List ℕ)) (silent : ℕ) → Call
v3_set_text comment url integration_text silent = logged_in (
    write (
      user_modify (not (silent == 0)) (own_text comment) (own_text url)
        (own_text integration_text)))

-- The texts of the channel are cut to their fields; they are not NULL.
abbrev pub cut_channel : MsgChannel → MsgChannel
cut_channel c = record c {
  name = field 32 c.name;
  phonetic = field 32 c.phonetic;
  comment = field 128 c.comment;
}

unfoldable pub v3_channel_update : Option MsgChannel → Option (List ℕ) → Call
v3_channel_update none password = nothing
v3_channel_update (some channel) password = logged_in (
    if channel.id == 0
    then write (chan_add (cut_channel channel) (optional_field 32 password))
    else write (chan_modify (cut_channel channel) (optional_field 32 password)))

unfoldable pub v3_channel_remove : ℕ → Call
v3_channel_remove channel_id = logged_in (write (chan_remove channel_id))

unfoldable pub v3_ranklist_open : Call
v3_ranklist_open = logged_in (write ranklist_open)

unfoldable pub v3_ranklist_close : Call
v3_ranklist_close = logged_in (write ranklist_close)

abbrev pub cut_rank : MsgRank → MsgRank
cut_rank r = record r { name = field 32 r.name; description = field 128 r.description }

unfoldable pub v3_rank_update : Option MsgRank → Call
v3_rank_update none = nothing
v3_rank_update (some rank) =
    logged_in (
      if rank.id == 0
      then write (rank_add (cut_rank rank))
      else write (rank_modify (cut_rank rank)))

-- The texts that the event also carries are not read.
unfoldable pub v3_rank_remove : ℕ → Call
v3_rank_remove rankid = logged_in λ c. elim (v3_get_rank c.lists rankid) [
  | none ↦ nothing c
  | some rank ↦ write (rank_remove rankid rank.level) c
]
