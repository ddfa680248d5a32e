-- ===== src/Handlers/Chat.antt =====
-- The cases 0x3a, 0x3f, 0x42, 0x5a, 0x61 and 0x62 of `_v3_process_message`: texts from users, and bans.
-- Texts are cut to the space that the event has for them.
use ventmac.Prelude.{ℕ, false, List, [], ◌∷◌, take, u16, ◌==◌, if◌then◌else◌}
use ventmac.Roster.{strdup}
use ventmac.Handlers.{
  v3_get_user_id, error_msg, chat_join, chat_leave, chat_message, text_to_speech_message,
  play_wave_file_message, private_chat_start, private_chat_end, private_chat_back,
  private_chat_away, private_chat_message, admin_ban_list, user_page, no_chat_access, Act, skip,
  post,
}

abbrev pub chat_text : List ℕ → List ℕ
chat_text msg = take 255 (strdup msg)

-- The event has two bytes for the number, the message four.
unfoldable pub process_0x3a : (user : ℕ) → List ℕ → Act
process_0x3a user msg = post (text_to_speech_message (u16 user) (chat_text msg))

unfoldable pub process_0x3f : (user : ℕ) → List ℕ → Act
process_0x3f user msg = post (play_wave_file_message (u16 user) (chat_text msg))

pub record Msg0x42 : Type 0 where
  pub subtype : ℕ
  pub user_id : ℕ
  pub msg : List ℕ

unfoldable pub process_0x42 : Msg0x42 → Act
process_0x42 m =
    if m.subtype == 0
    then post (chat_join m.user_id)
    else if m.subtype == 1
    then post (chat_leave m.user_id)
    else if m.subtype == 2
    then post (chat_message m.user_id (chat_text m.msg))
    else if m.subtype == 3
    then post (chat_message 0 (chat_text m.msg))
    else if m.subtype == 4
    then post (error_msg false (no_chat_access ∷ []))
    else skip

pub record Msg0x5a : Type 0 where
  pub subtype : ℕ
  pub error : ℕ
  pub user1 : ℕ
  pub user2 : ℕ
  pub msg : List ℕ

-- The start of a chat is told only when another user asks for it.
unfoldable pub process_0x5a : Msg0x5a → Act
process_0x5a m c =
    if m.subtype == 0
    then (if m.user2 == v3_get_user_id c
        then skip c
        else post (private_chat_start m.user1 m.user2) c)
    else if m.subtype == 1
    then post (private_chat_end m.user1 m.user2) c
    else if m.subtype == 2
    then post (private_chat_message m.user1 m.user2 m.error (chat_text m.msg)) c
    else if m.subtype == 3
    then post (private_chat_back m.user1 m.user2) c
    else if m.subtype == 4
    then post (private_chat_away m.user1 m.user2) c
    else skip c

pub record Msg0x61 : Type 0 where
  pub ban_id : ℕ
  pub ban_count : ℕ
  pub bitmask_id : ℕ
  pub ip_address : ℕ
  pub banned_user : List ℕ
  pub banned_by : List ℕ
  pub ban_reason : List ℕ

unfoldable pub process_0x61 : Msg0x61 → Act
process_0x61 m = post (
    admin_ban_list m.ban_id m.ban_count (u16 m.bitmask_id) m.ip_address
      (take 31 (strdup m.banned_user)) (take 31 (strdup m.banned_by))
      (take 127 (strdup m.ban_reason)))

unfoldable pub process_0x62 : (user_id_to user_id_from : ℕ) → Act
process_0x62 user_id_to user_id_from c =
    if user_id_to == v3_get_user_id c then post (user_page user_id_from) c else skip c
