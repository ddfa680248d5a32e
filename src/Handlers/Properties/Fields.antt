-- ===== src/Handlers/Properties/Fields.antt =====
-- The values of the case 0x4c of `_v3_process_message`, read and written by the number of their property.
use ventmac.Prelude.{
  ℕ, ◌+◌, List, [], ◌∷◌, ◌++◌, Option, none, some, take, u8, u16, u32, ◌==◌, if◌then◌else◌,
}
use ventmac.Wire.{Filter, v3_parse_filter}
use ventmac.Roster.{Lists, strdup}
use ventmac.Roster.Tree.Paths.{v3_get_channel_id}
use ventmac.Handlers.Properties.{ServerProp, cleared}

module _ (atoi : List ℕ → ℕ) where
  abbrev pub filter_or : Filter → List ℕ → Filter
  filter_or old value = elim (v3_parse_filter atoi value) [ none ↦ old | some f ↦ f ]

  -- What is asked for next, and the properties with the value. The numbers 0x04, 0x06 and 0x17 are
  -- passed over. A value is needed for all but the first two.
  unfoldable pub recv_setting : Lists → (property : ℕ) → List ℕ → ServerProp → ℕ × ServerProp
  recv_setting l property v p =
      if property == 0x00
      then (0x01, cleared)
      else if property == 0x01
      then (0x02, p)
      else if property == 0x02
      then (0x03, record p { chat_filter = u8 (atoi v) })
      else if property == 0x03
      then (0x05, record p { channel_order = u8 (atoi v) })
      else if property == 0x04
      then (0x06, p)
      else if property == 0x05
      then (0x07, record p { motd_always = u8 (atoi v) })
      else if property == 0x06
      then (0x08, p)
      else if property == 0x07
      then (0x08, record p { chat_spam_filter = filter_or p.chat_spam_filter v })
      else if property == 0x08
      then (0x09, record p { comment_spam_filter = filter_or p.comment_spam_filter v })
      else if property == 0x09
      then (0x0a, record p { wave_spam_filter = filter_or p.wave_spam_filter v })
      else if property == 0x0a
      then (0x0b, record p { tts_spam_filter = filter_or p.tts_spam_filter v })
      else if property == 0x0b
      then (0x0c, record p { inactivity_timeout = u32 (atoi v) })
      else if property == 0x0c
      then (0x0d, record p { inactivity_action = u8 (atoi v) })
      else if property == 0x0d
      then (0x0e, record p { inactivity_channel = v3_get_channel_id l v })
      else if property == 0x0e
      then (0x0f, record p { rem_srv_comment = u8 (atoi v) })
      else if property == 0x0f
      then (0x10, record p { rem_chan_names = u8 (atoi v) })
      else if property == 0x10
      then (0x11, record p { rem_chan_comments = u8 (atoi v) })
      else if property == 0x11
      then (0x12, record p { rem_user_names = u8 (atoi v) })
      else if property == 0x12
      then (0x13, record p { rem_user_comments = u8 (atoi v) })
      else if property == 0x13
      then (0x14, record p { server_comment = take 255 (strdup v) })
      else if property == 0x14
      then (0x15, record p { wave_bind_filter = u8 (atoi v) })
      else if property == 0x15
      then (0x16, record p { tts_bind_filter = u8 (atoi v) })
      else if property == 0x16
      then (0x18, record p { channel_spam_filter = filter_or p.channel_spam_filter v })
      else if property == 0x17
      then (0x19, p)
      else if property == 0x18
      then (0x19, record p { rem_show_login_names = u8 (atoi v) })
      else if property == 0x19
      then (0x1a, record p { max_guest = u8 (atoi v) })
      else if property == 0x1a
      then (0x1b, record p { autokick_time = u32 (atoi v) })
      else if property == 0x1b
      then (0x1c, record p { autoban_time = u32 (atoi v) })
      else (u16 (property + 1), p)

module _ (decimal : ℕ → List ℕ) where
  abbrev pub filter_text : Filter → List ℕ
  filter_text f = decimal f.action ++ b',' ∷ (decimal f.interval ++ b',' ∷ decimal f.times)

  -- The number and the value that are sent next, for a number that has been counted up; `path` is
  -- that of the channel for inactive users. Other numbers have no value.
  unfoldable pub send_setting : (path : Option (List ℕ)) → (property : ℕ) → ServerProp → ℕ × List ℕ
  send_setting path property p =
      if property == 0x02
      then (0x02, decimal p.chat_filter)
      else if property == 0x03
      then (0x03, decimal p.channel_order)
      else if property == 0x04
      then (0x05, decimal p.motd_always)
      else if property == 0x05
      then (0x05, decimal p.motd_always)
      else if property == 0x06
      then (0x07, filter_text p.chat_spam_filter)
      else if property == 0x07
      then (0x07, filter_text p.chat_spam_filter)
      else if property == 0x08
      then (0x08, filter_text p.comment_spam_filter)
      else if property == 0x09
      then (0x09, filter_text p.wave_spam_filter)
      else if property == 0x0a
      then (0x0a, filter_text p.tts_spam_filter)
      else if property == 0x0b
      then (0x0b, decimal p.inactivity_timeout)
      else if property == 0x0c
      then (0x0c, decimal p.inactivity_action)
      else if property == 0x0d
      then (0x0d, elim path [ none ↦ [] | some name ↦ take 255 name ])
      else if property == 0x0e
      then (0x0e, decimal p.rem_srv_comment)
      else if property == 0x0f
      then (0x0f, decimal p.rem_chan_names)
      else if property == 0x10
      then (0x10, decimal p.rem_chan_comments)
      else if property == 0x11
      then (0x11, decimal p.rem_user_names)
      else if property == 0x12
      then (0x12, decimal p.rem_user_comments)
      else if property == 0x13
      then (0x13, take 255 p.server_comment)
      else if property == 0x14
      then (0x14, decimal p.wave_bind_filter)
      else if property == 0x15
      then (0x15, decimal p.tts_bind_filter)
      else if property == 0x16
      then (0x16, filter_text p.channel_spam_filter)
      else if property == 0x17
      then (0x18, decimal p.rem_show_login_names)
      else if property == 0x18
      then (0x18, decimal p.rem_show_login_names)
      else if property == 0x19
      then (0x19, decimal p.max_guest)
      else if property == 0x1a
      then (0x1a, decimal p.autokick_time)
      else if property == 0x1b
      then (0x1b, decimal p.autoban_time)
      else if property == 0x1c
      then (0x1d, [])
      else (property, [])
