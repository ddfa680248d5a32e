-- ===== src/Handlers/Properties.antt =====
-- The case 0x4c of `_v3_process_message`: the properties of the server, which are asked for and sent
-- one by one: their values, the message and the answers. It is not in the switch of `Dispatch`.
-- `atoi` and `decimal`, the text of "%u", are parameters: they are functions of the C library.
pub mod Fields
pub mod Process
pub mod Exchange
mod Examples
use ventmac.Prelude.{
  ℕ, ◌+◌, Bool, true, false, List, [], ◌∷◌, ◌++◌, Option, none, some, take, u8, u16, not, ◌&&◌,
  ◌||◌, u32, ltb, leb, ◌==◌, if◌then◌else◌, ◌>>=◌,
}
use ventmac.Wire.{Filter, v3_parse_filter}
use ventmac.Roster.{Lists, strdup}
use ventmac.Roster.Tree.Paths.{v3_get_channel_path, v3_get_channel_id}

pub record Msg0x4c : Type 0 where
  pub subtype : ℕ
  pub property : ℕ
  pub transaction_id : ℕ
  pub value : Option (List ℕ)

pub record ServerProp : Type 0 where
  pub chat_filter : ℕ
  pub channel_order : ℕ
  pub motd_always : ℕ
  pub chat_spam_filter : Filter
  pub comment_spam_filter : Filter
  pub wave_spam_filter : Filter
  pub tts_spam_filter : Filter
  pub inactivity_timeout : ℕ
  pub inactivity_action : ℕ
  pub inactivity_channel : ℕ
  pub rem_srv_comment : ℕ
  pub rem_chan_names : ℕ
  pub rem_chan_comments : ℕ
  pub rem_user_names : ℕ
  pub rem_user_comments : ℕ
  pub server_comment : List ℕ
  pub wave_bind_filter : ℕ
  pub tts_bind_filter : ℕ
  pub channel_spam_filter : Filter
  pub rem_show_login_names : ℕ
  pub max_guest : ℕ
  pub autokick_time : ℕ
  pub autoban_time : ℕ

abbrev no_filter : Filter
no_filter = record { action = 0; interval = 0; times = 0 }

-- `memset(prop, 0, sizeof(v3_server_prop))`
abbrev pub cleared : ServerProp
cleared = record {
  chat_filter = 0;
  channel_order = 0;
  motd_always = 0;
  chat_spam_filter = no_filter;
  comment_spam_filter = no_filter;
  wave_spam_filter = no_filter;
  tts_spam_filter = no_filter;
  inactivity_timeout = 0;
  inactivity_action = 0;
  inactivity_channel = 0;
  rem_srv_comment = 0;
  rem_chan_names = 0;
  rem_chan_comments = 0;
  rem_user_names = 0;
  rem_user_comments = 0;
  server_comment = [];
  wave_bind_filter = 0;
  tts_bind_filter = 0;
  channel_spam_filter = no_filter;
  rem_show_login_names = 0;
  max_guest = 0;
  autokick_time = 0;
  autoban_time = 0;
}

-- `_v3_put_0x4c` with its arguments, and the events.
pub data Answer : Type 0 where
  put_0x4c : (subtype property transaction_id : ℕ) (value : Option (List ℕ)) → Answer
  srv_prop_recv srv_prop_sent : ServerProp → Answer
  server_property_updated : (property value : ℕ) → Answer

-- `_v3_server_prop` with its transaction, and the three fields of `v3_server` that the case sets.
pub record Settings : Type 0 where
  pub prop : ServerProp
  pub tid : ℕ
  pub per_channel_chat : ℕ
  pub channel_manual_sort : ℕ
  pub motd_always : ℕ

-- The numbers below `V3_SRV_PROP_FINISH` whose value is read; without one, that faults.
unfoldable pub reads_value : ℕ → Bool
reads_value property =
    leb 0x02 property
    && (ltb property 0x1c && not (property == 0x04 || (property == 0x06 || property == 0x17)))
