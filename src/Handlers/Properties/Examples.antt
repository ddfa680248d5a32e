-- ===== src/Handlers/Properties/Examples.antt =====
-- Tests of the properties of the server, and their theorem at a concrete input.
use ventmac.Prelude.{
  ℕ, zero, suc, ◌+◌, ◌-◌, ◌*◌, ◌/◌, ◌%◌, ◌≤◌, ◌++◌, ltb, Bool-cases, inl, inr, All-append,
  if◌then◌else◌, ◌≡◌, ◌<◌, ◌^◌, refl, List, [], ◌∷◌, some, arith, replicate, ◌≢◌,
}
use ventmac.Wire.Filters.{HasNoComma}
use ventmac.Wire.Structs.{MsgChannel}
use ventmac.Roster.{Lists, strdup}
use ventmac.Roster.Keyed.{find_entry}
use ventmac.Roster.Answers.{no_entries}
use ventmac.Roster.Tree.Paths.{
  v3_get_channel_path, v3_get_channel_id, path_loop, split_path, id_loop, find_child, same_text,
}
use ventmac.Handlers.Properties.{ServerProp, cleared, srv_prop_recv, Settings}
use ventmac.Handlers.Properties.Exchange.{FilterFits, Fits, answer, ask_all, ask_all-process_0x4c}

-- The digits of a number, with enough fuel, and the number of a text of digits.
digits : ℕ → ℕ → List ℕ
digits zero n = (b'0' + n % 10) ∷ []
digits (suc fuel) n =
    let more = digits fuel (n / 10) in
    if ltb n 10 then (b'0' + n) ∷ [] else more ++ (b'0' + n % 10) ∷ []

value : ℕ → List ℕ → ℕ
value acc [] = acc
value acc (c ∷ s) = value (acc * 10 + (c - b'0')) s

abbrev decimal : ℕ → List ℕ
decimal n = digits n n

abbrev number : List ℕ → ℕ
number s = value 0 s

digits_test : decimal 600 ≡ b'6' ∷ b'0' ∷ b'0' ∷ []
unfolding digits
digits_test = refl

value-last :
    (acc : ℕ) (s : List ℕ) (c : ℕ) → value acc (s ++ c ∷ []) ≡ value acc s * 10 + (c - b'0')
unfolding value
value-last acc [] c = refl
value-last acc (d ∷ s) c = value-last (acc * 10 + (d - b'0')) s c

value-digits : (fuel n : ℕ) → n ≤ fuel → value 0 (digits fuel n) ≡ n
unfolding value digits
value-digits zero n h = omega arith
value-digits (suc fuel) n h = elim (Bool-cases (ltb n 10)) [
  | inl e ↦ rw e (omega arith)
  | inr e ↦
      let big : 10 ≤ n = ground (arith, e) in
      rw
        (
          e,
          value-last 0 (digits fuel (n / 10)) (b'0' + n % 10),
          value-digits fuel (n / 10) (omega arith),
        )
        (omega arith)
]

number-decimal : (n : ℕ) → n < 2 ^ 31 → number (decimal n) ≡ n
number-decimal n h = value-digits n n (omega arith)

digits-HasNoComma : (fuel n : ℕ) → HasNoComma (digits fuel n)
unfolding digits
digits-HasNoComma zero n = ((λ e. omega (arith, e)), tt)
digits-HasNoComma (suc fuel) n = elim (Bool-cases (ltb n 10)) [
  | inl e ↦ rw e ((λ k. omega (arith, k)), tt)
  | inr e ↦ rw e (
      All-append (λ c. c ≢ b',') (digits fuel (n / 10)) ((b'0' + n % 10) ∷ [])
        (digits-HasNoComma fuel (n / 10)) ((λ k. omega (arith, k)), tt))
]

abbrev lobby : MsgChannel
lobby = record {
  id = 3;
  parent = 0;
  unknown_1 = 0;
  password_protected = 0;
  settings = replicate 21 0;
  name = b'a' ∷ [];
  phonetic = [];
  comment = [];
}

abbrev room : MsgChannel
room = record lobby { id = 8; parent = 3; name = b'b' ∷ [] }

abbrev two_channels : Lists
two_channels = record (no_entries (λ i. 0)) { channels = lobby ∷ room ∷ [] }

abbrev room_path : List ℕ
room_path = b'a' ∷ b'/' ∷ b'b' ∷ []

path_test : v3_get_channel_path 2 two_channels 8 ≡ some (some room_path)
unfolding v3_get_channel_path path_loop find_entry strdup
path_test = refl

room_named : v3_get_channel_id two_channels room_path ≡ 8
unfolding v3_get_channel_id split_path id_loop find_child same_text strdup
room_named = refl

abbrev props : ServerProp
props = record cleared {
  chat_filter = 1;
  wave_spam_filter = record { action = 1; interval = 5; times = 2 };
  inactivity_timeout = 600;
  inactivity_channel = 8;
  server_comment = b'h' ∷ b'i' ∷ [];
}

no_filter-FilterFits : FilterFits (record { action = 0; interval = 0; times = 0 })
no_filter-FilterFits = record { action = omega arith; interval = omega arith; times = omega arith }

props-Fits : Fits props
unfolding strdup
props-Fits = record {
  chat_filter = omega arith;
  channel_order = omega arith;
  motd_always = omega arith;
  chat_spam_filter = no_filter-FilterFits;
  comment_spam_filter = no_filter-FilterFits;
  wave_spam_filter = record { action = omega arith; interval = omega arith; times = omega arith };
  tts_spam_filter = no_filter-FilterFits;
  inactivity_timeout = omega arith;
  inactivity_action = omega arith;
  rem_srv_comment = omega arith;
  rem_chan_names = omega arith;
  rem_chan_comments = omega arith;
  rem_user_names = omega arith;
  rem_user_comments = omega arith;
  server_comment = omega arith;
  server_text = refl;
  wave_bind_filter = omega arith;
  tts_bind_filter = omega arith;
  channel_spam_filter = no_filter-FilterFits;
  rem_show_login_names = omega arith;
  max_guest = omega arith;
  autokick_time = omega arith;
  autoban_time = omega arith;
}

abbrev fresh_settings : Settings
fresh_settings = record {
  prop = cleared;
  tid = 77;
  per_channel_chat = 0;
  channel_manual_sort = 0;
  motd_always = 0;
}

ask_all-process_0x4c_example :
    ask_all number decimal two_channels 26 room_path props
      (answer number decimal two_channels room_path props 0x00 77)
      fresh_settings
    ≡ some (record fresh_settings { prop = props }, srv_prop_recv props ∷ [])
ask_all-process_0x4c_example =
    ask_all-process_0x4c number decimal two_channels number-decimal (λ n. digits-HasNoComma n n)
      room_path props fresh_settings props-Fits (omega arith) room_named
