-- ===== src/Requests/Examples.antt =====
-- Tests of what the client asks for, and its theorems at concrete inputs.
use ventmac.Prelude.{
  ℕ, true, false, ◌≡◌, refl, List, [], ◌∷◌, none, some, arith, All, All-replicate, replicate,
}
use ventmac.Wire.{memcpy}
use ventmac.Wire.Scalars.{IsWord}
use ventmac.Wire.Structs.{MsgChannel, MsgUser}
use ventmac.Wire.Structs.RoundTrip.{FitsChannel}
use ventmac.Roster.{account_id}
use ventmac.Roster.Keyed.{find_entry}
use ventmac.Roster.Answers.{no_entries}
use ventmac.Handlers.{Client, chat_message, v3_get_user_id}
use ventmac.Handlers.Connection.{ok}
use ventmac.Handlers.Properties.{cleared}
use ventmac.Messages.{allocate}
use ventmac.Messages.Texts.{with_text, v3_put_0x42, v3_put_0x5a}
use ventmac.Messages.Incoming.{process_bytes}
use ventmac.Messages.Outgoing.{bytes_sent}
use ventmac.Requests.{ClientEvent}
use ventmac.Requests.Write.{v3_join_chat, v3_start_privchat}
use ventmac.Requests.Calls.{
  perform, perform_all, join_chat, start_privchat, send_chat_message, send_tts_message,
  channel_update, userlist_remove,
}
use ventmac.Requests.Serve.{Session, serve, serve_all}
use ventmac.Requests.LoggedOut.{perform_all-logged_out}
use ventmac.Requests.Served.{IsServed, perform-IsServed}
use ventmac.Requests.Travels.{ask, all_bytes, ask-unknown_account, send_chat_message-Travels}

abbrev fresh_client : Client
fresh_client = record {
  lists = no_entries (λ i. 0);
  luser = record {
    id = some 1;
    ping = 0;
    name = [];
    phonetic = [];
    is_freed = false;
    comment = [];
    integration_text = [];
    url = [];
    accept_pages = 1;
    accept_u2u = 1;
    accept_chat = 1;
    allow_recording = 0;
    perms = [];
  };
  channel_admin = λ i. 0;
  server = record {
    name = [];
    version = [];
    port = 3784;
    max_clients = 8;
    connected_clients = 1;
    is_licensed = 0;
    codec = 3;
    codec_format = 1;
    motd = none;
    guest_motd = none;
    client_key = record { key = replicate 256 7; size = 8; pos = 0 };
    server_key = record { key = replicate 256 9; size = 8; pos = 0 };
    handshake_key = replicate 64 5;
  };
  loggedin = true;
}

abbrev session : Session
session = record { client = fresh_client; server_prop_tid = 0; server_prop = cleared }

abbrev no_digits : ℕ → List ℕ
no_digits n = b'0' ∷ []

abbrev rolls : ℕ → ℕ
rolls n = 4

abbrev hello : List ℕ
hello = b'h' ∷ b'i' ∷ 10 ∷ []

abbrev somebody : MsgUser
somebody = record {
  id = 7;
  channel = 3;
  bitfield = 256;
  rank_id = 2;
  name = b's' ∷ [];
  phonetic = [];
  comment = hello;
  integration_text = [];
  url = [];
}

abbrev room : MsgChannel
room = record {
  id = 0;
  parent = 3;
  unknown_1 = 0;
  password_protected = 0;
  settings = replicate 21 1;
  name = replicate 40 b'r';
  phonetic = [];
  comment = b'!' ∷ [];
}

room_fits : FitsChannel room
room_fits = record {
  numbers = (omega arith, omega arith, omega arith, omega arith);
  number_of_settings = refl;
  words_of_settings = All-replicate IsWord 21 1 (omega arith);
  name = omega arith;
  phonetic = omega arith;
  comment = omega arith;
}

perform-IsServed_example :
    (r : Client × List ClientEvent) × (perform
        (channel_update (some room) (some hello))
        fresh_client
      ≡ some r)
    × All (λ ev. IsServed (serve 4 no_digits ev session)) r.1
perform-IsServed_example =
    perform-IsServed fresh_client (channel_update (some room) (some hello)) session 4 no_digits refl
      (room_fits, (omega arith, (omega arith, (omega arith, tt)))) tt (λ n h. omega arith)

perform_all-logged_out_example :
    perform_all (join_chat ∷ send_tts_message none ∷ []) (record fresh_client { loggedin = false })
    ≡ some (record fresh_client { loggedin = false }, [])
perform_all-logged_out_example =
    perform_all-logged_out (join_chat ∷ send_tts_message none ∷ [])
      (record fresh_client { loggedin = false }) refl

nobody : find_entry account_id 5 fresh_client.lists.accounts ≡ none
unfolding find_entry
nobody = refl

ask-unknown_account_example : ask rolls no_digits (userlist_remove 5 ∷ []) session ≡ none
ask-unknown_account_example = ask-unknown_account rolls no_digits session refl 5 nobody

send_chat_message-Travels_example :
    (xs : List ℕ) × (ask rolls no_digits (send_chat_message (some hello) ∷ []) session
      ≡ some (xs ∷ []))
    × (process_bytes [] xs fresh_client
        ≡ some (
          ok,
          fresh_client,
          chat_message (v3_get_user_id fresh_client) (b'h' ∷ b'i' ∷ 32 ∷ []) ∷ [],
        ))
send_chat_message-Travels_example =
    send_chat_message-Travels rolls no_digits session hello [] fresh_client refl (
      (λ e. absurd (omega (arith, e))),
      ((λ e. absurd (omega (arith, e))), ((λ e. absurd (omega (arith, e))), tt)),
    )

-- Two calls are two messages, in their order.
two_calls :
    ask rolls no_digits (join_chat ∷ start_privchat 9 ∷ []) session
    ≡ some (
        (0x42 ∷ 0 ∷ 0 ∷ 0 ∷ 1 ∷ 0 ∷ 0 ∷ 0 ∷ 0 ∷ 0 ∷ 0 ∷ 0 ∷ [])
        ∷ (0x5a ∷ 0 ∷ 0 ∷ 0 ∷ 0 ∷ 0 ∷ 0 ∷ 0 ∷ 9 ∷ 0 ∷ 1 ∷ 0 ∷ [])
        ∷ [])
unfolding ask perform_all perform v3_join_chat v3_start_privchat serve_all all_bytes bytes_sent
    v3_put_0x42 v3_put_0x5a with_text allocate memcpy
two_calls = refl
