-- ===== src/Handlers/Connection.antt =====
-- The cases 0x06, 0x33, 0x34, 0x37, 0x3c, 0x50, 0x57, 0x59 and 0x5c of `_v3_process_message`, and
-- `_v3_logout`: keys, errors of the server, its settings and its message of the day.
pub mod Motd
pub mod Reports
use ventmac.Prelude.{
  ℕ, ◌+◌, ◌-◌, ◌*◌, ◌/◌, ◌^◌, Bool, true, false, not, ◌&&◌, ◌||◌, List, [], ◌∷◌, ◌++◌, Option, none,
  some, bit_and, length, take, u8, ltb, leb, ◌==◌, if◌then◌else◌, ◌>>=◌,
}
use ventmac.Crypt.{KeyCtx, ventrilo_read_keys}
use ventmac.Handshake.{ventrilo3_algo_scramble}
use ventmac.Roster.{
  Lists, strdup, v3_destroy_channellist, v3_destroy_userlist, v3_destroy_ranklist,
  v3_destroy_accountlist,
}
use ventmac.Handlers.{
  Client, Luser, Server, Effect, disconnect, admin_auth, chan_admin_updated, error_msg, ping,
  display_motd, send, put_0x37, put_0x5c, Phrase, disconnected, password_incorrect, server_disabled,
  server_error, Act, skip, post, ◌&>◌,
}

-- `memset(v3_luser.channel_admin, 0, 65535)`: 65535 bytes of an array of numbers of two bytes.
abbrev pub clear_admin : (ℕ → ℕ) → ℕ → ℕ
clear_admin admin i =
    if ltb i 32767 then 0 else if i == 32767 then admin i / 2 ^ 8 * 2 ^ 8 else admin i

-- The socket and the pipe for events are closed. The pointers to the freed texts are kept, so a second
-- logout would free them again.
unfoldable pub v3_logout : Act
v3_logout c =
    if c.luser.is_freed
    then none
    else some (
      record c {
        loggedin = false;
        lists =
            v3_destroy_accountlist
              (v3_destroy_ranklist (v3_destroy_userlist (v3_destroy_channellist c.lists)));
        luser = record c.luser { id = none; name = []; phonetic = []; is_freed = true };
        channel_admin = clear_admin c.channel_admin;
      },
      disconnect ∷ [],
    )

-- `V3_OK`, `V3_MALFORMED`, `V3_NOTIMPL` and `V3_FAILURE`.
pub data Code : Type 0 where
  ok malformed notimpl failure : Code

pub record Msg0x06 : Type 0 where
  pub subtype : ℕ
  pub error_id : ℕ
  pub encryption_key : List ℕ
  pub key_len : ℕ

abbrev pub bit : ℕ → ℕ → Bool
bit mask subtype = not (bit_and subtype mask == 0)

-- The keys of the message; the first result is false when they cannot be parsed.
unfoldable pub read_keys : Msg0x06 → Client → Option (Bool × Client)
read_keys m c =
    if bit 0x04 m.subtype
    then (do
      (done, client_key, server_key) ←
          ventrilo_read_keys c.server.client_key c.server.server_key m.encryption_key m.key_len
      some (
        done,
        record c { server = record c.server { client_key = client_key; server_key = server_key } },
      ))
    else some (true, c)

-- `_v3_server_disabled_errors[m->error_id-1]`: the table has nine entries and is not checked.
unfoldable pub disabled_text : Msg0x06 → Option (List Phrase)
disabled_text m =
    if bit 0x200 m.subtype
    then (if leb 1 m.error_id && leb m.error_id 9
        then some (server_disabled (m.error_id - 1) ∷ [])
        else none)
    else some []

-- The test for a login is made after `_v3_logout` has reset it.
unfoldable pub report_0x06 :
    (is_disconnected : Bool) → List Phrase → Client → Option (Code × Client × List Effect)
report_0x06 is_disconnected [] c = some (ok, c, [])
report_0x06 is_disconnected (p ∷ buf) c =
    some (failure, c, if c.loggedin then error_msg is_disconnected (p ∷ buf) ∷ [] else [])

-- What follows the disconnection, after the events of that.
unfoldable pub after_disconnect :
    Msg0x06 → List Effect → Client → Option (Code × Client × List Effect)
unfolding read_keys disabled_text report_0x06
after_disconnect m out1 c1 = do
  (done, c2) ← read_keys m c1
  let out2 = out1 ++ (if bit 0x02 m.subtype then admin_auth ∷ [] else [])
  let texts =
      (if bit 0x01 m.subtype then disconnected ∷ [] else [])
      ++ (if bit 0x40 m.subtype then password_incorrect ∷ [] else [])
  elim done [
    | false ↦ some (failure, c2, out2)
    | true ↦ (do
      disabled ← disabled_text m
      (code, c3, out3) ← report_0x06 (bit 0x01 m.subtype) (texts ++ disabled) c2
      some (code, c3, out2 ++ out3))
  ]

unfoldable pub process_0x06 : Msg0x06 → Client → Option (Code × Client × List Effect)
unfolding v3_logout after_disconnect
process_0x06 m c = do
  (c1, out1) ← (if bit 0x01 m.subtype then v3_logout c else skip c)
  after_disconnect m out1 c1

-- `v3_luser.channel_admin[m->channel_ids[ctr]] = 1`; the array has 65535 elements.
unfoldable pub set_admin : List ℕ → (ℕ → ℕ) → Option (ℕ → ℕ)
set_admin [] admin = some admin
set_admin (id ∷ ids) admin =
    let rest = set_admin ids (λ i. if i == id then 1 else admin i) in
    if ltb id 65535 then rest else none

unfoldable pub process_0x33 : (channel_ids : List ℕ) → Act
unfolding set_admin
process_0x33 channel_ids c = do
  admin ← set_admin channel_ids (clear_admin c.channel_admin)
  some (record c { channel_admin = admin }, chan_admin_updated ∷ [])

unfoldable pub process_0x34 : Act
process_0x34 c = do
  client_key ← ventrilo3_algo_scramble c.server.client_key c.server.handshake_key
  server_key ← ventrilo3_algo_scramble c.server.server_key c.server.handshake_key
  some (
    record c {
      server = record c.server { client_key = client_key; server_key = server_key };
      loggedin = true;
    },
    [],
  )

pub record Msg0x37 : Type 0 where
  pub user_id : ℕ
  pub sequence : ℕ
  pub ping : ℕ

unfoldable pub process_0x37 : Msg0x37 → Act
process_0x37 m c = some (
  record c { luser = record c.luser { id = some m.user_id; ping = m.ping } },
  ping m.ping ∷ send (put_0x37 m.sequence) ∷ [],
)

unfoldable pub process_0x3c : (codec codec_format : ℕ) → Act
process_0x3c codec codec_format c =
    some (record c { server = record c.server { codec = codec; codec_format = codec_format } }, [])

pub record Msg0x50 : Type 0 where
  pub guest_motd_flag : ℕ
  pub message_num : ℕ
  pub message_id : ℕ
  pub message_size : ℕ
  pub message : List ℕ

-- The text after a fragment; `memcpy` reads at most the 256 bytes of `message`, and `strlen` of NULL
-- faults.
unfoldable pub add_fragment : Msg0x50 → Option (List ℕ) → Option (List ℕ)
add_fragment m motd =
    if not (leb m.message_size (length m.message))
    then none
    else if m.message_id == 0
    then some (strdup (take m.message_size m.message))
    else (do text ← motd; some (text ++ strdup (take m.message_size m.message)))

unfoldable pub process_0x50 : Msg0x50 → Client → Option (Code × Client × List Effect)
unfolding add_fragment
process_0x50 m c = if ltb m.message_num (m.message_id + 1) then some (malformed, c, []) else (do
  let is_guest = m.guest_motd_flag == 1
  text ← add_fragment m (if is_guest then c.server.guest_motd else c.server.motd)
  let server =
      if is_guest
      then record c.server { guest_motd = some text }
      else record c.server { motd = some text }
  some (
    ok,
    record c { server = server },
    if m.message_id + 1 == m.message_num
        then display_motd m.guest_motd_flag (take 32767 text) ∷ []
        else [],
  ))

pub record Msg0x57 : Type 0 where
  pub is_licensed : ℕ
  pub port : ℕ
  pub max_clients : ℕ
  pub connected_clients : ℕ
  pub name : List ℕ
  pub version : List ℕ

unfoldable pub process_0x57 : Msg0x57 → Act
process_0x57 m c = some (
  record c {
    server = record c.server {
      name = strdup m.name;
      version = strdup m.version;
      max_clients = m.max_clients;
      is_licensed = m.is_licensed;
      connected_clients = m.connected_clients;
      port = m.port;
    };
  },
  [],
)

pub record Msg0x59 : Type 0 where
  pub error : ℕ
  pub minutes_banned : ℕ
  pub close_connection : ℕ
  pub message : List ℕ

-- `_v3_errors[m->error]`: the table has fifty-one entries and is not checked. The event has one byte
-- for the flag.
unfoldable pub process_0x59 : Msg0x59 → Act
unfolding v3_logout
process_0x59 m c =
    if not (ltb m.error 51)
    then none
    else ((λ c'.
            if c'.loggedin
            then post
                (error_msg (not (u8 m.close_connection == 0))
                  (server_error m.error (strdup m.message) m.minutes_banned ∷ []))
                c'
            else skip c')
          &> (λ c'. if m.close_connection == 0 then skip c' else v3_logout c'))
        c

unfoldable pub process_0x5c : (subtype : ℕ) → Act
process_0x5c subtype c = if c.loggedin then post (send (put_0x5c subtype)) c else skip c
