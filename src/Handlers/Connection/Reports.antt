-- ===== src/Handlers/Connection/Reports.antt =====
-- The case 0x06 of `_v3_process_message`, for a message that disconnects.
use ventmac.Prelude.{
  ◌≡◌, ◌≢◌, refl, true, false, inl, inr, List, [], ◌∷◌, ◌++◌, append-nil, none, some, Option-cases,
  if◌then◌else◌,
}
use ventmac.Roster.{
  Lists, v3_destroy_channellist, v3_destroy_userlist, v3_destroy_ranklist, v3_destroy_accountlist,
}
use ventmac.Roster.History.{destroy-nil}
use ventmac.Handlers.{Client, Effect, disconnect, admin_auth, Phrase}
use ventmac.Handlers.Connection.{
  v3_logout, clear_admin, failure, Msg0x06, bit, read_keys, disabled_text, report_0x06,
  after_disconnect, process_0x06,
}

-- What is left of the client: its volumes, the settings of the server and part of its rights.
abbrev pub logged_out : Client → Client
logged_out c = record c {
  loggedin = false;
  lists = record c.lists { channels = []; users = []; ranks = []; accounts = [] };
  luser = record c.luser { id = none; name = []; phonetic = []; is_freed = true };
  channel_admin = clear_admin c.channel_admin;
}

emptied :
    (l : Lists)
    → v3_destroy_accountlist (v3_destroy_ranklist (v3_destroy_userlist (v3_destroy_channellist l)))
      ≡ record l { channels = []; users = []; ranks = []; accounts = [] }
unfolding v3_destroy_channellist v3_destroy_userlist v3_destroy_ranklist v3_destroy_accountlist
emptied l =
    rw (destroy-nil l.channels, destroy-nil l.users, destroy-nil l.ranks, destroy-nil l.accounts)

-- What follows the disconnection, when the client is no longer logged in.
reports_nothing :
    (m : Msg0x06) (out : List Effect) (c : Client) (texts : List Phrase)
    → c.loggedin ≡ false
    → bit 0x01 m.subtype ≡ true
    → bit 0x04 m.subtype ≡ false
    → disabled_text m ≡ some texts
    → after_disconnect m out c
      ≡ some (failure, c, out ++ (if bit 0x02 m.subtype then admin_auth ∷ [] else []))
unfolding after_disconnect read_keys report_0x06
reports_nothing m out c texts off disconnects keys known = rw (
  after_disconnect,
  read_keys,
  keys,
  known,
  report_0x06,
  disconnects,
  off,
  append-nil (out ++ (if bit 0x02 m.subtype then admin_auth ∷ [] else [])),
)

-- A message that disconnects and has no keys, with an error number within its table if it has one,
-- never queues the event with the error text, though it fails and its text is not empty: the
-- client is logged out before the test for a login is made. It queues the event of the
-- disconnection, then that of an administrator where the message has one, and leaves the client
-- logged out with empty lists. An earlier logout has not freed the client's name already.
pub process_0x06-disconnects :
    (m : Msg0x06) (c : Client)
    → bit 0x01 m.subtype ≡ true
    → bit 0x04 m.subtype ≡ false
    → disabled_text m ≢ none
    → c.luser.is_freed ≡ false
    → process_0x06 m c
      ≡ some
          (failure, logged_out c, disconnect ∷ (if bit 0x02 m.subtype then admin_auth ∷ [] else []))
unfolding process_0x06 v3_logout
process_0x06-disconnects m c out keys known kept = elim (Option-cases (disabled_text m)) [
  | inl x ↦ elim (known x) [ ]
  | inr (texts, x) ↦
      rw (process_0x06, out, kept, emptied c.lists)
        (reports_nothing m (disconnect ∷ []) (logged_out c) texts refl out keys x)
]
