-- ===== src/Requests/Travels.antt =====
-- From a public function over the pipe to the bytes on the socket, and to those who read them.
use ventmac.Prelude.{
  ℕ, ◌<◌, ◌≡◌, ◌≢◌, refl, sym, ap, ◌∙◌, inl, inr, Bool-cases, ltb, false, true, List, [], ◌∷◌,
  Option, none, some, arith, All-take, length, take, take_short, ◌==◌, ◌>>=◌, map, if◌then◌else◌,
}
use ventmac.Wire.{v3_strip_c0_set}
use ventmac.Wire.Filters.{IsText}
use ventmac.Wire.Scalars.{IsWord}
use ventmac.Roster.{Lists, strdup, account_id}
use ventmac.Roster.Keyed.{find_entry}
use ventmac.Roster.Lookup.{v3_get_account}
use ventmac.Handlers.{Client, chat_message, v3_get_user_id}
use ventmac.Handlers.Chat.{chat_text, process_0x42}
use ventmac.Handlers.Connection.{ok}
use ventmac.Handlers.Dispatch.{v3_process_message}
use ventmac.Messages.Members.{v3_put_0x4a}
use ventmac.Messages.Outgoing.{Outgoing, put_0x42, bytes_sent}
use ventmac.Messages.Incoming.{process_bytes}
use ventmac.Messages.RoundTrip.Every.{process_bytes-build}
use ventmac.Requests.Write.{v3_send_chat_message}
use ventmac.Requests.Admin.{v3_userlist_remove}
use ventmac.Requests.Built.{put_0x42-IsBuilt}
use ventmac.Requests.Served.{user_id-IsWord}
use ventmac.Requests.Bounds.{stripped-IsField}
use ventmac.Requests.Calls.{Function, send_chat_message, userlist_remove, perform, perform_all}
use ventmac.Requests.Serve.{Session, serve, serve_all}

-- The bytes of messages, one after the other.
unfoldable pub all_bytes : List Outgoing → Option (List (List ℕ))
all_bytes [] = some []
all_bytes (p ∷ ps) = do xs ← bytes_sent p; rest ← all_bytes ps; some (xs ∷ rest)

-- Calls of the client, and then the loop that empties the pipe: what the server is sent.
unfoldable pub ask :
    (rand : ℕ → ℕ) (decimal : ℕ → List ℕ) → List Function → Session → Option (List (List ℕ))
unfolding all_bytes
ask rand decimal fs s = do
  (c, events) ← perform_all fs s.client
  (s', effects, out) ← serve_all rand decimal 0 events (record s { client = c })
  all_bytes out

v3_strip_c0_set-IsText : (s : List ℕ) → IsText s → IsText (v3_strip_c0_set s)
unfolding v3_strip_c0_set
v3_strip_c0_set-IsText [] h = tt
v3_strip_c0_set-IsText (c ∷ s) h =
    let e : (c == 0) ≡ false = ground (arith, h.0) in
    rw e (elim (Bool-cases (ltb c 0x20)) [
      | inl l ↦ rw l ((λ z. absurd (omega (arith, z))), v3_strip_c0_set-IsText s h.1)
      | inr l ↦ rw l (h.0, v3_strip_c0_set-IsText s h.1)
    ])

strdup-IsText : (s : List ℕ) → IsText s → strdup s ≡ s
unfolding strdup
strdup-IsText [] h = refl
strdup-IsText (c ∷ s) h =
    let e : (c == 0) ≡ false = ground (arith, h.0) in rw (e, strdup-IsText s h.1)

v3_get_account-unknown :
    (l : Lists) (id : ℕ)
    → find_entry account_id id l.accounts ≡ none
    → v3_get_account l id ≡ some none
unfolding v3_get_account
v3_get_account-unknown l id unknown = rw (v3_get_account, unknown)

module _ (rand : ℕ → ℕ) (decimal : ℕ → List ℕ) (s : Session)
    (in_session : s.client.loggedin ≡ true) where
  -- To ask for the removal of an account that is not in the client's list faults, in a client that is
  -- logged in.
  pub ask-unknown_account :
      (id : ℕ)
      → find_entry account_id id s.client.lists.accounts ≡ none
      → ask rand decimal (userlist_remove id ∷ []) s ≡ none
  unfolding ask perform_all perform v3_userlist_remove serve_all v3_get_account bytes_sent
      v3_put_0x4a
  ask-unknown_account id unknown =
      simp in_session (rw (serve, v3_get_account-unknown s.client.lists id unknown))

  ask-send_chat_message :
      (text xs : List ℕ)
      → bytes_sent (put_0x42 2 (v3_get_user_id s.client) (some (v3_strip_c0_set (take 255 text))))
        ≡ some xs
      → ask rand decimal (send_chat_message (some text) ∷ []) s ≡ some (xs ∷ [])
  unfolding ask perform_all perform v3_send_chat_message serve_all all_bytes
  ask-send_chat_message text xs e = simp in_session (rw (serve, e))

-- What is to be heard of a text: its first 255 bytes, with a space for each byte below 32.
abbrev pub spaced : ℕ → ℕ
spaced c = if ltb c 32 then 32 else c

strip-spaced : (s : List ℕ) → IsText s → v3_strip_c0_set s ≡ map spaced s
unfolding v3_strip_c0_set
strip-spaced [] h = refl
strip-spaced (c ∷ s) h =
    let e : (c == 0) ≡ false = ground (arith, h.0) in rw (e, strip-spaced s h.1)

-- A text that fits the event is kept.
chat_text-kept : (t : List ℕ) → IsText t → length t < 256 → chat_text t ≡ t
chat_text-kept t h k = rw (strdup-IsText t h) (take_short 255 t (omega arith))

-- What another client is told.
heard :
    (fill : List ℕ) (other : Client) (user : ℕ) (t : List ℕ)
    → IsWord user
    → IsText t
    → length t < 256
    → (bytes_sent (put_0x42 2 user (some t)) >>= λ xs. process_bytes fill xs other)
      ≡ some (ok, other, chat_message user t ∷ [])
unfolding v3_process_message process_0x42
heard fill other user t hu ht hl =
    process_bytes-build fill (put_0x42 2 user (some t)) other (hu, inl refl, omega arith)
    ∙ rw (chat_text-kept t ht hl)

-- A chat message of a client that is logged in is one message to the server. A client to which the
-- server passes its bytes on is told the user who sent it and the text: its first 255 bytes, each
-- byte below 32 replaced by a space and every other kept. Nothing else changes there. The text has
-- no NUL.
pub send_chat_message-Travels :
    (rand : ℕ → ℕ) (decimal : ℕ → List ℕ) (s : Session) (text fill : List ℕ) (other : Client)
    → s.client.loggedin ≡ true
    → IsText text
    → (xs : List ℕ) × (ask rand decimal (send_chat_message (some text) ∷ []) s ≡ some (xs ∷ []))
      × (process_bytes fill xs other
          ≡ some
              (ok, other, chat_message (v3_get_user_id s.client) (map spaced (take 255 text)) ∷ []))
send_chat_message-Travels rand decimal s text fill other in_session h =
    let t = v3_strip_c0_set (take 255 text) in
    let user = v3_get_user_id s.client in
    let short : length t < 256 = stripped-IsField 256 text (omega arith) in
    let plain : IsText t =
      v3_strip_c0_set-IsText (take 255 text) (All-take (λ c. c ≢ 0) 255 text h) in
    let b = put_0x42-IsBuilt 2 user t short in
    (
      b.0,
      ask-send_chat_message rand decimal s in_session text b.0 b.1,
      ap (λ o. o >>= λ ys. process_bytes fill ys other) (sym b.1)
          ∙ heard fill other user t (user_id-IsWord s.client) plain short
          ∙ ap (λ x. some (ok, other, chat_message user x ∷ []))
              (strip-spaced (take 255 text) (All-take (λ c. c ≢ 0) 255 text h)),
    )
