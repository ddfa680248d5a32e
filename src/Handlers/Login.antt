-- ===== src/Handlers/Login.antt =====
-- `v3_login` from the first message on: the messages until the client is logged in. The resolution of
-- the name, the handshake and the connection come before.
pub mod Outcome
use ventmac.Prelude.{
  ℕ, Bool, true, false, List, [], ◌∷◌, ◌++◌, Option, none, some, ◌==◌, if◌then◌else◌, ◌>>=◌,
}
use ventmac.Handlers.{
  Client, v3_get_user_id, Effect, status, login_complete, send, put_0x46, put_0x48, put_0x5c,
}
use ventmac.Handlers.Connection.{Code, ok, malformed, notimpl, failure}
use ventmac.Handlers.Dispatch.{Message, v3_process_message}

-- The text of a status is left out; types of other messages have none.
abbrev pub progress : (type : ℕ) → List Effect
progress type =
    if type == 0x4a
    then status 40 ∷ []
    else if type == 0x5d
    then status 50 ∷ []
    else if type == 0x60
    then status 60 ∷ []
    else if type == 0x46
    then status 70 ∷ []
    else if type == 0x50
    then status 80 ∷ []
    else []

unfoldable pub complete : Client → List Effect
complete c =
    status 90
    ∷ send (put_0x5c 0)
    ∷ status 95
    ∷ send (put_0x46 (v3_get_user_id c) 0x00 c.luser.accept_pages)
    ∷ send (put_0x46 (v3_get_user_id c) 0x01 c.luser.accept_u2u)
    ∷ send (put_0x46 (v3_get_user_id c) 0x03 c.luser.accept_chat)
    ∷ send (put_0x46 (v3_get_user_id c) 0x02 c.luser.allow_recording)
    ∷ status 100
    ∷ login_complete
    ∷ []

abbrev pub is_failure : Code → Bool
is_failure ok = false
is_failure malformed = false
is_failure notimpl = false
is_failure failure = true

-- The messages that are received, each with its type, and at their end none. The first result is
-- what the function returns.
unfoldable pub login_loop : List (ℕ × Message) → Client → Option (Bool × Client × List Effect)
login_loop [] c = some (false, c, [])
login_loop ((type, m) ∷ ms) c = do
  (code, c1, out1) ← v3_process_message m c
  (done, c2, out2) ←
      (let rest = login_loop ms c1 in
        if is_failure code
        then some (false, c1, [])
        else if type == 0x34
        then some (c1.loggedin, c1, if c1.loggedin then complete c1 else [])
        else rest)
  some (done, c2, progress type ++ (out1 ++ out2))

-- The result of the first message is not tested, only whether its type is that of a refusal.
unfoldable pub v3_login : List (ℕ × Message) → Client → Option (Bool × Client × List Effect)
unfolding login_loop
v3_login [] c = some (false, c, status 20 ∷ [])
v3_login ((type, m) ∷ ms) c = do
  (code, c1, out1) ← v3_process_message m c
  (done, c2, out2) ←
      (let rest = (do (b, c2, out) ← login_loop ms c1; some (b, c2, send put_0x48 ∷ out)) in
        if type == 0x59 then some (false, c1, []) else rest)
  some (done, c2, status 20 ∷ (out1 ++ out2))
