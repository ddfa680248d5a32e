-- ===== src/Handlers/Login/Outcome.antt =====
-- What `v3_login` promises: when it returns true, and what the client knows then.
use ventmac.Prelude.{◌≡◌, Bool, true, List, ◌++◌, Option, none, some, ◌>>=◌}
use ventmac.Handlers.{Client, Effect}
use ventmac.Handlers.Login.{complete}
use ventmac.Handlers.Mirror.{View, replay, Agrees}

-- A client that is logged in has last sent its settings and told that the login is complete.
pub record Completed (c : Client) (out : List Effect) : Type 0 where
  pub loggedin : c.loggedin ≡ true
  pub before : List Effect
  pub last : out ≡ before ++ complete c

-- If the code does not fault, the lists agree with the events, and `true` is returned only when the
-- login is complete.
abbrev pub AfterLogin : View → Option (Bool × Client × List Effect) → Type 0
AfterLogin v none = Unit
AfterLogin v (some (done, c', out)) =
    Agrees c'.lists (replay out v) × (done ≡ true → Completed c' out)
