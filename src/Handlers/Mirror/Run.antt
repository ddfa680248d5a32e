-- ===== src/Handlers/Mirror/Run.antt =====
-- All messages: the lists agree with the events of a whole run.
use ventmac.Prelude.{
  ◌≡◌, sym, inl, inr, List, [], ◌∷◌, ◌++◌, none, some, Option-cases, if◌then◌else◌,
}
use ventmac.Handlers.{Client, Effect}
use ventmac.Handlers.Users.{process_0x46, process_0x53, process_0x58}
use ventmac.Handlers.Userlist.{process_0x5d}
use ventmac.Handlers.Channels.{process_0x3b, process_0x49, process_0x60}
use ventmac.Handlers.Editors.{process_0x36, process_0x4a}
use ventmac.Handlers.Chat.{
  process_0x3a, process_0x3f, process_0x42, process_0x5a, process_0x61, process_0x62,
}
use ventmac.Handlers.Connection.{
  ok, malformed, process_0x33, process_0x34, process_0x37, process_0x3c, process_0x57, process_0x59,
  process_0x5c,
}
use ventmac.Handlers.Dispatch.{
  Message, unparsed, other, x34, x06, x33, x36, x37, x3a, x3f, x3b, x3c, x42, x46, x49, x4a, x50,
  x53, x57, x58, x59, x5a, x5c, x5d, x60, x61, x62, v3_process_message, process_all,
}
use ventmac.Handlers.Mirror.{View, replay, Agrees, replay-append}
use ventmac.Handlers.Mirror.Cases.{
  move_user-Mirrors, process_0x46-Mirrors, process_0x58-Mirrors, process_0x49-Mirrors,
}
use ventmac.Handlers.Mirror.Members.{
  process_0x5d-Mirrors, process_0x60-Mirrors, process_0x36-Mirrors, process_0x4a-Mirrors,
}
use ventmac.Handlers.Mirror.Moves.{process_0x3b-Mirrors}
use ventmac.Handlers.Mirror.Texts.{
  AfterMessage, return-AfterMessage, process_0x42-Mirrors, process_0x5a-Mirrors,
  process_0x62-Mirrors, process_0x5c-Mirrors,
}
use ventmac.Handlers.Mirror.Session.{
  process_0x06-Mirrors, process_0x33-Mirrors, process_0x34-Mirrors, process_0x50-Mirrors,
  process_0x59-Mirrors,
}

pub v3_process_message-AfterMessage :
    (m : Message) (c : Client) (v : View)
    → Agrees c.lists v
    → AfterMessage v (v3_process_message m c)
unfolding v3_process_message replay process_0x3a process_0x3f process_0x61 process_0x37 process_0x3c
    process_0x57 process_0x53
v3_process_message-AfterMessage unparsed c v a = a
v3_process_message-AfterMessage other c v a = a
v3_process_message-AfterMessage (x06 m) c v a = process_0x06-Mirrors m c v a
v3_process_message-AfterMessage (x33 ids) c v a =
    return-AfterMessage ok (process_0x33 ids) (process_0x33-Mirrors ids) c v a
v3_process_message-AfterMessage x34 c v a =
    return-AfterMessage ok process_0x34 process_0x34-Mirrors c v a
v3_process_message-AfterMessage (x36 m) c v a =
    return-AfterMessage ok (process_0x36 m) (process_0x36-Mirrors m) c v a
v3_process_message-AfterMessage (x37 m) c v a = a
v3_process_message-AfterMessage (x3a user msg) c v a = a
v3_process_message-AfterMessage (x3b m) c v a =
    return-AfterMessage ok (process_0x3b m) (process_0x3b-Mirrors m) c v a
v3_process_message-AfterMessage (x3c codec codec_format) c v a = a
v3_process_message-AfterMessage (x3f user msg) c v a = a
v3_process_message-AfterMessage (x42 m) c v a =
    return-AfterMessage ok (process_0x42 m) (process_0x42-Mirrors m) c v a
v3_process_message-AfterMessage (x46 m) c v a =
    return-AfterMessage ok (process_0x46 m) (process_0x46-Mirrors m) c v a
v3_process_message-AfterMessage (x49 m) c v a =
    return-AfterMessage ok (process_0x49 m) (process_0x49-Mirrors m) c v a
v3_process_message-AfterMessage (x4a m) c v a =
    return-AfterMessage ok (process_0x4a m) (process_0x4a-Mirrors m) c v a
v3_process_message-AfterMessage (x50 m) c v a = process_0x50-Mirrors m c v a
v3_process_message-AfterMessage (x53 user channel) c v a =
    return-AfterMessage ok (process_0x53 user channel) (move_user-Mirrors user channel) c v a
v3_process_message-AfterMessage (x57 m) c v a = a
v3_process_message-AfterMessage (x58 m) c v a =
    return-AfterMessage (if (process_0x58 m).0 then ok else malformed) (process_0x58 m).1
      (process_0x58-Mirrors m) c v a
v3_process_message-AfterMessage (x59 m) c v a =
    return-AfterMessage ok (process_0x59 m) (process_0x59-Mirrors m) c v a
v3_process_message-AfterMessage (x5a m) c v a =
    return-AfterMessage ok (process_0x5a m) (process_0x5a-Mirrors m) c v a
v3_process_message-AfterMessage (x5c subtype) c v a =
    return-AfterMessage ok (process_0x5c subtype) (process_0x5c-Mirrors subtype) c v a
v3_process_message-AfterMessage (x5d m) c v a =
    return-AfterMessage ok (process_0x5d m) (process_0x5d-Mirrors m) c v a
v3_process_message-AfterMessage (x60 channel_list) c v a =
    return-AfterMessage ok (process_0x60 channel_list) (process_0x60-Mirrors channel_list) c v a
v3_process_message-AfterMessage (x61 m) c v a = a
v3_process_message-AfterMessage (x62 to from) c v a =
    return-AfterMessage ok (process_0x62 to from) (process_0x62-Mirrors to from) c v a

-- When the lists agree with what a client that sees the events knows, and any messages are
-- processed in any order without a fault, the lists afterwards agree with what the events of all
-- of them, in their order, have told that client: which users, ranks and accounts there are, each
-- number once; each user's channel, or the lobby in its place; and which channels there are, each
-- number once, unless an event has named the channel 0 in place of one, as events do for a client
-- that may not see the channels or when none is listed.
pub process_all-Mirrors :
    (ms : List Message) (c c' : Client) (out : List Effect) (v : View)
    → Agrees c.lists v
    → process_all ms c ≡ some (c', out)
    → Agrees c'.lists (replay out v)
unfolding process_all replay
process_all-Mirrors [] c c' out v a e =
    let done : some (c, []) ≡ some (c', out) = e in
    let same : c ≡ c' = cc in let quiet : [] ≡ out = cc in rw (sym same, sym quiet) a
process_all-Mirrors (m ∷ ms) c c' out v a e = elim (Option-cases (v3_process_message m c)) [
  | inl x ↦ let absurd : none ≡ some (c', out) = rw x at e in cc
  | inr ((code, c1, out1), x) ↦ elim (Option-cases (process_all ms c1)) [
    | inl y ↦ let absurd : none ≡ some (c', out) = rw (x, y) at e in cc
    | inr ((c2, out2), y) ↦
        let done : some (c2, out1 ++ out2) ≡ some (c', out) = rw (x, y) at e in
        let same : c2 ≡ c' = cc in
        let told : out1 ++ out2 ≡ out = cc in
        let all : AfterMessage v (v3_process_message m c) =
          v3_process_message-AfterMessage m c v a in
        let b : Agrees c1.lists (replay out1 v) = rw x at all in
        rw (sym same, sym told, replay-append out1 out2 v)
          (process_all-Mirrors ms c1 c2 out2 (replay out1 v) b y)
  ]
]
