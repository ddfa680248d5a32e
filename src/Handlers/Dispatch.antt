-- ===== src/Handlers/Dispatch.antt =====
-- `_v3_process_message`: the switch over the types of messages. The case 0x4c is in
-- `Properties`, the case 0x52 is left out.
use ventmac.Prelude.{ℕ, List, [], ◌∷◌, ◌++◌, Option, some, if◌then◌else◌, ◌>>=◌}
use ventmac.Wire.Structs.{MsgChannel}
use ventmac.Handlers.{Client, Effect, Act}
use ventmac.Handlers.Users.{Msg0x46, process_0x46, process_0x53, Msg0x58, process_0x58}
use ventmac.Handlers.Userlist.{Msg0x5d, process_0x5d}
use ventmac.Handlers.Channels.{Msg0x3b, process_0x3b, Msg0x49, process_0x49, process_0x60}
use ventmac.Handlers.Editors.{Msg0x36, process_0x36, Msg0x4a, process_0x4a}
use ventmac.Handlers.Chat.{
  process_0x3a, process_0x3f, Msg0x42, process_0x42, Msg0x5a, process_0x5a, Msg0x61, process_0x61,
  process_0x62,
}
use ventmac.Handlers.Connection.{
  Code, ok, malformed, notimpl, Msg0x06, process_0x06, process_0x33, process_0x34, Msg0x37,
  process_0x37, process_0x3c, Msg0x50, process_0x50, Msg0x57, process_0x57, Msg0x59, process_0x59,
  process_0x5c,
}

-- A message by its type, with what its parser made of it: `unparsed` when the parser refuses it,
-- `other` for a type that has no case.
pub data Message : Type 0 where
  unparsed other x34 : Message
  x06 : Msg0x06 → Message
  x33 : (channel_ids : List ℕ) → Message
  x36 : Msg0x36 → Message
  x37 : Msg0x37 → Message
  x3a x3f : (user : ℕ) (msg : List ℕ) → Message
  x3b : Msg0x3b → Message
  x3c : (codec codec_format : ℕ) → Message
  x42 : Msg0x42 → Message
  x46 : Msg0x46 → Message
  x49 : Msg0x49 → Message
  x4a : Msg0x4a → Message
  x50 : Msg0x50 → Message
  x53 : (user channel : ℕ) → Message
  x57 : Msg0x57 → Message
  x58 : Msg0x58 → Message
  x59 : Msg0x59 → Message
  x5a : Msg0x5a → Message
  x5c : (subtype : ℕ) → Message
  x5d : Msg0x5d → Message
  x60 : (channel_list : List MsgChannel) → Message
  x61 : Msg0x61 → Message
  x62 : (user_id_to user_id_from : ℕ) → Message

abbrev pub Handler : Type 0
Handler = Client → Option (Code × Client × List Effect)

abbrev pub return : Code → Act → Handler
return code f c = do (c', out) ← f c; some (code, c', out)

unfoldable pub v3_process_message : Message → Handler
v3_process_message unparsed c = some (malformed, c, [])
v3_process_message other c = some (notimpl, c, [])
v3_process_message (x06 m) c = process_0x06 m c
v3_process_message (x33 channel_ids) c = return ok (process_0x33 channel_ids) c
v3_process_message x34 c = return ok process_0x34 c
v3_process_message (x36 m) c = return ok (process_0x36 m) c
v3_process_message (x37 m) c = return ok (process_0x37 m) c
v3_process_message (x3a user msg) c = return ok (process_0x3a user msg) c
v3_process_message (x3b m) c = return ok (process_0x3b m) c
v3_process_message (x3c codec codec_format) c = return ok (process_0x3c codec codec_format) c
v3_process_message (x3f user msg) c = return ok (process_0x3f user msg) c
v3_process_message (x42 m) c = return ok (process_0x42 m) c
v3_process_message (x46 m) c = return ok (process_0x46 m) c
v3_process_message (x49 m) c = return ok (process_0x49 m) c
v3_process_message (x4a m) c = return ok (process_0x4a m) c
v3_process_message (x50 m) c = process_0x50 m c
v3_process_message (x53 user channel) c = return ok (process_0x53 user channel) c
v3_process_message (x57 m) c = return ok (process_0x57 m) c
v3_process_message (x58 m) c =
    let (known, act) = process_0x58 m in return (if known then ok else malformed) act c
v3_process_message (x59 m) c = return ok (process_0x59 m) c
v3_process_message (x5a m) c = return ok (process_0x5a m) c
v3_process_message (x5c subtype) c = return ok (process_0x5c subtype) c
v3_process_message (x5d m) c = return ok (process_0x5d m) c
v3_process_message (x60 channel_list) c = return ok (process_0x60 channel_list) c
v3_process_message (x61 m) c = return ok (process_0x61 m) c
v3_process_message (x62 user_id_to user_id_from) c =
    return ok (process_0x62 user_id_to user_id_from) c

-- Messages one after the other, as clients let the library process them.
unfoldable pub process_all : List Message → Client → Option (Client × List Effect)
process_all [] c = some (c, [])
process_all (m ∷ ms) c = do
  (code, c1, out1) ← v3_process_message m c
  (c2, out2) ← process_all ms c1
  some (c2, out1 ++ out2)
