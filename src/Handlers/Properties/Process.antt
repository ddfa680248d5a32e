-- ===== src/Handlers/Properties/Process.antt =====
-- The case 0x4c of `_v3_process_message`: a setting that comes in, the next that goes out, and a change.
use ventmac.Prelude.{
  ℕ, ◌+◌, List, [], ◌∷◌, Option, none, some, u8, u16, leb, ◌==◌, if◌then◌else◌, ◌>>=◌,
}
use ventmac.Roster.{Lists}
use ventmac.Roster.Tree.Paths.{v3_get_channel_path}
use ventmac.Handlers.Properties.{
  Msg0x4c, Answer, put_0x4c, srv_prop_recv, srv_prop_sent, server_property_updated, Settings,
  reads_value,
}
use ventmac.Handlers.Properties.Fields.{recv_setting, send_setting}

module _ (atoi : List ℕ → ℕ) (decimal : ℕ → List ℕ) where
  -- The next property is asked for, or the last has come.
  unfoldable pub receive : Lists → Msg0x4c → Settings → Option (Settings × List Answer)
  unfolding recv_setting reads_value
  receive l m e = do
    v ← (if reads_value m.property then m.value else some [])
    let (next, prop) = recv_setting atoi l m.property v e.prop
    some (
      record e { prop = prop },
      if leb next 0x1c then put_0x4c 0 next m.transaction_id none ∷ [] else srv_prop_recv prop ∷ [],
    )

  unfoldable pub respond : Lists → (fuel : ℕ) → Msg0x4c → Settings → Option (Settings × List Answer)
  unfolding send_setting
  respond l fuel m e = do
    let counted = u16 (m.property + 1)
    path ←
        (if counted == 0x0d
          then v3_get_channel_path fuel l e.prop.inactivity_channel
          else some none)
    let (next, value) = send_setting decimal path counted e.prop
    some (
      e,
      if leb next 0x1c
          then put_0x4c 1 next m.transaction_id (some value) ∷ []
          else put_0x4c 3 0 m.transaction_id none ∷ srv_prop_sent e.prop ∷ [],
    )

  -- The fuel is for the path of a channel. Messages of another transaction are passed over.
  unfoldable pub process_0x4c :
      Lists → (fuel : ℕ) → Msg0x4c → Settings → Option (Settings × List Answer)
  unfolding receive respond
  process_0x4c l fuel m e =
      let received = receive l m e in
      let responded = respond l fuel m e in
      let updated : Option (Settings × List Answer) = do
        v ← m.value
        let e1 =
            if m.property == 0x02
            then record e { per_channel_chat = u8 (atoi v) }
            else if m.property == 0x03
            then record e { channel_manual_sort = u8 (atoi v) }
            else if m.property == 0x05
            then record e { motd_always = u8 (atoi v) }
            else e
        some (e1, server_property_updated m.property (u8 (atoi v)) ∷ [])
      in if m.subtype == 0
        then (if m.transaction_id == e.tid then received else some (e, []))
        else if m.subtype == 1
        then (if m.transaction_id == e.tid then responded else some (e, []))
        else if m.subtype == 2
        then updated
        else some (e, [])
