-- ===== src/Requests/Served.antt =====
-- What the client asks for is sent: from the public functions through the pipe to the bytes for the
-- server.
use ventmac.Prelude.{
  ℕ, ◌^◌, ◌<◌, ◌≡◌, ◌⊎◌, refl, inl, inr, true, Bool-cases, Option-cases, List, [], ◌∷◌, Option,
  none, some, arith, All, All-map, All-replicate, length, u16, ◌==◌, if◌then◌else◌,
}
use ventmac.Wire.Scalars.{IsWord}
use ventmac.Wire.Structs.{MsgChannel}
use ventmac.Wire.Structs.RoundTrip.{FitsChannel}
use ventmac.Roster.{User}
use ventmac.Roster.Lookup.{v3_get_user}
use ventmac.Handlers.{Client, Effect, v3_get_user_id}
use ventmac.Handlers.Connection.{v3_logout}
use ventmac.Messages.Fixed.{v3_put_0x61}
use ventmac.Messages.Outgoing.{Outgoing, put_0x36, put_0x49, put_0x4a, put_0x61}
use ventmac.Messages.RoundTrip.{IsHashable}
use ventmac.Messages.RoundTrip.Fixed.{put_0x61-sent}
use ventmac.Requests
use ventmac.Requests.{ClientEvent}
use ventmac.Requests.Bounds.{Written}
use ventmac.Requests.Built
use ventmac.Requests.Calls.{Function, perform}
use ventmac.Requests.Proper.{Known, IsProper, KnowsAccounts, perform-Written}
use ventmac.Requests.Built.{IsBuilt, Fits-IsBuilt}
use ventmac.Requests.Serve.{Session, Served, serve, bare_channel, mute, own_entry}

-- An answer without a fault, all of whose messages are built.
abbrev pub IsServed : Served → Type 0
IsServed o = (r : Session × List Effect × List Outgoing) × (o ≡ some r) × All IsBuilt r.2

sends : (s : Session) (p : Outgoing) → IsBuilt p → IsServed (some (s, [], p ∷ []))
sends s p b = ((s, [], p ∷ []), refl, (b, tt))

ignored : (s : Session) → IsServed (some (s, [], []))
ignored s = ((s, [], []), refl, tt)

pub user_id-IsWord : (c : Client) → IsWord (v3_get_user_id c)
user_id-IsWord c = elim (Option-cases c.luser.id) [
  | inl e ↦ rw e (omega arith)
  | inr (id, e) ↦ rw e (omega arith)
]

bare_channel-Fits : (id : ℕ) → IsWord id → FitsChannel (bare_channel id)
bare_channel-Fits id h = record {
  numbers = (h, omega arith, omega arith, omega arith);
  number_of_settings = refl;
  words_of_settings = All-replicate IsWord 21 0 (omega arith);
  name = omega arith;
  phonetic = omega arith;
  comment = omega arith;
}

mute-IsServed :
    (user setting : ℕ) (flag : User → ℕ) (s : Session) → IsServed (mute user setting flag s)
mute-IsServed user setting flag s = elim (Option-cases (v3_get_user s.client.lists user)) [
  | inl e ↦ rw (mute, e) (ignored s)
  | inr (u, e) ↦ rw (mute, e) (sends s _ (Built.put_0x46-IsBuilt user setting _))
]

put_0x61-IsBuilt : (s : Session) (t m i : ℕ) (a b : Option (List ℕ)) → IsBuilt (put_0x61 t m i a b)
put_0x61-IsBuilt s t m i a b = ((v3_put_0x61 t m i a b).bytes, put_0x61-sent t m i a b)

-- `decimal` is "%u", which gives at most ten digits.
module _ (rand : ℕ) (decimal : ℕ → List ℕ) (short : (n : ℕ) → n < 2 ^ 32 → length (decimal n) < 11)
    (s : Session) where
  placed :
      (c : MsgChannel) (password : List ℕ)
      → Written (Requests.chan_add c password)
      → IsBuilt (put_0x49 (if c.id == 0 then 1 else 5) (v3_get_user_id s.client) (some password) c)
  placed c password w = elim (Bool-cases (c.id == 0)) [
    | inl e ↦ rw e (
        Fits-IsBuilt _
          (user_id-IsWord s.client, inl (inl refl), w.0, omega (arith, w.1, w.2, w.3), w.4))
    | inr e ↦ rw e (
        Fits-IsBuilt _
          (user_id-IsWord s.client, inl (inr refl), w.0, omega (arith, w.1, w.2, w.3), w.4))
  ]

  numbered :
      (t id : ℕ) (password : Option (List ℕ))
      → (t ≡ 2) ⊎ (t ≡ 3)
      → IsWord id
      → IsHashable password
      → IsBuilt (put_0x49 t (v3_get_user_id s.client) password (bare_channel id))
  numbered t id password k h p =
      Fits-IsBuilt (put_0x49 t (v3_get_user_id s.client) password (bare_channel id)) (
        user_id-IsWord s.client,
        inr (k, (refl, refl, refl)),
        bare_channel-Fits id h,
        omega arith,
        p,
      )

  serve-IsServed : (ev : ClientEvent) → Written ev → Known ev s → IsServed (serve rand decimal ev s)
  unfolding serve v3_logout
  serve-IsServed Requests.disconnect w k = rw k ((_, _, []), refl, tt)
  serve-IsServed Requests.untyped w k = ignored s
  serve-IsServed Requests.chat_join w k =
      sends s _ (Built.put_0x42_none-IsBuilt 0 (v3_get_user_id s.client))
  serve-IsServed Requests.chat_leave w k =
      sends s _ (Built.put_0x42_none-IsBuilt 1 (v3_get_user_id s.client))
  serve-IsServed (Requests.chat_message t) w k =
      sends s _ (Built.put_0x42-IsBuilt 2 (v3_get_user_id s.client) t w)
  serve-IsServed (Requests.text_to_speech_message t) w k = sends s _ (Built.put_0x3a-IsBuilt t w)
  serve-IsServed (Requests.play_wave_file_message t) w k = sends s _ (Built.put_0x3f-IsBuilt t w)
  serve-IsServed (Requests.private_chat_start u) w k =
      sends s _ (Built.put_0x5a_none-IsBuilt 0 u (v3_get_user_id s.client))
  serve-IsServed (Requests.private_chat_end u) w k =
      sends s _ (Built.put_0x5a_none-IsBuilt 1 u (v3_get_user_id s.client))
  serve-IsServed (Requests.private_chat_message u t) w k =
      sends s _ (Built.put_0x5a-IsBuilt 2 u (v3_get_user_id s.client) t w)
  serve-IsServed (Requests.private_chat_away u) w k = ignored s
  serve-IsServed (Requests.private_chat_back u) w k = ignored s
  serve-IsServed (Requests.user_page u) w k =
      sends s _ (Built.put_0x62-IsBuilt (v3_get_user_id s.client) u)
  serve-IsServed (Requests.phantom_add c) w k =
      sends s _ (Built.put_0x58-IsBuilt (v3_get_user_id s.client) 0 c 0)
  serve-IsServed (Requests.phantom_remove u) w k =
      sends s _ (Built.put_0x58-IsBuilt (v3_get_user_id s.client) 1 0 u)
  serve-IsServed (Requests.force_chan_move u c) w k = sends s _ (Built.put_0x3b-IsBuilt u c)
  serve-IsServed (Requests.change_channel c p) w k =
      sends s _ (numbered 3 c (some p) (inr refl) w.1 w.0)
  serve-IsServed (Requests.chan_remove c) w k = sends s _ (numbered 2 c none (inl refl) w tt)
  serve-IsServed (Requests.chan_add c p) w k = sends s _ (placed c p w)
  serve-IsServed (Requests.chan_modify c p) w k = sends s _ (placed c p w)
  serve-IsServed (Requests.user_modify b c u i) w k =
      elim (Option-cases (v3_get_user s.client.lists (v3_get_user_id s.client))) [
        | inl e ↦ rw (serve, e) (ignored s)
        | inr (v, e) ↦
            rw (serve, e)
              (sends s _ (Built.put_0x5d-IsBuilt (own_entry b c u i v) refl refl w.0 w.2 w.1))
      ]
  serve-IsServed Requests.ranklist_open w k = sends s _ (Built.ranklist-IsBuilt 1 (inl refl))
  serve-IsServed Requests.ranklist_close w k = sends s _ (Built.ranklist-IsBuilt 2 (inr refl))
  serve-IsServed (Requests.rank_add r) w k =
      sends s _ (Fits-IsBuilt (put_0x36 3 (some r)) (inl refl, w.0, omega (arith, w.1, w.2)))
  serve-IsServed (Requests.rank_modify r) w k =
      sends s _ (Fits-IsBuilt (put_0x36 5 (some r)) (inr refl, w.0, omega (arith, w.1, w.2)))
  serve-IsServed (Requests.rank_remove i l) w k = sends s _ (Built.rank_remove-IsBuilt i l)
  serve-IsServed (Requests.admin_login p) w k = sends s _ (Built.admin_login-IsBuilt p w)
  serve-IsServed Requests.admin_logout w k = sends s _ Built.admin_logout-IsBuilt
  serve-IsServed (Requests.admin_kick u r) w k =
      sends s _ (Built.admin_boot-IsBuilt 1 u r (inl refl))
  serve-IsServed (Requests.admin_ban u r) w k =
      sends s _ (Built.admin_boot-IsBuilt 3 u r (inr (inl refl)))
  serve-IsServed (Requests.admin_channel_ban u r) w k =
      sends s _ (Built.admin_boot-IsBuilt 5 u r (inr (inr refl)))
  serve-IsServed (Requests.admin_global_mute u) w k = mute-IsServed u 4 User.global_mute s
  serve-IsServed (Requests.admin_channel_mute u) w k = mute-IsServed u 5 User.channel_mute s
  serve-IsServed Requests.userlist_open w k = sends s _ (Built.userlist-IsBuilt 0 (inl refl))
  serve-IsServed Requests.userlist_close w k = sends s _ (Built.userlist-IsBuilt 4 (inr refl))
  serve-IsServed (Requests.userlist_remove i) w k =
      rw (serve, k.1) (sends s (put_0x4a 2 (some k.0) none) (Built.userlist_remove-IsBuilt k.0))
  serve-IsServed (Requests.userlist_add a) w k =
      sends s _ (Fits-IsBuilt (put_0x4a 1 (some a) none) (inl refl, w.0, w.1))
  serve-IsServed (Requests.userlist_modify a) w k =
      sends s _ (Fits-IsBuilt (put_0x4a 3 (some a) none) (inr refl, w.0, w.1))
  serve-IsServed (Requests.userlist_change_owner i j) w k =
      rw (serve, k.0.1, k.1.1)
        (sends s (put_0x4a 6 (some k.0.0) (some k.1.0)) (Built.change_owner-IsBuilt k.0.0 k.1.0))
  serve-IsServed Requests.srv_prop_open w k = sends _ _ (Built.put_0x4c_none-IsBuilt 0 0 (u16 rand))
  serve-IsServed Requests.srv_prop_close w k = sends _ _ (Built.put_0x4c_none-IsBuilt 4 0 0)
  serve-IsServed (Requests.srv_prop_update p) w k = sends _ _ (
      Built.put_0x4c-IsBuilt 1 2 (u16 rand) (decimal p.chat_filter)
        (omega (arith, short p.chat_filter (omega arith))))
  serve-IsServed Requests.admin_ban_list w k = sends s _ (put_0x61-IsBuilt s 0 0 0 none none)
  serve-IsServed (Requests.admin_ban_add m i u r) w k =
      sends s _ (put_0x61-IsBuilt s 2 m i (some u) (some r))
  serve-IsServed (Requests.admin_ban_remove m i) w k =
      sends s _ (put_0x61-IsBuilt s 1 m i none none)

-- A client that is logged in gets an answer without a fault from each of the functions that ask
-- something of the server (the 39 of `Function`, without those of sound), and each event that one
-- writes is answered, in any session in which it is taken from the pipe: without a fault, and with
-- messages that are built and sent within the memory that is allocated for them. The texts that
-- are not tested for NULL are not NULL, passwords are made of bytes, structures have the numbers
-- and the room that their fields allow, the accounts that the call is about are known in the
-- session, a logout is the first one, and "%u" gives at most ten digits.
pub perform-IsServed :
    (c : Client) (f : Function) (s : Session) (rand : ℕ) (decimal : ℕ → List ℕ)
    → c.loggedin ≡ true
    → IsProper f
    → KnowsAccounts f s
    → ((n : ℕ) → n < 2 ^ 32 → length (decimal n) < 11)
    → (r : Client × List ClientEvent) × (perform f c ≡ some r)
      × All (λ ev. IsServed (serve rand decimal ev s)) r.1
perform-IsServed c f s rand decimal in_session proper known short =
    let r = perform-Written c in_session s f proper known in
    (r.0, r.1, All-map (λ ev h. serve-IsServed rand decimal short s ev h.0 h.1) r.0.1 r.2)
