-- ===== src/Requests/Proper.antt =====
-- A client that is logged in gets an answer from every public function: it does not fault, and what it
-- writes fits.
use ventmac.Prelude.{
  false, ◌^◌, ◌<◌, ◌≡◌, refl, true, ◌||◌, Bool-cases, Option-cases, inl, inr, List, [], ◌∷◌, Option,
  none, some, arith, All, IsByte, ltb, ◌==◌,
}
use ventmac.Wire.Structs.{MsgAccount}
use ventmac.Wire.Structs.RoundTrip.{FitsChannel, FitsRank}
use ventmac.Roster.{account_id, v3_destroy_accountlist}
use ventmac.Roster.Lookup.{v3_get_rank, v3_get_account}
use ventmac.Handlers.{Client}
use ventmac.Messages.RoundTrip.{IsHashable}
use ventmac.Requests.{
  ClientEvent, disconnect, untyped, chat_join, chat_leave, chat_message, text_to_speech_message,
  play_wave_file_message, private_chat_start, private_chat_end, private_chat_away,
  private_chat_back, private_chat_message, user_page, phantom_add, phantom_remove, force_chan_move,
  change_channel, chan_remove, chan_add, chan_modify, user_modify, rank_add, rank_modify,
  rank_remove, admin_kick, admin_ban, admin_channel_ban, userlist_add, userlist_modify,
  srv_prop_open, srv_prop_close, srv_prop_update, write, logged_in, field, optional_field,
}
use ventmac.Requests
use ventmac.Requests.Write.{
  own_phantom, cut_channel, cut_rank, v3_logout, v3_join_chat, v3_leave_chat, v3_send_chat_message,
  v3_start_privchat, v3_end_privchat, v3_send_privchat_message, v3_send_privchat_away,
  v3_send_privchat_back, v3_send_tts_message, v3_send_play_wave_message, v3_send_user_page,
  v3_phantom_remove, v3_phantom_add, v3_force_channel_move, v3_change_channel, v3_set_text,
  v3_channel_update, v3_channel_remove, v3_ranklist_open, v3_ranklist_close, v3_rank_update,
  v3_rank_remove,
}
use ventmac.Requests.Admin.{
  v3_admin_login, v3_admin_logout, v3_admin_boot, v3_admin_global_mute, v3_admin_channel_mute,
  v3_userlist_open, v3_userlist_close, v3_userlist_remove, v3_userlist_update,
  v3_userlist_change_owner, v3_serverprop_open, v3_serverprop_close, v3_serverprop_update,
  v3_admin_ban_list, v3_admin_ban_add, v3_admin_ban_remove,
}
use ventmac.Requests.Bounds.{
  Written, HasRoom, cut_account, cut_account-Fits, event_account-cut, field-IsField,
  stripped-IsField, own_text-IsField, optional_field-bytes, cut_channel-Fits, cut_rank-Fits,
}
use ventmac.Requests.Serve.{Session}
use ventmac.Requests.Calls.{Function, perform}
use ventmac.Requests.Calls

-- The accounts that an event is about are known to the client, and a logout is the first.
abbrev pub Known : ClientEvent → Session → Type 0
Known Requests.disconnect s = s.client.luser.is_freed ≡ false
Known (Requests.userlist_remove id) s =
    (a : MsgAccount) × (v3_get_account s.client.lists id ≡ some (some a))
Known (Requests.userlist_change_owner id id2) s =
    ((a : MsgAccount) × (v3_get_account s.client.lists id ≡ some (some a)))
    × ((b : MsgAccount) × (v3_get_account s.client.lists id2 ≡ some (some b)))
Known _ s = Unit

-- Texts that are not tested for NULL are not NULL, passwords are made of bytes, and structures have the
-- numbers and the room that their fields allow.
abbrev pub IsProper : Function → Type 0
IsProper (Calls.send_privchat_message u none) = ⊥
IsProper (Calls.send_tts_message none) = ⊥
IsProper (Calls.send_play_wave_message none) = ⊥
IsProper (Calls.change_channel c password) = IsHashable password × (c < 2 ^ 16)
IsProper (Calls.channel_update (some c) password) = FitsChannel c × IsHashable password
IsProper (Calls.channel_remove c) = c < 2 ^ 16
IsProper (Calls.rank_update (some r)) = FitsRank r
IsProper (Calls.admin_login (some s)) = All IsByte s
IsProper (Calls.userlist_update (some a)) = HasRoom a
IsProper (Calls.serverprop_update (some p)) = IsByte p.chat_filter
IsProper _ = Unit

-- The same for the event of a call, when it is taken from the pipe.
abbrev pub KnowsAccounts : Function → Session → Type 0
KnowsAccounts (Calls.userlist_remove id) s = Known (Requests.userlist_remove id) s
KnowsAccounts (Calls.userlist_change_owner id id2) s =
    Known (Requests.userlist_change_owner id id2) s
KnowsAccounts Calls.logout s = Known Requests.disconnect s
KnowsAccounts _ s = Unit

abbrev pub Performed : Session → Option (Client × List ClientEvent) → Type 0
Performed s o =
    (r : Client × List ClientEvent) × (o ≡ some r) × All (λ ev. Written ev × Known ev s) r.1

silent : (s : Session) (c : Client) → Performed s (some (c, []))
silent s c = ((c, []), refl, tt)

module _ (c : Client) (in_session : c.loggedin ≡ true) (s : Session) where
  wrote : (ev : ClientEvent) → Written ev → Known ev s → Performed s (logged_in (write ev) c)
  wrote ev w k = ((c, ev ∷ []), rw in_session, ((w, k), tt))

  pub perform-Written : (f : Function) → IsProper f → KnowsAccounts f s → Performed s (perform f c)
  unfolding perform v3_logout v3_join_chat v3_leave_chat v3_send_chat_message v3_start_privchat
      v3_end_privchat v3_send_privchat_message v3_send_privchat_away v3_send_privchat_back
      v3_send_tts_message v3_send_play_wave_message v3_send_user_page v3_phantom_remove
      v3_phantom_add v3_force_channel_move v3_change_channel v3_set_text v3_channel_update
      v3_channel_remove v3_ranklist_open v3_ranklist_close v3_rank_update v3_rank_remove
      v3_admin_login v3_admin_logout v3_admin_boot v3_admin_global_mute v3_admin_channel_mute
      v3_userlist_open v3_userlist_close v3_userlist_remove v3_userlist_update
      v3_userlist_change_owner v3_serverprop_open v3_serverprop_close v3_serverprop_update
      v3_admin_ban_list v3_admin_ban_add v3_admin_ban_remove
  perform-Written Calls.logout h k = wrote disconnect tt k
  perform-Written Calls.join_chat h k = wrote chat_join tt tt
  perform-Written Calls.leave_chat h k = wrote chat_leave tt tt
  perform-Written (Calls.send_chat_message none) h k = silent s c
  perform-Written (Calls.send_chat_message (some s)) h k =
      wrote (chat_message _) (stripped-IsField 256 s (omega arith)) tt
  perform-Written (Calls.start_privchat a) h k = wrote (private_chat_start a) tt tt
  perform-Written (Calls.end_privchat a) h k = wrote (private_chat_end a) tt tt
  perform-Written (Calls.send_privchat_message u none) h k = absurd h
  perform-Written (Calls.send_privchat_message u (some s)) h k =
      wrote (private_chat_message u (field 256 s)) (field-IsField 256 s (omega arith)) tt
  perform-Written (Calls.send_privchat_away a) h k = wrote (private_chat_away a) tt tt
  perform-Written (Calls.send_privchat_back a) h k = wrote (private_chat_back a) tt tt
  perform-Written (Calls.send_tts_message none) h k = absurd h
  perform-Written (Calls.send_tts_message (some s)) h k =
      wrote (text_to_speech_message (field 256 s)) (field-IsField 256 s (omega arith)) tt
  perform-Written (Calls.send_play_wave_message none) h k = absurd h
  perform-Written (Calls.send_play_wave_message (some s)) h k =
      wrote (play_wave_file_message (field 256 s)) (field-IsField 256 s (omega arith)) tt
  perform-Written (Calls.send_user_page a) h k = wrote (user_page a) tt tt
  perform-Written (Calls.phantom_remove a) h k =
      elim (Option-cases (own_phantom a c.luser.id c.lists.users)) [
        | inl e ↦ ((c, []), simp (in_session, e), tt)
        | inr (u, e) ↦ ((c, phantom_remove u.sent.id ∷ []), simp (in_session, e), ((tt, tt), tt))
      ]
  perform-Written (Calls.phantom_add a) h k = wrote (Requests.phantom_add a) tt tt
  perform-Written (Calls.force_channel_move a b) h k = wrote (force_chan_move a b) tt tt
  perform-Written (Calls.change_channel a s) h k =
      wrote (change_channel a (optional_field 32 s)) (optional_field-bytes 32 s h.0, h.1) tt
  perform-Written (Calls.set_text a b x s) h k =
      wrote (user_modify _ _ _ _) (own_text-IsField a, own_text-IsField b, own_text-IsField x) tt
  perform-Written (Calls.channel_update none p) h k = silent s c
  perform-Written (Calls.channel_update (some d) p) h k =
      let f = cut_channel-Fits d h.0 in
      let w : Written (chan_add (cut_channel d) (optional_field 32 p)) =
        (f.0, f.1, f.2, f.3, optional_field-bytes 32 p h.1) in
      elim (Bool-cases (d.id == 0)) [
        | inl e ↦ rw e (wrote (chan_add (cut_channel d) (optional_field 32 p)) w tt)
        | inr e ↦ rw e (wrote (chan_modify (cut_channel d) (optional_field 32 p)) w tt)
      ]
  perform-Written (Calls.channel_remove a) h k = wrote (chan_remove a) h tt
  perform-Written Calls.ranklist_open h k = wrote Requests.ranklist_open tt tt
  perform-Written Calls.ranklist_close h k = wrote Requests.ranklist_close tt tt
  perform-Written (Calls.rank_update none) h k = silent s c
  perform-Written (Calls.rank_update (some r)) h k = elim (Bool-cases (r.id == 0)) [
    | inl e ↦ rw e (wrote (rank_add (cut_rank r)) (cut_rank-Fits r h) tt)
    | inr e ↦ rw e (wrote (rank_modify (cut_rank r)) (cut_rank-Fits r h) tt)
  ]
  perform-Written (Calls.rank_remove a) h k = elim (Option-cases (v3_get_rank c.lists a)) [
    | inl e ↦ ((c, []), simp (in_session, e), tt)
    | inr (r, e) ↦ ((c, rank_remove a r.level ∷ []), simp (in_session, e), ((tt, tt), tt))
  ]
  perform-Written (Calls.admin_login none) h k = silent s c
  perform-Written (Calls.admin_login (some [])) h k = silent s c
  perform-Written (Calls.admin_login (some (x ∷ s))) h k =
      wrote (Requests.admin_login (field 32 (x ∷ s))) (optional_field-bytes 32 (some (x ∷ s)) h) tt
  perform-Written Calls.admin_logout h k = wrote Requests.admin_logout tt tt
  perform-Written (Calls.admin_boot a u r) h k = elim (Bool-cases (a == 0)) [
    | inl e ↦ rw e (wrote (admin_kick u (optional_field 128 r)) tt tt)
    | inr e ↦ elim (Bool-cases (a == 1)) [
      | inl e1 ↦ rw (e, e1) (wrote (admin_ban u (optional_field 128 r)) tt tt)
      | inr e1 ↦ elim (Bool-cases (a == 2)) [
        | inl e2 ↦ rw (e, e1, e2) (wrote (admin_channel_ban u (optional_field 128 r)) tt tt)
        | inr e2 ↦ rw (e, e1, e2) (wrote untyped tt tt)
      ]
    ]
  ]
  perform-Written (Calls.admin_global_mute a) h k = wrote (Requests.admin_global_mute a) tt tt
  perform-Written (Calls.admin_channel_mute a) h k = wrote (Requests.admin_channel_mute a) tt tt
  perform-Written Calls.userlist_open h k = wrote Requests.userlist_open tt tt
  perform-Written Calls.userlist_close h k = (
    (record c { lists = v3_destroy_accountlist c.lists }, Requests.userlist_close ∷ []),
    simp in_session,
    ((tt, tt), tt),
  )
  perform-Written (Calls.userlist_remove a) h k = wrote (Requests.userlist_remove a) tt k
  perform-Written (Calls.userlist_update none) h k = silent s c
  perform-Written (Calls.userlist_update (some a)) h k = elim (Bool-cases (account_id a == 0)) [
    | inl e ↦ (
      (c, userlist_add (cut_account a) ∷ []),
      simp (in_session, event_account-cut a h, e),
      ((cut_account-Fits a h, tt), tt),
    )
    | inr e ↦ (
      (c, userlist_modify (cut_account a) ∷ []),
      simp (in_session, event_account-cut a h, e),
      ((cut_account-Fits a h, tt), tt),
    )
  ]
  perform-Written (Calls.userlist_change_owner a b) h k =
      wrote (Requests.userlist_change_owner a b) tt k
  perform-Written Calls.serverprop_open h k = wrote srv_prop_open tt tt
  perform-Written Calls.serverprop_close h k = wrote srv_prop_close tt tt
  perform-Written (Calls.serverprop_update none) h k = silent s c
  perform-Written (Calls.serverprop_update (some p)) h k = wrote (srv_prop_update p) h tt
  perform-Written Calls.admin_ban_list h k = wrote Requests.admin_ban_list tt tt
  perform-Written (Calls.admin_ban_add b i u r) h k = elim (Bool-cases (ltb b 8 || (i == 0))) [
    | inl e ↦ rw e (silent s c)
    | inr e ↦
        rw e (wrote (Requests.admin_ban_add b i (optional_field 32 u) (optional_field 128 r)) tt tt)
  ]
  perform-Written (Calls.admin_ban_remove a b) h k = wrote (Requests.admin_ban_remove a b) tt tt
