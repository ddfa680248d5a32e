-- ===== src/Requests/LoggedOut.antt =====
-- Before the login is complete nothing is asked of the server.
use ventmac.Prelude.{
  ◌≡◌, refl, Bool-cases, inl, inr, false, List, [], ◌∷◌, none, some, ◌==◌, ◌||◌, ltb,
}
use ventmac.Handlers.{Client}
use ventmac.Requests.Write.{
  v3_logout, v3_join_chat, v3_leave_chat, v3_send_chat_message, v3_start_privchat, v3_end_privchat,
  v3_send_privchat_message, v3_send_privchat_away, v3_send_privchat_back, v3_send_tts_message,
  v3_send_play_wave_message, v3_send_user_page, v3_phantom_remove, v3_phantom_add,
  v3_force_channel_move, v3_change_channel, v3_set_text, v3_channel_update, v3_channel_remove,
  v3_ranklist_open, v3_ranklist_close, v3_rank_update, v3_rank_remove,
}
use ventmac.Requests.Admin.{
  v3_admin_login, v3_admin_logout, v3_admin_boot, v3_admin_global_mute, v3_admin_channel_mute,
  v3_userlist_open, v3_userlist_close, v3_userlist_remove, v3_userlist_update,
  v3_userlist_change_owner, v3_serverprop_open, v3_serverprop_close, v3_serverprop_update,
  v3_admin_ban_list, v3_admin_ban_add, v3_admin_ban_remove,
}
use ventmac.Requests.Calls.{
  Function, perform, perform_all, logout, join_chat, leave_chat, send_chat_message, start_privchat,
  end_privchat, send_privchat_message, send_privchat_away, send_privchat_back, send_tts_message,
  send_play_wave_message, send_user_page, phantom_remove, phantom_add, force_channel_move,
  change_channel, set_text, channel_update, channel_remove, ranklist_open, ranklist_close,
  rank_update, rank_remove, admin_login, admin_logout, admin_boot, admin_global_mute,
  admin_channel_mute, userlist_open, userlist_close, userlist_remove, userlist_update,
  userlist_change_owner, serverprop_open, serverprop_close, serverprop_update, admin_ban_list,
  admin_ban_add, admin_ban_remove,
}

module _ (c : Client) (out : c.loggedin ≡ false) where
  perform-logged_out : (f : Function) → perform f c ≡ some (c, [])
  unfolding perform v3_logout v3_join_chat v3_leave_chat v3_send_chat_message v3_start_privchat
      v3_end_privchat v3_send_privchat_message v3_send_privchat_away v3_send_privchat_back
      v3_send_tts_message v3_send_play_wave_message v3_send_user_page v3_phantom_remove
      v3_phantom_add v3_force_channel_move v3_change_channel v3_set_text v3_channel_update
      v3_channel_remove v3_ranklist_open v3_ranklist_close v3_rank_update v3_rank_remove
      v3_admin_login v3_admin_logout v3_admin_boot v3_admin_global_mute v3_admin_channel_mute
      v3_userlist_open v3_userlist_close v3_userlist_remove v3_userlist_update
      v3_userlist_change_owner v3_serverprop_open v3_serverprop_close v3_serverprop_update
      v3_admin_ban_list v3_admin_ban_add v3_admin_ban_remove
  perform-logged_out logout = rw out
  perform-logged_out join_chat = rw out
  perform-logged_out leave_chat = rw out
  perform-logged_out (send_chat_message none) = refl
  perform-logged_out (send_chat_message (some s)) = rw out
  perform-logged_out (start_privchat a) = rw out
  perform-logged_out (end_privchat a) = rw out
  perform-logged_out (send_privchat_message a b) = rw out
  perform-logged_out (send_privchat_away a) = rw out
  perform-logged_out (send_privchat_back a) = rw out
  perform-logged_out (send_tts_message a) = rw out
  perform-logged_out (send_play_wave_message a) = rw out
  perform-logged_out (send_user_page a) = rw out
  perform-logged_out (phantom_remove a) = rw out
  perform-logged_out (phantom_add a) = rw out
  perform-logged_out (force_channel_move a b) = rw out
  perform-logged_out (change_channel a b) = rw out
  perform-logged_out (set_text a b c d) = rw out
  perform-logged_out (channel_update none p) = refl
  perform-logged_out (channel_update (some s) p) = rw out
  perform-logged_out (channel_remove a) = rw out
  perform-logged_out ranklist_open = rw out
  perform-logged_out ranklist_close = rw out
  perform-logged_out (rank_update none) = refl
  perform-logged_out (rank_update (some s)) = rw out
  perform-logged_out (rank_remove a) = rw out
  perform-logged_out (admin_login none) = refl
  perform-logged_out (admin_login (some [])) = refl
  perform-logged_out (admin_login (some (x ∷ s))) = rw out
  perform-logged_out admin_logout = rw out
  perform-logged_out (admin_boot a b c) = rw out
  perform-logged_out (admin_global_mute a) = rw out
  perform-logged_out (admin_channel_mute a) = rw out
  perform-logged_out userlist_open = rw out
  perform-logged_out userlist_close = rw out
  perform-logged_out (userlist_remove a) = rw out
  perform-logged_out (userlist_update none) = refl
  perform-logged_out (userlist_update (some s)) = rw out
  perform-logged_out (userlist_change_owner a b) = rw out
  perform-logged_out serverprop_open = rw out
  perform-logged_out serverprop_close = rw out
  perform-logged_out (serverprop_update none) = refl
  perform-logged_out (serverprop_update (some s)) = rw out
  perform-logged_out admin_ban_list = rw out
  perform-logged_out (admin_ban_add b i u r) = elim (Bool-cases (ltb b 8 || (i == 0))) [
    | inl e ↦ rw e
    | inr e ↦ rw (e, out)
  ]
  perform-logged_out (admin_ban_remove a b) = rw out

-- Whichever of the functions from v3_join_chat to v3_rank_remove that ask something of the server
-- (the 39 of `Function`, without those of sound) a client calls before its login is complete, and
-- in whatever order, with whatever arguments: nothing is written into the pipe, nothing changes,
-- and nothing faults.
pub perform_all-logged_out :
    (fs : List Function) (c : Client) → c.loggedin ≡ false → perform_all fs c ≡ some (c, [])
unfolding perform_all
perform_all-logged_out [] c out = refl
perform_all-logged_out (f ∷ fs) c out =
    rw (perform-logged_out c out f, perform_all-logged_out fs c out)
