-- ===== src/Requests/Calls.antt =====
-- The public functions together, as calls that a client makes one after the other.
use ventmac.Prelude.{ℕ, List, [], ◌∷◌, ◌++◌, Option, some, ◌>>=◌}
use ventmac.Wire.Structs.{MsgChannel, MsgRank, MsgAccount}
use ventmac.Handlers.Properties.{ServerProp}
use ventmac.Requests.{Call}
use ventmac.Requests.Write.{
  v3_logout, v3_join_chat, v3_leave_chat, v3_send_chat_message, v3_start_privchat, v3_end_privchat,
  v3_send_privchat_message, v3_send_privchat_away, v3_send_privchat_back, v3_send_tts_message,
  v3_send_play_wave_message, v3_send_user_page, v3_phantom_remove, v3_phantom_add,
  v3_force_channel_move, v3_change_channel, v3_set_text, v3_channel_update, v3_channel_remove,
  v3_ranklist_open, v3_ranklist_close, v3_rank_update, v3_rank_remove,
}
use ventmac.Requests.Admin.{
  v3_admin_login, v3_admin_logout, v3_admin_boot, v3_admin_global_mute, v3_admin_channel_mute,
  v3_userlist_open, v3_userlist_close, v3_userlist_remove, v3_userlist_update,
  v3_userlist_change_owner, v3_serverprop_open, v3_serverprop_close, v3_serverprop_update,
  v3_admin_ban_list, v3_admin_ban_add, v3_admin_ban_remove,
}

-- A call, by the function, with its arguments: those that write an event into the pipe, without those of
-- sound.
pub data Function : Type 0 where
  logout : Function
  join_chat : Function
  leave_chat : Function
  send_chat_message : (message : Option (List ℕ)) → Function
  start_privchat : (userid : ℕ) → Function
  end_privchat : (userid : ℕ) → Function
  send_privchat_message : (userid : ℕ) (message : Option (List ℕ)) → Function
  send_privchat_away : (userid : ℕ) → Function
  send_privchat_back : (userid : ℕ) → Function
  send_tts_message : (message : Option (List ℕ)) → Function
  send_play_wave_message : (message : Option (List ℕ)) → Function
  send_user_page : (user_id : ℕ) → Function
  phantom_remove : (channel_id : ℕ) → Function
  phantom_add : (channel_id : ℕ) → Function
  force_channel_move : (id : ℕ) (channel_id : ℕ) → Function
  change_channel : (channel_id : ℕ) (password : Option (List ℕ)) → Function
  set_text :
      (comment : Option (List ℕ)) (url : Option (List ℕ)) (integration_text : Option (List ℕ))
      (silent : ℕ)
      → Function
  channel_update : (channel : Option MsgChannel) (password : Option (List ℕ)) → Function
  channel_remove : (channel_id : ℕ) → Function
  ranklist_open : Function
  ranklist_close : Function
  rank_update : (rank : Option MsgRank) → Function
  rank_remove : (rankid : ℕ) → Function
  admin_login : (password : Option (List ℕ)) → Function
  admin_logout : Function
  admin_boot : (type : ℕ) (user_id : ℕ) (reason : Option (List ℕ)) → Function
  admin_global_mute : (user_id : ℕ) → Function
  admin_channel_mute : (user_id : ℕ) → Function
  userlist_open : Function
  userlist_close : Function
  userlist_remove : (account_id : ℕ) → Function
  userlist_update : (account : Option MsgAccount) → Function
  userlist_change_owner : (old_owner_id : ℕ) (new_owner_id : ℕ) → Function
  serverprop_open : Function
  serverprop_close : Function
  serverprop_update : (prop : Option ServerProp) → Function
  admin_ban_list : Function
  admin_ban_add :
      (bitmask_id : ℕ) (ip_address : ℕ) (user : Option (List ℕ)) (reason : Option (List ℕ))
      → Function
  admin_ban_remove : (bitmask_id : ℕ) (ip_address : ℕ) → Function

unfoldable pub perform : Function → Call
perform logout = v3_logout
perform join_chat = v3_join_chat
perform leave_chat = v3_leave_chat
perform (send_chat_message message) = v3_send_chat_message message
perform (start_privchat userid) = v3_start_privchat userid
perform (end_privchat userid) = v3_end_privchat userid
perform (send_privchat_message userid message) = v3_send_privchat_message userid message
perform (send_privchat_away userid) = v3_send_privchat_away userid
perform (send_privchat_back userid) = v3_send_privchat_back userid
perform (send_tts_message message) = v3_send_tts_message message
perform (send_play_wave_message message) = v3_send_play_wave_message message
perform (send_user_page user_id) = v3_send_user_page user_id
perform (phantom_remove channel_id) = v3_phantom_remove channel_id
perform (phantom_add channel_id) = v3_phantom_add channel_id
perform (force_channel_move id channel_id) = v3_force_channel_move id channel_id
perform (change_channel channel_id password) = v3_change_channel channel_id password
perform (set_text comment url integration_text silent) =
    v3_set_text comment url integration_text silent
perform (channel_update channel password) = v3_channel_update channel password
perform (channel_remove channel_id) = v3_channel_remove channel_id
perform ranklist_open = v3_ranklist_open
perform ranklist_close = v3_ranklist_close
perform (rank_update rank) = v3_rank_update rank
perform (rank_remove rankid) = v3_rank_remove rankid
perform (admin_login password) = v3_admin_login password
perform admin_logout = v3_admin_logout
perform (admin_boot type user_id reason) = v3_admin_boot type user_id reason
perform (admin_global_mute user_id) = v3_admin_global_mute user_id
perform (admin_channel_mute user_id) = v3_admin_channel_mute user_id
perform userlist_open = v3_userlist_open
perform userlist_close = v3_userlist_close
perform (userlist_remove account_id) = v3_userlist_remove account_id
perform (userlist_update account) = v3_userlist_update account
perform (userlist_change_owner old_owner_id new_owner_id) =
    v3_userlist_change_owner old_owner_id new_owner_id
perform serverprop_open = v3_serverprop_open
perform serverprop_close = v3_serverprop_close
perform (serverprop_update prop) = v3_serverprop_update prop
perform admin_ban_list = v3_admin_ban_list
perform (admin_ban_add bitmask_id ip_address user reason) =
    v3_admin_ban_add bitmask_id ip_address user reason
perform (admin_ban_remove bitmask_id ip_address) = v3_admin_ban_remove bitmask_id ip_address

-- Several calls: the client after them and what is in the pipe.
unfoldable pub perform_all : List Function → Call
unfolding perform
perform_all [] c = some (c, [])
perform_all (f ∷ fs) c = do
  (c1, events) ← perform f c
  (c2, more) ← perform_all fs c1
  some (c2, events ++ more)
