-- ===== src/Requests/Admin.antt =====
-- The public functions of administrators and of the editors: rights, mutes, accounts, the properties of
-- the server and bans.
use ventmac.Prelude.{
  ℕ, ◌&&◌, ◌||◌, List, [], ◌∷◌, Option, none, some, length, take, leb, ltb, ◌==◌, if◌then◌else◌,
  ◌>>=◌,
}
use ventmac.Wire.Structs.{MsgAccount}
use ventmac.Roster.{account_id, v3_destroy_accountlist}
use ventmac.Handlers.Properties.{ServerProp}
use ventmac.Requests.{
  untyped, admin_login, admin_logout, admin_kick, admin_ban, admin_channel_ban, admin_global_mute,
  admin_channel_mute, userlist_open, userlist_close, userlist_remove, userlist_add, userlist_modify,
  userlist_change_owner, srv_prop_open, srv_prop_close, srv_prop_update, admin_ban_list,
  admin_ban_add, admin_ban_remove, Call, nothing, write, logged_in, field, optional_field,
}

-- A password that is NULL or empty is not sent.
unfoldable pub v3_admin_login : Option (List ℕ) → Call
v3_admin_login none = nothing
v3_admin_login (some []) = nothing
v3_admin_login (some (c ∷ s)) = logged_in (write (admin_login (field 32 (c ∷ s))))

unfoldable pub v3_admin_logout : Call
v3_admin_logout = logged_in (write admin_logout)

-- `V3_BOOT_KICK`, `V3_BOOT_BAN` and `V3_BOOT_CHANNEL_BAN` are 0, 1 and 2; another type leaves that of
-- the event 0.
unfoldable pub v3_admin_boot : (type user_id : ℕ) → Option (List ℕ) → Call
v3_admin_boot type user_id reason = logged_in (
    if type == 0
    then write (admin_kick user_id (optional_field 128 reason))
    else if type == 1
    then write (admin_ban user_id (optional_field 128 reason))
    else if type == 2
    then write (admin_channel_ban user_id (optional_field 128 reason))
    else write untyped)

unfoldable pub v3_admin_global_mute : ℕ → Call
v3_admin_global_mute user_id = logged_in (write (admin_global_mute user_id))

unfoldable pub v3_admin_channel_mute : ℕ → Call
v3_admin_channel_mute user_id = logged_in (write (admin_channel_mute user_id))

unfoldable pub v3_userlist_open : Call
v3_userlist_open = logged_in (write userlist_open)

-- The accounts are forgotten at once.
unfoldable pub v3_userlist_close : Call
v3_userlist_close =
    logged_in λ c. write userlist_close (record c { lists = v3_destroy_accountlist c.lists })

unfoldable pub v3_userlist_remove : ℕ → Call
v3_userlist_remove account = logged_in (write (userlist_remove account))

-- `memcpy` of `count` elements into an array of 32 in the event.
unfoldable pub event_array : ℕ → List ℕ → Option (List ℕ)
event_array count array =
    if leb count 32 && leb count (length array) then some (take count array) else none

-- The account in the event, with its texts cut to their fields.
unfoldable pub event_account : MsgAccount → Option MsgAccount
unfolding event_array
event_account a = do
  admin ← event_array a.chan_admin_count a.chan_admin
  auth ← event_array a.chan_auth_count a.chan_auth
  some (record a {
    username = field 32 a.username;
    owner = field 32 a.owner;
    notes = field 256 a.notes;
    lock_reason = field 128 a.lock_reason;
    chan_admin = admin;
    chan_auth = auth;
  })

unfoldable pub v3_userlist_update : Option MsgAccount → Call
unfolding event_account
v3_userlist_update none = nothing
v3_userlist_update (some account) = logged_in λ c. do
  copy ← event_account account
  (if account_id account == 0 then write (userlist_add copy) c else write (userlist_modify copy) c)

unfoldable pub v3_userlist_change_owner : (old_owner_id new_owner_id : ℕ) → Call
v3_userlist_change_owner old_owner_id new_owner_id =
    logged_in (write (userlist_change_owner old_owner_id new_owner_id))

unfoldable pub v3_serverprop_open : Call
v3_serverprop_open = logged_in (write srv_prop_open)

unfoldable pub v3_serverprop_close : Call
v3_serverprop_close = logged_in (write srv_prop_close)

unfoldable pub v3_serverprop_update : Option ServerProp → Call
v3_serverprop_update none = nothing
v3_serverprop_update (some prop) = logged_in (write (srv_prop_update prop))

unfoldable pub v3_admin_ban_list : Call
v3_admin_ban_list = logged_in (write admin_ban_list)

-- Masks under 8 and the address 0 are not sent.
unfoldable pub v3_admin_ban_add : (bitmask_id ip_address : ℕ) (user reason : Option (List ℕ)) → Call
v3_admin_ban_add bitmask_id ip_address user reason =
    if ltb bitmask_id 8 || (ip_address == 0)
    then nothing
    else logged_in (
        write (
          admin_ban_add bitmask_id ip_address (optional_field 32 user) (optional_field 128 reason)))

unfoldable pub v3_admin_ban_remove : (bitmask_id ip_address : ℕ) → Call
v3_admin_ban_remove bitmask_id ip_address =
    logged_in (write (admin_ban_remove bitmask_id ip_address))
