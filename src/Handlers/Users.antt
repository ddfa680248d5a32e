-- ===== src/Handlers/Users.antt =====
-- The cases 0x46, 0x53, 0x58 and 0x5d of `_v3_process_message`: users, their settings and phantoms.
use ventmac.Prelude.{
  ℕ, Bool, true, false, List, [], ◌∷◌, none, some, u8, not, ◌==◌, if◌then◌else◌, ◌>>=◌,
}
use ventmac.Roster.{User, user_id, v3_update_user, v3_remove_user}
use ventmac.Roster.Keyed.{find_entry}
use ventmac.Roster.Lookup.{v3_get_user}
use ventmac.Handlers.{
  phantom, error_msg, user_login, user_logout, user_chan_move, user_global_mute_changed,
  user_channel_mute_changed, Act, skip, post, ◌&>◌, try_lists, on_lists, table_entry,
}

-- What is written through the pointer that `_v3_get_user` gives: the first entry with the number.
unfoldable pub modify_user : ℕ → (User → User) → List User → List User
modify_user id f [] = []
modify_user id f (u ∷ us) =
    let rest = modify_user id f us in if user_id u == id then f u ∷ us else u ∷ rest

abbrev pub on_user : ℕ → (User → User) → Act
on_user id f = on_lists λ l. record l { users = modify_user id f l.users }

-- A user moves to a channel.
unfoldable pub move_user : ℕ → ℕ → Act
move_user id channel c = elim (v3_get_user c.lists id) [
  | none ↦ skip c
  | some u ↦
      (try_lists (λ l. v3_update_user l (record u { sent = record u.sent { channel = channel } }))
          &> post (user_chan_move id channel))
        c
]

pub record Msg0x46 : Type 0 where
  pub user_id : ℕ
  pub setting : ℕ
  pub value : ℕ

-- `value` has four bytes, the fields have one.
unfoldable pub setting_0x46 : Msg0x46 → Act
setting_0x46 m =
    if m.setting == 0x00
    then on_user m.user_id (λ u. record u { accept_pages = u8 m.value })
    else if m.setting == 0x01
    then on_user m.user_id (λ u. record u { accept_u2u = u8 m.value })
    else if m.setting == 0x02
    then on_user m.user_id (λ u. record u { allow_recording = u8 m.value })
    else if m.setting == 0x03
    then on_user m.user_id (λ u. record u { accept_chat = u8 m.value })
    else if m.setting == 0x04
    then on_user m.user_id (λ u. record u { global_mute = u8 m.value })
      &> post (user_global_mute_changed m.user_id)
    else if m.setting == 0x05
    then on_user m.user_id (λ u. record u { channel_mute = u8 m.value })
      &> post (user_channel_mute_changed m.user_id)
    else skip

unfoldable pub process_0x46 : Msg0x46 → Act
unfolding setting_0x46
process_0x46 m c = elim (find_entry user_id m.user_id c.lists.users) [
  | none ↦ skip c
  | some u ↦ setting_0x46 m c
]

unfoldable pub process_0x53 : (user channel : ℕ) → Act
unfolding move_user
process_0x53 user channel = move_user user channel

pub record Msg0x58 : Type 0 where
  pub subtype : ℕ
  pub error_id : ℕ
  pub real_user_id : ℕ
  pub phantom_user_id : ℕ
  pub channel_id : ℕ

abbrev pub new_phantom_user : Msg0x58 → List ℕ → User
new_phantom_user m name = record {
  sent = record {
    id = m.phantom_user_id;
    channel = m.channel_id;
    bitfield = 0;
    rank_id = 0;
    name = name;
    phonetic = [];
    comment = [];
    integration_text = [];
    url = [];
  };
  is_transmitting = 0;
  accept_pages = 0;
  accept_u2u = 0;
  accept_chat = 0;
  allow_recording = 0;
  global_mute = 0;
  channel_mute = 0;
  guest = 0;
  real_user_id = m.real_user_id;
}

-- `_v3_get_user(m->real_user_id)->name` faults when there is no such user.
unfoldable pub add_phantom : Msg0x58 → Act
add_phantom m c = do
  real ← find_entry user_id m.real_user_id c.lists.users
  (try_lists (λ l. v3_update_user l (new_phantom_user m real.sent.name))
        &> post (user_login m.phantom_user_id m.channel_id 0))
      c

-- Whether the subtype is known, and what is done. The table of errors has eleven entries.
unfoldable pub process_0x58 : Msg0x58 → Bool × Act
unfolding add_phantom
process_0x58 m =
    if not (m.error_id == 0)
    then (true, post (error_msg false (phantom (table_entry 11 m.error_id) ∷ [])))
    else if m.subtype == 0
    then (true, add_phantom m)
    else if m.subtype == 1
    then (
      true,
      on_lists (λ l. (v3_remove_user l m.phantom_user_id).1)
          &> post (user_logout m.phantom_user_id m.channel_id []),
    )
    else (false, skip)
