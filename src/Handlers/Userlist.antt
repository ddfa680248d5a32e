-- ===== src/Handlers/Userlist.antt =====
-- The case 0x5d of `_v3_process_message`: users log in, change and log out.
pub mod Phantoms
use ventmac.Prelude.{
  ℕ, Bool, true, false, ◌||◌, List, [], ◌∷◌, ◌++◌, Option, none, some, get_elem?, take, ◌==◌,
  if◌then◌else◌, ◌>>=◌,
}
use ventmac.Roster.{User, user_id, Lists, strdup, v3_update_user, v3_remove_user}
use ventmac.Roster.Keyed.{find_entry}
use ventmac.Handlers.{
  Client, Luser, Effect, user_login, user_logout, user_modify, user_rank_change, Act, skip, post,
  ◌&>◌, each, try_lists, on_lists,
}
use ventmac.Handlers.Users.{on_user}

-- `user_list` has `user_count` entries.
pub record Msg0x5d : Type 0 where
  pub subtype : ℕ
  pub user_list : List User

-- The walk over the users for the phantoms of a user that has left. When it finds one, it frees it and
-- then reads the `next` of what it freed: numbers are distinct, so `_v3_remove_user(u->id)` frees `u`.
unfoldable pub remove_phantoms : ℕ → List User → Act
remove_phantoms real [] c = skip c
remove_phantoms real (u ∷ us) c =
    let rest = remove_phantoms real us c in if u.real_user_id == real then none else rest

-- `u->name` faults for a user that is not listed.
unfoldable pub remove_listed : User → Act
unfolding remove_phantoms
remove_listed m c = do
  u ← find_entry user_id (user_id m) c.lists.users
  ((on_lists (λ l. (v3_remove_user l (user_id m)).1)
          &> post (user_logout (user_id m) m.sent.channel (take 32 u.sent.name)))
        &> λ c'. remove_phantoms (user_id m) c'.lists.users c')
      c

unfoldable pub add_listed : Effect → User → Act
add_listed e m = try_lists (λ l. v3_update_user l m) &> post e

unfoldable pub change_rank : User → Act
change_rank m =
    on_user (user_id m) (λ u. record u { sent = record u.sent { rank_id = m.sent.rank_id } })
    &> post (user_rank_change (user_id m))

-- The local user is the second of the first list; `m->user_list[1]` must be there. The old texts are
-- freed, which faults when a logout has freed them.
unfoldable pub find_myself : List User → Act
find_myself users c = elim c.luser.id [
  | some id ↦ skip c
  | none ↦ if c.luser.is_freed then none else (do
    me ← get_elem? users 1
    some (
      record c {
        luser = record c.luser {
          id = some (user_id me);
          name = strdup me.sent.name;
          phonetic = strdup me.sent.phonetic;
          comment = strdup me.sent.comment;
          integration_text = strdup me.sent.integration_text;
          url = strdup me.sent.url;
        };
      },
      [],
    ))
]

-- `V3_LOGIN_FLAGS_EXISTING` is 1.
unfoldable pub process_0x5d : Msg0x5d → Act
unfolding remove_listed add_listed change_rank find_myself each
process_0x5d m =
    if m.subtype == 0
    then each remove_listed m.user_list
    else if m.subtype == 1
    then each (λ u. add_listed (user_login (user_id u) u.sent.channel 0) u) m.user_list
    else if m.subtype == 2
    then each (λ u. add_listed (user_modify (user_id u) u.sent.channel) u) m.user_list
    else if m.subtype == 4
    then find_myself m.user_list
      &> each (λ u. add_listed (user_login (user_id u) u.sent.channel 1) u) m.user_list
    else if m.subtype == 6
    then each change_rank m.user_list
    else skip
