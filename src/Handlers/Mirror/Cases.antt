-- ===== src/Handlers/Mirror/Cases.antt =====
-- Each case of `_v3_process_message` keeps the lists in agreement with the events.
use ventmac.Prelude.{
  ℕ, [], ◌∷◌, ◌≡◌, refl, sym, ap, ◌∙◌, Bool, true, false, inl, inr, none, some, Bool-cases,
  Option-cases, ◌==◌, if◌then◌else◌,
}
use ventmac.Roster.{Lists, User, user_id, copy_user, v3_update_user}
use ventmac.Roster.Keyed.{find_entry}
use ventmac.Roster.Lookup.{v3_get_user}
use ventmac.Handlers.{
  Effect, table_entry, phantom, error_msg, user_global_mute_changed, user_channel_mute_changed,
  chan_badpass, user_logout, chan_remove, chan_modify, chan_add, queued, seen_channel, user_login,
  user_chan_move, Act, post, ◌&>◌, try_lists,
}
use ventmac.Handlers.Users.{
  on_user, move_user, Msg0x46, setting_0x46, process_0x46, Msg0x58, new_phantom_user, add_phantom,
  process_0x58,
}
use ventmac.Handlers.Channels.{Msg0x49, process_0x49}
use ventmac.Handlers.Mirror.{View, see, replay, set_at, Mirrors}
use ventmac.Handlers.Mirror.Steps.{skip-Mirrors, post-Mirrors, on_lists-Mirrors, try_lists-Mirrors}
use ventmac.Handlers.Mirror.Updates.{
  find_entry-key, update_channel-Agrees, remove_channel-Agrees, remove_user-Agrees,
  update_user-AfterLists, modify_user-Agrees,
}

-- A branch on a test.
pub if-Mirrors : (b : Bool) (f g : Act) → Mirrors f → Mirrors g → Mirrors (if b then f else g)
if-Mirrors true f g hf hg = hf
if-Mirrors false f g hf hg = hg

v3_get_user-id : (l : Lists) (id : ℕ) {u : User} → v3_get_user l id ≡ some u → user_id u ≡ id
unfolding v3_get_user
v3_get_user-id l id {u} e = elim (Option-cases (find_entry user_id id l.users)) [
  | inl x ↦ let absurd : none ≡ some u = rw x at e in cc
  | inr (old, x) ↦
      let copied : some (copy_user old) ≡ some u = rw x at e in
      let same : copy_user old ≡ u = cc in
      sym (ap user_id same) ∙ find_entry-key user_id id l.users x
]

pub update_user-Mirrors :
    (u : User) (e : Effect)
    → ((b : Bool) (v : View)
        → see (queued b e) v
          ≡ record v { user = set_at (user_id u) (some (seen_channel b u.sent.channel)) v.user })
    → Mirrors (try_lists (λ l. v3_update_user l u) &> post e)
update_user-Mirrors u e told =
    try_lists-Mirrors _ e λ b l v a. rw (told b v) (update_user-AfterLists l v a u b)

pub move_user-Mirrors : (id channel : ℕ) → Mirrors (move_user id channel)
unfolding move_user
move_user-Mirrors id channel c v a = elim (Option-cases (v3_get_user c.lists id)) [
  | inl x ↦ rw (move_user, x) (skip-Mirrors c v a)
  | inr (u, x) ↦
      let k = v3_get_user-id c.lists id x in
      let moved = record u { sent = record u.sent { channel = channel } } in
      rw (move_user, x) (update_user-Mirrors moved (user_chan_move id channel) (λ b w. rw k) c v a)
]

pub on_user-Mirrors :
    (id : ℕ) (f : User → User) (e : Effect)
    → ((u : User) → user_id (f u) ≡ user_id u)
    → ((u : User) → (f u).sent.channel ≡ u.sent.channel)
    → ((b : Bool) (v : View) → see (queued b e) v ≡ v)
    → Mirrors (on_user id f &> post e)
on_user-Mirrors id f e keeps same quiet =
    on_lists-Mirrors _ e λ b l v a. rw (quiet b v) (modify_user-Agrees l v a id f keeps same)

on_user_only :
    (id : ℕ) (f : User → User)
    → ((u : User) → user_id (f u) ≡ user_id u)
    → ((u : User) → (f u).sent.channel ≡ u.sent.channel)
    → Mirrors (on_user id f)
unfolding replay
on_user_only id f keeps same c v a = modify_user-Agrees c.lists v a id f keeps same

setting_0x46-Mirrors : (m : Msg0x46) → Mirrors (setting_0x46 m)
unfolding setting_0x46
setting_0x46-Mirrors m =
    if-Mirrors (m.setting == 0x00) _ _ (on_user_only m.user_id _ (λ u. refl) (λ u. refl)) (
      if-Mirrors (m.setting == 0x01) _ _ (on_user_only m.user_id _ (λ u. refl) (λ u. refl)) (
        if-Mirrors (m.setting == 0x02) _ _ (on_user_only m.user_id _ (λ u. refl) (λ u. refl)) (
          if-Mirrors (m.setting == 0x03) _ _ (on_user_only m.user_id _ (λ u. refl) (λ u. refl)) (
            if-Mirrors (m.setting == 0x04) _ _
              (on_user-Mirrors m.user_id _ (user_global_mute_changed m.user_id) (λ u. refl)
                (λ u. refl) (λ b v. refl))
              (if-Mirrors (m.setting == 0x05) _ _
                (on_user-Mirrors m.user_id _ (user_channel_mute_changed m.user_id) (λ u. refl)
                  (λ u. refl) (λ b v. refl))
                skip-Mirrors)))))

pub process_0x46-Mirrors : (m : Msg0x46) → Mirrors (process_0x46 m)
unfolding process_0x46
process_0x46-Mirrors m c v a = elim (Option-cases (find_entry user_id m.user_id c.lists.users)) [
  | inl x ↦ rw (process_0x46, x) (skip-Mirrors c v a)
  | inr (u, x) ↦ rw (process_0x46, x) (setting_0x46-Mirrors m c v a)
]

add_phantom-Mirrors : (m : Msg0x58) → Mirrors (add_phantom m)
unfolding add_phantom
add_phantom-Mirrors m c v a =
    elim (Option-cases (find_entry user_id m.real_user_id c.lists.users)) [
      | inl x ↦ rw x tt
      | inr (real, x) ↦ rw x (
          update_user-Mirrors (new_phantom_user m real.sent.name)
            (user_login m.phantom_user_id m.channel_id 0) (λ b w. refl) c v a)
    ]

pub process_0x58-Mirrors : (m : Msg0x58) → Mirrors (process_0x58 m).1
unfolding process_0x58
process_0x58-Mirrors m = elim (Bool-cases (m.error_id == 0)) [
  | inr e ↦
      rw e (post-Mirrors (error_msg false (phantom (table_entry 11 m.error_id) ∷ [])) λ b v. refl)
  | inl e ↦ elim (Bool-cases (m.subtype == 0)) [
    | inl k ↦ rw (e, k) (add_phantom-Mirrors m)
    | inr k ↦ elim (Bool-cases (m.subtype == 1)) [
      | inl j ↦
          rw (e, k, j)
            (on_lists-Mirrors _ (user_logout m.phantom_user_id m.channel_id [])
              λ b l v a. remove_user-Agrees l v a m.phantom_user_id)
      | inr j ↦ rw (e, k, j) skip-Mirrors
    ]
  ]
]

pub process_0x49-Mirrors : (m : Msg0x49) → Mirrors (process_0x49 m)
unfolding process_0x49
process_0x49-Mirrors m =
    if-Mirrors (m.subtype == 2) _ _
      (on_lists-Mirrors _ (chan_remove m.channel.id)
        λ b l v a. remove_channel-Agrees l v a m.channel.id b)
      (if-Mirrors (m.subtype == 5) _ _
        (on_lists-Mirrors _ (chan_modify m.channel.id)
          λ b l v a. update_channel-Agrees l v a m.channel b)
        (if-Mirrors (m.subtype == 1) _ _
          (on_lists-Mirrors _ (chan_add m.channel.id)
            λ b l v a. update_channel-Agrees l v a m.channel b)
          (if-Mirrors (m.subtype == 7) _ _ (post-Mirrors (chan_badpass m.channel.id) λ b v. refl)
            skip-Mirrors)))
