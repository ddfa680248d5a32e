-- ===== src/Handlers/Mirror/Members.antt =====
-- The cases of `_v3_process_message` that add, change and remove many entries agree with their events.
use ventmac.Prelude.{
  ℕ, ◌≡◌, refl, Bool, true, false, not, ◌&&◌, inl, inr, List, [], ◌∷◌, none, some, Bool-cases,
  Option-cases, take, get_elem?, ◌==◌,
}
use ventmac.Wire.Structs.{MsgChannel, MsgRank, MsgAccount}
use ventmac.Roster.{strdup, User, user_id, account_id, v3_remove_user, v3_update_account}
use ventmac.Roster.Keyed.{find_entry}
use ventmac.Roster.Lookup.{v3_get_account}
use ventmac.Handlers.{
  Effect, table_entry, rank_editor, user_editor, error_msg, send, put_0x4a_open, userlist_remove,
  rank_remove, rank_add, rank_modify, chan_add, user_rank_change, queued, seen_channel, user_login,
  user_logout, user_modify, userlist_add, userlist_modify, perms_updated, skip, post, ◌&>◌, each,
  on_lists,
}
use ventmac.Handlers.Userlist.{
  Msg0x5d, remove_phantoms, remove_listed, add_listed, change_rank, find_myself, process_0x5d,
}
use ventmac.Handlers.Channels.{add_channel, process_0x60}
use ventmac.Handlers.Editors.{
  Msg0x36, remove_rank, update_rank, process_0x36, Msg0x4a, update_account, update_accounts,
  change_owner, find_new_owner, process_0x4a,
}
use ventmac.Handlers.Mirror.{View, see, replay, set_at, Mirrors}
use ventmac.Handlers.Mirror.Steps.{
  skip-Mirrors, post-Mirrors, seq-Mirrors, each-Mirrors, on_lists-Mirrors, try_lists-Mirrors,
}
use ventmac.Handlers.Mirror.Updates.{
  update_channel-Agrees, update_rank-Agrees, remove_rank-Agrees, remove_account-Agrees,
  remove_user-Agrees, update_account-AfterLists,
}
use ventmac.Handlers.Mirror.Cases.{if-Mirrors, update_user-Mirrors, on_user-Mirrors}

remove_phantoms-Mirrors : (real : ℕ) (us : List User) → Mirrors (remove_phantoms real us)
unfolding remove_phantoms
remove_phantoms-Mirrors real [] c v a = skip-Mirrors c v a
remove_phantoms-Mirrors real (u ∷ us) c v a = elim (Bool-cases (u.real_user_id == real)) [
  | inl e ↦ rw e tt
  | inr e ↦ rw e (remove_phantoms-Mirrors real us c v a)
]

remove_listed-Mirrors : (m : User) → Mirrors (remove_listed m)
unfolding remove_listed
remove_listed-Mirrors m c v a = elim (Option-cases (find_entry user_id (user_id m) c.lists.users)) [
  | inl x ↦ rw x tt
  | inr (u, x) ↦ rw x (
      seq-Mirrors
        (on_lists (λ l. (v3_remove_user l (user_id m)).1)
          &> post (user_logout (user_id m) m.sent.channel (take 32 u.sent.name)))
        (λ c'. remove_phantoms (user_id m) c'.lists.users c')
        (on_lists-Mirrors _ (user_logout (user_id m) m.sent.channel (take 32 u.sent.name))
          λ b l v a. remove_user-Agrees l v a (user_id m))
        (λ c' v a. remove_phantoms-Mirrors (user_id m) c'.lists.users c' v a) c v a)
]

find_myself-Mirrors : (users : List User) → Mirrors (find_myself users)
unfolding find_myself replay
find_myself-Mirrors users c v a = elim (Option-cases c.luser.id) [
  | inr (id, x) ↦ rw (find_myself, x) a
  | inl x ↦ elim (Bool-cases c.luser.is_freed) [
    | inl z ↦ rw (find_myself, x, z) tt
    | inr z ↦ elim (Option-cases (get_elem? users 1)) [
      | inl y ↦ rw (find_myself, x, z, y) tt
      | inr (me, y) ↦ rw (find_myself, x, z, y) a
    ]
  ]
]

-- The event tells the user and its channel.
add_listed-Mirrors :
    (e : User → Effect)
    → ((u : User) (b : Bool) (v : View)
        → see (queued b (e u)) v
          ≡ record v { user = set_at (user_id u) (some (seen_channel b u.sent.channel)) v.user })
    → (users : List User) → Mirrors (each (λ u. add_listed (e u) u) users)
unfolding add_listed
add_listed-Mirrors e told users =
    each-Mirrors (λ u. add_listed (e u) u) (λ u. update_user-Mirrors u (e u) (told u)) users

change_rank-Mirrors : (m : User) → Mirrors (change_rank m)
unfolding change_rank
change_rank-Mirrors m =
    on_user-Mirrors (user_id m) _ (user_rank_change (user_id m)) (λ o. refl) (λ o. refl)
      (λ b v. refl)

pub process_0x5d-Mirrors : (m : Msg0x5d) → Mirrors (process_0x5d m)
unfolding process_0x5d
process_0x5d-Mirrors m =
    let login = λ (flags : ℕ) (u : User). user_login (user_id u) u.sent.channel flags in
    let modify = λ (u : User). user_modify (user_id u) u.sent.channel in
    let logins = add_listed-Mirrors (login 1) (λ u b v. refl) m.user_list in
    if-Mirrors (m.subtype == 0) (each remove_listed m.user_list) _
      (each-Mirrors remove_listed remove_listed-Mirrors m.user_list)
      (if-Mirrors (m.subtype == 1) (each (λ u. add_listed (login 0 u) u) m.user_list) _
        (add_listed-Mirrors (login 0) (λ u b v. refl) m.user_list)
        (if-Mirrors (m.subtype == 2) (each (λ u. add_listed (modify u) u) m.user_list) _
          (add_listed-Mirrors modify (λ u b v. refl) m.user_list)
          (if-Mirrors (m.subtype == 4)
            (find_myself m.user_list &> each (λ u. add_listed (login 1 u) u) m.user_list) _
            (seq-Mirrors (find_myself m.user_list) _ (find_myself-Mirrors m.user_list) logins)
            (if-Mirrors (m.subtype == 6) (each change_rank m.user_list) skip
              (each-Mirrors change_rank change_rank-Mirrors m.user_list) skip-Mirrors))))

add_channel-Mirrors : (m : MsgChannel) → Mirrors (add_channel m)
unfolding add_channel
add_channel-Mirrors m =
    on_lists-Mirrors _ (chan_add m.id) λ b l v a. update_channel-Agrees l v a m b

pub process_0x60-Mirrors : (channels : List MsgChannel) → Mirrors (process_0x60 channels)
unfolding process_0x60
process_0x60-Mirrors channels = each-Mirrors add_channel add_channel-Mirrors channels

remove_rank-Mirrors : (r : MsgRank) → Mirrors (remove_rank r)
unfolding remove_rank
remove_rank-Mirrors r =
    on_lists-Mirrors _ (rank_remove r.id) λ b l v a. remove_rank-Agrees l v a r.id

update_rank-Mirrors : (is_new : Bool) (r : MsgRank) → Mirrors (update_rank is_new r)
unfolding update_rank
update_rank-Mirrors true r =
    on_lists-Mirrors _
      (rank_add r.id r.level (take 31 (strdup r.name)) (take 127 (strdup r.description)))
      λ b l v a. update_rank-Agrees l v a r
update_rank-Mirrors false r =
    on_lists-Mirrors _
      (rank_modify r.id r.level (take 31 (strdup r.name)) (take 127 (strdup r.description)))
      λ b l v a. update_rank-Agrees l v a r

pub process_0x36-Mirrors : (m : Msg0x36) → Mirrors (process_0x36 m)
unfolding process_0x36
process_0x36-Mirrors m =
    if-Mirrors (not (m.error_id == 0)) _ _
      (if-Mirrors (m.error_id == 5) _ _ skip-Mirrors
        (post-Mirrors (error_msg false (rank_editor (table_entry 7 m.error_id) ∷ [])) λ b v. refl))
      (if-Mirrors (m.subtype == 4) _ _ (each-Mirrors remove_rank remove_rank-Mirrors m.rank_list) (
        if-Mirrors (m.subtype == 5) _ _
          (each-Mirrors (update_rank false) (update_rank-Mirrors false) m.rank_list)
          (if-Mirrors (m.subtype == 3) _ _
            (each-Mirrors (update_rank true) (update_rank-Mirrors true) m.rank_list)
            (if-Mirrors (m.subtype == 0) _ skip
              (each-Mirrors (update_rank false) (update_rank-Mirrors false) m.rank_list)
              skip-Mirrors))))

update_account-Mirrors :
    (e : Effect) (m : MsgAccount)
    → ((b : Bool) (v : View)
        → see (queued b e) v ≡ record v { account = set_at (account_id m) true v.account })
    → Mirrors (update_account e m)
unfolding update_account
update_account-Mirrors e m told =
    try_lists-Mirrors (λ l. v3_update_account l m) e
      λ b l v a. rw (told b v) (update_account-AfterLists l v a m)

-- The event names the account.
update_accounts-Mirrors :
    (e : ℕ → Effect)
    → ((id : ℕ) (b : Bool) (v : View)
        → see (queued b (e id)) v ≡ record v { account = set_at id true v.account })
    → (accounts : List MsgAccount) → Mirrors (update_accounts e accounts)
unfolding update_accounts
update_accounts-Mirrors e told accounts =
    each-Mirrors (λ m. update_account (e (account_id m)) m)
      (λ m. update_account-Mirrors (e (account_id m)) m (told (account_id m))) accounts

change_owner-Mirrors : (m : Msg0x4a) → Mirrors (change_owner m)
unfolding change_owner
change_owner-Mirrors m c v a = elim (Option-cases (v3_get_account c.lists m.account_id)) [
  | inl x ↦ rw x tt
  | inr (none, x) ↦ rw x (skip-Mirrors c v a)
  | inr (some old, x) ↦ elim (Option-cases (v3_get_account c.lists m.replace_owner_id)) [
    | inl y ↦ rw (x, find_new_owner, y) tt
    | inr (b, y) ↦ rw (x, find_new_owner, y) (skip-Mirrors c v a)
  ]
]

perms-Mirrors :
    (m : Msg0x4a)
    → Mirrors
        (λ c. some (record c { luser = record c.luser { perms = m.perms } }, perms_updated ∷ []))
unfolding replay
perms-Mirrors m c v a = a

pub process_0x4a-Mirrors : (m : Msg0x4a) → Mirrors (process_0x4a m)
unfolding process_0x4a
process_0x4a-Mirrors m =
    if-Mirrors (not (m.error_id == 0)) _ _
      (if-Mirrors (m.error_id == 10) _ _ skip-Mirrors
        (post-Mirrors (error_msg false (user_editor (table_entry 14 m.error_id) ∷ [])) λ b v. refl))
      (if-Mirrors (m.subtype == 0 && (m.count == 0 && not (m.end_id == 0))) _ _
        (post-Mirrors (send (put_0x4a_open m.end_id)) λ b v. refl)
        (if-Mirrors (m.subtype == 0) _ _
          (update_accounts-Mirrors userlist_add (λ id b v. refl) m.acct_list)
          (if-Mirrors (m.subtype == 3) _ _
            (update_accounts-Mirrors userlist_modify (λ id b v. refl) m.acct_list)
            (if-Mirrors (m.subtype == 1) _ _
              (update_accounts-Mirrors userlist_add (λ id b v. refl) m.acct_list)
              (if-Mirrors (m.subtype == 2) _ _
                (on_lists-Mirrors _ (userlist_remove m.account_id)
                  λ b l v a. remove_account-Agrees l v a m.account_id)
                (if-Mirrors (m.subtype == 5) _ _ (perms-Mirrors m)
                  (if-Mirrors (m.subtype == 6) _ _ (change_owner-Mirrors m) skip-Mirrors)))))))
