-- ===== src/Handlers/Editors.antt =====
-- The cases 0x36 and 0x4a of `_v3_process_message`: ranks and accounts.
pub mod Owner
use ventmac.Prelude.{
  ℕ, Bool, true, false, not, ◌&&◌, List, [], ◌∷◌, ◌++◌, Option, none, some, take, ◌==◌,
  if◌then◌else◌, ◌>>=◌,
}
use ventmac.Wire.Structs.{MsgRank, MsgAccount}
use ventmac.Roster.{
  Lists, account_id, strdup, v3_update_rank, v3_remove_rank, v3_update_account, v3_remove_account,
}
use ventmac.Roster.Lookup.{v3_get_account}
use ventmac.Roster.Tree.Paths.{same_text}
use ventmac.Handlers.{
  Client, Effect, error_msg, perms_updated, rank_add, rank_modify, rank_remove, userlist_add,
  userlist_modify, userlist_remove, send, put_0x4a_open, Phrase, rank_editor, user_editor, Act,
  skip, post, ◌&>◌, each, try_lists, on_lists, table_entry,
}

-- `rank_list` has `rank_count` entries.
pub record Msg0x36 : Type 0 where
  pub subtype : ℕ
  pub error_id : ℕ
  pub rank_list : List MsgRank

unfoldable pub remove_rank : MsgRank → Act
remove_rank r = on_lists (λ l. (v3_remove_rank l r.id).1) &> post (rank_remove r.id)

-- The texts of an event are cut to the space that it has.
unfoldable pub update_rank : (is_new : Bool) → MsgRank → Act
update_rank is_new r =
    let name = take 31 (strdup r.name) in
    let description = take 127 (strdup r.description) in
    on_lists (λ l. v3_update_rank l r)
    &> post (
        if is_new
        then rank_add r.id r.level name description
        else rank_modify r.id r.level name description)

-- The table of errors has seven entries; its fifth is NULL.
unfoldable pub process_0x36 : Msg0x36 → Act
unfolding remove_rank update_rank each
process_0x36 m =
    if not (m.error_id == 0)
    then (if m.error_id == 5
        then skip
        else post (error_msg false (rank_editor (table_entry 7 m.error_id) ∷ [])))
    else if m.subtype == 4
    then each remove_rank m.rank_list
    else if m.subtype == 5
    then each (update_rank false) m.rank_list
    else if m.subtype == 3
    then each (update_rank true) m.rank_list
    else if m.subtype == 0
    then each (update_rank false) m.rank_list
    else skip

-- The accounts are in `acct_list`, for the subtypes that have them, the permissions in `perms`.
pub record Msg0x4a : Type 0 where
  pub subtype : ℕ
  pub error_id : ℕ
  pub count : ℕ
  pub end_id : ℕ
  pub acct_list : List MsgAccount
  pub perms : List ℕ
  pub account_id : ℕ
  pub replace_owner_id : ℕ

unfoldable pub update_account : Effect → MsgAccount → Act
update_account e a = try_lists (λ l. v3_update_account l a) &> post e

-- The accounts of an owner pass to another, and each is told.
unfoldable pub pass_on :
    (old_owner new_owner : List ℕ) → List MsgAccount → List MsgAccount × List Effect
unfolding same_text
pass_on old_owner new_owner [] = ([], [])
pass_on old_owner new_owner (a ∷ accounts) =
    let (rest, out) = pass_on old_owner new_owner accounts in
    if same_text (strdup a.owner) old_owner
    then (record a { owner = new_owner } ∷ rest, userlist_modify (account_id a) ∷ out)
    else (a ∷ rest, out)

-- `V3_USERLIST_CHANGE_OWNER` from the second look-up on. The test after it reads the variable `new_owner`
-- instead of what was found. A fault of a look-up is a fault of the handler.
unfoldable pub find_new_owner : (old_owner : List ℕ) (new_owner : Option (List ℕ)) → Msg0x4a → Act
unfolding pass_on
find_new_owner old_owner new_owner m c = do
  a ← v3_get_account c.lists m.replace_owner_id
  elim new_owner [
    | none ↦ skip c
    | some stale ↦ elim a [
      | none ↦ none
      | some found ↦
          let (accounts, out) = pass_on old_owner (strdup found.username) c.lists.accounts in
          some (record c { lists = record c.lists { accounts = accounts } }, out)
    ]
  ]

-- The variable `new_owner` is NULL from the start.
unfoldable pub change_owner : Msg0x4a → Act
unfolding find_new_owner
change_owner m c = do
  a ← v3_get_account c.lists m.account_id
  elim a [ none ↦ skip c | some old ↦ find_new_owner (strdup old.username) none m c ]

unfoldable pub update_accounts : (ℕ → Effect) → List MsgAccount → Act
unfolding update_account each
update_accounts e accounts = each (λ a. update_account (e (account_id a)) a) accounts

-- The table of errors has fourteen entries; its tenth is NULL.
unfoldable pub process_0x4a : Msg0x4a → Act
unfolding change_owner update_accounts
process_0x4a m =
    if not (m.error_id == 0)
    then (if m.error_id == 10
        then skip
        else post (error_msg false (user_editor (table_entry 14 m.error_id) ∷ [])))
    else if m.subtype == 0 && (m.count == 0 && not (m.end_id == 0))
    then post (send (put_0x4a_open m.end_id))
    else if m.subtype == 0
    then update_accounts userlist_add m.acct_list
    else if m.subtype == 3
    then update_accounts userlist_modify m.acct_list
    else if m.subtype == 1
    then update_accounts userlist_add m.acct_list
    else if m.subtype == 2
    then on_lists (λ l. (v3_remove_account l m.account_id).1) &> post (userlist_remove m.account_id)
    else if m.subtype == 5
    then (λ c. some (record c { luser = record c.luser { perms = m.perms } }, perms_updated ∷ []))
    else if m.subtype == 6
    then change_owner m
    else skip
