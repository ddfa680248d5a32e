-- ===== src/Handlers/Editors/Owner.antt =====
-- The case 0x4a of `_v3_process_message`, for a change of owner.
use ventmac.Prelude.{
  ℕ, ◌≤◌, ◌≡◌, true, inl, inr, List, [], ◌∷◌, Option, none, some, arith, All, Bool-cases,
  Option-cases, length, take, leb, ◌==◌,
}
use ventmac.Wire.Structs.{MsgAccount}
use ventmac.Roster.{Lists, account_id, copy_array, copy_account}
use ventmac.Roster.Keyed.{find_entry}
use ventmac.Roster.Lookup.{v3_get_account}
use ventmac.Handlers.{Client}
use ventmac.Handlers.Editors.{Msg0x4a, change_owner, find_new_owner, process_0x4a}

-- The arrays of an account are as long as their counts.
abbrev pub HasArrays : MsgAccount → Type 0
HasArrays a = (a.chan_admin_count ≤ length a.chan_admin) × (a.chan_auth_count ≤ length a.chan_auth)

copy_array-some : (n : ℕ) (xs : List ℕ) → n ≤ length xs → copy_array n xs ≡ some (take n xs)
unfolding copy_array
copy_array-some n xs h = let e : leb n (length xs) ≡ true = ground (arith, h) in rw e

find-HasArrays :
    (id : ℕ) (accounts : List MsgAccount) {a : MsgAccount}
    → All HasArrays accounts
    → find_entry account_id id accounts ≡ some a
    → HasArrays a
unfolding find_entry
find-HasArrays id [] {a} h e = let absurd : none ≡ some a = e in cc
find-HasArrays id (b ∷ accounts) {a} h e = elim (Bool-cases (account_id b == id)) [
  | inl t ↦ let here : some b ≡ some a = rw t at e in let same : b ≡ a = cc in rw same at h.0
  | inr t ↦ find-HasArrays id accounts h.1 (rw t at e)
]

v3_get_account-answers :
    (l : Lists) (id : ℕ)
    → All HasArrays l.accounts
    → (o : Option MsgAccount) × (v3_get_account l id ≡ some o)
unfolding v3_get_account copy_account
v3_get_account-answers l id h = elim (Option-cases (find_entry account_id id l.accounts)) [
  | inl e ↦ (none, rw (v3_get_account, e))
  | inr (a, e) ↦ elim (Option-cases (v3_get_account l id)) [
    | inr (o, x) ↦ (o, x)
    | inl x ↦
        let (admin, auth) = find-HasArrays id l.accounts h e in
        let faults : some (some _) ≡ none =
          rw
            (
              v3_get_account,
              e,
              copy_array-some a.chan_admin_count a.chan_admin admin,
              copy_array-some a.chan_auth_count a.chan_auth auth,
            )
            at x in
        cc
  ]
]

-- A message that makes one account the owner of what belongs to another changes nothing, queues no event
-- and does not fault, whatever the two accounts, and whether they are listed or not, when the arrays
-- of the accounts are as long as their counts.
pub process_0x4a-keeps_owners :
    (m : Msg0x4a) (c : Client)
    → m.error_id ≡ 0
    → m.subtype ≡ 6
    → All HasArrays c.lists.accounts
    → process_0x4a m c ≡ some (c, [])
unfolding process_0x4a change_owner find_new_owner
process_0x4a-keeps_owners m c e s h =
    let (o, x) = v3_get_account-answers c.lists m.account_id h in
    let (o', y) = v3_get_account-answers c.lists m.replace_owner_id h in
    elim (Option-cases o) [
      | inl z ↦ rw (process_0x4a, e, s, change_owner, x, z)
      | inr (old, z) ↦ rw (process_0x4a, e, s, change_owner, x, z, find_new_owner, y)
    ]
