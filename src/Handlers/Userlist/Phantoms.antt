-- ===== src/Handlers/Userlist/Phantoms.antt =====
-- The case 0x5d of `_v3_process_message`, for a user that leaves while others may be its phantoms.
use ventmac.Prelude.{
  ℕ, ◌≡◌, refl, Bool, false, not, ◌&&◌, ◌||◌, inl, inr, List, [], ◌∷◌, none, some, arith,
  Bool-cases, take, ◌==◌, if◌then◌else◌,
}
use ventmac.Roster.{User, user_id, v3_remove_user}
use ventmac.Roster.Keyed.{Distinct, find_entry, remove_entry}
use ventmac.Handlers.{Client, seen_channel, sees_channels, user_logout, each}
use ventmac.Handlers.Userlist.{remove_phantoms, remove_listed, process_0x5d}

-- Another user that is a phantom of the user with the number.
unfoldable pub has_phantom : ℕ → List User → Bool
has_phantom id [] = false
has_phantom id (u ∷ us) = (u.real_user_id == id && not (user_id u == id)) || has_phantom id us

claims : ℕ → List User → Bool
claims id [] = false
claims id (u ∷ us) = u.real_user_id == id || claims id us

remove_phantoms-claims :
    (id : ℕ) (us : List User) (c : Client)
    → remove_phantoms id us c ≡ (if claims id us then none else some (c, []))
unfolding remove_phantoms claims
remove_phantoms-claims id [] c = refl
remove_phantoms-claims id (u ∷ us) c = elim (Bool-cases (u.real_user_id == id)) [
  | inl t ↦ rw t
  | inr t ↦ rw (t, remove_phantoms-claims id us c)
]

claims-absent :
    (id : ℕ) (us : List User) → find_entry user_id id us ≡ none → claims id us ≡ has_phantom id us
unfolding claims has_phantom find_entry
claims-absent id [] e = refl
claims-absent id (u ∷ us) e = ground (arith, claims-absent id us)

claims-remove_entry :
    (id : ℕ) (us : List User)
    → Distinct user_id us
    → claims id (remove_entry user_id id us).1 ≡ has_phantom id us
unfolding claims has_phantom remove_entry
claims-remove_entry id [] d = refl
claims-remove_entry id (u ∷ us) d =
    ground (arith, d.0, claims-absent id us, claims-remove_entry id us d.1)

-- When user numbers are distinct and a message removes one user, which is listed, the code faults
-- where another user is its phantom: the walk over the users reads an entry that it has just
-- freed. Otherwise the user is removed, its name is told, cut to 32 bytes, with its channel, or
-- with the lobby when the client sees no channels, and nothing else changes.
pub process_0x5d-removes :
    (m : User) (c : Client) {u : User}
    → Distinct user_id c.lists.users
    → find_entry user_id (user_id m) c.lists.users ≡ some u
    → process_0x5d (record { subtype = 0; user_list = m ∷ [] }) c ≡ (
        if has_phantom (user_id m) c.lists.users
        then none
        else some (
          record c { lists = (v3_remove_user c.lists (user_id m)).1 },
          user_logout
                (user_id m)
                (seen_channel (sees_channels c) m.sent.channel)
                (take 32 u.sent.name)
              ∷ [],
        ))
unfolding process_0x5d remove_listed each v3_remove_user
process_0x5d-removes m c {u} d e =
    let id = user_id m in
    let left = claims-remove_entry id c.lists.users d in
    elim (Bool-cases (has_phantom id c.lists.users)) [
      | inl t ↦ rw (
        process_0x5d,
        e,
        remove_phantoms-claims id (remove_entry user_id id c.lists.users).1,
        left,
        t,
      )
      | inr t ↦ rw (
        process_0x5d,
        e,
        remove_phantoms-claims id (remove_entry user_id id c.lists.users).1,
        left,
        t,
      )
    ]
