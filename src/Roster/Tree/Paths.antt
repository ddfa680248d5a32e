-- ===== src/Roster/Tree/Paths.antt =====
-- `v3_get_channel_path` and `v3_get_channel_id` of `libventrilo3.c`: a channel by the names from the root.
pub mod Chain
pub mod RoundTrip
use ventmac.Prelude.{
  ℕ, zero, suc, Bool, true, false, ◌&&◌, List, [], ◌∷◌, ◌++◌, Option, none, some, length, take, ltb,
  ◌==◌, if◌then◌else◌,
}
use ventmac.Wire.Structs.{MsgChannel}
use ventmac.Roster.{Lists, strdup}
use ventmac.Roster.Keyed.{find_entry}

-- The walk to the root, with the path so far; the outer `none` is the end of the fuel, the inner one
-- NULL. A parent that is not listed ends the path.
unfoldable pub path_loop : ℕ → Lists → ℕ → Option (List ℕ) → Option (Option (List ℕ))
path_loop zero l id path = none
path_loop (suc fuel) l id path = elim (find_entry MsgChannel.id id l.channels) [
  | none ↦ some path
  | some c ↦
      let name = strdup c.name in
      let longer : List ℕ = elim path [ none ↦ name | some p ↦ name ++ b'/' ∷ p ] in
      let rest = path_loop fuel l c.parent (some longer) in
      if c.parent == 0 then some (some longer) else rest
]

unfoldable pub v3_get_channel_path : ℕ → Lists → ℕ → Option (Option (List ℕ))
unfolding path_loop
v3_get_channel_path fuel l channel_id = path_loop fuel l channel_id none

abbrev pub add_name : (word : List ℕ) → Option (List (List ℕ)) → Option (List (List ℕ))
add_name [] names = none
add_name (w ∷ word) none = none
add_name (w ∷ word) (some names) = some ((w ∷ word) ∷ names)

-- The names between the separators; `none` when one is empty. `word` is the name so far.
unfoldable pub split_path : (word : List ℕ) → List ℕ → Option (List (List ℕ))
split_path word [] = add_name word (some [])
split_path word (c ∷ s) =
    let later = split_path [] s in
    let further = split_path (word ++ c ∷ []) s in
    if c == b'/' then add_name word later else further

-- `strncmp` of two strings that end with the list.
unfoldable pub same_text : List ℕ → List ℕ → Bool
same_text [] [] = true
same_text [] (d ∷ t) = false
same_text (c ∷ s) [] = false
same_text (c ∷ s) (d ∷ t) = c == d && same_text s t

-- The first channel with the name below the parent.
unfoldable pub find_child : ℕ → List ℕ → List MsgChannel → Option ℕ
unfolding same_text
find_child parent name [] = none
find_child parent name (c ∷ cs) =
    let rest = find_child parent name cs in
    if c.parent == parent && same_text (take 32 (strdup c.name)) name then some c.id else rest

-- A name that is missing, or longer than the space for it, gives 0.
unfoldable pub id_loop : Lists → ℕ → List (List ℕ) → ℕ
unfolding find_child
id_loop l channel_id [] = channel_id
id_loop l channel_id (name ∷ names) =
    if ltb 32 (length name)
    then 0
    else elim (find_child channel_id name l.channels) [ none ↦ 0 | some id ↦ id_loop l id names ]

unfoldable pub v3_get_channel_id : Lists → List ℕ → ℕ
unfolding split_path id_loop
v3_get_channel_id l path = elim (split_path [] (strdup path)) [
  | none ↦ 0
  | some names ↦ id_loop l 0 names
]
