-- ===== src/Roster/Tree.antt =====
-- The functions of `libventrilo3.c` that follow the channels to their parents or compare their places:
-- `v3_get_channel_sort`, `v3_channel_requires_password` and `v3_is_channel_admin`; `Paths` has the two for names.
-- The two walks recurse on fuel. The inner result is `none` for a fault.
pub mod Walks
pub mod Order
pub mod Paths
use ventmac.Prelude.{
  ℕ, zero, suc, ◌+◌, Bool, true, false, not, ◌||◌, List, [], ◌∷◌, Option, none, some, ℤ, pos,
  negsuc, get_or, ltb, ◌==◌, if◌then◌else◌,
}
use ventmac.Wire.Structs.{MsgChannel}
use ventmac.Roster.{Lists}
use ventmac.Roster.Lookup.{v3_get_channel}

-- The counter runs over the list; `none` is the position -1.
pub sort_loop : ℕ → List MsgChannel → ℕ → Option ℕ → Option ℕ
sort_loop id [] ctr found = found
sort_loop id (c ∷ cs) ctr found = sort_loop id cs (ctr + 1) (if c.id == id then some ctr else found)

unfoldable pub side : Option ℕ → Option ℕ → ℤ
side none r = pos 0
side (some l) none = pos 0
side (some l) (some r) = if l == r then pos 0 else (if ltb l r then negsuc 0 else pos 1)

unfoldable pub v3_get_channel_sort : Lists → ℕ → ℕ → ℤ
v3_get_channel_sort l id_left id_right =
    side (sort_loop id_left l.channels 0 none) (sort_loop id_right l.channels 0 none)

-- `protect_mode` is the sixteenth of the fields of two bytes from `unknown_2` on.
abbrev pub protect_mode : MsgChannel → ℕ
protect_mode c = get_or c.settings 15 0

-- `false` is 0. The outer `none` is the end of the fuel.
unfoldable pub v3_channel_requires_password : ℕ → Lists → ℕ → Option (Option ℕ)
v3_channel_requires_password zero l id = none
v3_channel_requires_password (suc fuel) l id =
    if id == 0 then some (some 0) else elim (v3_get_channel l id) [
      | none ↦ some none
      | some c ↦
          let up = v3_channel_requires_password fuel l c.parent in
          if protect_mode c == 1 then some (some id) else up
    ]

-- `channel_admin` is `v3_luser.channel_admin`, 65535 elements.
unfoldable pub v3_is_channel_admin : ℕ → (ℕ → ℕ) → Lists → ℕ → Option (Option Bool)
v3_is_channel_admin zero channel_admin l id = none
v3_is_channel_admin (suc fuel) channel_admin l id =
    if not (ltb id 65535)
    then some none
    else if not (channel_admin id == 0)
    then some (some true)
    else if id == 0
    then some (some false)
    else elim (v3_get_channel l id) [
      | none ↦ some (some false)
      | some c ↦ v3_is_channel_admin fuel channel_admin l c.parent
    ]
