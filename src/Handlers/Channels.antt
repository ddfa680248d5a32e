-- ===== src/Handlers/Channels.antt =====
-- The cases 0x3b, 0x49 and 0x60 of `_v3_process_message`: channels, and moves of users and channels.
pub mod Moves
pub mod Placed
pub mod Moved
use ventmac.Prelude.{
  ℕ, zero, suc, ◌+◌, ◌-◌, Bool, true, false, not, List, [], ◌∷◌, ◌++◌, Option, none, some,
  get_elem?, take, drop, ltb, ◌==◌, if◌then◌else◌, ◌>>=◌,
}
use ventmac.Wire.Structs.{MsgChannel}
use ventmac.Roster.{Lists, v3_update_channel, v3_remove_channel}
use ventmac.Roster.Lookup.{v3_get_user}
use ventmac.Handlers.{
  Client, Effect, error_msg, chan_add, chan_modify, chan_remove, chan_badpass, chan_move, Phrase,
  wrong_channel_password, Act, skip, post, ◌&>◌, each, on_lists,
}
use ventmac.Handlers.Users.{move_user}

-- The place of the first channel with the number.
unfoldable pub place : ℕ → List MsgChannel → Option ℕ
place id [] = none
place id (c ∷ cs) =
    let rest = place id cs in
    if c.id == id then some 0 else elim rest [ none ↦ none | some n ↦ some (suc n) ]

unfoldable pub unlink : ℕ → List MsgChannel → List MsgChannel
unlink n cs = take n cs ++ drop (suc n) cs

unfoldable pub insert_at : ℕ → MsgChannel → List MsgChannel → List MsgChannel
insert_at n c cs = take n cs ++ c ∷ drop n cs

-- The channel at the place `n` is linked behind the channel `dest`, which is the one before the place
-- `target`, or to the head when there is none; `none` when it is `dest` itself.
unfoldable pub relink : (target n : ℕ) → MsgChannel → List MsgChannel → Option (List MsgChannel)
relink target n c cs =
    if n + 1 == target
    then none
    else some (insert_at (if ltb n target then target - 1 else target) c (unlink n cs))

unfoldable pub move_channel : (id channel : ℕ) → Act
unfolding place unlink insert_at relink
move_channel id channel c = elim (place channel c.lists.channels) [
  | none ↦ skip c
  | some target ↦ elim (place id c.lists.channels) [
    | none ↦ skip c
    | some n ↦ elim (get_elem? c.lists.channels n) [
      | none ↦ none
      | some moved ↦ elim (relink target n moved c.lists.channels) [
        | none ↦ skip c
        | some cs ↦ (on_lists (λ l. record l { channels = cs }) &> post (chan_move id channel)) c
      ]
    ]
  ]
]

pub record Msg0x3b : Type 0 where
  pub id : ℕ
  pub channel_id : ℕ
  pub error_id : ℕ

-- A move of the user with the number or, when there is none, of the channel.
unfoldable pub process_0x3b : Msg0x3b → Act
process_0x3b m c = if not (m.error_id == 0) then skip c else elim (v3_get_user c.lists m.id) [
  | none ↦ move_channel m.id m.channel_id c
  | some u ↦ move_user m.id m.channel_id c
]

pub record Msg0x49 : Type 0 where
  pub subtype : ℕ
  pub channel : MsgChannel

-- The event of a wrong password also carries its text.
unfoldable pub process_0x49 : Msg0x49 → Act
process_0x49 m =
    if m.subtype == 2
    then on_lists (λ l. (v3_remove_channel l m.channel.id).1) &> post (chan_remove m.channel.id)
    else if m.subtype == 5
    then on_lists (λ l. v3_update_channel l m.channel) &> post (chan_modify m.channel.id)
    else if m.subtype == 1
    then on_lists (λ l. v3_update_channel l m.channel) &> post (chan_add m.channel.id)
    else if m.subtype == 7
    then post (chan_badpass m.channel.id)
    else skip

unfoldable pub add_channel : MsgChannel → Act
add_channel m = on_lists (λ l. v3_update_channel l m) &> post (chan_add m.id)

-- The channels of the message.
unfoldable pub process_0x60 : List MsgChannel → Act
unfolding add_channel each
process_0x60 channel_list = each add_channel channel_list
