-- ===== src/Handlers/Mirror/Moves.antt =====
-- A move of a user or of a channel agrees with its event.
use ventmac.Prelude.{
  ℕ, ◌≡◌, ◌∙◌, ap, inl, inr, List, some, Bool-cases, Option-cases, get_elem?, ◌==◌,
}
use ventmac.Wire.Structs.{MsgChannel}
use ventmac.Roster.{Lists}
use ventmac.Roster.History.{is_some}
use ventmac.Roster.Lookup.{v3_get_user}
use ventmac.Handlers.Channels.{place, relink, move_channel, Msg0x3b, process_0x3b}
use ventmac.Handlers.Channels.Placed.{relink-kept}
use ventmac.Handlers.Mirror.{View, replay, Agrees, Mirrors}
use ventmac.Handlers.Mirror.Steps.{skip-Mirrors}
use ventmac.Handlers.Mirror.Cases.{move_user-Mirrors}

relinked-Agrees :
    (target n : ℕ) (c : MsgChannel) (l : Lists) (v : View) {cs : List MsgChannel}
    → Agrees l v
    → get_elem? l.channels n ≡ some c
    → relink target n c l.channels ≡ some cs
    → Agrees (record l { channels = cs }) v
relinked-Agrees target n c l v a at_n done =
    let (distinct, same) = relink-kept l.channels n c a.channels.distinct at_n target done in
    record {
      channels = record {
        distinct = distinct;
        same = λ id shown. ap is_some (same id) ∙ a.channels.same id shown;
      };
      users = a.users;
      ranks = a.ranks;
      accounts = a.accounts;
    }

move_channel-Mirrors : (id channel : ℕ) → Mirrors (move_channel id channel)
unfolding move_channel replay
move_channel-Mirrors id channel c v a = elim (Option-cases (place channel c.lists.channels)) [
  | inl x ↦ rw (move_channel, x) a
  | inr (target, x) ↦ elim (Option-cases (place id c.lists.channels)) [
    | inl y ↦ rw (move_channel, x, y) a
    | inr (n, y) ↦ elim (Option-cases (get_elem? c.lists.channels n)) [
      | inl z ↦ rw (move_channel, x, y, z) tt
      | inr (moved, z) ↦ elim (Option-cases (relink target n moved c.lists.channels)) [
        | inl w ↦ rw (move_channel, x, y, z, w) a
        | inr (cs, w) ↦
            rw (move_channel, x, y, z, w) (relinked-Agrees target n moved c.lists v a z w)
      ]
    ]
  ]
]

pub process_0x3b-Mirrors : (m : Msg0x3b) → Mirrors (process_0x3b m)
unfolding process_0x3b
process_0x3b-Mirrors m c v a = elim (Bool-cases (m.error_id == 0)) [
  | inr e ↦ rw (process_0x3b, e) (skip-Mirrors c v a)
  | inl e ↦ elim (Option-cases (v3_get_user c.lists m.id)) [
    | inl x ↦ rw (process_0x3b, e, x) (move_channel-Mirrors m.id m.channel_id c v a)
    | inr (u, x) ↦ rw (process_0x3b, e, x) (move_user-Mirrors m.id m.channel_id c v a)
  ]
]
