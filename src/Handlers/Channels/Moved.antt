-- ===== src/Handlers/Channels/Moved.antt =====
-- The case 0x3b of `_v3_process_message` for a channel: where the channel stands afterwards.
use ventmac.Prelude.{
  ℕ, ◌≡◌, ◌≢◌, refl, sym, ap, ◌∙◌, ◌⊎◌, inl, inr, List, [], ◌∷◌, Option, none, some, Option-cases,
  get_elem?, ◌++◌, Bool-cases, ◌+◌, ◌-◌, ltb, ◌==◌, take, drop, if◌then◌else◌, false, true, Bool,
  ◌&&◌,
}
use ventmac.Wire.Structs.{MsgChannel}
use ventmac.Roster.Keyed.{Distinct}
use ventmac.Roster.Lookup.{v3_get_user}
use ventmac.Handlers.{Client, Effect, chan_move, is_nil, seen_channel, may_see_channels}
use ventmac.Handlers.Channels.{
  place, insert_at, unlink, relink, move_channel, Msg0x3b, process_0x3b,
}
use ventmac.Handlers.Channels.Placed.{StandsAt, place-StandsAt, Placed, relinked, relinked-Placed}

is_nil-insert : (xs ys : List MsgChannel) (c : MsgChannel) → is_nil (xs ++ c ∷ ys) ≡ false
is_nil-insert [] ys c = refl
is_nil-insert (x ∷ xs) ys c = refl

is_nil-relink :
    (target n : ℕ) (c : MsgChannel) (cs : List MsgChannel) {cs' : List MsgChannel}
    → relink target n c cs ≡ some cs'
    → is_nil cs' ≡ false
unfolding relink insert_at
is_nil-relink target n c cs {cs'} e = elim (Bool-cases (n + 1 == target)) [
  | inl t ↦ let absurd : none ≡ some cs' = rw t at e in cc
  | inr t ↦
      let k = if ltb n target then target - 1 else target in
      let same : some (insert_at k c (unlink n cs)) ≡ some cs' = rw t at e in
      let same' : insert_at k c (unlink n cs) ≡ cs' = cc in
      rw (sym same') (is_nil-insert (take k (unlink n cs)) (drop k (unlink n cs)) c)
]

and_true : (b : Bool) → b && true ≡ b
and_true true = refl
and_true false = refl

-- The channels after a move, with what was told: nothing when they did not change.
pub record Moved (id channel : ℕ) (c : Client) (o : Option (Client × List Effect)) : Type 0 where
  pub first : MsgChannel
  pub second : MsgChannel
  pub named : (first.id ≡ id) × (second.id ≡ channel)
  pub channels : List MsgChannel
  pub out : List Effect
  pub result : o ≡ some (record c { lists = record c.lists { channels = channels } }, out)
  pub placed : Placed first second c.lists.channels channels
  pub told :
      ((out ≡ []) × (channels ≡ c.lists.channels))
      ⊎ (out ≡ chan_move id (seen_channel (may_see_channels c) channel) ∷ [])

module _ (id channel : ℕ) (c : Client) (d : Distinct MsgChannel.id c.lists.channels)
    (other : id ≢ channel) (n target : ℕ) (at_n : place id c.lists.channels ≡ some n)
    (at_target : place channel c.lists.channels ≡ some target) where
  moved_from : StandsAt id n c.lists.channels
  moved_from = place-StandsAt id c.lists.channels at_n

  moved_to : StandsAt channel target c.lists.channels
  moved_to = place-StandsAt channel c.lists.channels at_target

  places_differ : n ≢ target
  places_differ e =
      let here = moved_from in
      let there = moved_to in
      let same : get_elem? c.lists.channels n ≡ get_elem? c.lists.channels target =
        ap (get_elem? c.lists.channels) e in
      let one : some here.channel ≡ some there.channel = sym here.found ∙ same ∙ there.found in
      let one' : here.channel ≡ there.channel = cc in
      other (sym here.named ∙ ap MsgChannel.id one' ∙ there.named)

  pub move_channel-Moved : Moved id channel c (move_channel id channel c)
  unfolding move_channel
  move_channel-Moved =
      let here = moved_from in
      let there = moved_to in
      let p =
        relinked-Placed c.lists.channels target n here.channel there.channel d there.found
          here.found places_differ in
      elim (Option-cases (relink target n here.channel c.lists.channels)) [
        | inl e ↦ record {
          first = here.channel;
          second = there.channel;
          named = (here.named, there.named);
          channels = c.lists.channels;
          out = [];
          result = rw (move_channel, at_target, at_n, here.found, e);
          placed = rw (relinked, e) at p;
          told = inl (refl, refl);
        }
        | inr (cs, e) ↦ record {
          first = here.channel;
          second = there.channel;
          named = (here.named, there.named);
          channels = cs;
          out = chan_move id (seen_channel (may_see_channels c) channel) ∷ [];
          result = rw (
            move_channel,
            at_target,
            at_n,
            here.found,
            e,
            is_nil-relink target n here.channel c.lists.channels e,
            and_true (may_see_channels c),
          );
          placed = rw (relinked, e) at p;
          told = inr refl;
        }
      ]

listed : (id : ℕ) (cs : List MsgChannel) → place id cs ≢ none → (n : ℕ) × (place id cs ≡ some n)
listed id cs h = elim (Option-cases (place id cs)) [ inl e ↦ elim (h e) [ ] | inr (n, e) ↦ (n, e) ]

-- When channel numbers are distinct and the message, without an error, names two different
-- channels that are listed, and no user with the first number, then the first channel is
-- afterwards directly before the second, the list holds the same channels with distinct numbers,
-- and nothing else of the client changes; the move is told, with the lobby for the second channel
-- when the client may not see channels, or the list is as before.
pub process_0x3b-Moved :
    (m : Msg0x3b) (c : Client)
    → Distinct MsgChannel.id c.lists.channels
    → m.error_id ≡ 0
    → v3_get_user c.lists m.id ≡ none
    → m.id ≢ m.channel_id
    → place m.id c.lists.channels ≢ none
    → place m.channel_id c.lists.channels ≢ none
    → Moved m.id m.channel_id c (process_0x3b m c)
unfolding process_0x3b
process_0x3b-Moved m c d fine no_user other h k =
    let (n, at_n) = listed m.id c.lists.channels h in
    let (target, at_target) = listed m.channel_id c.lists.channels k in
    let moved = move_channel-Moved m.id m.channel_id c d other n target at_n at_target in
    rw (process_0x3b, fine, no_user) moved
