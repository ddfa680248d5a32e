-- ===== src/Roster/Examples.antt =====
-- Tests of the lists, and their theorems at concrete inputs.
use ventmac.Prelude.{
  ◌≢◌, ℕ, ◌≡◌, refl, List, [], ◌∷◌, ◌++◌, ◌<◌, ◌⊎◌, Bool-cases, some, none, arith, replicate, ◌==◌,
  if◌then◌else◌, inl, inr,
}
use ventmac.Wire.Structs.{MsgChannel, MsgAccount}
use ventmac.Roster.{User, user_id, Lists, strdup}
use ventmac.Roster.Keyed.{find_entry, Distinct}
use ventmac.Roster.Lookup.{v3_get_channel}
use ventmac.Roster.History.{
  Call, update_channel, update_user, update_account, remove_channel, remove_user, destroy_all, run,
  spec_run,
}
use ventmac.Roster.Answers.{Ends, no_entries, no_maps, run-Ends}
use ventmac.Roster.Tree.Paths.{v3_get_channel_path, v3_get_channel_id}
use ventmac.Roster.Tree.Paths.Chain.{IsName, IsListed, Chain, top, below}
use ventmac.Roster.Tree.Paths.RoundTrip.{join, v3_get_channel_id-v3_get_channel_path}
use ventmac.Roster.Tree.{v3_channel_requires_password, v3_is_channel_admin}
use ventmac.Roster.Tree.Walks.{
  IsTree, Answers, Decides, v3_channel_requires_password-Answers,
  v3_channel_requires_password-cycle, v3_is_channel_admin-Decides,
}

abbrev lobby : MsgChannel
lobby = record {
  id = 3;
  parent = 0;
  unknown_1 = 0;
  password_protected = 1;
  settings = replicate 15 0 ++ 1 ∷ replicate 5 0;
  name = b'a' ∷ [];
  phonetic = [];
  comment = [];
}

abbrev room : MsgChannel
room = record lobby { id = 8; parent = 3; settings = replicate 21 0; name = b'b' ∷ [] }

abbrev guest : User
guest = record {
  sent = record {
    id = 7;
    channel = 3;
    bitfield = 1024;
    rank_id = 0;
    name = b'g' ∷ [];
    phonetic = [];
    comment = [];
    integration_text = [];
    url = [];
  };
  is_transmitting = 0;
  accept_pages = 0;
  accept_u2u = 0;
  accept_chat = 0;
  allow_recording = 0;
  global_mute = 0;
  channel_mute = 0;
  guest = 0;
  real_user_id = 0;
}

abbrev account : MsgAccount
account = record {
  perms = 4 ∷ 1 ∷ replicate 102 0;
  username = [];
  owner = [];
  notes = [];
  lock_reason = [];
  chan_admin_count = 1;
  chan_admin = 3 ∷ [];
  chan_auth_count = 0;
  chan_auth = [];
}

abbrev zero_volumes : ℕ → ℕ
zero_volumes i = 0

abbrev calls : List Call
calls =
    update_channel lobby
    ∷ update_user guest
    ∷ update_user guest
    ∷ update_account account
    ∷ remove_channel 3
    ∷ remove_user 9
    ∷ destroy_all
    ∷ []

run-Ends_example :
    Ends (spec_run no_maps calls).0 (spec_run no_maps calls).1 (run (no_entries zero_volumes) calls)
run-Ends_example =
    run-Ends zero_volumes calls
      (tt, (omega arith, (omega arith, ((omega arith, omega arith), (tt, (tt, (tt, tt)))))))

abbrev two_channels : Lists
two_channels = record (no_entries zero_volumes) { channels = lobby ∷ room ∷ [] }

two_channels-Distinct : Distinct MsgChannel.id two_channels.channels
unfolding find_entry
two_channels-Distinct = (refl, (refl, tt))

room_entry : find_entry MsgChannel.id 8 (room ∷ []) ≡ some room
unfolding find_entry
room_entry = refl

abbrev depth : ℕ → ℕ
depth i = if i == 8 then 2 else if i == 3 then 1 else 0

room_found : v3_get_channel two_channels 8 ≡ some room
unfolding v3_get_channel find_entry strdup
room_found = refl

lobby_found : v3_get_channel two_channels 3 ≡ some lobby
unfolding v3_get_channel find_entry strdup
lobby_found = refl

-- Nothing else is found.
either :
    (i : ℕ) (c : MsgChannel)
    → v3_get_channel two_channels i ≡ some c
    → ((i ≡ 3) × (c ≡ lobby)) ⊎ ((i ≡ 8) × (c ≡ room))
unfolding v3_get_channel find_entry strdup
either i c e = elim (Bool-cases (3 == i)) [
  | inl p ↦ let e' : some lobby ≡ some c = rw p at e in inl (ground arith, cc)
  | inr p ↦ elim (Bool-cases (8 == i)) [
    | inl q ↦ let e' : some room ≡ some c = rw (p, q) at e in inr (ground arith, cc)
    | inr q ↦ let e' : none ≡ some c = rw (p, q) at e in cc
  ]
]

two_channels-IsTree : IsTree two_channels depth
two_channels-IsTree = record {
  rises = λ i c e. elim (either i c e) [
    | inl (p, q) ↦ rw (p, q) (omega arith)
    | inr (p, q) ↦ rw (p, q) (omega arith)
  ];
  listed = λ i c e. elim (either i c e) [
    | inl (p, q) ↦ rw q (inl refl)
    | inr (p, q) ↦ rw q (inr (lobby, lobby_found))
  ];
}

small_parents : (i : ℕ) (c : MsgChannel) → v3_get_channel two_channels i ≡ some c → c.parent < 65535
small_parents i c e = elim (either i c e) [
  | inl (p, q) ↦ rw q (omega arith)
  | inr (p, q) ↦ rw q (omega arith)
]

v3_channel_requires_password-Answers_example :
    Answers two_channels 8 (v3_channel_requires_password 3 two_channels 8)
v3_channel_requires_password-Answers_example =
    v3_channel_requires_password-Answers two_channels depth 3 8 two_channels-IsTree
      (inr (room, room_found)) (omega arith)

v3_is_channel_admin-Decides_example :
    Decides two_channels
      (λ i. if i == 3 then 1 else 0)
      8
      (v3_is_channel_admin 3 (λ i. if i == 3 then 1 else 0) two_channels 8)
v3_is_channel_admin-Decides_example =
    v3_is_channel_admin-Decides two_channels (λ i. if i == 3 then 1 else 0) depth 3 8
      two_channels-IsTree small_parents (omega arith) (omega arith)

abbrev loop_channel : MsgChannel
loop_channel = record room { parent = 8 }

abbrev looped : Lists
looped = record (no_entries zero_volumes) { channels = loop_channel ∷ [] }

loop_found : v3_get_channel looped 8 ≡ some loop_channel
unfolding v3_get_channel find_entry strdup
loop_found = refl

v3_channel_requires_password-cycle_example : v3_channel_requires_password 1000 looped 8 ≡ none
v3_channel_requires_password-cycle_example =
    v3_channel_requires_password-cycle looped 8 loop_channel 1000 (omega arith) loop_found refl
      (omega arith)

-- The message moves the user to channel 8 and gives another name.
abbrev moved : User
moved = record guest { sent = record guest.sent { channel = 8; name = b'x' ∷ [] } }

abbrev one_user : Lists
one_user = record (no_entries zero_volumes) { users = guest ∷ [] }

guest_entry : find_entry user_id 7 one_user.users ≡ some guest
unfolding find_entry
guest_entry = refl

single-IsName : (c : ℕ) → c ≢ b'/' → c ≢ 0 → IsName (c ∷ [])
single-IsName c other visible = record {
  some_byte = λ e. cc;
  short = omega arith;
  plain = ((other, visible), tt);
}

lobby_listed : IsListed lobby two_channels.channels
lobby_listed = record { before = []; after = room ∷ []; listed = refl; apart = tt }

room_listed : IsListed room two_channels.channels
room_listed = record {
  before = lobby ∷ [];
  after = [];
  listed = refl;
  apart = (((λ e. omega (arith, e)), inl (λ e. omega (arith, e))), tt);
}

room_chain : Chain two_channels 8 ((b'a' ∷ []) ∷ (b'b' ∷ []) ∷ [])
unfolding strdup
room_chain =
    below 8 room refl room_listed (λ e. omega arith)
      (top 3 lobby refl lobby_listed refl
        (single-IsName b'a' (λ e. omega arith) (λ e. omega arith)))
      (single-IsName b'b' (λ e. omega arith) (λ e. omega arith))

v3_get_channel_id-v3_get_channel_path_example :
    (v3_get_channel_path 2 two_channels 8 ≡ some (some (join ((b'a' ∷ []) ∷ (b'b' ∷ []) ∷ []))))
    × (v3_get_channel_id two_channels (join ((b'a' ∷ []) ∷ (b'b' ∷ []) ∷ [])) ≡ 8)
v3_get_channel_id-v3_get_channel_path_example =
    v3_get_channel_id-v3_get_channel_path 2 two_channels 8 ((b'a' ∷ []) ∷ (b'b' ∷ []) ∷ [])
      room_chain (omega arith)
