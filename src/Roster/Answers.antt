-- ===== src/Roster/Answers.antt =====
-- What clients read from the lists of `libventrilo3.c` after any history of calls.
use ventmac.Prelude.{
  ℕ, ◌≡◌, ◌↔◌, ◌==◌, bit_and, true, refl, Bool, List, [], Option, none, some, arith, All, ◌>>=◌,
}
use ventmac.Roster.{
  User, user_id, strdup, merge_user, new_user, Lists, copy_channel, copy_user, copy_rank,
  v3_update_user,
}
use ventmac.Roster.Keyed.{find_entry, put_entry, find_entry-put_entry}
use ventmac.Roster.Lookup.{v3_get_user, v3_get_channel, v3_get_rank, v3_get_user_channel}
use ventmac.Roster.History.{Call, run, Maps, IsMap-nil, Shows, spec_run, IsSafe, run-Follows}

-- Every lookup gives what the maps have.
pub record Reads (l : Lists) (m : Maps) : Type 0 where
  pub channel : (id : ℕ) → v3_get_channel l id ≡ (do c ← m.channel id; some (copy_channel c))
  pub user : (id : ℕ) → v3_get_user l id ≡ (do u ← m.user id; some (copy_user u))
  pub rank : (id : ℕ) → v3_get_rank l id ≡ (do r ← m.rank id; some (copy_rank r))
  pub user_channel :
      (id : ℕ) → v3_get_user_channel l id ≡ elim (m.user id) [ none ↦ 0 | some u ↦ u.sent.channel ]

Shows-Reads : (l : Lists) (m : Maps) → Shows l m → Reads l m
unfolding v3_get_channel v3_get_user v3_get_rank v3_get_user_channel
Shows-Reads l m s = record {
  channel = λ id. rw (s.channels.same id);
  user = λ id. rw (s.users.same id);
  rank = λ id. rw (s.ranks.same id);
  user_channel = λ id. rw (v3_get_user_channel, s.users.same id);
}

abbrev pub no_entries : (ℕ → ℕ) → Lists
no_entries volumes = record {
  channels = [];
  users = [];
  ranks = [];
  accounts = [];
  user_volumes = volumes;
}

abbrev pub no_maps : Maps
no_maps = record { channel = λ i. none; user = λ i. none; rank = λ i. none; account = λ i. none }

-- The run ends with the results `outs`, and clients read `m` from the lists.
pub record Ends (outs : List Bool) (m : Maps) (result : Option (List Bool × Lists)) : Type 0 where
  pub l : Lists
  pub returns : result ≡ some (outs, l)
  pub reads : Reads l m

-- From empty lists, every history of safe calls is free of faults, returns what the maps return, and
-- leaves lists from which every lookup of a channel, a user, a rank or a user's channel reads what
-- the maps have; safe are users with a number below 65535 and accounts whose arrays are as long as
-- their counts.
pub run-Ends :
    (volumes : ℕ → ℕ) (calls : List Call)
    → All IsSafe calls
    → Ends (spec_run no_maps calls).0 (spec_run no_maps calls).1 (run (no_entries volumes) calls)
run-Ends volumes calls safe =
    let f =
      run-Follows (no_entries volumes) no_maps calls
        (record {
          channels = IsMap-nil;
          users = IsMap-nil;
          ranks = IsMap-nil;
          accounts = IsMap-nil;
        })
        safe in
    record { l = f.l'; returns = f.returns; reads = Shows-Reads f.l' _ f.holds }

-- The entry of a user after an update: `old` was listed, `user` came in a message.
pub record Kept (old user entry : User) : Type 0 where
  pub same_name : entry.sent.name ≡ old.sent.name
  pub same_phonetic : entry.sent.phonetic ≡ old.sent.phonetic
  pub same_transmitting : entry.is_transmitting ≡ old.is_transmitting
  pub same_pages : entry.accept_pages ≡ old.accept_pages
  pub same_u2u : entry.accept_u2u ≡ old.accept_u2u
  pub same_chat : entry.accept_chat ≡ old.accept_chat
  pub same_recording : entry.allow_recording ≡ old.allow_recording
  pub same_global_mute : entry.global_mute ≡ old.global_mute
  pub same_channel_mute : entry.channel_mute ≡ old.channel_mute
  pub new_channel : entry.sent.channel ≡ user.sent.channel
  pub new_bitfield : entry.sent.bitfield ≡ user.sent.bitfield
  pub new_rank : entry.sent.rank_id ≡ user.sent.rank_id
  pub new_comment : entry.sent.comment ≡ strdup user.sent.comment
  pub new_text : entry.sent.integration_text ≡ strdup user.sent.integration_text
  pub new_url : entry.sent.url ≡ strdup user.sent.url
  pub new_guest : (entry.guest ≡ 0) ↔ (bit_and user.sent.bitfield 0x400 ≡ 0)

-- The update succeeds, and the user's number finds `entry`.
pub record Updates (old user : User) (result : Option Lists) : Type 0 where
  pub l : Lists
  pub entry : User
  pub returns : result ≡ some l
  pub found : find_entry user_id (user_id user) l.users ≡ some entry
  pub kept : Kept old user entry

merge_user-Kept : (old user : User) → Kept old user (merge_user user old)
merge_user-Kept old user = record {
  same_name = refl;
  same_phonetic = refl;
  same_transmitting = refl;
  same_pages = refl;
  same_u2u = refl;
  same_chat = refl;
  same_recording = refl;
  same_global_mute = refl;
  same_channel_mute = refl;
  new_channel = refl;
  new_bitfield = refl;
  new_rank = refl;
  new_comment = refl;
  new_text = refl;
  new_url = refl;
  new_guest = ground arith;
}

-- An update of a listed user keeps its name, its phonetic and what the client knows of it, and takes
-- the channel, the rank, the bits and the texts from the message, with the guest flag of bit 0x400.
pub v3_update_user-Kept :
    (l : Lists) (old user : User)
    → find_entry user_id (user_id user) l.users ≡ some old
    → Updates old user (v3_update_user l user)
unfolding v3_update_user
v3_update_user-Kept l old user listed =
    let e : (user_id user == user_id user) ≡ true = ground arith in
    record {
      l = record l { users = put_entry user_id (merge_user user) (new_user user) l.users };
      entry = merge_user user old;
      returns = rw (v3_update_user, listed);
      found = rw (
        find_entry-put_entry user_id (merge_user user) (new_user user) (λ x. refl) (user_id user)
            l.users,
        e,
        listed,
      );
      kept = merge_user-Kept old user;
    }
