-- ===== src/Roster/History.antt =====
-- Histories of the lists: any sequence of updates and removals behaves as four finite maps.
use ventmac.Prelude.{
  ℕ, ◌≤◌, ◌<◌, ◌≡◌, refl, Bool, true, false, List, [], ◌∷◌, ◌++◌, Option, none, some, arith, All,
  lt→ltb, length, take, ◌==◌, if◌then◌else◌, ◌>>=◌,
}
use ventmac.Wire.Structs.{MsgChannel, MsgRank, MsgAccount}
use ventmac.Roster.{
  strdup, User, user_id, account_id, Lists, copy_channel, copy_rank, copy_array, copy_account,
  new_user, merge_user, set_volume, destroy, v3_update_channel, v3_update_user, v3_update_rank,
  v3_update_account, v3_remove_channel, v3_remove_user, v3_remove_rank, v3_remove_account,
  v3_destroy_channellist, v3_destroy_userlist, v3_destroy_ranklist, v3_destroy_accountlist,
}
use ventmac.Roster.Keyed.{
  put_entry, remove_entry, Distinct, find_entry, find_entry-put_entry, Distinct-put_entry,
  find_entry-remove_entry, Distinct-remove_entry, remove_entry-found,
}

-- One call; `destroy_all` is what a logout does to the four lists.
pub data Call : Type 0 where
  update_channel : MsgChannel → Call
  update_user : User → Call
  update_rank : MsgRank → Call
  update_account : MsgAccount → Call
  remove_channel remove_user remove_rank remove_account : ℕ → Call
  destroy_all : Call

-- What the call returns to its caller, if anything, and the lists after it.
unfoldable pub step : Lists → Call → Option (List Bool × Lists)
step l (update_channel c) = some (true ∷ [], v3_update_channel l c)
step l (update_user u) = do l' ← v3_update_user l u; some (true ∷ [], l')
step l (update_rank r) = some (true ∷ [], v3_update_rank l r)
step l (update_account a) = do l' ← v3_update_account l a; some (true ∷ [], l')
step l (remove_channel id) = let (found, l') = v3_remove_channel l id in some (found ∷ [], l')
step l (remove_user id) = let (found, l') = v3_remove_user l id in some (found ∷ [], l')
step l (remove_rank id) = let (found, l') = v3_remove_rank l id in some (found ∷ [], l')
step l (remove_account id) = let (found, l') = v3_remove_account l id in some (found ∷ [], l')
step l destroy_all = some (
  [],
  v3_destroy_accountlist (v3_destroy_ranklist (v3_destroy_userlist (v3_destroy_channellist l))),
)

pub run : Lists → List Call → Option (List Bool × Lists)
run l [] = some ([], l)
run l (c ∷ cs) = do (out, l') ← step l c; (outs, l'') ← run l' cs; some (out ++ outs, l'')

-- An entry by its number.
pub record Maps : Type 0 where
  pub channel : ℕ → Option MsgChannel
  pub user : ℕ → Option User
  pub rank : ℕ → Option MsgRank
  pub account : ℕ → Option MsgAccount

abbrev pub at {ℓ} : {A : Type ℓ} → ℕ → Option A → (ℕ → Option A) → ℕ → Option A
at k v m i = if k == i then v else m i

abbrev pub is_some {ℓ} : {A : Type ℓ} → Option A → Bool
is_some none = false
is_some (some a) = true

abbrev pub owned : MsgAccount → MsgAccount
owned a = record a {
  username = strdup a.username;
  owner = strdup a.owner;
  notes = strdup a.notes;
  lock_reason = strdup a.lock_reason;
  chan_admin = take a.chan_admin_count a.chan_admin;
  chan_auth = take a.chan_auth_count a.chan_auth;
}

-- A user that is listed already keeps the fields that are the client's.
abbrev pub entry_of : User → Option User → User
entry_of u none = new_user u
entry_of u (some old) = merge_user u old

unfoldable pub spec_step : Maps → Call → List Bool × Maps
spec_step m (update_channel c) =
    (true ∷ [], record m { channel = at c.id (some (copy_channel c)) m.channel })
spec_step m (update_user u) =
    (true ∷ [], record m { user = at (user_id u) (some (entry_of u (m.user (user_id u)))) m.user })
spec_step m (update_rank r) = (true ∷ [], record m { rank = at r.id (some (copy_rank r)) m.rank })
spec_step m (update_account a) =
    (true ∷ [], record m { account = at (account_id a) (some (owned a)) m.account })
spec_step m (remove_channel id) =
    (is_some (m.channel id) ∷ [], record m { channel = at id none m.channel })
spec_step m (remove_user id) = (is_some (m.user id) ∷ [], record m { user = at id none m.user })
spec_step m (remove_rank id) = (is_some (m.rank id) ∷ [], record m { rank = at id none m.rank })
spec_step m (remove_account id) =
    (is_some (m.account id) ∷ [], record m { account = at id none m.account })
spec_step m destroy_all =
    ([], record { channel = λ i. none; user = λ i. none; rank = λ i. none; account = λ i. none })

pub spec_run : Maps → List Call → List Bool × Maps
spec_run m [] = ([], m)
spec_run m (c ∷ cs) =
    let (out, m') = spec_step m c in let (outs, m'') = spec_run m' cs in (out ++ outs, m'')

-- The number of a user is within `_v3_user_volumes`, and the arrays of an account are as long as
-- their counts say.
abbrev pub IsSafe : Call → Type 0
IsSafe (update_user u) = user_id u < 65535
IsSafe (update_account a) =
    (a.chan_admin_count ≤ length a.chan_admin) × (a.chan_auth_count ≤ length a.chan_auth)
IsSafe c = Unit

-- One list shows a map when no number stands twice and every number finds what the map has.
pub record IsMap {ℓ} {A : Type ℓ} (key : A → ℕ) (m : ℕ → Option A) (xs : List A) : Type ℓ where
  pub distinct : Distinct key xs
  pub same : (id : ℕ) → find_entry key id xs ≡ m id

pub record Shows (l : Lists) (m : Maps) : Type 0 where
  pub channels : IsMap MsgChannel.id m.channel l.channels
  pub users : IsMap user_id m.user l.users
  pub ranks : IsMap MsgRank.id m.rank l.ranks
  pub accounts : IsMap account_id m.account l.accounts

pub record Follows (outs : List Bool) (m' : Maps) (result : Option (List Bool × Lists))
    : Type 0 where
  pub l' : Lists
  pub returns : result ≡ some (outs, l')
  pub holds : Shows l' m'

elim_same {ℓ κ} :
    {A : Type ℓ} {B : Type κ} (o : Option A) (b : B) → elim o [ none ↦ b | some x ↦ b ] ≡ b
elim_same none b = refl
elim_same (some a) b = refl

module _ {ℓ} {A : Type ℓ} (key : A → ℕ) (m : ℕ → Option A) (xs : List A) (r : IsMap key m xs) where
  IsMap-put_entry :
      (replace : A → A) (new : A)
      → ((x : A) → key (replace x) ≡ key new)
      → IsMap key
          (at (key new) (elim (m (key new)) [ none ↦ some new | some x ↦ some (replace x) ]) m)
          (put_entry key replace new xs)
  IsMap-put_entry replace new keeps = record {
    distinct = Distinct-put_entry key replace new keeps xs r.distinct;
    same = λ id. rw (find_entry-put_entry key replace new keeps id xs, r.same (key new), r.same id);
  }

  IsMap-remove_entry : (k : ℕ) → IsMap key (at k none m) (remove_entry key k xs).1
  IsMap-remove_entry k = record {
    distinct = Distinct-remove_entry key k xs r.distinct;
    same = λ id. rw (find_entry-remove_entry key k id xs r.distinct, r.same id);
  }

  remove_entry-is_some : (k : ℕ) → (remove_entry key k xs).0 ≡ is_some (m k)
  remove_entry-is_some k = rw (remove_entry-found key k xs, r.same k) (ground arith)

  IsMap-set_entry :
      (new : A) → IsMap key (at (key new) (some new) m) (put_entry key (λ x. new) new xs)
  IsMap-set_entry new = record {
    distinct = Distinct-put_entry key (λ x. new) new (λ x. refl) xs r.distinct;
    same = λ id. rw (
      find_entry-put_entry key (λ x. new) new (λ x. refl) id xs,
      r.same id,
      elim_same (find_entry key (key new) xs) (some new),
    );
  }

pub IsMap-nil {ℓ} : {A : Type ℓ} {key : A → ℕ} → IsMap key (λ i. none) []
unfolding find_entry
IsMap-nil = record { distinct = tt; same = λ id. refl }

pub destroy-nil {ℓ} : {A : Type ℓ} (xs : List A) → destroy xs ≡ []
unfolding destroy
destroy-nil [] = refl
destroy-nil (x ∷ xs) = destroy-nil xs

copy_account-eq :
    (a : MsgAccount)
    → a.chan_admin_count ≤ length a.chan_admin
    → a.chan_auth_count ≤ length a.chan_auth
    → copy_account a ≡ some (owned a)
unfolding copy_account copy_array
copy_account-eq a h k = ground arith

abbrev listed : User → Lists → Lists
listed u l = record l { users = put_entry user_id (merge_user u) (new_user u) l.users }

-- Only the volumes differ between a new user and one that is listed.
stored_volume :
    (o : Option User) (u : User) (l : Lists)
    → user_id u < 65535
    → (v : ℕ → ℕ) × (elim o [ none ↦ set_volume (user_id u) 79 l | some old ↦ some l ]
        ≡ some (record l { user_volumes = v }))
unfolding set_volume
stored_volume none u l h =
    ((λ i. if i == user_id u then 79 else l.user_volumes i), rw (lt→ltb (user_id u) 65535 h))
stored_volume (some old) u l h = (l.user_volumes, refl)

entry_of-eq :
    (u : User) (o : Option User)
    → elim o [ none ↦ some (new_user u) | some x ↦ some (merge_user u x) ] ≡ some (entry_of u o)
entry_of-eq u none = refl
entry_of-eq u (some old) = refl

module _ (l : Lists) (m : Maps) (r : Shows l m) where
  update_user-Follows :
      (u : User)
      → user_id u < 65535
      → Follows
          (spec_step m (update_user u)).0
          (spec_step m (update_user u)).1
          (step l (update_user u))
  unfolding step spec_step v3_update_user set_volume
  update_user-Follows u h =
      let p =
        IsMap-put_entry user_id m.user l.users r.users (merge_user u) (new_user u) (λ x. refl) in
      let v = stored_volume (find_entry user_id (user_id u) l.users) u (listed u l) h in
      record {
        l' = record (listed u l) { user_volumes = v.0 };
        returns = rw v.1;
        holds = record {
          channels = r.channels;
          users = rw (entry_of-eq u (m.user (user_id u))) at p;
          ranks = r.ranks;
          accounts = r.accounts;
        };
      }

  update_account-Follows :
      (a : MsgAccount)
      → IsSafe (update_account a)
      → Follows
          (spec_step m (update_account a)).0
          (spec_step m (update_account a)).1
          (step l (update_account a))
  unfolding step spec_step v3_update_account
  update_account-Follows a h = record {
    l' = record l { accounts = put_entry account_id (λ old. owned a) (owned a) l.accounts };
    returns = rw (copy_account-eq a h.0 h.1);
    holds = record {
      channels = r.channels;
      users = r.users;
      ranks = r.ranks;
      accounts = IsMap-set_entry account_id m.account l.accounts r.accounts (owned a);
    };
  }

  step-Follows : (c : Call) → IsSafe c → Follows (spec_step m c).0 (spec_step m c).1 (step l c)
  unfolding step spec_step v3_update_channel v3_update_rank v3_remove_channel v3_remove_user
      v3_remove_rank v3_remove_account v3_destroy_channellist v3_destroy_userlist
      v3_destroy_ranklist v3_destroy_accountlist
  step-Follows (update_channel c) h = record {
    l' = v3_update_channel l c;
    returns = refl;
    holds = record {
      channels = IsMap-set_entry MsgChannel.id m.channel l.channels r.channels (copy_channel c);
      users = r.users;
      ranks = r.ranks;
      accounts = r.accounts;
    };
  }
  step-Follows (update_user u) h = update_user-Follows u h
  step-Follows (update_rank k) h = record {
    l' = v3_update_rank l k;
    returns = refl;
    holds = record {
      channels = r.channels;
      users = r.users;
      ranks = IsMap-set_entry MsgRank.id m.rank l.ranks r.ranks (copy_rank k);
      accounts = r.accounts;
    };
  }
  step-Follows (update_account a) h = update_account-Follows a h
  step-Follows (remove_channel id) h = record {
    l' = (v3_remove_channel l id).1;
    returns = rw (remove_entry-is_some MsgChannel.id m.channel l.channels r.channels id);
    holds = record {
      channels = IsMap-remove_entry MsgChannel.id m.channel l.channels r.channels id;
      users = r.users;
      ranks = r.ranks;
      accounts = r.accounts;
    };
  }
  step-Follows (remove_user id) h = record {
    l' = (v3_remove_user l id).1;
    returns = rw (remove_entry-is_some user_id m.user l.users r.users id);
    holds = record {
      channels = r.channels;
      users = IsMap-remove_entry user_id m.user l.users r.users id;
      ranks = r.ranks;
      accounts = r.accounts;
    };
  }
  step-Follows (remove_rank id) h = record {
    l' = (v3_remove_rank l id).1;
    returns = rw (remove_entry-is_some MsgRank.id m.rank l.ranks r.ranks id);
    holds = record {
      channels = r.channels;
      users = r.users;
      ranks = IsMap-remove_entry MsgRank.id m.rank l.ranks r.ranks id;
      accounts = r.accounts;
    };
  }
  step-Follows (remove_account id) h = record {
    l' = (v3_remove_account l id).1;
    returns = rw (remove_entry-is_some account_id m.account l.accounts r.accounts id);
    holds = record {
      channels = r.channels;
      users = r.users;
      ranks = r.ranks;
      accounts = IsMap-remove_entry account_id m.account l.accounts r.accounts id;
    };
  }
  step-Follows destroy_all h = record {
    l' = record l { channels = []; users = []; ranks = []; accounts = [] };
    returns =
        rw (
          destroy-nil l.channels,
          destroy-nil l.users,
          destroy-nil l.ranks,
          destroy-nil l.accounts,
        );
    holds = record {
      channels = IsMap-nil;
      users = IsMap-nil;
      ranks = IsMap-nil;
      accounts = IsMap-nil;
    };
  }

pub run-Follows :
    (l : Lists) (m : Maps) (cs : List Call)
    → Shows l m
    → All IsSafe cs
    → Follows (spec_run m cs).0 (spec_run m cs).1 (run l cs)
unfolding run spec_run
run-Follows l m [] r h = record { l' = l; returns = refl; holds = r }
run-Follows l m (c ∷ cs) r h =
    let d = step-Follows l m r c h.0 in
    let e = run-Follows d.l' (spec_step m c).1 cs d.holds h.1 in
    record { l' = e.l'; returns = rw (d.returns, e.returns); holds = e.holds }
