-- ===== src/Handlers/Mirror/Updates.antt =====
-- The updates and removals of the lists agree with their events.
use ventmac.Prelude.{
  ℕ, ◌≡◌, refl, ap, Bool, true, false, inl, inr, List, [], ◌∷◌, Option, none, some, arith,
  Bool-cases, Option-cases, ltb, ◌==◌, if◌then◌else◌, ==_iff, ◌||◌,
}
use ventmac.Wire.Structs.{MsgChannel, MsgRank, MsgAccount}
use ventmac.Roster.{
  Lists, User, user_id, account_id, copy_channel, copy_rank, new_user, merge_user, set_volume,
  copy_account, copy_array, strdup, v3_update_channel, v3_remove_channel, v3_update_user,
  v3_remove_user, v3_update_rank, v3_remove_rank, v3_update_account, v3_remove_account,
}
use ventmac.Roster.Keyed.{Distinct, find_entry}
use ventmac.Roster.History.{is_some}
use ventmac.Handlers.{seen_channel}
use ventmac.Handlers.Users.{modify_user}
use ventmac.Handlers.Mirror.{
  View, set_at, channel_of, Agrees, Known, KnownChannel, KnownUser, located, see_channel,
}
use ventmac.Handlers.Mirror.Steps.{IsShown-put_entry, IsShown-remove_entry, AfterLists}

pub find_entry-key {ℓ} :
    {A : Type ℓ} (key : A → ℕ) (id : ℕ) (xs : List A) {a : A}
    → find_entry key id xs ≡ some a
    → key a ≡ id
unfolding find_entry
find_entry-key key id [] {a} e = cc
find_entry-key key id (x ∷ xs) {a} e = elim (Bool-cases (key x == id)) [
  | inl t ↦
      let same : some x ≡ some a = rw t at e in
      let found : x ≡ a = cc in let k : key x ≡ id = (==_iff (key x) id).0 t in rw found at k
  | inr t ↦ find_entry-key key id xs (rw t at e)
]

abbrev owned : MsgAccount → List ℕ → List ℕ → MsgAccount
owned a admin auth = record a {
  username = strdup a.username;
  owner = strdup a.owner;
  notes = strdup a.notes;
  lock_reason = strdup a.lock_reason;
  chan_admin = admin;
  chan_auth = auth;
}

module _ (id : ℕ) (f : User → User) (keeps : (u : User) → user_id (f u) ≡ user_id u) where
  find_entry-modify_user :
      (i : ℕ) (us : List User)
      → find_entry user_id i (modify_user id f us) ≡ (
          if id == i
          then elim (find_entry user_id i us) [ none ↦ none | some u ↦ some (f u) ]
          else find_entry user_id i us)
  unfolding modify_user find_entry
  find_entry-modify_user i [] = ground arith
  find_entry-modify_user i (u ∷ us) = ground (arith, keeps u, find_entry-modify_user i us)

  Distinct-modify_user :
      (us : List User) → Distinct user_id us → Distinct user_id (modify_user id f us)
  unfolding modify_user find_entry
  Distinct-modify_user [] d = tt
  Distinct-modify_user (u ∷ us) d =
      ground (
        arith,
        d.0,
        d.1,
        keeps u,
        Distinct-modify_user us d.1,
        find_entry-modify_user (user_id u) us,
      )

channel_kept :
    (f : User → User)
    → ((u : User) → (f u).sent.channel ≡ u.sent.channel)
    → (b : Bool) (o : Option User)
    → channel_of (if b then elim o [ none ↦ none | some u ↦ some (f u) ] else o) ≡ channel_of o
channel_kept f same true none = refl
channel_kept f same true (some u) = ap some (same u)
channel_kept f same false o = refl

==_same : (n : ℕ) → (n == n) ≡ true
==_same n = (==_iff n n).1 refl

-- What is known of other numbers stays as it is.
other_same {ℓ} :
    {A : Type ℓ} (k : ℕ) (b : Bool) (m : ℕ → Bool) (id : ℕ) (o : Option A)
    → (k == id) ≡ false
    → Known m id o
    → Known (set_at k b m) id o
other_same k b m id o other h = rw other h

-- The channel that an event names, and what its client knows then.
hidden-split : (h : Bool) (n : ℕ) → h || n == 0 ≡ false → (h ≡ false) × ((n == 0) ≡ false)
hidden-split false n e = (refl, e)
hidden-split true n e = let absurd : true ≡ false = e in cc

known_here :
    (v : View) (sees : Bool) (k : ℕ) (b : Bool) (o : Option MsgChannel)
    → is_some o ≡ b
    → KnownChannel (see_channel (seen_channel sees k) b v) k o
known_here v true k b o same shown = rw (==_same k) same
known_here v false k b o same shown =
    let (h, absurd) = hidden-split v.hidden 0 shown in let no : true ≡ false = absurd in cc

other_channel :
    (v : View) (sees : Bool) (k : ℕ) (b : Bool) (id : ℕ) (o : Option MsgChannel)
    → (k == id) ≡ false
    → KnownChannel v id o
    → KnownChannel (see_channel (seen_channel sees k) b v) id o
other_channel v true k b id o other h shown = rw other (h (hidden-split v.hidden k shown).0)
other_channel v false k b id o other h shown =
    let (h', absurd) = hidden-split v.hidden 0 shown in let no : true ≡ false = absurd in cc

located_seen :
    (sees : Bool) (channel : ℕ) → located (some channel) (some (seen_channel sees channel)) ≡ true
located_seen true channel = rw (==_same channel)
located_seen false channel = ground arith

module _ (l : Lists) (v : View) (a : Agrees l v) where
  pub update_channel-Agrees :
      (c : MsgChannel) (sees : Bool)
      → Agrees (v3_update_channel l c) (see_channel (seen_channel sees c.id) true v)
  unfolding v3_update_channel
  update_channel-Agrees c sees = record {
    channels =
        IsShown-put_entry MsgChannel.id (KnownChannel v) _ l.channels a.channels
          (λ old. copy_channel c) (copy_channel c) (λ x. refl)
          (known_here v sees c.id true (some (copy_channel c)) refl)
          (λ x. known_here v sees c.id true (some (copy_channel c)) refl)
          (other_channel v sees c.id true);
    users = a.users;
    ranks = a.ranks;
    accounts = a.accounts;
  }

  pub remove_channel-Agrees :
      (id : ℕ) (sees : Bool)
      → Agrees (v3_remove_channel l id).1 (see_channel (seen_channel sees id) false v)
  unfolding v3_remove_channel
  remove_channel-Agrees id sees = record {
    channels =
        IsShown-remove_entry MsgChannel.id (KnownChannel v) _ l.channels a.channels id
          (known_here v sees id false none refl) (other_channel v sees id false);
    users = a.users;
    ranks = a.ranks;
    accounts = a.accounts;
  }

  pub update_rank-Agrees :
      (r : MsgRank) → Agrees (v3_update_rank l r) (record v { rank = set_at r.id true v.rank })
  unfolding v3_update_rank
  update_rank-Agrees r = record {
    channels = a.channels;
    users = a.users;
    ranks =
        IsShown-put_entry MsgRank.id (Known v.rank) _ l.ranks a.ranks (λ old. copy_rank r)
          (copy_rank r) (λ x. refl) (rw (==_same r.id)) (λ x. rw (==_same r.id))
          (other_same r.id true v.rank);
    accounts = a.accounts;
  }

  pub remove_rank-Agrees :
      (id : ℕ) → Agrees (v3_remove_rank l id).1 (record v { rank = set_at id false v.rank })
  unfolding v3_remove_rank
  remove_rank-Agrees id = record {
    channels = a.channels;
    users = a.users;
    ranks =
        IsShown-remove_entry MsgRank.id (Known v.rank) _ l.ranks a.ranks id (rw (==_same id))
          (other_same id false v.rank);
    accounts = a.accounts;
  }

  pub remove_account-Agrees :
      (id : ℕ)
      → Agrees (v3_remove_account l id).1 (record v { account = set_at id false v.account })
  unfolding v3_remove_account
  remove_account-Agrees id = record {
    channels = a.channels;
    users = a.users;
    ranks = a.ranks;
    accounts =
        IsShown-remove_entry account_id (Known v.account) _ l.accounts a.accounts id
          (rw (==_same id)) (other_same id false v.account);
  }

  pub remove_user-Agrees :
      (id : ℕ) → Agrees (v3_remove_user l id).1 (record v { user = set_at id none v.user })
  unfolding v3_remove_user
  remove_user-Agrees id = record {
    channels = a.channels;
    users =
        IsShown-remove_entry user_id (KnownUser v) _ l.users a.users id (rw (==_same id))
          (λ i o other h. rw other h);
    ranks = a.ranks;
    accounts = a.accounts;
  }

  pub update_user-AfterLists :
      (u : User) (sees : Bool)
      → AfterLists
          (record v { user = set_at (user_id u) (some (seen_channel sees u.sent.channel)) v.user })
          (v3_update_user l u)
  unfolding v3_update_user set_volume
  update_user-AfterLists u sees =
      let users =
        IsShown-put_entry user_id (KnownUser v)
          (KnownUser (record v {
            user = set_at (user_id u) (some (seen_channel sees u.sent.channel)) v.user;
          }))
          l.users a.users (merge_user u) (new_user u) (λ x. refl)
          (rw (==_same (user_id u)) (located_seen sees u.sent.channel))
          (λ x. rw (==_same (user_id u)) (located_seen sees u.sent.channel))
          (λ i o other h. rw other h) in
      elim (Option-cases (find_entry user_id (user_id u) l.users)) [
        | inl fresh ↦ elim (Bool-cases (ltb (user_id u) 65535)) [
          | inl t ↦
              rw (v3_update_user, fresh, t)
                (record {
                  channels = a.channels;
                  users = users;
                  ranks = a.ranks;
                  accounts = a.accounts;
                })
          | inr t ↦ rw (v3_update_user, fresh, t) tt
        ]
        | inr (old, listed) ↦
            rw (v3_update_user, listed)
              (record {
                channels = a.channels;
                users = users;
                ranks = a.ranks;
                accounts = a.accounts;
              })
      ]

  pub update_account-AfterLists :
      (m : MsgAccount)
      → AfterLists
          (record v { account = set_at (account_id m) true v.account })
          (v3_update_account l m)
  unfolding v3_update_account copy_account
  update_account-AfterLists m = elim (Option-cases (copy_array m.chan_admin_count m.chan_admin)) [
    | inl x ↦ rw x tt
    | inr (admin, x) ↦ elim (Option-cases (copy_array m.chan_auth_count m.chan_auth)) [
      | inl y ↦ rw (x, y) tt
      | inr (auth, y) ↦
          rw (x, y)
            (record {
              channels = a.channels;
              users = a.users;
              ranks = a.ranks;
              accounts =
                  IsShown-put_entry account_id (Known v.account) _ l.accounts a.accounts
                    (λ old. owned m admin auth) (owned m admin auth) (λ o. refl)
                    (rw (==_same (account_id m))) (λ o. rw (==_same (account_id m)))
                    (other_same (account_id m) true v.account);
            })
    ]
  ]

  pub modify_user-Agrees :
      (id : ℕ) (f : User → User)
      → ((u : User) → user_id (f u) ≡ user_id u)
      → ((u : User) → (f u).sent.channel ≡ u.sent.channel)
      → Agrees (record l { users = modify_user id f l.users }) v
  modify_user-Agrees id f keeps same = record {
    channels = a.channels;
    users = record {
      distinct = Distinct-modify_user id f keeps l.users a.users.distinct;
      same = λ i.
          rw (find_entry-modify_user id f keeps i l.users)
            (rw (channel_kept f same (id == i) (find_entry user_id i l.users)) (a.users.same i));
    };
    ranks = a.ranks;
    accounts = a.accounts;
  }
