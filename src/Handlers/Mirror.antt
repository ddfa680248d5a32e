-- ===== src/Handlers/Mirror.antt =====
-- A client that only sees the events: what it knows of users, channels, ranks and accounts. A client
-- without the right to see channels, or when none is listed, is told the lobby for every channel.
pub mod Steps
pub mod Updates
pub mod Cases
pub mod Members
pub mod Moves
pub mod Texts
pub mod Session
pub mod Run
use ventmac.Prelude.{
  ℕ, ◌≡◌, refl, Bool, true, false, List, [], ◌∷◌, ◌++◌, Option, none, some, ◌==◌, if◌then◌else◌,
  ◌>>=◌, ◌||◌,
}
use ventmac.Wire.Structs.{MsgChannel, MsgRank}
use ventmac.Roster.{Lists, User, user_id, account_id}
use ventmac.Roster.Keyed.{Distinct, find_entry}
use ventmac.Roster.History.{is_some}
use ventmac.Handlers.{
  Client, Effect, disconnect, user_login, user_logout, user_modify, user_chan_move, chan_add,
  chan_modify, chan_remove, rank_add, rank_modify, rank_remove, userlist_add, userlist_modify,
  userlist_remove, Act,
}

-- The channel of each user that is there, and which channels, ranks and accounts are there. `hidden` is
-- set when the channel 0 is added, changed or removed: the lobby never is, so channels are hidden.
pub record View : Type 0 where
  pub user : ℕ → Option ℕ
  pub channel : ℕ → Bool
  pub hidden : Bool
  pub rank : ℕ → Bool
  pub account : ℕ → Bool

abbrev pub set_at {ℓ} : {A : Type ℓ} → ℕ → A → (ℕ → A) → ℕ → A
set_at k b m i = if k == i then b else m i

abbrev pub see_channel : ℕ → Bool → View → View
see_channel channel b v = record v {
  channel = set_at channel b v.channel;
  hidden = v.hidden || channel == 0;
}

-- What an event tells; events of other kinds change nothing.
abbrev pub see : Effect → View → View
see disconnect v = record {
  user = λ i. none;
  channel = λ i. false;
  hidden = false;
  rank = λ i. false;
  account = λ i. false;
}
see (user_login user channel flags) v = record v { user = set_at user (some channel) v.user }
see (user_modify user channel) v = record v { user = set_at user (some channel) v.user }
see (user_chan_move user channel) v = record v { user = set_at user (some channel) v.user }
see (user_logout user channel name) v = record v { user = set_at user none v.user }
see (chan_add channel) v = see_channel channel true v
see (chan_modify channel) v = see_channel channel true v
see (chan_remove channel) v = see_channel channel false v
see (rank_add rank level name description) v = record v { rank = set_at rank true v.rank }
see (rank_modify rank level name description) v = record v { rank = set_at rank true v.rank }
see (rank_remove rank) v = record v { rank = set_at rank false v.rank }
see (userlist_add account) v = record v { account = set_at account true v.account }
see (userlist_modify account) v = record v { account = set_at account true v.account }
see (userlist_remove account) v = record v { account = set_at account false v.account }
see e v = v

unfoldable pub replay : List Effect → View → View
replay [] v = v
replay (e ∷ es) v = replay es (see e v)

abbrev pub channel_of : Option User → Option ℕ
channel_of none = none
channel_of (some u) = some u.sent.channel

-- A list holds each number once, and what it has under a number is as `Shows` says.
pub record IsShown {ℓ κ} {A : Type ℓ} (key : A → ℕ) (Shows : ℕ → Option A → Type κ) (xs : List A)
    : Type (ℓ ⊔ κ) where
  pub distinct : Distinct key xs
  pub same : (id : ℕ) → Shows id (find_entry key id xs)

-- The number is known when there is an entry.
abbrev pub Known {ℓ} : {A : Type ℓ} → (ℕ → Bool) → ℕ → Option A → Type 0
Known m id o = is_some o ≡ m id

-- Channels are known unless they are hidden.
abbrev pub KnownChannel : View → ℕ → Option MsgChannel → Type 0
KnownChannel v id o = v.hidden ≡ false → is_some o ≡ v.channel id

-- A user is known when it is there, with its channel or with the lobby in its place.
abbrev pub located : Option ℕ → Option ℕ → Bool
located none none = true
located none (some told) = false
located (some channel) none = false
located (some channel) (some told) = told == channel || told == 0

abbrev pub KnownUser : View → ℕ → Option User → Type 0
KnownUser v id o = located (channel_of o) (v.user id) ≡ true

-- The lists are what the view says.
pub record Agrees (l : Lists) (v : View) : Type 0 where
  pub channels : IsShown MsgChannel.id (KnownChannel v) l.channels
  pub users : IsShown user_id (KnownUser v) l.users
  pub ranks : IsShown MsgRank.id (Known v.rank) l.ranks
  pub accounts : IsShown account_id (Known v.account) l.accounts

-- If the code does not fault, the lists agree with what its events tell.
abbrev pub After : View → Option (Client × List Effect) → Type 0
After v none = Unit
After v (some (c', out)) = Agrees c'.lists (replay out v)

abbrev pub Mirrors : Act → Type 0
Mirrors f = (c : Client) (v : View) → Agrees c.lists v → After v (f c)

pub replay-append : (es fs : List Effect) (v : View) → replay (es ++ fs) v ≡ replay fs (replay es v)
unfolding replay
replay-append [] fs v = refl
replay-append (e ∷ es) fs v = replay-append es fs (see e v)
