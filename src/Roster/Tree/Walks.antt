-- ===== src/Roster/Tree/Walks.antt =====
-- The walks to the parents in `libventrilo3.c`: what they answer in a tree, and that they end there.
use ventmac.Prelude.{
  ℕ, zero, suc, ◌<◌, ◌≡◌, ◌≢◌, ◌↔◌, ◌⊎◌, inl, inr, refl, Bool, true, false, Option, none, some,
  arith, ◌==◌, ==_iff, lt→ltb, Bool-cases, Option-cases,
}
use ventmac.Wire.Structs.{MsgChannel}
use ventmac.Roster.{Lists}
use ventmac.Roster.Lookup.{v3_get_channel}
use ventmac.Roster.Tree.{protect_mode, v3_channel_requires_password, v3_is_channel_admin}

-- The root, or a channel of the list.
abbrev pub IsListed : Lists → ℕ → Type 0
IsListed l id = (id ≡ 0) ⊎ ((c : MsgChannel) × (v3_get_channel l id ≡ some c))

-- The channels form a tree: the parent of each one is listed and nearer to the root 0.
pub record IsTree (l : Lists) (depth : ℕ → ℕ) : Type 0 where
  pub rises : (id : ℕ) (c : MsgChannel) → v3_get_channel l id ≡ some c → depth c.parent < depth id
  pub listed : (id : ℕ) (c : MsgChannel) → v3_get_channel l id ≡ some c → IsListed l c.parent

-- `Asks l id r`: on the way from `id` to the root, `r` is the first channel with a password of its
-- own, or 0.
pub data Asks (l : Lists) : ℕ → ℕ → Type 0 where
  root : Asks l 0 0
  own :
      {id : ℕ} {c : MsgChannel}
      → id ≢ 0
      → v3_get_channel l id ≡ some c
      → protect_mode c ≡ 1
      → Asks l id id
  above :
      {id r : ℕ} {c : MsgChannel}
      → id ≢ 0
      → v3_get_channel l id ≡ some c
      → protect_mode c ≢ 1
      → Asks l c.parent r
      → Asks l id r

suc-ne-zero : {n : ℕ} → suc n ≢ 0
suc-ne-zero = omega arith

-- The walk ends and gives `r` as `Asks` says.
pub record Answers (l : Lists) (id : ℕ) (result : Option (Option ℕ)) : Type 0 where
  pub r : ℕ
  pub returns : result ≡ some (some r)
  pub asks : Asks l id r

-- In a tree of channels, with fuel above the depth of the channel, `v3_channel_requires_password`
-- ends without a fault for the root or a listed channel, and gives the first channel on the way to
-- the root that has a password of its own, or 0.
pub v3_channel_requires_password-Answers :
    (l : Lists) (depth : ℕ → ℕ) (fuel id : ℕ)
    → IsTree l depth
    → IsListed l id
    → depth id < fuel
    → Answers l id (v3_channel_requires_password fuel l id)
unfolding v3_channel_requires_password
v3_channel_requires_password-Answers l depth zero id t k h = elim h [ ]
v3_channel_requires_password-Answers l depth (suc fuel) zero t k h = record {
  r = 0;
  returns = refl;
  asks = root;
}
v3_channel_requires_password-Answers l depth (suc fuel) (suc id) t (inl z) h =
    elim (suc-ne-zero z) [ ]
v3_channel_requires_password-Answers l depth (suc fuel) (suc id) t (inr (c, found)) h =
    let nonzero : suc id ≢ 0 = omega arith in
    let below : (suc id == 0) ≡ false = ground arith in
    let lower = t.rises (suc id) c found in
    let up =
      v3_channel_requires_password-Answers l depth fuel c.parent t (t.listed (suc id) c found)
        (omega arith) in
    elim (Bool-cases (protect_mode c == 1)) [
      | inl p ↦ record {
        r = suc id;
        returns = rw (below, found, p);
        asks = own nonzero found ((==_iff (protect_mode c) 1).0 p);
      }
      | inr p ↦ record {
        r = up.r;
        returns = rw (below, found, p) up.returns;
        asks = above nonzero found (ground arith) up.asks;
      }
    ]

-- `IsAbove l id a`: `a` is `id` or a channel on the way from it to the root.
pub data IsAbove (l : Lists) : ℕ → ℕ → Type 0 where
  self : {id : ℕ} → IsAbove l id id
  higher :
      {id a : ℕ} {c : MsgChannel}
      → id ≢ 0
      → v3_get_channel l id ≡ some c
      → IsAbove l c.parent a
      → IsAbove l id a

-- The local user administers `id` or a channel above it.
pub record Administers (l : Lists) (channel_admin : ℕ → ℕ) (id : ℕ) : Type 0 where
  pub channel : ℕ
  pub above_id : IsAbove l id channel
  pub admin : channel_admin channel ≢ 0

pub record Decides (l : Lists) (channel_admin : ℕ → ℕ) (id : ℕ) (result : Option (Option Bool))
    : Type 0 where
  pub b : Bool
  pub returns : result ≡ some (some b)
  pub right : (b ≡ true) ↔ Administers l channel_admin id

-- Above a channel that the user does not administer itself, only its parent counts.
parent-of :
    (l : Lists) (channel_admin : ℕ → ℕ) (id a : ℕ) (c : MsgChannel)
    → channel_admin id ≡ 0
    → v3_get_channel l id ≡ some c
    → IsAbove l id a
    → channel_admin a ≢ 0
    → Administers l channel_admin c.parent
parent-of l channel_admin id a c none_here found self admin = elim (admin none_here) [ ]
parent-of l channel_admin id a c none_here found (higher {c = d} nonzero found' rest) admin =
    let e : d.parent ≡ c.parent = cc in
    record { channel = a; above_id = rw e at rest; admin = admin }

-- The walk stops at the root and at a channel that is not in the list.
not-Administers :
    (l : Lists) (channel_admin : ℕ → ℕ) (id a : ℕ)
    → channel_admin id ≡ 0
    → (id ≡ 0) ⊎ (v3_get_channel l id ≡ none)
    → IsAbove l id a
    → channel_admin a ≡ 0
not-Administers l channel_admin id a none_here stop self = none_here
not-Administers l channel_admin id a none_here (inl z) (higher nonzero found rest) =
    elim (nonzero z) [ ]
not-Administers l channel_admin id a none_here (inr missing) (higher nonzero found rest) = cc

refuses :
    (l : Lists) (channel_admin : ℕ → ℕ) (id : ℕ)
    → channel_admin id ≡ 0
    → (id ≡ 0) ⊎ (v3_get_channel l id ≡ none)
    → Decides l channel_admin id (some (some false))
refuses l channel_admin id none_here stop = record {
  b = false;
  returns = refl;
  right = (
    (λ yes. cc),
    λ a.
        elim (a.admin (not-Administers l channel_admin id a.channel none_here stop a.above_id)) [ ],
  );
}

-- In a tree of channels whose parents are below 65535, with fuel above the depth, `v3_is_channel_admin`
-- ends without a fault for a number below 65535, and it is true exactly when the user is an admin
-- of the channel or of one on the way to the root.
pub v3_is_channel_admin-Decides :
    (l : Lists) (channel_admin depth : ℕ → ℕ) (fuel id : ℕ)
    → IsTree l depth
    → ((i : ℕ) (c : MsgChannel) → v3_get_channel l i ≡ some c → c.parent < 65535)
    → id < 65535
    → depth id < fuel
    → Decides l channel_admin id (v3_is_channel_admin fuel channel_admin l id)
unfolding v3_is_channel_admin
v3_is_channel_admin-Decides l channel_admin depth zero id t bound small h = elim h [ ]
v3_is_channel_admin-Decides l channel_admin depth (suc fuel) id t bound small h =
    let in_array = lt→ltb id 65535 small in
    elim (Bool-cases (channel_admin id == 0)) [
      | inl e ↦ elim (Bool-cases (id == 0)) [
        | inl z ↦
            rw (in_array, e, z) (refuses l channel_admin id (ground arith) (inl (ground arith)))
        | inr z ↦ elim (Option-cases (v3_get_channel l id)) [
          | inl missing ↦
              rw (in_array, e, z, missing) (refuses l channel_admin id (ground arith) (inr missing))
          | inr (c, found) ↦
              let lower = t.rises id c found in
              let d =
                v3_is_channel_admin-Decides l channel_admin depth fuel c.parent t bound
                  (bound id c found) (omega arith) in
              record {
                b = d.b;
                returns = rw (in_array, e, z, found) d.returns;
                right = (
                  (λ yes.
                      let a = d.right.0 yes in
                      record {
                        channel = a.channel;
                        above_id = higher (ground arith) found a.above_id;
                        admin = a.admin;
                      }),
                  λ a. d.right.1 (
                      parent-of l channel_admin id a.channel c (ground arith) found a.above_id
                        a.admin),
                );
              }
        ]
      ]
      | inr e ↦ record {
        b = true;
        returns = rw (in_array, e);
        right =
            ((λ yes. record { channel = id; above_id = self; admin = ground arith }), λ a. refl);
      }
    ]

-- For a channel without a password of its own that is its own parent, `v3_channel_requires_password`
-- never ends, whatever the fuel.
pub v3_channel_requires_password-cycle :
    (l : Lists) (id : ℕ) (c : MsgChannel) (fuel : ℕ)
    → id ≢ 0
    → v3_get_channel l id ≡ some c
    → c.parent ≡ id
    → protect_mode c ≢ 1
    → v3_channel_requires_password fuel l id ≡ none
unfolding v3_channel_requires_password
v3_channel_requires_password-cycle l id c zero nonzero found own_parent open_channel = refl
v3_channel_requires_password-cycle l id c (suc fuel) nonzero found own_parent open_channel =
    let below : (id == 0) ≡ false = ground arith in
    let unprotected : (protect_mode c == 1) ≡ false = ground arith in
    rw (below, found, unprotected, own_parent)
      (v3_channel_requires_password-cycle l id c fuel nonzero found own_parent open_channel)
