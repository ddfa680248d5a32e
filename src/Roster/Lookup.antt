-- ===== src/Roster/Lookup.antt =====
-- The functions of `libventrilo3.c` that read the lists for clients: copies of entries and counts.
use ventmac.Prelude.{
  ℕ, ◌≡◌, refl, List, [], ◌∷◌, Option, none, some, arith, length, ◌==◌, if◌then◌else◌, ◌>>=◌,
}
use ventmac.Wire.Structs.{MsgChannel, MsgRank, MsgAccount}
use ventmac.Roster.{
  strdup, User, user_id, account_id, Lists, copy_channel, copy_user, copy_rank, copy_account,
  v3_update_channel, v3_update_rank,
}
use ventmac.Roster.Keyed.{find_entry, find_entry-put_entry}

-- A copy of the entry, or NULL.
unfoldable pub v3_get_user : Lists → ℕ → Option User
v3_get_user l id = do u ← find_entry user_id id l.users; some (copy_user u)

unfoldable pub v3_get_channel : Lists → ℕ → Option MsgChannel
v3_get_channel l id = do c ← find_entry MsgChannel.id id l.channels; some (copy_channel c)

unfoldable pub v3_get_rank : Lists → ℕ → Option MsgRank
v3_get_rank l id = do r ← find_entry MsgRank.id id l.ranks; some (copy_rank r)

-- The outer `none` is a fault, the inner one NULL.
unfoldable pub v3_get_account : Lists → ℕ → Option (Option MsgAccount)
v3_get_account l id = elim (find_entry account_id id l.accounts) [
  | none ↦ some none
  | some a ↦ (do c ← copy_account a; some (some c))
]

unfoldable pub v3_get_user_channel : Lists → ℕ → ℕ
v3_get_user_channel l id = elim (find_entry user_id id l.users) [
  | none ↦ 0
  | some u ↦ u.sent.channel
]

unfoldable pub v3_channel_count : Lists → ℕ
v3_channel_count l = length l.channels

unfoldable pub v3_account_count : Lists → ℕ
v3_account_count l = length l.accounts

strdup_idempotent : (s : List ℕ) → strdup (strdup s) ≡ strdup s
unfolding strdup
strdup_idempotent [] = refl
strdup_idempotent (c ∷ s) = ground (arith, strdup_idempotent s)

-- After an update the channel is found as it was given, cut at NULs, and every other channel as before.
pub v3_get_channel-v3_update_channel :
    (l : Lists) (channel : MsgChannel) (id : ℕ)
    → v3_get_channel (v3_update_channel l channel) id
      ≡ (if channel.id == id then some (copy_channel channel) else v3_get_channel l id)
unfolding v3_get_channel v3_update_channel
v3_get_channel-v3_update_channel l channel id =
    rw
      (find_entry-put_entry MsgChannel.id (λ old. copy_channel channel) (copy_channel channel)
        (λ x. refl) id l.channels)
      (ground (
        arith,
        strdup_idempotent channel.name,
        strdup_idempotent channel.phonetic,
        strdup_idempotent channel.comment,
      ))

-- After an update the rank is found as it was given, cut at NULs, and every other rank as before.
pub v3_get_rank-v3_update_rank :
    (l : Lists) (rank : MsgRank) (id : ℕ)
    → v3_get_rank (v3_update_rank l rank) id
      ≡ (if rank.id == id then some (copy_rank rank) else v3_get_rank l id)
unfolding v3_get_rank v3_update_rank
v3_get_rank-v3_update_rank l rank id =
    rw
      (find_entry-put_entry MsgRank.id (λ old. copy_rank rank) (copy_rank rank) (λ x. refl) id
        l.ranks)
      (ground (arith, strdup_idempotent rank.name, strdup_idempotent rank.description))
