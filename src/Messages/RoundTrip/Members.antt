-- ===== src/Messages/RoundTrip/Members.antt =====
-- Accounts and users are read back from the messages that carry them.
use ventmac.Prelude.{
  ℕ, ◌+◌, ◌-◌, ◌*◌, ◌^◌, ◌<◌, ◌≤◌, ◌≡◌, ◌∙◌, refl, sym, ap, inl, inr, All, List, [], ◌∷◌, ◌++◌,
  append-nil, none, some, arith, length, replicate, u16, ◌>>=◌,
}
use ventmac.Wire.{memcpy}
use ventmac.Wire.Scalars.{memcpy-prefix}
use ventmac.Wire.Structs.{MsgUser, MsgAccount, le16, v3_get_msg_user, v3_get_msg_account}
use ventmac.Wire.Structs.RoundTrip.{
  FitsUser, Written, host_word, v3_get_msg_user-v3_put_msg_user,
  v3_get_msg_account-v3_put_msg_account,
}
use ventmac.Messages.{le32, allocate, sent}
use ventmac.Messages.Records.{entries}
use ventmac.Messages.Members.{
  put_header_0x4a, user_bytes, v3_put_0x4a, v3_get_0x4a, v3_put_0x5d, v3_get_0x5d,
}
use ventmac.Messages.Read.{allocate_within, sent_all}
use ventmac.Messages.Outgoing.{bytes_sent, put_0x4a, put_0x5d}
use ventmac.Messages.Incoming.{v3_get_message}
use ventmac.Messages.RoundTrip.{received, reading, Fits, account_size}

entries-user_bytes :
    (us : List MsgUser)
    → All FitsUser us
    → entries v3_get_msg_user (length us) (user_bytes us) ≡ some us
unfolding entries user_bytes
entries-user_bytes [] f = refl
entries-user_bytes (u ∷ us) f =
    rw (v3_get_msg_user-v3_put_msg_user u (user_bytes us) f.0, entries-user_bytes us f.1)

-- What is written at the start of a larger allocation is sent.
pub sent_prefix :
    (n : ℕ) (xs : List ℕ)
    → length xs ≤ n
    → length xs < 2 ^ 16
    → (allocate n xs >>= λ bytes. some (record { len = u16 (length xs); bytes = bytes })) >>= sent
      ≡ some xs
sent_prefix n xs h k =
    let e : length xs ≡ u16 (length xs) = omega arith in
    rw (allocate_within n xs h) (memcpy-prefix xs (replicate (n - length xs) 0) (u16 (length xs)) e)

abbrev bytes_0x5d : ℕ → List MsgUser → List ℕ
bytes_0x5d t us = le32 0x5d ++ (le16 t ++ (le16 (length us) ++ user_bytes us))

pub received-put_0x5d :
    (fill : List ℕ) (t : ℕ) (us : List MsgUser)
    → Fits (put_0x5d t us)
    → received fill (put_0x5d t us) ≡ some (reading (put_0x5d t us))
unfolding bytes_sent v3_put_0x5d v3_get_message v3_get_0x5d
received-put_0x5d fill t us h = rw (
  sent_prefix (512 * length us + 24) (bytes_0x5d t us) (omega (arith, h.3)) (omega (arith, h.4)),
  memcpy-prefix (le32 0x5d ++ (le16 t ++ le16 (length us))) (user_bytes us) 8 refl,
  host_word (length us) h.1,
  entries-user_bytes us h.2,
  host_word t h.0,
)

-- The message with an account, whose bytes are those that were written for it.
put_0x4a-sent :
    (t : ℕ) (a : MsgAccount)
    → Fits (put_0x4a t (some a) none)
    → (w : Written a [])
    → bytes_sent (put_0x4a t (some a) none) ≡ some (put_header_0x4a t 1 0 ++ w.out)
unfolding bytes_sent v3_put_0x4a
put_0x4a-sent t a h w =
    let n : u16 (account_size a) ≡ account_size a = omega (arith, h.2) in
    let e : length w.out + 20 ≡ account_size a =
      omega (arith, w.size, h.1.admin_count, h.1.auth_count) in
    elim h.0 [
      | inl s ↦ rw (s, w.puts, n) (sent_all _ _ (omega (arith, e)))
      | inr s ↦ rw (s, w.puts, n) (sent_all _ _ (omega (arith, e)))
    ]

-- The parser looks at the first eight bytes by themselves.
start_0x4a :
    (t : ℕ) (rest : List ℕ)
    → memcpy 8 (put_header_0x4a t 1 0 ++ rest) ≡ some (le32 0x4a ++ (le16 t ++ le16 0))
start_0x4a t rest =
    memcpy-prefix (le32 0x4a ++ (le16 t ++ le16 0))
      ((le16 0 ++ (le16 1 ++ (le16 0 ++ (le16 0 ++ le32 0)))) ++ rest) 8 refl

pub received-put_0x4a :
    (fill : List ℕ) (t : ℕ) (a : MsgAccount)
    → Fits (put_0x4a t (some a) none)
    → received fill (put_0x4a t (some a) none) ≡ some (reading (put_0x4a t (some a) none))
unfolding v3_get_message v3_get_0x4a
received-put_0x4a fill t a h =
    let w : Written a [] = v3_get_msg_account-v3_put_msg_account a [] h.1 in
    let g : v3_get_msg_account w.out ≡ some (a, []) =
      ap v3_get_msg_account (sym (append-nil w.out)) ∙ w.gets in
    rw (put_0x4a-sent t a h w) (elim h.0 [
      | inl s ↦ rw (s, start_0x4a 1 w.out, memcpy-prefix (put_header_0x4a 1 1 0) w.out 20 refl, g)
      | inr s ↦ rw (s, start_0x4a 3 w.out, memcpy-prefix (put_header_0x4a 3 1 0) w.out 20 refl, g)
    ])
