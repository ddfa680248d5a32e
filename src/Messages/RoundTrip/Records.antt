-- ===== src/Messages/RoundTrip/Records.antt =====
-- Ranks and channels are read back from the messages that carry them.
use ventmac.Prelude.{
  ℕ, ◌+◌, ◌*◌, ◌/◌, ◌^◌, ◌<◌, ◌≡◌, ◌∙◌, refl, sym, ap, ◌⊎◌, inl, inr, List, [], ◌∷◌, ◌++◌,
  append-nil, Option, none, some, arith, All-replicate, IsByte, replicate, length, length-append,
  u8, u16,
}
use ventmac.Wire.{v3_put_msg_string}
use ventmac.Wire.Scalars.{length-v3_put_msg_string, memcpy-prefix, drop_of_length}
use ventmac.Wire.Structs.{
  MsgRank, MsgChannel, le16, le16s, v3_get_msg_rank, v3_put_msg_rank, v3_get_msg_channel,
  v3_put_msg_channel,
}
use ventmac.Wire.Structs.RoundTrip.{
  FitsRank, FitsChannel, host_word, v3_get_msg_rank-v3_put_msg_rank,
  v3_get_msg_channel-v3_put_msg_channel,
}
use ventmac.Messages.{le32}
use ventmac.Messages.Records.{hash_field, v3_put_0x36, v3_get_0x36, v3_put_0x49, v3_get_0x49}
use ventmac.Messages.Password.Total.{v3_hash_password-IsTotal}
use ventmac.Messages.Read.{allocate_all, allocate_within, memcpy_all, sent_all}
use ventmac.Messages.Outgoing.{bytes_sent, put_0x36, put_0x49}
use ventmac.Messages.Incoming.{v3_get_message}
use ventmac.Messages.RoundTrip.{received, reading, Fits, IsPlaced, IsNumbered, IsBare, IsHashable}

-- Reading to the end of a message.
at_end {ℓ} :
    {A : Type ℓ} (get : List ℕ → Option (A × List ℕ)) (xs : List ℕ) (a : A)
    → get (xs ++ []) ≡ some (a, [])
    → get xs ≡ some (a, [])
at_end get xs a e = ap get (sym (append-nil xs)) ∙ e

length-v3_put_msg_rank :
    (r : MsgRank)
    → FitsRank r
    → length (v3_put_msg_rank r) ≡ 8 + length r.name + length r.description
unfolding v3_put_msg_rank
length-v3_put_msg_rank r f = omega (
  arith,
  length-append (v3_put_msg_string (some r.name)) (v3_put_msg_string (some r.description)),
  length-v3_put_msg_string r.name f.name,
  length-v3_put_msg_string r.description f.description,
)

abbrev head_0x36 : ℕ → List ℕ
head_0x36 t = le32 0x36 ++ (le16 t ++ (le32 0 ++ (le16 1 ++ le32 0)))

put_0x36-sent :
    (t : ℕ) (r : MsgRank)
    → Fits (put_0x36 t (some r))
    → bytes_sent (put_0x36 t (some r)) ≡ some (head_0x36 t ++ v3_put_msg_rank r)
unfolding bytes_sent v3_put_0x36
put_0x36-sent t r h =
    let n : u16 (24 + length r.name + length r.description)
        ≡ 24 + length r.name + length r.description =
      omega (arith, h.2) in
    elim h.0 [
      | inl e ↦ rw (e, n) (sent_all _ _ (omega (arith, length-v3_put_msg_rank r h.1)))
      | inr e ↦ rw (e, n) (sent_all _ _ (omega (arith, length-v3_put_msg_rank r h.1)))
    ]

word_of_subtype : (t : ℕ) → t < 6 → u8 t + u8 (t / 2 ^ 8) * 2 ^ 8 ≡ t
word_of_subtype t h = omega arith

pub received-put_0x36 :
    (fill : List ℕ) (t : ℕ) (r : MsgRank)
    → Fits (put_0x36 t (some r))
    → received fill (put_0x36 t (some r)) ≡ some (reading (put_0x36 t (some r)))
unfolding v3_get_message v3_get_0x36
received-put_0x36 fill t r h = rw (
  put_0x36-sent t r h,
  memcpy-prefix (head_0x36 t) (v3_put_msg_rank r) 16 refl,
  at_end v3_get_msg_rank (v3_put_msg_rank r) r (v3_get_msg_rank-v3_put_msg_rank r [] h.1),
  host_word t (elim h.0 [ inl e ↦ omega arith | inr e ↦ omega arith ]),
)

length-le16s : (xs : List ℕ) → length (le16s xs) ≡ 2 * length xs
unfolding le16s
length-le16s [] = refl
length-le16s (x ∷ xs) = omega (arith, length-le16s xs)

length-v3_put_msg_channel :
    (c : MsgChannel)
    → FitsChannel c
    → length (v3_put_msg_channel c) ≡ 54 + length c.name + length c.phonetic + length c.comment
unfolding v3_put_msg_channel
length-v3_put_msg_channel c f = omega (
  arith,
  length-append (le16s c.settings) _,
  length-le16s c.settings,
  f.number_of_settings,
  length-append (v3_put_msg_string (some c.name))
      (v3_put_msg_string (some c.phonetic) ++ v3_put_msg_string (some c.comment)),
  length-append (v3_put_msg_string (some c.phonetic)) (v3_put_msg_string (some c.comment)),
  length-v3_put_msg_string c.name f.name,
  length-v3_put_msg_string c.phonetic f.phonetic,
  length-v3_put_msg_string c.comment f.comment,
)

subtype_small : (t : ℕ) (c : MsgChannel) → IsPlaced t ⊎ (IsNumbered t × IsBare c) → t < 2 ^ 16
subtype_small t c (inl (inl e)) = omega arith
subtype_small t c (inl (inr e)) = omega arith
subtype_small t c (inr (inl e, b)) = omega arith
subtype_small t c (inr (inr e, b)) = omega arith

abbrev head_0x49 : (t u : ℕ) → List ℕ → List ℕ
head_0x49 t u hash = le32 0x49 ++ (le16 u ++ (le16 t ++ hash))

-- What is put into the field for the hash.
abbrev Hashed : Option (List ℕ) → Type 0
Hashed password = (hash : List ℕ) × (hash_field password ≡ some hash) × (length hash ≡ 32)

hash_field-total : (password : Option (List ℕ)) → IsHashable password → Hashed password
unfolding hash_field
hash_field-total none h = (replicate 32 0, refl, refl)
hash_field-total (some []) h = (replicate 32 0, refl, refl)
hash_field-total (some (c ∷ s)) h =
    let r =
      v3_hash_password-IsTotal (c ∷ s) (replicate 32 0) h refl
        (All-replicate IsByte 32 0 (omega arith)) in
    (r.0, r.1, r.2)

put_0x49-sent :
    (t u : ℕ) (password : Option (List ℕ)) (c : MsgChannel) (h : Fits (put_0x49 t u password c))
    (w : Hashed password)
    → bytes_sent (put_0x49 t u password c) ≡ some (head_0x49 t u w.0 ++ v3_put_msg_channel c)
unfolding bytes_sent v3_put_0x49
put_0x49-sent t u password c h w =
    let n : u16 (94 + length c.name + length c.phonetic + length c.comment)
        ≡ 94 + length c.name + length c.phonetic + length c.comment =
      omega (arith, h.3) in
    let e : (k : ℕ)
        → length (head_0x49 k u w.0 ++ v3_put_msg_channel c)
          ≡ 94 + length c.name + length c.phonetic + length c.comment =
      λ k.
        length-append (head_0x49 k u w.0) (v3_put_msg_channel c)
        ∙ omega (arith, w.2, length-v3_put_msg_channel c h.2) in
    let e94 : (k : ℕ) → IsBare c → length (head_0x49 k u w.0 ++ v3_put_msg_channel c) ≡ 94 =
      λ k b. e k ∙ omega (arith, b.0, b.1, b.2) in
    elim h.1 [
      | inl (inl s) ↦ rw (s, n, w.1, allocate_all _ _ (e 1)) (memcpy_all _ _ (e 1))
      | inl (inr s) ↦ rw (s, n, w.1, allocate_all _ _ (e 5)) (memcpy_all _ _ (e 5))
      | inr (inl s, b) ↦
          rw
            (
              s,
              w.1,
              allocate_within 120 (head_0x49 2 u w.0 ++ v3_put_msg_channel c)
                  (omega (arith, e94 2 b)),
            )
            (memcpy-prefix _ _ 94 (e94 2 b))
      | inr (inr s, b) ↦
          rw
            (
              s,
              w.1,
              allocate_within 120 (head_0x49 3 u w.0 ++ v3_put_msg_channel c)
                  (omega (arith, e94 3 b)),
            )
            (memcpy-prefix _ _ 94 (e94 3 b))
    ]

pub received-put_0x49 :
    (fill : List ℕ) (t u : ℕ) (password : Option (List ℕ)) (c : MsgChannel)
    → Fits (put_0x49 t u password c)
    → received fill (put_0x49 t u password c) ≡ some (reading (put_0x49 t u password c))
unfolding v3_get_message v3_get_0x49
received-put_0x49 fill t u password c h =
    let w = hash_field-total password h.4 in
    let e : length (head_0x49 t u w.0) ≡ 40 = omega (arith, w.2) in
    rw (
      put_0x49-sent t u password c h w,
      memcpy-prefix (head_0x49 t u w.0) (v3_put_msg_channel c) 40 e,
      drop_of_length (head_0x49 t u w.0) (v3_put_msg_channel c) 40 e,
      at_end v3_get_msg_channel (v3_put_msg_channel c) c
          (v3_get_msg_channel-v3_put_msg_channel c [] h.2),
      host_word t (subtype_small t c h.1),
    )
