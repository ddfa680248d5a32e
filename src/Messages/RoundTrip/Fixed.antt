-- ===== src/Messages/RoundTrip/Fixed.antt =====
-- The messages of a fixed size are read back.
use ventmac.Prelude.{
  ℕ, ◌+◌, ◌*◌, ◌/◌, ◌^◌, ◌≡◌, refl, inl, inr, List, [], ◌∷◌, ◌++◌, Option, none, some, arith, ap,
  ◌∙◌, not, ◌==◌, if◌then◌else◌, length, length-append, replicate, length-replicate, take, take_all,
  take_prefix, drop, drop-add, u8, u16,
}
use ventmac.Wire.{memcpy}
use ventmac.Wire.Scalars.{IsWord, drop_of_length}
use ventmac.Wire.Structs.{le16}
use ventmac.Handlers.Dispatch.{x61}
use ventmac.Wire.Structs.RoundTrip.{host_word}
use ventmac.Messages.{le32, strncpy}
use ventmac.Messages.Read.{length-strncpy, memcpy_all}
use ventmac.Messages.Fixed.{
  text_field, sent_bitmask, v3_put_0x37, v3_put_0x3b, v3_put_0x46, v3_put_0x58, v3_put_0x61,
  v3_put_0x62, v3_get_0x37, v3_get_0x3b, v3_get_0x46, v3_get_0x58, v3_get_0x61, v3_get_0x62,
}
use ventmac.Messages.Outgoing.{
  bytes_sent, put_0x37, put_0x3b, put_0x46, put_0x58, put_0x61, put_0x62,
}
use ventmac.Messages.Incoming.{v3_get_message}
use ventmac.Messages.RoundTrip.{received, reading, Fits, IsDword}

host_dword :
    (n : ℕ)
    → IsDword n
    → u8 n + u8 (n / 2 ^ 8) * 2 ^ 8 + (u8 (n / 2 ^ 16) + u8 (n / 2 ^ 24) * 2 ^ 8) * 2 ^ 16 ≡ n
host_dword n h = omega arith

module _ (fill : List ℕ) where
  pub received-put_0x37 :
      (u p s : ℕ)
      → Fits (put_0x37 u p s)
      → received fill (put_0x37 u p s) ≡ some (reading (put_0x37 u p s))
  unfolding bytes_sent v3_put_0x37 v3_get_message v3_get_0x37 memcpy
  received-put_0x37 u p s h = simp (host_word u h.0, host_word p h.1, host_word s h.2)

  pub received-put_0x46 :
      (u s v : ℕ)
      → Fits (put_0x46 u s v)
      → received fill (put_0x46 u s v) ≡ some (reading (put_0x46 u s v))
  unfolding bytes_sent v3_put_0x46 v3_get_message v3_get_0x46 memcpy
  received-put_0x46 u s v h =
      let n : u16 v ≡ v = omega (arith, h.2) in
      simp (n, host_word u h.0, host_word s h.1, host_dword v (omega (arith, h.2)))

  pub received-put_0x3b :
      (i c : ℕ) → Fits (put_0x3b i c) → received fill (put_0x3b i c) ≡ some (reading (put_0x3b i c))
  unfolding bytes_sent v3_put_0x3b v3_get_message v3_get_0x3b memcpy
  received-put_0x3b i c h = simp (host_word i h.0, host_word c h.1)

  pub received-put_0x62 :
      (f u : ℕ) → Fits (put_0x62 f u) → received fill (put_0x62 f u) ≡ some (reading (put_0x62 f u))
  unfolding bytes_sent v3_put_0x62 v3_get_message v3_get_0x62 memcpy
  received-put_0x62 f u h = simp (host_word f h.0, host_word u h.1)

  pub received-put_0x58 :
      (r s c p : ℕ)
      → Fits (put_0x58 r s c p)
      → received fill (put_0x58 r s c p) ≡ some (reading (put_0x58 r s c p))
  unfolding bytes_sent v3_put_0x58 v3_get_message v3_get_0x58 memcpy
  received-put_0x58 r s c p h = elim h.1 [
    | inl e ↦ rw e (simp (host_word r h.0, host_word c h.2))
    | inr e ↦ rw e (simp (host_word r h.0, host_word p h.3))
  ]

length-text_field : (n : ℕ) (s : Option (List ℕ)) → length (text_field n s) ≡ n + 1
length-text_field n none = length-replicate (n + 1) 0
length-text_field n (some s) =
    length-append (strncpy n s) (0 ∷ []) ∙ ap (λ k. k + 1) (length-strncpy n s)

take_whole : (xs : List ℕ) (n : ℕ) → length xs ≡ n → take n xs ≡ xs
take_whole xs n e = rw (← e) (take_all xs)

take_of_length : (xs rest : List ℕ) (n : ℕ) → length xs ≡ n → take n (xs ++ rest) ≡ xs
take_of_length xs rest n e = rw (← e) (take_prefix xs rest)

drop_of_lengths :
    (xs ys rest : List ℕ) → length xs ≡ 32 → length ys ≡ 32 → drop 64 (xs ++ (ys ++ rest)) ≡ rest
drop_of_lengths xs ys rest e e' =
    drop-add 32 32 (xs ++ (ys ++ rest))
    ∙ (ap (drop 32) (drop_of_length xs (ys ++ rest) 32 e) ∙ drop_of_length ys rest 32 e')

-- The fields of `_v3_msg_0x61` behind its first twenty bytes.
fields_0x61 : (a b : Option (List ℕ)) → List ℕ
fields_0x61 a b = text_field 31 a ++ (replicate 32 0 ++ text_field 127 b)

module _ (a b : Option (List ℕ)) where
  length-fields : length (fields_0x61 a b) ≡ 192
  unfolding fields_0x61
  length-fields =
      length-append (text_field 31 a) _
      ∙ omega (
        arith,
        length-text_field 31 a,
        length-append (replicate 32 0) (text_field 127 b),
        length-text_field 127 b,
      )

  first_field : take 32 (fields_0x61 a b) ≡ text_field 31 a
  unfolding fields_0x61
  first_field = take_of_length (text_field 31 a) _ 32 (length-text_field 31 a)

  middle_field : take 32 (drop 32 (fields_0x61 a b)) ≡ replicate 32 0
  unfolding fields_0x61
  middle_field = rw (drop_of_length (text_field 31 a) _ 32 (length-text_field 31 a))

  last_field : take 128 (drop 64 (fields_0x61 a b)) ≡ text_field 127 b
  unfolding fields_0x61
  last_field =
      ap (take 128)
        (drop_of_lengths (text_field 31 a) (replicate 32 0) _ (length-text_field 31 a) refl)
      ∙ take_whole (text_field 127 b) 128 (length-text_field 127 b)

-- The first twenty bytes, which are numbers.
abbrev numbers_0x61 : (s m i c : ℕ) → List ℕ → List ℕ
numbers_0x61 s m i c rest =
    le32 0x61 ++ (le32 s ++ (le32 m ++ (le32 i ++ (le16 c ++ (le16 0 ++ rest)))))

get_0x61_numbers :
    (fill : List ℕ) (s m i c : ℕ) (rest : List ℕ)
    → length rest ≡ 192
    → IsDword m
    → IsDword i
    → IsWord c
    → v3_get_message fill 0x61 (numbers_0x61 s m i c rest)
      ≡ some (
          x61 (record {
            ban_id = 0;
            ban_count = c;
            bitmask_id = m;
            ip_address = i;
            banned_user = take 32 rest;
            banned_by = take 32 (drop 32 rest);
            ban_reason = take 128 (drop 64 rest);
          }))
unfolding v3_get_message v3_get_0x61
get_0x61_numbers fill s m i c rest e hm hi hc =
    rw e (simp (host_dword m hm, host_dword i hi, host_word c hc))

sent_bitmask-IsDword : (s m : ℕ) → IsDword m → IsDword (sent_bitmask s m)
sent_bitmask-IsDword s m h = ground arith

pub put_0x61-sent :
    (s i p : ℕ) (a b : Option (List ℕ))
    → bytes_sent (put_0x61 s i p a b) ≡ some (v3_put_0x61 s i p a b).bytes
unfolding bytes_sent v3_put_0x61 fields_0x61
put_0x61-sent s i p a b =
    let c : ℕ = if not (s == 0) then 1 else 0 in
    memcpy_all 212 (numbers_0x61 s (sent_bitmask s i) p c (fields_0x61 a b))
      (omega (arith, length-fields a b))

pub received-put_0x61 :
    (fill : List ℕ) (s i p : ℕ) (a b : Option (List ℕ))
    → Fits (put_0x61 s i p a b)
    → received fill (put_0x61 s i p a b) ≡ some (reading (put_0x61 s i p a b))
unfolding bytes_sent v3_put_0x61 fields_0x61
received-put_0x61 fill s i p a b h =
    let c : ℕ = if not (s == 0) then 1 else 0 in
    rw (
      memcpy_all 212 (numbers_0x61 s (sent_bitmask s i) p c (fields_0x61 a b))
          (omega (arith, length-fields a b)),
      get_0x61_numbers fill s (sent_bitmask s i) p c (fields_0x61 a b) (length-fields a b)
          (sent_bitmask-IsDword s i h.1) h.2 (ground arith),
      first_field a b,
      middle_field a b,
      last_field a b,
    )
