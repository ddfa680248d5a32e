-- ===== src/Messages/RoundTrip/Texts.antt =====
-- The messages that carry one string are read back, whatever the memory behind them holds.
use ventmac.Prelude.{
  ℕ, suc, ◌+◌, ◌<◌, ◌≡◌, refl, inl, inr, List, ◌++◌, none, some, arith, lt→ltb, length, ◌>>=◌,
}
use ventmac.Wire.Scalars.{length-v3_put_msg_string, IsWord, v3_get_msg_string-v3_put_msg_string}
use ventmac.Wire.Structs.{le16}
use ventmac.Wire.Structs.RoundTrip.{host_word}
use ventmac.Messages.{le32, parsed}
use ventmac.Messages.Texts.{
  v3_put_0x3a, v3_put_0x3f, v3_put_0x42, v3_put_0x5a, v3_get_0x3a, v3_get_0x3f, v3_get_0x42,
  v3_get_0x5a, v3_get_0x4c, v3_put_0x4c,
}
use ventmac.Messages.Read.{speech-some, with_text-some, with_text-none}
use ventmac.Messages.Outgoing.{bytes_sent, put_0x3a, put_0x3f, put_0x42, put_0x5a, put_0x4c}
use ventmac.Messages.Incoming.{v3_get_message}
use ventmac.Messages.RoundTrip.{received, reading, Fits}

module _ (fill : List ℕ) where
  pub received-put_0x3a :
      (s : List ℕ)
      → Fits (put_0x3a (some s))
      → received fill (put_0x3a (some s)) ≡ some (reading (put_0x3a (some s)))
  unfolding bytes_sent v3_put_0x3a v3_get_message v3_get_0x3a
  received-put_0x3a s h =
      rw (speech-some 0x3a s h) (simp (v3_get_msg_string-v3_put_msg_string s _ (omega arith)))

  pub received-put_0x42 :
      (t u : ℕ) (s : List ℕ)
      → Fits (put_0x42 t u (some s))
      → received fill (put_0x42 t u (some s)) ≡ some (reading (put_0x42 t u (some s)))
  unfolding bytes_sent v3_put_0x42 v3_get_message v3_get_0x42
  received-put_0x42 t u s h =
      rw
        (with_text-some 12 (le32 0x42 ++ (le16 u ++ (le16 t ++ le32 0))) s refl
          (omega (arith, h.2)))
        (elim h.1 [
          | inl e ↦
              rw e (
                simp
                  (host_word u h.0, v3_get_msg_string-v3_put_msg_string s _ (omega (arith, h.2))))
          | inr e ↦
              rw e (
                simp
                  (host_word u h.0, v3_get_msg_string-v3_put_msg_string s _ (omega (arith, h.2))))
        ])

  pub received-put_0x3f :
      (s : List ℕ)
      → Fits (put_0x3f (some s))
      → received fill (put_0x3f (some s)) ≡ some (reading (put_0x3f (some s)))
  unfolding bytes_sent v3_put_0x3f v3_get_message v3_get_0x3f
  received-put_0x3f s h =
      rw (speech-some 0x3f s h) (simp (v3_get_msg_string-v3_put_msg_string s _ (omega arith)))

  pub received-put_0x42_none :
      (t u : ℕ)
      → Fits (put_0x42 t u none)
      → received fill (put_0x42 t u none) ≡ some (reading (put_0x42 t u none))
  unfolding bytes_sent v3_put_0x42 v3_get_message v3_get_0x42
  received-put_0x42_none t u h =
      rw (with_text-none 12 (le32 0x42 ++ (le16 u ++ (le16 t ++ le32 0))) refl)
        (elim h.1 [ inl e ↦ rw e (simp (host_word u h.0)) | inr e ↦ rw e (simp (host_word u h.0)) ])

  pub received-put_0x5a_none :
      (t u v : ℕ)
      → Fits (put_0x5a t u v none)
      → received fill (put_0x5a t u v none) ≡ some (reading (put_0x5a t u v none))
  unfolding bytes_sent v3_put_0x5a v3_get_message v3_get_0x5a
  received-put_0x5a_none t u v h =
      rw (with_text-none 12 (le32 0x5a ++ (le16 t ++ (le16 0 ++ (le16 u ++ le16 v)))) refl)
        (elim h.2 [
          | inl e ↦ rw e (simp (host_word u h.0, host_word v h.1))
          | inr e ↦ rw e (simp (host_word u h.0, host_word v h.1))
        ])

  pub received-put_0x5a :
      (t u v : ℕ) (s : List ℕ)
      → Fits (put_0x5a t u v (some s))
      → received fill (put_0x5a t u v (some s)) ≡ some (reading (put_0x5a t u v (some s)))
  unfolding bytes_sent v3_put_0x5a v3_get_message v3_get_0x5a
  received-put_0x5a t u v s h =
      rw
        (
          with_text-some 12 (le32 0x5a ++ (le16 t ++ (le16 0 ++ (le16 u ++ le16 v)))) s refl
              (omega (arith, h.3)),
          h.2,
        )
        (simp (
          host_word u h.0,
          host_word v h.1,
          v3_get_msg_string-v3_put_msg_string s _ (omega (arith, h.3)),
        ))

  -- A setting of the server is read back, with its text or without.
  pub v3_get_0x4c-v3_put_0x4c :
      (t p i : ℕ) (s : List ℕ)
      → IsWord t
      → IsWord p
      → IsWord i
      → length s < 65522
      → (bytes_sent (put_0x4c t p i (some s)) >>= λ xs. v3_get_0x4c fill xs)
        ≡ parsed (record { subtype = t; property = p; transaction_id = i; value = some s })
  unfolding bytes_sent v3_put_0x4c v3_get_0x4c
  v3_get_0x4c-v3_put_0x4c t p i s ht hp hi hs =
      rw
        (
          with_text-some 12 (le32 0x4c ++ (le16 t ++ (le16 p ++ (le16 0 ++ le16 i)))) s refl
              (omega arith),
          length-v3_put_msg_string s (omega arith),
          lt→ltb 12
              (suc (suc (suc (suc (suc (suc (suc (suc (suc (suc (suc (suc (length s + 2)))))))))))))
              (omega arith),
        )
        (simp (
          host_word t ht,
          host_word p hp,
          host_word i hi,
          v3_get_msg_string-v3_put_msg_string s _ (omega arith),
        ))

  pub v3_get_0x4c-v3_put_0x4c_none :
      (t p i : ℕ)
      → IsWord t
      → IsWord p
      → IsWord i
      → (bytes_sent (put_0x4c t p i none) >>= λ xs. v3_get_0x4c fill xs)
        ≡ parsed (record { subtype = t; property = p; transaction_id = i; value = none })
  unfolding bytes_sent v3_put_0x4c v3_get_0x4c
  v3_get_0x4c-v3_put_0x4c_none t p i ht hp hi =
      rw (with_text-none 12 (le32 0x4c ++ (le16 t ++ (le16 p ++ (le16 0 ++ le16 i)))) refl)
        (simp (host_word t ht, host_word p hp, host_word i hi))
