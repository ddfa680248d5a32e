-- ===== src/Messages/Read.antt =====
-- What is built is sent as it was written, when its length is that of the memory.
use ventmac.Prelude.{
  ℕ, zero, suc, ◌+◌, ◌-◌, ◌^◌, ◌<◌, ◌≤◌, true, ◌≡◌, ◌∙◌, refl, ap, List, [], ◌∷◌, ◌++◌, append-nil,
  none, some, arith, length, length-append, take_all, replicate, u16, leb, ◌>>=◌,
}
use ventmac.Wire.{memcpy, v3_put_msg_string}
use ventmac.Wire.Scalars.{length-v3_put_msg_string}
use ventmac.Messages.{allocate, sent, le32, strncpy}
use ventmac.Messages.Texts.{speech, with_text}

pub memcpy_all : (n : ℕ) (xs : List ℕ) → length xs ≡ n → memcpy n xs ≡ some xs
unfolding memcpy
memcpy_all n xs e = rw (← e, take_all xs) (ground arith)

pub allocate_all : (n : ℕ) (xs : List ℕ) → length xs ≡ n → allocate n xs ≡ some xs
unfolding allocate
allocate_all n xs e =
    let z : length xs - length xs ≡ 0 = omega arith in rw (← e, z, append-nil xs) (ground arith)

pub allocate_within :
    (n : ℕ) (xs : List ℕ) → length xs ≤ n → allocate n xs ≡ some (xs ++ replicate (n - length xs) 0)
unfolding allocate
allocate_within n xs h = let fits : leb (length xs) n ≡ true = ground arith in rw fits

pub length-strncpy : (n : ℕ) (s : List ℕ) → length (strncpy n s) ≡ n
length-strncpy zero s = refl
length-strncpy (suc n) [] = ap suc (length-strncpy n [])
length-strncpy (suc n) (c ∷ s) = ap suc (length-strncpy n s)

-- What is allocated and filled in full is sent in full.
pub sent_all :
    (n : ℕ) (xs : List ℕ)
    → length xs ≡ n
    → (allocate n xs >>= λ bytes. some (record { len = n; bytes = bytes })) >>= sent ≡ some xs
sent_all n xs e = rw (allocate_all n xs e) (memcpy_all n xs e)

-- A structure of `base` bytes and a string behind it are sent as they are.
pub with_text-some :
    (base : ℕ) (head s : List ℕ)
    → length head ≡ base
    → base + length s + 2 < 2 ^ 16
    → (with_text base head (some s) >>= sent) ≡ some (head ++ v3_put_msg_string (some s))
unfolding with_text
with_text-some base head s e h =
    let n : u16 (base + length s + 2) ≡ base + length s + 2 = omega arith in
    rw n (
      sent_all _ _ (
        length-append head (v3_put_msg_string (some s))
        ∙ omega (arith, e, length-v3_put_msg_string s (omega arith))))

pub with_text-none :
    (base : ℕ) (head : List ℕ)
    → length head ≡ base
    → (with_text base head none >>= sent) ≡ some head
unfolding with_text
with_text-none base head e = sent_all base head e

pub speech-some :
    (type : ℕ) (s : List ℕ)
    → length s < 65526
    → (speech type (some s) >>= sent) ≡ some (le32 type ++ (le32 0 ++ v3_put_msg_string (some s)))
unfolding speech
speech-some type s h =
    let n : u16 (10 + length s) ≡ 10 + length s = omega arith in
    rw n (sent_all _ _ (omega (arith, length-v3_put_msg_string s (omega arith))))
