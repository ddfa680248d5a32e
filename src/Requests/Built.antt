-- ===== src/Requests/Built.antt =====
-- The messages that requests are made of are built within the memory that is allocated for them.
use ventmac.Prelude.{
  ℕ, ◌+◌, ◌<◌, ◌≡◌, ◌∙◌, refl, ◌⊎◌, inl, inr, List, [], ◌∷◌, ◌++◌, Option, none, some, arith, All,
  All-replicate, IsByte, length, length-append, replicate, ◌==◌, ◌||◌, if◌then◌else◌, ◌>>=◌,
}
use ventmac.Wire.{memcpy, v3_put_msg_string}
use ventmac.Wire.Scalars.{length-v3_put_msg_string}
use ventmac.Wire.Structs.{MsgUser, MsgAccount, le16, v3_put_msg_user, v3_put_msg_rank}
use ventmac.Messages.{allocate, le32, strncpy}
use ventmac.Messages.Fixed.{v3_put_0x3b, v3_put_0x46, v3_put_0x58, v3_put_0x62}
use ventmac.Messages.Texts.{v3_put_0x3a, v3_put_0x3f, v3_put_0x42, v3_put_0x4c, v3_put_0x5a}
use ventmac.Messages.Records.{v3_put_0x36}
use ventmac.Messages.Members.{user_bytes, v3_put_0x4a, v3_put_0x5d, contents_0x63, v3_put_0x63}
use ventmac.Messages.Password.Total.{v3_hash_password-IsTotal}
use ventmac.Messages.Outgoing.{
  Outgoing, put_0x36, put_0x3a, put_0x3b, put_0x3f, put_0x42, put_0x46, put_0x4a, put_0x4c,
  put_0x58, put_0x5a, put_0x5d, put_0x62, put_0x63, bytes_sent,
}
use ventmac.Messages.Read.{length-strncpy, memcpy_all, with_text-some, with_text-none, speech-some}
use ventmac.Messages.RoundTrip.{Fits}
use ventmac.Messages.RoundTrip.Every.{received-build}
use ventmac.Messages.RoundTrip.Members.{sent_prefix}

-- The message is built and sent without an access out of bounds.
abbrev pub IsBuilt : Outgoing → Type 0
IsBuilt p = (xs : List ℕ) × (bytes_sent p ≡ some xs)

first_step {ℓ κ} :
    {A : Type ℓ} {B : Type κ} (o : Option A) (f : A → Option B) (b : B)
    → (o >>= f) ≡ some b
    → (a : A) × (o ≡ some a)
first_step none f b e = absurd (cc)
first_step (some a) f b e = (a, refl)

pub Fits-IsBuilt : (p : Outgoing) → Fits p → IsBuilt p
Fits-IsBuilt p h = first_step (bytes_sent p) _ _ (received-build [] p h)

pub put_0x3a-IsBuilt : (s : List ℕ) → length s < 256 → IsBuilt (put_0x3a (some s))
unfolding bytes_sent v3_put_0x3a
put_0x3a-IsBuilt s h = (_, speech-some 0x3a s (omega arith))

pub put_0x3f-IsBuilt : (s : List ℕ) → length s < 256 → IsBuilt (put_0x3f (some s))
unfolding bytes_sent v3_put_0x3f
put_0x3f-IsBuilt s h = (_, speech-some 0x3f s (omega arith))

pub put_0x42-IsBuilt : (t u : ℕ) (s : List ℕ) → length s < 256 → IsBuilt (put_0x42 t u (some s))
unfolding bytes_sent v3_put_0x42
put_0x42-IsBuilt t u s h =
    (_, with_text-some 12 (le32 0x42 ++ (le16 u ++ (le16 t ++ le32 0))) s refl (omega arith))

pub put_0x42_none-IsBuilt : (t u : ℕ) → IsBuilt (put_0x42 t u none)
unfolding bytes_sent v3_put_0x42
put_0x42_none-IsBuilt t u =
    (_, with_text-none 12 (le32 0x42 ++ (le16 u ++ (le16 t ++ le32 0))) refl)

pub put_0x5a-IsBuilt : (t u v : ℕ) (s : List ℕ) → length s < 256 → IsBuilt (put_0x5a t u v (some s))
unfolding bytes_sent v3_put_0x5a
put_0x5a-IsBuilt t u v s h = (
  _,
  with_text-some 12 (le32 0x5a ++ (le16 t ++ (le16 0 ++ (le16 u ++ le16 v)))) s refl (omega arith),
)

pub put_0x5a_none-IsBuilt : (t u v : ℕ) → IsBuilt (put_0x5a t u v none)
unfolding bytes_sent v3_put_0x5a
put_0x5a_none-IsBuilt t u v =
    (_, with_text-none 12 (le32 0x5a ++ (le16 t ++ (le16 0 ++ (le16 u ++ le16 v)))) refl)

pub put_0x4c-IsBuilt : (t p i : ℕ) (s : List ℕ) → length s < 256 → IsBuilt (put_0x4c t p i (some s))
unfolding bytes_sent v3_put_0x4c
put_0x4c-IsBuilt t p i s h = (
  _,
  with_text-some 12 (le32 0x4c ++ (le16 t ++ (le16 p ++ (le16 0 ++ le16 i)))) s refl (omega arith),
)

pub put_0x4c_none-IsBuilt : (t p i : ℕ) → IsBuilt (put_0x4c t p i none)
unfolding bytes_sent v3_put_0x4c
put_0x4c_none-IsBuilt t p i =
    (_, with_text-none 12 (le32 0x4c ++ (le16 t ++ (le16 p ++ (le16 0 ++ le16 i)))) refl)

pub put_0x3b-IsBuilt : (i c : ℕ) → IsBuilt (put_0x3b i c)
unfolding bytes_sent v3_put_0x3b memcpy
put_0x3b-IsBuilt i c = ((v3_put_0x3b i c).bytes, refl)

pub put_0x46-IsBuilt : (u s v : ℕ) → IsBuilt (put_0x46 u s v)
unfolding bytes_sent v3_put_0x46 memcpy
put_0x46-IsBuilt u s v = ((v3_put_0x46 u s v).bytes, refl)

pub put_0x58-IsBuilt : (r s c p : ℕ) → IsBuilt (put_0x58 r s c p)
unfolding bytes_sent v3_put_0x58 memcpy
put_0x58-IsBuilt r s c p = ((v3_put_0x58 r s c p).bytes, refl)

pub put_0x62-IsBuilt : (f u : ℕ) → IsBuilt (put_0x62 f u)
unfolding bytes_sent v3_put_0x62 memcpy
put_0x62-IsBuilt f u = ((v3_put_0x62 f u).bytes, refl)

-- A list of ranks is asked for, and no longer.
pub ranklist-IsBuilt : (t : ℕ) → (t ≡ 1) ⊎ (t ≡ 2) → IsBuilt (put_0x36 t none)
unfolding bytes_sent v3_put_0x36 allocate memcpy
ranklist-IsBuilt t (inl e) = rw e (_, refl)
ranklist-IsBuilt t (inr e) = rw e (_, refl)

-- A rank is removed by its numbers.
pub rank_remove-IsBuilt :
    (id level : ℕ)
    → IsBuilt (put_0x36 4 (some (record { id = id; level = level; name = []; description = [] })))
unfolding bytes_sent v3_put_0x36 v3_put_msg_rank v3_put_msg_string allocate memcpy
rank_remove-IsBuilt id level = (_, refl)

-- The messages about accounts that are no longer than the header and permissions.
pub userlist-IsBuilt : (t : ℕ) → (t ≡ 0) ⊎ (t ≡ 4) → IsBuilt (put_0x4a t none none)
unfolding bytes_sent v3_put_0x4a memcpy
userlist-IsBuilt t (inl e) = rw e (_, refl)
userlist-IsBuilt t (inr e) = rw e (_, refl)

pub userlist_remove-IsBuilt : (a : MsgAccount) → IsBuilt (put_0x4a 2 (some a) none)
unfolding bytes_sent v3_put_0x4a memcpy
userlist_remove-IsBuilt a = (_, refl)

pub change_owner-IsBuilt : (a b : MsgAccount) → IsBuilt (put_0x4a 6 (some a) (some b))
unfolding bytes_sent v3_put_0x4a memcpy
change_owner-IsBuilt a b = (_, refl)

length-v3_put_msg_user :
    (u : MsgUser)
    → length u.name < 256
    → length u.phonetic < 256
    → length u.comment < 256
    → length u.integration_text < 256
    → length u.url < 256
    → length (v3_put_msg_user u)
      ≡ 18
        + length u.name
        + length u.phonetic
        + length u.comment
        + length u.integration_text
        + length u.url
unfolding v3_put_msg_user
length-v3_put_msg_user u n p c i l = simp length-append (
    omega (
      arith,
      length-v3_put_msg_string u.name (omega arith),
      length-v3_put_msg_string u.phonetic (omega arith),
      length-v3_put_msg_string u.comment (omega arith),
      length-v3_put_msg_string u.integration_text (omega arith),
      length-v3_put_msg_string u.url (omega arith),
    ))

-- One user with three texts and two empty ones fits the memory for a user.
pub put_0x5d-IsBuilt :
    (u : MsgUser)
    → u.name ≡ []
    → u.phonetic ≡ []
    → length u.comment < 128
    → length u.integration_text < 128
    → length u.url < 128
    → IsBuilt (put_0x5d 2 (u ∷ []))
unfolding bytes_sent v3_put_0x5d user_bytes
put_0x5d-IsBuilt u n p c i l =
    let en : length u.name ≡ 0 = rw n in
    let ep : length u.phonetic ≡ 0 = rw p in
    let size : length (v3_put_msg_user u ++ []) ≡ length (v3_put_msg_user u) =
      length-append (v3_put_msg_user u) [] ∙ omega arith in
    let e =
      length-v3_put_msg_user u (omega arith) (omega arith) (omega arith) (omega arith)
        (omega arith) in
    (
      _,
      sent_prefix 536 (le32 0x5d ++ (le16 2 ++ (le16 1 ++ (v3_put_msg_user u ++ []))))
          (omega (arith, size, e, en, ep)) (omega (arith, size, e, en, ep)),
    )

-- A request of an administrator, whose contents have 128 bytes.
abbrev bytes_0x63 : (t u : ℕ) → List ℕ → List ℕ
bytes_0x63 t u contents =
    let user = if (t == 1) || ((t == 3) || (t == 5)) then u else 0 in
    le32 0x63 ++ (le16 t ++ (le16 user ++ (le32 0 ++ contents)))

contents-IsBuilt :
    (t u : ℕ) (string : Option (List ℕ)) (contents : List ℕ)
    → contents_0x63 t string ≡ some contents
    → length contents ≡ 128
    → IsBuilt (put_0x63 t u string)
unfolding bytes_sent v3_put_0x63
contents-IsBuilt t u string contents e n =
    let all : memcpy 140 (bytes_0x63 t u contents) ≡ some (bytes_0x63 t u contents) =
      memcpy_all 140 (bytes_0x63 t u contents) (omega (arith, n)) in
    (bytes_0x63 t u contents, rw e all)

pub admin_login-IsBuilt :
    (password : List ℕ) → All IsByte password → IsBuilt (put_0x63 0 0 (some password))
unfolding contents_0x63
admin_login-IsBuilt password h =
    let r =
      v3_hash_password-IsTotal password (replicate 32 0) h refl
        (All-replicate IsByte 32 0 (omega arith)) in
    contents-IsBuilt 0 0 (some password) (r.0 ++ replicate 96 0) (rw r.1)
      (length-append r.0 (replicate 96 0) ∙ omega (arith, r.2))

pub admin_logout-IsBuilt : IsBuilt (put_0x63 4 0 none)
unfolding contents_0x63
admin_logout-IsBuilt = contents-IsBuilt 4 0 none (replicate 128 0) refl refl

pub admin_boot-IsBuilt :
    (t u : ℕ) (reason : List ℕ)
    → (t ≡ 1) ⊎ ((t ≡ 3) ⊎ (t ≡ 5))
    → IsBuilt (put_0x63 t u (some reason))
unfolding contents_0x63
admin_boot-IsBuilt t u reason k =
    contents-IsBuilt t u (some reason) (strncpy 128 reason)
      (elim k [ inl e ↦ rw e | inr (inl e) ↦ rw e | inr (inr e) ↦ rw e ])
      (length-strncpy 128 reason)
