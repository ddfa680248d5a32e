-- ===== src/Wire/Structs/RoundTrip.antt =====
-- The shared structures are read from a packet as they were written.
use ventmac.Prelude.{
  ℕ, zero, suc, ◌+◌, ◌*◌, ◌/◌, ◌^◌, ◌<◌, ◌≡◌, refl, sym, ap₂, List, [], ◌∷◌, ◌++◌, append_assoc,
  length-append, some, arith, length, All, drop, u8, IsByte,
}
use ventmac.Wire.{be16, v3_put_msg_string}
use ventmac.Wire.Structs.{
  MsgUser, MsgChannel, MsgRank, MsgAccount, sizeof_permissions, le16s, u16s, v3_get_msg_user,
  v3_put_msg_user, v3_get_msg_channel, v3_put_msg_channel, v3_get_msg_rank, v3_put_msg_rank,
  v3_get_msg_account, v3_put_msg_account,
}
use ventmac.Wire.Scalars.{
  length-v3_put_msg_string, memcpy-prefix, drop_of_length, IsShort, IsWord, words,
  next_string-v3_put_msg_string, next_array-words, v3_put_msg_uint16_array-words,
}

pub byte : (n : ℕ) → IsByte n → u8 n ≡ n
byte n h = omega arith

pub host_word : (n : ℕ) → IsWord n → u8 n + u8 (n / 2 ^ 8) * 2 ^ 8 ≡ n
host_word n h = omega arith

-- The numbers fit their fields and the strings their length.
pub record FitsUser (u : MsgUser) : Type 0 where
  pub numbers : IsWord u.id × IsWord u.channel × IsWord u.bitfield × IsWord u.rank_id
  pub name : IsShort u.name
  pub phonetic : IsShort u.phonetic
  pub comment : IsShort u.comment
  pub integration_text : IsShort u.integration_text
  pub url : IsShort u.url

-- A user is read back field for field, whatever follows in the packet, and reading goes on behind
-- it; the numbers must fit 16 bits and the strings be shorter than 65534 bytes.
pub v3_get_msg_user-v3_put_msg_user :
    (u : MsgUser) (rest : List ℕ)
    → FitsUser u
    → v3_get_msg_user (v3_put_msg_user u ++ rest) ≡ some (u, rest)
unfolding v3_get_msg_user v3_put_msg_user
v3_get_msg_user-v3_put_msg_user u rest f = simp (
  append_assoc,
  host_word u.id f.numbers.0,
  host_word u.channel f.numbers.1,
  host_word u.bitfield f.numbers.2,
  host_word u.rank_id f.numbers.3,
  next_string-v3_put_msg_string u.name _ f.name,
  next_string-v3_put_msg_string u.phonetic _ f.phonetic,
  next_string-v3_put_msg_string u.comment _ f.comment,
  next_string-v3_put_msg_string u.integration_text _ f.integration_text,
  next_string-v3_put_msg_string u.url _ f.url,
)

pub record FitsRank (r : MsgRank) : Type 0 where
  pub numbers : IsWord r.id × IsWord r.level
  pub name : IsShort r.name
  pub description : IsShort r.description

-- A rank is read back field for field, whatever follows in the packet, and reading goes on behind
-- it; the numbers must fit 16 bits and the strings be shorter than 65534 bytes.
pub v3_get_msg_rank-v3_put_msg_rank :
    (r : MsgRank) (rest : List ℕ)
    → FitsRank r
    → v3_get_msg_rank (v3_put_msg_rank r ++ rest) ≡ some (r, rest)
unfolding v3_get_msg_rank v3_put_msg_rank
v3_get_msg_rank-v3_put_msg_rank r rest f = simp (
  append_assoc,
  host_word r.id f.numbers.0,
  host_word r.level f.numbers.1,
  next_string-v3_put_msg_string r.name _ f.name,
  next_string-v3_put_msg_string r.description _ f.description,
)

u16s-le16s :
    (xs rest : List ℕ) (n : ℕ) → length xs ≡ n → All IsWord xs → u16s n (le16s xs ++ rest) ≡ some xs
unfolding u16s le16s
u16s-le16s [] rest zero e w = refl
u16s-le16s [] rest (suc n) e w = absurd (omega arith)
u16s-le16s (x ∷ xs) rest zero e w = absurd (omega arith)
u16s-le16s (x ∷ xs) rest (suc n) e w = rw (host_word x w.0, u16s-le16s xs rest n (omega arith) w.1)

drop-le16s : (xs rest : List ℕ) (n : ℕ) → n ≡ 2 * length xs → drop n (le16s xs ++ rest) ≡ rest
unfolding le16s
drop-le16s [] rest zero h = refl
drop-le16s [] rest (suc n) h = absurd (omega arith)
drop-le16s (x ∷ xs) rest zero h = absurd (omega arith)
drop-le16s (x ∷ xs) rest (suc zero) h = absurd (omega arith)
drop-le16s (x ∷ xs) rest (suc (suc n)) h = drop-le16s xs rest n (omega arith)

pub record FitsChannel (c : MsgChannel) : Type 0 where
  pub numbers : IsWord c.id × IsWord c.parent × IsByte c.unknown_1 × IsByte c.password_protected
  pub number_of_settings : length c.settings ≡ 21
  pub words_of_settings : All IsWord c.settings
  pub name : IsShort c.name
  pub phonetic : IsShort c.phonetic
  pub comment : IsShort c.comment

-- A channel is read back field for field, whatever follows in the packet, and reading goes on behind
-- it; the numbers must fit their fields and the strings be shorter than 65534 bytes.
pub v3_get_msg_channel-v3_put_msg_channel :
    (c : MsgChannel) (rest : List ℕ)
    → FitsChannel c
    → v3_get_msg_channel (v3_put_msg_channel c ++ rest) ≡ some (c, rest)
unfolding v3_get_msg_channel v3_put_msg_channel
v3_get_msg_channel-v3_put_msg_channel c rest f = simp (
  append_assoc,
  host_word c.id f.numbers.0,
  host_word c.parent f.numbers.1,
  byte c.unknown_1 f.numbers.2,
  byte c.password_protected f.numbers.3,
  u16s-le16s c.settings _ 21 f.number_of_settings f.words_of_settings,
  drop-le16s c.settings _ 42 (omega (arith, f.number_of_settings)),
  next_string-v3_put_msg_string c.name _ f.name,
  next_string-v3_put_msg_string c.phonetic _ f.phonetic,
  next_string-v3_put_msg_string c.comment _ f.comment,
)

pub record FitsAccount (a : MsgAccount) : Type 0 where
  pub number_of_perms : length a.perms ≡ sizeof_permissions
  pub username : IsShort a.username
  pub owner : IsShort a.owner
  pub notes : IsShort a.notes
  pub lock_reason : IsShort a.lock_reason
  pub admin_count : a.chan_admin_count ≡ length a.chan_admin
  pub admin_small : length a.chan_admin < 32767
  pub admin_words : All IsWord a.chan_admin
  pub auth_count : a.chan_auth_count ≡ length a.chan_auth
  pub auth_small : length a.chan_auth < 32767
  pub auth_words : All IsWord a.chan_auth

-- What is written for an account.
pub record Written (a : MsgAccount) (rest : List ℕ) : Type 0 where
  pub out : List ℕ
  pub puts : v3_put_msg_account a ≡ some out
  pub gets : v3_get_msg_account (out ++ rest) ≡ some (a, rest)
  pub size :
      length out
      ≡ sizeof_permissions
        + (length a.username + 2)
        + (length a.owner + 2)
        + (length a.notes + 2)
        + (length a.lock_reason + 2)
        + (length a.chan_admin * 2 + 2)
        + (length a.chan_auth * 2 + 2)

length-words : (xs : List ℕ) → length (words xs) ≡ 2 * length xs
length-words [] = refl
length-words (x ∷ xs) = omega (arith, length-words xs)

abbrev account_bytes : MsgAccount → List ℕ
account_bytes a =
    a.perms
    ++ (v3_put_msg_string (some a.username)
        ++ (v3_put_msg_string (some a.owner)
            ++ (v3_put_msg_string (some a.notes)
                ++ (v3_put_msg_string (some a.lock_reason)
                    ++ ((be16 (length a.chan_admin) ++ words a.chan_admin)
                        ++ (be16 (length a.chan_auth) ++ words a.chan_auth))))))

length-account_bytes :
    (a : MsgAccount)
    → FitsAccount a
    → length (account_bytes a)
      ≡ sizeof_permissions
        + (length a.username + 2)
        + (length a.owner + 2)
        + (length a.notes + 2)
        + (length a.lock_reason + 2)
        + (length a.chan_admin * 2 + 2)
        + (length a.chan_auth * 2 + 2)
length-account_bytes a f = simp length-append (
    omega (
      arith,
      f.number_of_perms,
      length-v3_put_msg_string a.username f.username,
      length-v3_put_msg_string a.owner f.owner,
      length-v3_put_msg_string a.notes f.notes,
      length-v3_put_msg_string a.lock_reason f.lock_reason,
      length-words a.chan_admin,
      length-words a.chan_auth,
    ))

-- An account is written without reading past its arrays, and read back field for field, whatever
-- follows in the packet; its bytes are as many as its fields say. The counts must be those of the arrays, with fewer than 32767 elements, and
-- the strings be shorter than 65534 bytes.
pub v3_get_msg_account-v3_put_msg_account :
    (a : MsgAccount) (rest : List ℕ) → FitsAccount a → Written a rest
unfolding v3_get_msg_account v3_put_msg_account
v3_get_msg_account-v3_put_msg_account a rest f = record {
  out = account_bytes a;
  puts = simp (
    f.admin_count,
    f.auth_count,
    v3_put_msg_uint16_array-words a.chan_admin f.admin_small,
    v3_put_msg_uint16_array-words a.chan_auth f.auth_small,
  );
  gets =
      simp
        (
          append_assoc,
          memcpy-prefix a.perms _ 104 f.number_of_perms,
          drop_of_length a.perms _ 104 f.number_of_perms,
          next_string-v3_put_msg_string a.username _ f.username,
          next_string-v3_put_msg_string a.owner _ f.owner,
          next_string-v3_put_msg_string a.notes _ f.notes,
          next_string-v3_put_msg_string a.lock_reason _ f.lock_reason,
          next_array-words a.chan_admin _ f.admin_small f.admin_words,
          next_array-words a.chan_auth _ f.auth_small f.auth_words,
        )
        (ap₂ (λ m n. some (record a { chan_admin_count = m; chan_auth_count = n }, rest))
          (sym f.admin_count) (sym f.auth_count));
  size = length-account_bytes a f;
}
