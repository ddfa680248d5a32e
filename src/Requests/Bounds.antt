-- ===== src/Requests/Bounds.antt =====
-- What the public functions write fits the fields of the event, and so the messages made of it.
use ventmac.Prelude.{
  ℕ, ◌-◌, ◌^◌, ◌<◌, ◌≤◌, ◌≡◌, take_all, inl, inr, refl, true, List, [], ◌∷◌, Option, none, some,
  arith, All, All-take, IsByte, Bool-cases, length, length-take, leb, ◌==◌,
}
use ventmac.Wire.{v3_strip_c0_set}
use ventmac.Wire.Structs.{MsgChannel, MsgRank, MsgAccount}
use ventmac.Wire.Structs.RoundTrip.{FitsChannel, FitsRank, FitsAccount}
use ventmac.Messages.RoundTrip.{account_size, IsHashable}
use ventmac.Requests.{
  ClientEvent, chat_message, text_to_speech_message, play_wave_file_message, private_chat_message,
  change_channel, chan_add, chan_modify, chan_remove, user_modify, rank_add, rank_modify,
  admin_login, userlist_add, userlist_modify, srv_prop_update, field, optional_field,
}
use ventmac.Requests.Write.{cut_channel, cut_rank, own_text}
use ventmac.Requests.Admin.{event_array, event_account}

-- A text in a field of `size` bytes.
abbrev pub IsField : ℕ → List ℕ → Type 0
IsField size s = length s < size

-- What holds of an event that a public function has written.
abbrev pub Written : ClientEvent → Type 0
Written (chat_message text) = IsField 256 text
Written (text_to_speech_message text) = IsField 256 text
Written (play_wave_file_message text) = IsField 256 text
Written (private_chat_message user text) = IsField 256 text
Written (change_channel channel password) = All IsByte password × (channel < 2 ^ 16)
Written (chan_add c password) =
    FitsChannel c
    × IsField 32 c.name
    × IsField 32 c.phonetic
    × IsField 128 c.comment
    × All IsByte password
Written (chan_modify c password) =
    FitsChannel c
    × IsField 32 c.name
    × IsField 32 c.phonetic
    × IsField 128 c.comment
    × All IsByte password
Written (user_modify silent comment url integration_text) =
    IsField 128 comment × IsField 128 url × IsField 128 integration_text
Written (rank_add r) = FitsRank r × IsField 32 r.name × IsField 128 r.description
Written (rank_modify r) = FitsRank r × IsField 32 r.name × IsField 128 r.description
Written (chan_remove channel) = channel < 2 ^ 16
Written (admin_login password) = All IsByte password
Written (userlist_add a) = FitsAccount a × (account_size a < 2 ^ 16)
Written (userlist_modify a) = FitsAccount a × (account_size a < 2 ^ 16)
Written (srv_prop_update p) = IsByte p.chat_filter
Written _ = Unit

pub field-IsField : (size : ℕ) (s : List ℕ) → 0 < size → IsField size (field size s)
field-IsField size s h = omega (arith, length-take (size - 1) s)

length-v3_strip_c0_set : (s : List ℕ) → length (v3_strip_c0_set s) ≡ length s
unfolding v3_strip_c0_set
length-v3_strip_c0_set [] = refl
length-v3_strip_c0_set (c ∷ s) = elim (Bool-cases (c == 0)) [
  | inl e ↦ rw e
  | inr e ↦ rw e (omega (arith, length-v3_strip_c0_set s))
]

pub stripped-IsField :
    (size : ℕ) (s : List ℕ) → 0 < size → IsField size (v3_strip_c0_set (field size s))
stripped-IsField size s h =
    omega (arith, length-v3_strip_c0_set (field size s), length-take (size - 1) s)

pub own_text-IsField : (s : Option (List ℕ)) → IsField 128 (own_text s)
own_text-IsField none = omega arith
own_text-IsField (some s) = stripped-IsField 128 s (omega arith)

pub optional_field-bytes :
    (size : ℕ) (s : Option (List ℕ)) → IsHashable s → All IsByte (optional_field size s)
optional_field-bytes size none h = tt
optional_field-bytes size (some s) h = All-take IsByte (size - 1) s h

pub cut_channel-Fits :
    (c : MsgChannel)
    → FitsChannel c
    → FitsChannel (cut_channel c)
      × IsField 32 (cut_channel c).name
      × IsField 32 (cut_channel c).phonetic
      × IsField 128 (cut_channel c).comment
cut_channel-Fits c f =
    let n : IsField 32 (field 32 c.name) = field-IsField 32 c.name (omega arith) in
    let p : IsField 32 (field 32 c.phonetic) = field-IsField 32 c.phonetic (omega arith) in
    let t : IsField 128 (field 128 c.comment) = field-IsField 128 c.comment (omega arith) in
    (
      record {
        numbers = f.numbers;
        number_of_settings = f.number_of_settings;
        words_of_settings = f.words_of_settings;
        name = omega (arith, n);
        phonetic = omega (arith, p);
        comment = omega (arith, t);
      },
      n,
      p,
      t,
    )

pub cut_rank-Fits :
    (r : MsgRank)
    → FitsRank r
    → FitsRank (cut_rank r) × IsField 32 (cut_rank r).name × IsField 128 (cut_rank r).description
cut_rank-Fits r f =
    let n : IsField 32 (field 32 r.name) = field-IsField 32 r.name (omega arith) in
    let d : IsField 128 (field 128 r.description) = field-IsField 128 r.description (omega arith) in
    (record { numbers = f.numbers; name = omega (arith, n); description = omega (arith, d) }, n, d)

-- An account that the event has room for: at most 32 channels in each of its two arrays.
pub record HasRoom (a : MsgAccount) : Type 0 where
  pub fits : FitsAccount a
  pub admin_room : a.chan_admin_count ≤ 32
  pub auth_room : a.chan_auth_count ≤ 32

event_array-all : (n : ℕ) (xs : List ℕ) → n ≡ length xs → n ≤ 32 → event_array n xs ≡ some xs
unfolding event_array
event_array-all n xs e h =
    let a : leb n 32 ≡ true = ground arith in
    let b : leb n (length xs) ≡ true = ground arith in rw (a, b, e, take_all xs)

-- The account that is written.
abbrev pub cut_account : MsgAccount → MsgAccount
cut_account a = record a {
  username = field 32 a.username;
  owner = field 32 a.owner;
  notes = field 256 a.notes;
  lock_reason = field 128 a.lock_reason;
}

pub event_account-cut : (a : MsgAccount) → HasRoom a → event_account a ≡ some (cut_account a)
unfolding event_account
event_account-cut a h = rw (
  event_array-all a.chan_admin_count a.chan_admin h.fits.admin_count h.admin_room,
  event_array-all a.chan_auth_count a.chan_auth h.fits.auth_count h.auth_room,
)

pub cut_account-Fits :
    (a : MsgAccount)
    → HasRoom a
    → FitsAccount (cut_account a) × (account_size (cut_account a) < 2 ^ 16)
cut_account-Fits a h =
    let u : IsField 32 (field 32 a.username) = field-IsField 32 a.username (omega arith) in
    let o : IsField 32 (field 32 a.owner) = field-IsField 32 a.owner (omega arith) in
    let n : IsField 256 (field 256 a.notes) = field-IsField 256 a.notes (omega arith) in
    let l : IsField 128 (field 128 a.lock_reason) = field-IsField 128 a.lock_reason (omega arith) in
    (
      record {
        number_of_perms = h.fits.number_of_perms;
        username = omega (arith, u);
        owner = omega (arith, o);
        notes = omega (arith, n);
        lock_reason = omega (arith, l);
        admin_count = h.fits.admin_count;
        admin_small = h.fits.admin_small;
        admin_words = h.fits.admin_words;
        auth_count = h.fits.auth_count;
        auth_small = h.fits.auth_small;
        auth_words = h.fits.auth_words;
      },
      omega (arith, u, o, n, l, h.admin_room, h.auth_room),
    )
