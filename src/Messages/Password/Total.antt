-- ===== src/Messages/Password/Total.antt =====
-- The hash of a password is always complete: its search ends, and no access is out of bounds.
use ventmac.Prelude.{
  ℕ, zero, suc, ◌+◌, ◌-◌, ◌/◌, ◌%◌, ◌^◌, ◌<◌, ◌≡◌, ◌≢◌, ◌⊎◌, inl, inr, refl, sym, ap, ◌∙◌, bit_xor,
  bit_xor-byte, bit_xor-dword, Bool, true, false, ◌&&◌, List, [], ◌∷◌, Option, some, arith, All,
  All-take, IsByte, Bool-cases, length, length-set, get_elem?, get_elem?-eq-get_or, get_or, set,
  take, u8, u32, ltb, ◌==◌, if◌then◌else◌,
}
use ventmac.Messages.HashTable.{v3_hash_table}
use ventmac.Messages.Password.{
  crc_loop, be32, tmp_byte, skip_zeros, first_value, hash_round, hash_loop, v3_hash_password,
}

-- A step that gives a value with a property.
record Gives (A : Type 0) (P : A → Type 0) (o : Option A) : Type 0 where
  value : A
  given : o ≡ some value
  holds : P value

all_dwords : List ℕ → Bool
all_dwords [] = true
all_dwords (x ∷ xs) = ltb x (2 ^ 32) && all_dwords xs

get_or-all_dwords : (xs : List ℕ) (i : ℕ) → all_dwords xs ≡ true → get_or xs i 0 < 2 ^ 32
unfolding all_dwords
get_or-all_dwords [] i h = omega arith
get_or-all_dwords (x ∷ xs) zero h = ground arith
get_or-all_dwords (x ∷ xs) (suc i) h = get_or-all_dwords xs i (ground arith)

table_entry-dword : (i : ℕ) → get_or v3_hash_table i 0 < 2 ^ 32
unfolding all_dwords
table_entry-dword i = get_or-all_dwords v3_hash_table i refl

get_or-IsByte : (xs : List ℕ) (i : ℕ) → All IsByte xs → IsByte (get_or xs i 0)
get_or-IsByte [] i h = omega arith
get_or-IsByte (x ∷ xs) zero h = h.0
get_or-IsByte (x ∷ xs) (suc i) h = get_or-IsByte xs i h.1

All-set-IsByte : (xs : List ℕ) (i v : ℕ) → IsByte v → All IsByte xs → All IsByte (set xs i v)
All-set-IsByte [] i v hv h = tt
All-set-IsByte (x ∷ xs) zero v hv h = (hv, h.1)
All-set-IsByte (x ∷ xs) (suc i) v hv h = (h.0, All-set-IsByte xs i v hv h.1)

crc_loop-total :
    (hs : List ℕ) (crc : ℕ)
    → All IsByte hs
    → crc < 2 ^ 32
    → Gives ℕ (λ r. r < 2 ^ 32) (crc_loop hs crc)
unfolding crc_loop
crc_loop-total [] crc hb hc = record { value = crc; given = refl; holds = hc }
crc_loop-total (h ∷ hs) crc hb hc =
    let i = bit_xor h (u8 crc) in
    let small : i < 256 = bit_xor-byte h (u8 crc) hb.0 (omega arith) in
    let entry = get_or v3_hash_table i 0 in
    let found : get_elem? v3_hash_table i ≡ some entry =
      get_elem?-eq-get_or v3_hash_table i 0 small in
    let rest =
      crc_loop-total hs (bit_xor entry (crc / 2 ^ 8)) hb.1
        (bit_xor-dword entry (crc / 2 ^ 8) (table_entry-dword i) (omega arith)) in
    record { value = rest.value; given = rw found rest.given; holds = rest.holds }

zero_or_not : (n : ℕ) → (n ≡ 0) ⊎ (n ≢ 0)
zero_or_not zero = inl refl
zero_or_not (suc n) = inr (λ e. absurd (omega (arith, e)))

-- Some byte of a checksum that is not 0 is not 0.
nonzero_byte : (crc : ℕ) → crc < 2 ^ 32 → crc ≢ 0 → (j : ℕ) × (j < 4) × (get_or (be32 crc) j 0 ≢ 0)
nonzero_byte crc h n = elim (zero_or_not (u8 (crc / 2 ^ 24))) [
  | inr a ↦ (0, omega arith, a)
  | inl a ↦ elim (zero_or_not (u8 (crc / 2 ^ 16))) [
    | inr b ↦ (1, omega arith, b)
    | inl b ↦ elim (zero_or_not (u8 (crc / 2 ^ 8))) [
      | inr c ↦ (2, omega arith, c)
      | inl c ↦ elim (zero_or_not (u8 crc)) [
        | inr d ↦ (3, omega arith, d)
        | inl d ↦ absurd (n (omega arith))
      ]
    ]
  ]
]

skip_zeros-total :
    (fuel : ℕ) (tmp : List ℕ) (cnt j : ℕ)
    → j < 4
    → get_or tmp j 0 ≢ 0
    → cnt < 2 ^ 32
    → (j + 4 - cnt % 4) % 4 < fuel
    → Gives ℕ (λ r. r < 2 ^ 32) (skip_zeros fuel tmp cnt)
unfolding skip_zeros
skip_zeros-total zero tmp cnt j hj nz hc hf = absurd (omega arith)
skip_zeros-total (suc fuel) tmp cnt j hj nz hc hf = elim (zero_or_not (tmp_byte tmp cnt)) [
  | inl e ↦
      let other : cnt % 4 ≢ j = λ s. nz (ap (λ k. get_or tmp k 0) (sym s) ∙ e) in
      let wrapped : u32 (cnt + 1) % 4 ≡ (cnt + 1) % 4 = omega arith in
      let closer : (j + 4 - u32 (cnt + 1) % 4) % 4 < fuel = omega (arith, wrapped, other) in
      let rest = skip_zeros-total fuel tmp (u32 (cnt + 1)) j hj nz (omega arith) closer in
      record { value = rest.value; given = rw e rest.given; holds = rest.holds }
  | inr e ↦
      let test : (tmp_byte tmp cnt == 0) ≡ false = ground arith in
      record { value = cnt; given = rw test; holds = hc }
]

first_value-total :
    (password hash tmp : List ℕ) (cnt i : ℕ)
    → All IsByte password
    → length hash ≡ 32
    → i < 32
    → Gives ℕ IsByte (first_value password hash tmp cnt i)
unfolding first_value
first_value-total password hash tmp cnt i hp hl hi = elim (Bool-cases (ltb i (length password))) [
  | inl e ↦ record {
    value = get_or password i 0;
    given = rw e (get_elem?-eq-get_or password i 0 (ground arith));
    holds = get_or-IsByte password i hp;
  }
  | inr e ↦
      let k = i - length password in
      let found : get_elem? hash k ≡ some (get_or hash k 0) =
        get_elem?-eq-get_or hash k 0 (omega arith) in
      record {
        value = (tmp_byte tmp (cnt + 1) + get_or hash k 0 + 65) % 2 ^ 7;
        given = rw (e, found);
        holds = omega arith;
      }
]

-- The search of a round, which is made only for a checksum that is not 0.
next_cnt-total :
    (crc cnt : ℕ)
    → crc < 2 ^ 32
    → Gives ℕ
        (λ r. r < 2 ^ 32)
        (if crc == 0 then some (u32 cnt) else skip_zeros 4 (be32 crc) (u32 cnt))
next_cnt-total crc cnt hc = elim (zero_or_not crc) [
  | inl e ↦ record { value = u32 cnt; given = rw e; holds = omega arith }
  | inr e ↦
      let test : (crc == 0) ≡ false = ground arith in
      let j = nonzero_byte crc hc e in
      let found = skip_zeros-total 4 (be32 crc) (u32 cnt) j.0 j.1 j.2 (omega arith) (omega arith) in
      record { value = found.value; given = rw test found.given; holds = found.holds }
]

-- What is known of a hash after any number of rounds.
abbrev IsHash : List ℕ → Type 0
IsHash hash = (length hash ≡ 32) × All IsByte hash

hash_round-total :
    (password hash tmp : List ℕ) (cnt i : ℕ)
    → All IsByte password
    → IsHash hash
    → i < 32
    → Gives (List ℕ × List ℕ × ℕ) (λ r. IsHash r.0) (hash_round password hash tmp cnt i)
unfolding hash_round
hash_round-total password hash tmp cnt i hp hh hi =
    let h = first_value-total password hash tmp cnt i hp hh.0 hi in
    let filled = set hash i h.value in
    let bytes : All IsByte filled = All-set-IsByte hash i h.value h.holds hh.1 in
    let crc =
      crc_loop-total (take (i + 1) filled) 0 (All-take IsByte (i + 1) filled bytes) (omega arith) in
    let next = next_cnt-total crc.value (cnt + h.value) crc.holds in
    let out = u8 (h.value + tmp_byte (be32 crc.value) next.value) in
    record {
      value = (set filled i out, be32 crc.value, u32 (next.value + 1));
      given = rw (h.given, crc.given, next.given);
      holds = (
        length-set filled i out ∙ (length-set hash i h.value ∙ hh.0),
        All-set-IsByte filled i out (omega arith) bytes,
      );
    }

hash_loop-total :
    (password : List ℕ) (n i : ℕ) (hash tmp : List ℕ) (cnt : ℕ)
    → All IsByte password
    → IsHash hash
    → n + i ≡ 32
    → Gives (List ℕ) IsHash (hash_loop password n i hash tmp cnt)
unfolding hash_loop
hash_loop-total password zero i hash tmp cnt hp hh e = record {
  value = hash;
  given = refl;
  holds = hh;
}
hash_loop-total password (suc n) i hash tmp cnt hp hh e =
    let r = hash_round-total password hash tmp cnt i hp hh (omega arith) in
    let rest =
      hash_loop-total password n (i + 1) r.value.0 r.value.1 r.value.2 hp r.holds (omega arith) in
    record { value = rest.value; given = rw r.given rest.given; holds = rest.holds }

-- A password of bytes always has a hash, whatever the memory held before: the search for a byte of the
-- checksum that is not 0 ends within its four bytes, and no table or array is read out of bounds. The
-- hash has 32 bytes.
pub v3_hash_password-IsTotal :
    (password memory : List ℕ)
    → All IsByte password
    → length memory ≡ 32
    → All IsByte memory
    → (hash : List ℕ) × (v3_hash_password password memory ≡ some hash)
      × (length hash ≡ 32)
      × All IsByte hash
unfolding v3_hash_password
v3_hash_password-IsTotal password memory hp hl hm =
    let r =
      hash_loop-total password 32 0 memory (0 ∷ 0 ∷ 0 ∷ 0 ∷ []) (u32 (length password)) hp (hl, hm)
        refl in
    (r.value, r.given, r.holds.0, r.holds.1)
