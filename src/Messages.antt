-- ===== src/Messages.antt =====
-- Sources/CVentrilo3/libventrilo3_message.c, from `_v3_put_0x00` to `_v3_put_0x63`, with the structures
-- of libventrilo3_message.h: the messages of the protocol, built to be sent and parsed when received.
-- A packed structure is the list of its bytes, in the order of the host, which is little-endian. A
-- string is its bytes before the final NUL; `none` is a NULL pointer.
pub mod HashTable
pub mod Password
pub mod Fixed
pub mod Texts
pub mod Records
pub mod Members
pub mod Incoming
pub mod Outgoing
pub mod Read
pub mod RoundTrip
mod Examples
use ventmac.Prelude.{
  ℕ, zero, suc, ◌+◌, ◌-◌, ◌*◌, ◌/◌, ◌^◌, List, [], ◌∷◌, ◌++◌, Option, none, some, length, get_or,
  take, replicate, u8, leb, if◌then◌else◌,
}
use ventmac.Wire.{memcpy}

-- `m->len` and the memory at `m->data`.
pub record Built : Type 0 where
  pub len : ℕ
  pub bytes : List ℕ

-- A zeroed allocation of `n` bytes that is written from its start; `none` is a write past its end.
unfoldable pub allocate : ℕ → List ℕ → Option (List ℕ)
allocate n xs = if leb (length xs) n then some (xs ++ replicate (n - length xs) 0) else none

-- What `_v3_send` reads: `m->len` bytes from `m->data`.
abbrev pub sent : Built → Option (List ℕ)
sent m = memcpy m.len m.bytes

-- A message whose structure is sent as it is.
abbrev pub whole : ℕ → List ℕ → Built
whole size xs = record { len = size; bytes = xs }

-- A `uint32_t` in the memory of the host.
abbrev pub le32 : ℕ → List ℕ
le32 n = u8 n ∷ u8 (n / 2 ^ 8) ∷ u8 (n / 2 ^ 16) ∷ u8 (n / 2 ^ 24) ∷ []

-- The fields of two and of four bytes at an offset.
abbrev pub word : List ℕ → ℕ → ℕ
word xs k = get_or xs k 0 + get_or xs (k + 1) 0 * 2 ^ 8

abbrev pub dword : List ℕ → ℕ → ℕ
dword xs k = word xs k + word xs (k + 2) * 2 ^ 16

-- `strncpy(field, s, n)`.
abbrev pub strncpy : ℕ → List ℕ → List ℕ
strncpy zero s = []
strncpy (suc n) [] = 0 ∷ strncpy n []
strncpy (suc n) (c ∷ s) = c ∷ strncpy n s

-- What a parser gives: `none` is a read past the end of the message, `some none` is false.
abbrev pub Parsed : Type 0 → Type 0
Parsed A = Option (Option A)

abbrev pub refused : {A : Type 0} → Parsed A
refused = some none

abbrev pub parsed : {A : Type 0} → A → Parsed A
parsed a = some (some a)

-- `realloc(msg->data, size)` for a message that is shorter; `fill` is what the memory behind it holds.
abbrev pub realloc : ℕ → List ℕ → List ℕ → List ℕ
realloc size fill xs = xs ++ take (size - length xs) fill
