-- ===== src/Messages/Examples.antt =====
-- Tests of the messages, and their theorems at concrete inputs.
use ventmac.Prelude.{
  ℕ, ◌≡◌, refl, inl, List, [], ◌∷◌, Option, none, some, arith, All, IsByte, All-replicate, length,
  replicate,
}
use ventmac.Wire.Scalars.{IsWord}
use ventmac.Wire.Structs.{MsgChannel}
use ventmac.Wire.Structs.RoundTrip.{FitsChannel}
use ventmac.Messages.Password.{
  v3_hash_password, hash_loop, hash_round, first_value, crc_loop, skip_zeros,
}
use ventmac.Messages.Password.Total.{v3_hash_password-IsTotal}
use ventmac.Messages.Outgoing.{Outgoing, put_0x49}
use ventmac.Messages.RoundTrip.{received, reading, Fits}
use ventmac.Messages.RoundTrip.Every.{received-build}

abbrev secret : List ℕ
secret = b'a' ∷ b'b' ∷ b'c' ∷ []

-- The hash has 32 bytes.
abbrev size : Option (List ℕ) → ℕ
size none = 0
size (some hash) = length hash

hash_of_secret : size (v3_hash_password secret (replicate 32 0)) ≡ 32
unfolding v3_hash_password hash_loop hash_round first_value crc_loop skip_zeros
hash_of_secret = refl

v3_hash_password-IsTotal_example :
    (hash : List ℕ) × (v3_hash_password secret (replicate 32 0) ≡ some hash)
    × (length hash ≡ 32)
    × All IsByte hash
v3_hash_password-IsTotal_example =
    v3_hash_password-IsTotal secret (replicate 32 0) (omega arith, (omega arith, (omega arith, tt)))
      refl (All-replicate IsByte 32 0 (omega arith))

abbrev room : MsgChannel
room = record {
  id = 8;
  parent = 3;
  unknown_1 = 0;
  password_protected = 1;
  settings = replicate 21 1;
  name = b'r' ∷ b'o' ∷ b'o' ∷ b'm' ∷ [];
  phonetic = [];
  comment = b'!' ∷ [];
}

abbrev new_room : Outgoing
new_room = put_0x49 1 7 (some secret) room

room_fits : FitsChannel room
room_fits = record {
  numbers = (omega arith, omega arith, omega arith, omega arith);
  number_of_settings = refl;
  words_of_settings = All-replicate IsWord 21 1 (omega arith);
  name = omega arith;
  phonetic = omega arith;
  comment = omega arith;
}

new_room-Fits : Fits new_room
new_room-Fits = (
  omega arith,
  inl (inl refl),
  room_fits,
  omega arith,
  (omega arith, (omega arith, (omega arith, tt))),
)

received-build_example : received [] new_room ≡ some (reading new_room)
received-build_example = received-build [] new_room new_room-Fits
