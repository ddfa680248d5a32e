-- ===== src/Messages/Incoming.antt =====
-- The parsers in `_v3_process_message` of Sources/CVentrilo3/libventrilo3.c: the switch over the type of
-- a message, up to what its handler is given. The case 0x4c has its own result in `v3_get_0x4c`, the
-- case 0x52 is left out.
use ventmac.Prelude.{ℕ, List, Option, none, some, ◌==◌, if◌then◌else◌, ◌>>=◌}
use ventmac.Handlers.Dispatch.{
  Message, unparsed, other, x06, x33, x34, x36, x37, x3a, x3b, x3c, x3f, x42, x46, x49, x4a, x50,
  x53, x57, x58, x59, x5a, x5c, x5d, x60, x61, x62, Handler, v3_process_message,
}
use ventmac.Messages.{word, Parsed}
use ventmac.Messages.Fixed.{
  v3_get_0x37, v3_get_0x3b, v3_get_0x3c, v3_get_0x46, v3_get_0x53, v3_get_0x57, v3_get_0x58,
  v3_get_0x5c, v3_get_0x61, v3_get_0x62,
}
use ventmac.Messages.Texts.{v3_get_0x3a, v3_get_0x3f, v3_get_0x42, v3_get_0x59, v3_get_0x5a}
use ventmac.Messages.Records.{v3_get_0x06, v3_get_0x33, v3_get_0x36, v3_get_0x49, v3_get_0x60}
use ventmac.Messages.Members.{v3_get_0x4a, v3_get_0x50, v3_get_0x5d}

-- The message for the handler; one that is refused is `unparsed`.
abbrev pub given : {A : Type 0} → (A → Message) → Parsed A → Option Message
given message none = none
given message (some none) = some unparsed
given message (some (some a)) = some (message a)

-- A message of the type `type`; `fill` is what the memory behind a short message holds.
unfoldable pub v3_get_message : List ℕ → ℕ → List ℕ → Option Message
unfolding v3_get_0x06 v3_get_0x33
v3_get_message fill type xs =
    if type == 0x06
    then given x06 (v3_get_0x06 xs)
    else if type == 0x33
    then given x33 (v3_get_0x33 xs)
    else if type == 0x34
    then some x34
    else if type == 0x36
    then given x36 (v3_get_0x36 xs)
    else if type == 0x37
    then given x37 (v3_get_0x37 xs)
    else if type == 0x3a
    then given (λ m. x3a m.0 m.1) (v3_get_0x3a fill xs)
    else if type == 0x3b
    then given x3b (v3_get_0x3b xs)
    else if type == 0x3c
    then given (λ m. x3c m.0 m.1) (v3_get_0x3c xs)
    else if type == 0x3f
    then given (λ m. x3f m.0 m.1) (v3_get_0x3f fill xs)
    else if type == 0x42
    then given x42 (v3_get_0x42 fill xs)
    else if type == 0x46
    then given x46 (v3_get_0x46 xs)
    else if type == 0x49
    then given x49 (v3_get_0x49 xs)
    else if type == 0x4a
    then given x4a (v3_get_0x4a xs)
    else if type == 0x50
    then given x50 (v3_get_0x50 xs)
    else if type == 0x53
    then given (λ m. x53 m.0 m.1) (v3_get_0x53 xs)
    else if type == 0x57
    then given x57 (v3_get_0x57 xs)
    else if type == 0x58
    then given x58 (v3_get_0x58 xs)
    else if type == 0x59
    then given x59 (v3_get_0x59 xs)
    else if type == 0x5a
    then given x5a (v3_get_0x5a fill xs)
    else if type == 0x5c
    then given x5c (v3_get_0x5c xs)
    else if type == 0x5d
    then given x5d (v3_get_0x5d xs)
    else if type == 0x60
    then given x60 (v3_get_0x60 xs)
    else if type == 0x61
    then given x61 (v3_get_0x61 xs)
    else if type == 0x62
    then given (λ m. x62 m.0 m.1) (v3_get_0x62 xs)
    else some other

-- `_v3_recv` takes the type from the first two bytes, then the message is processed.
unfoldable pub process_bytes : List ℕ → List ℕ → Handler
unfolding v3_get_message
process_bytes fill xs c = do m ← v3_get_message fill (word xs 0) xs; v3_process_message m c
