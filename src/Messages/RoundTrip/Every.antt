-- ===== src/Messages/RoundTrip/Every.antt =====
-- Every message that the client can both send and receive.
use ventmac.Prelude.{ℕ, ◌≡◌, List, Option, none, some, ◌>>=◌, >>=-assoc, ◌∙◌, ap}
use ventmac.Handlers.{Client, Effect}
use ventmac.Handlers.Dispatch.{Message, v3_process_message}
use ventmac.Handlers.Connection.{Code}
use ventmac.Messages.{word}
use ventmac.Messages.Outgoing.{
  Outgoing, put_0x36, put_0x37, put_0x3a, put_0x3b, put_0x3f, put_0x42, put_0x46, put_0x48,
  put_0x49, put_0x4a, put_0x4b, put_0x4c, put_0x58, put_0x5a, put_0x5d, put_0x61, put_0x62,
  put_0x63, bytes_sent,
}
use ventmac.Messages.Incoming.{v3_get_message, process_bytes}
use ventmac.Messages.RoundTrip.{received, reading, Fits}
use ventmac.Messages.RoundTrip.Fixed.{
  received-put_0x37, received-put_0x3b, received-put_0x46, received-put_0x58, received-put_0x61,
  received-put_0x62,
}
use ventmac.Messages.RoundTrip.Texts.{
  received-put_0x3a, received-put_0x3f, received-put_0x42, received-put_0x42_none,
  received-put_0x5a, received-put_0x5a_none,
}
use ventmac.Messages.RoundTrip.Records.{received-put_0x36, received-put_0x49}
use ventmac.Messages.RoundTrip.Members.{received-put_0x4a, received-put_0x5d}

-- What a builder writes is sent without an access out of bounds, and the parser of its type reads from
-- the bytes exactly what the builder was given, whatever the memory behind the message holds; the
-- message is one that the client both sends and receives, with numbers and texts that fit.
pub received-build : (fill : List ℕ) (p : Outgoing) → Fits p → received fill p ≡ some (reading p)
received-build fill (put_0x36 t none) h = absurd h
received-build fill (put_0x36 t (some r)) h = received-put_0x36 fill t r h
received-build fill (put_0x37 u p s) h = received-put_0x37 fill u p s h
received-build fill (put_0x3a none) h = absurd h
received-build fill (put_0x3a (some s)) h = received-put_0x3a fill s h
received-build fill (put_0x3f none) h = absurd h
received-build fill (put_0x3f (some s)) h = received-put_0x3f fill s h
received-build fill (put_0x3b i c) h = received-put_0x3b fill i c h
received-build fill (put_0x42 t u none) h = received-put_0x42_none fill t u h
received-build fill (put_0x42 t u (some s)) h = received-put_0x42 fill t u s h
received-build fill (put_0x46 u s v) h = received-put_0x46 fill u s v h
received-build fill (put_0x48 a) h = absurd h
received-build fill (put_0x49 t u w c) h = received-put_0x49 fill t u w c h
received-build fill (put_0x4a t none b) h = absurd h
received-build fill (put_0x4a t (some a) none) h = received-put_0x4a fill t a h
received-build fill (put_0x4a t (some a) (some b)) h = absurd h
received-build fill (put_0x4b n) h = absurd h
received-build fill (put_0x4c t p i v) h = absurd h
received-build fill (put_0x58 r s c p) h = received-put_0x58 fill r s c p h
received-build fill (put_0x5a t u v none) h = received-put_0x5a_none fill t u v h
received-build fill (put_0x5a t u v (some s)) h = received-put_0x5a fill t u v s h
received-build fill (put_0x5d t us) h = received-put_0x5d fill t us h
received-build fill (put_0x61 s m i a b) h = received-put_0x61 fill s m i a b h
received-build fill (put_0x62 f u) h = received-put_0x62 fill f u h
received-build fill (put_0x63 t u s) h = absurd h

pub process_bytes-build :
    (fill : List ℕ) (p : Outgoing) (c : Client)
    → Fits p
    → (bytes_sent p >>= λ xs. process_bytes fill xs c) ≡ v3_process_message (reading p) c
unfolding process_bytes
process_bytes-build fill p c h =
    let handle : Message → Option (Code × Client × List Effect) = λ m. v3_process_message m c in
    >>=-assoc (bytes_sent p) (λ xs. v3_get_message fill (word xs 0) xs) handle
    ∙ ap (λ m. m >>= handle) (received-build fill p h)
