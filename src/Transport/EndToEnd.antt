-- ===== src/Transport/EndToEnd.antt =====
-- A message from `_v3_send` at one end to `_v3_recv` at the other.
use ventmac.Prelude.{
  ℕ, suc, ◌+◌, ◌*◌, ◌%◌, ◌^◌, ◌<◌, ◌≡◌, ◌≢◌, refl, sym, ◌∙◌, ap, true, false, List, [], ◌∷◌, ◌++◌,
  Option, none, some, arith, length, drop, take_prefix, All, IsByte, u16, u32, ◌==◌, append_assoc,
  take_all,
}
use ventmac.Crypt.{KeyCtx, ventrilo_dec, ventrilo_enc}
use ventmac.Crypt.RoundTrip.{IsReady, ventrilo_dec-ventrilo_enc, ventrilo_dec-append}
use ventmac.Transport.{
  Socket, message, Server, SendResult, Conn, returned, take_message, stored_len, decrypt, v3_send,
  v3_send_enc_msg, v3_recv_enc_msg, htons,
}
use ventmac.Transport.Reassembly.{Delivers, v3_recv_enc_msg-Delivers}

-- A message of at least two bytes, small enough for a frame.
pub record IsMessage (xs : List ℕ) : Type 0 where
  pub bytes : All IsByte xs
  pub small : length xs < 2 ^ 16

-- A client and a server that are in step: the client encrypts with the key by which the other end
-- decrypts, and the other end has already had its first packet.
pub record IsInStep (a b : Server) : Type 0 where
  pub ready : IsReady a.client_key
  pub same : b.server_key ≡ a.client_key
  pub started : u32 (b.recv_packet_count + 1) ≢ 1

-- What one message does to both ends.
pub record Exchanged (a b : Server) (xs stale : List ℕ) (sent type : ℕ) : Type 0 where
  pub result : SendResult
  pub out : List ℕ
  pub b' : Server
  pub sends : v3_send a xs (length xs) sent ≡ some result
  pub frame : result.buf ≡ htons (length out) ++ out
  pub same_length : length out ≡ length xs
  pub takes :
      take_message b stale (message out)
      ≡ some (returned (record { len = length xs; type = type; contents = xs }) b')
  pub in_step : b'.server_key ≡ result.server.client_key
  pub ready' : IsReady result.server.client_key

abbrev counted_sent : Server → KeyCtx → ℕ → Server
counted_sent sv key n = record sv {
  client_key = key;
  sent_packet_count = u32 (sv.sent_packet_count + 1);
  sent_byte_count = (sv.sent_byte_count + (n + 2)) % 2 ^ 64;
}

abbrev counted_recv : Server → KeyCtx → ℕ → Server
counted_recv sv key n = record sv {
  server_key = key;
  recv_packet_count = u32 (sv.recv_packet_count + 1);
  recv_byte_count = (sv.recv_byte_count + n) % 2 ^ 64;
}

v3_send-of_enc :
    (sv : Server) (key : KeyCtx) (xs out : List ℕ) (n sent : ℕ)
    → length out ≡ n
    → ventrilo_enc sv.client_key xs n ≡ some (key, out)
    → v3_send sv xs n sent
      ≡ some (record { buf = htons n ++ out; server = counted_sent sv key n; ok = true })
unfolding v3_send v3_send_enc_msg
v3_send-of_enc sv key xs out n sent e h = rw (h, ← e, take_all out) (ground arith)

take_message-of_dec :
    (sv : Server) (key : KeyCtx) (x y : ℕ) (xs out stale : List ℕ)
    → u32 (sv.recv_packet_count + 1) ≢ 1
    → u16 (length out) ≡ suc (suc (length xs))
    → ventrilo_dec sv.server_key out (suc (suc (length xs))) ≡ some (key, x ∷ y ∷ xs)
    → take_message sv stale (message out)
      ≡ some (
          returned
            (record { len = suc (suc (length xs)); type = x + y * 2 ^ 8; contents = x ∷ y ∷ xs })
            (counted_recv sv key (suc (suc (length xs)))))
unfolding take_message stored_len decrypt
take_message-of_dec sv key x y xs out stale started len h =
    let tail = drop (length out) stale in
    let e = ventrilo_dec-append sv.server_key key out (x ∷ y ∷ xs) tail (suc (suc (length xs))) h in
    let later : (u32 (sv.recv_packet_count + 1) == 1) ≡ false = ground arith in
    rw (len, later, e, take_prefix xs tail) (ground arith)

-- A message that `_v3_send` sends is taken by the other end as it was, with its type, and both ends
-- stay in step.
pub take_message-v3_send :
    (a b : Server) (x y : ℕ) (xs stale : List ℕ) (sent : ℕ)
    → IsInStep a b
    → IsMessage (x ∷ y ∷ xs)
    → Exchanged a b (x ∷ y ∷ xs) stale sent (x + y * 2 ^ 8)
take_message-v3_send a b x y xs stale sent s m =
    let n = suc (suc (length xs)) in
    let p = ventrilo_dec-ventrilo_enc a.client_key (x ∷ y ∷ xs) n s.ready (omega arith) m.bytes in
    record {
      result = record { buf = htons n ++ p.out; server = counted_sent a p.ctx' n; ok = true };
      out = p.out;
      b' = counted_recv b p.ctx' n;
      sends = v3_send-of_enc a p.ctx' (x ∷ y ∷ xs) p.out n sent p.same_length p.sends;
      frame = ap (λ k. htons k ++ p.out) (sym p.same_length);
      same_length = p.same_length;
      takes =
          take_message-of_dec b p.ctx' x y xs p.out stale s.started
            (omega (arith, p.same_length, m.small)) (rw s.same p.receives);
      in_step = refl;
      ready' = p.ready;
    }

-- The bytes that a call of `_v3_send` gives to `send`.
abbrev pub wire : Option SendResult → List ℕ
wire none = []
wire (some r) = r.buf

pub record Arrives (net : Socket) (c : Conn net) (a b : Server) (xs stale rest : List ℕ)
    (sent type : ℕ) : Type 0 where
  pub exchanged : Exchanged a b xs stale sent type
  pub delivers : Delivers net c exchanged.out rest (v3_recv_enc_msg net c)

-- From end to end, over every socket: when the stream of a connected client goes on with what
-- `_v3_send` sends at the other end, `_v3_recv_enc_msg` reads the encrypted message whole, however
-- it is cut, and `_v3_recv` takes from it the message that was sent, with its type; both ends stay
-- in step, and what follows is left on the stream.
pub v3_recv-v3_send :
    (net : Socket) (c : Conn net) (a b : Server) (x y : ℕ) (xs stale rest : List ℕ) (sent : ℕ)
    → c.connected ≡ true
    → IsInStep a b
    → IsMessage (x ∷ y ∷ xs)
    → net.pending c.socket ≡ wire (v3_send a (x ∷ y ∷ xs) (suc (suc (length xs))) sent) ++ rest
    → Arrives net c a b (x ∷ y ∷ xs) stale rest sent (x + y * 2 ^ 8)
v3_recv-v3_send net c a b x y xs stale rest sent opened s m p =
    let e = take_message-v3_send a b x y xs stale sent s m in
    let p' : net.pending c.socket ≡ htons (length e.out) ++ (e.out ++ rest) =
      p
      ∙ ap (λ t. wire t ++ rest) e.sends
      ∙ ap (λ t. t ++ rest) e.frame
      ∙ append_assoc (htons (length e.out)) e.out rest in
    record {
      exchanged = e;
      delivers = v3_recv_enc_msg-Delivers net c e.out rest opened (rw e.same_length m.small) p';
    }
