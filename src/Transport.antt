-- ===== src/Transport.antt =====
-- Sources/CVentrilo3/libventrilo3.c: the framing of messages on the TCP connection
-- (`_v3_send_enc_msg`, `_v3_recv_enc_msg`, `_v3_send`) and the part of `_v3_recv` that takes one
-- message from the network.
-- The operating system's `recv` is a parameter, with its documented behaviour as a law.
pub mod Reassembly
pub mod EndToEnd
mod Examples
use ventmac.Prelude.{
  ℕ, zero, suc, ◌+◌, ◌-◌, ◌*◌, ◌/◌, ◌%◌, ◌^◌, ◌≤◌, ◌<◌, ◌≡◌, ◌≢◌, Bool, true, false, List, [], ◌∷◌,
  ◌++◌, Option, none, some, length, get_elem?, take, drop, u8, u16, u32, ltb, leb, ◌==◌,
  if◌then◌else◌, ◌>>=◌,
}
use ventmac.Crypt.{KeyCtx, ventrilo_enc, ventrilo_dec, ventrilo_first_dec}

-- What `recv` returns: the bytes that it stored, 0, or -1.
pub data Recv : Type 0 where
  got : List ℕ → Recv
  closed failed : Recv

-- A connected stream socket. While bytes are pending, `recv` stores some of them, at least one and
-- at most as many as asked for, and takes them off the stream.
pub record Socket : Type 1 where
  pub State : Type 0
  pub recv : State → ℕ → Recv × State
  pub pending : State → List ℕ
  pub recv-pending :
      (s : State) (n : ℕ)
      → 0 < n
      → pending s ≢ []
      → (k : ℕ) × (0 < k)
        × (k ≤ n)
        × (k ≤ length (pending s))
        × ((recv s n).0 ≡ got (take k (pending s)))
        × (pending (recv s n).1 ≡ drop k (pending s))

-- The counters of `_v3_server`, and its two key contexts.
pub record Server : Type 0 where
  pub server_key : KeyCtx
  pub client_key : KeyCtx
  pub recv_packet_count : ℕ
  pub recv_byte_count : ℕ
  pub sent_packet_count : ℕ
  pub sent_byte_count : ℕ

-- `htons`, as the two bytes that are then in memory.
abbrev pub htons : ℕ → List ℕ
htons n = u8 (u16 n / 2 ^ 8) ∷ u8 n ∷ []

-- What is given to `send`, the new counters, and whether the function returns true. `sent` is what
-- `send` returns.
pub record SendResult : Type 0 where
  pub buf : List ℕ
  pub server : Server
  pub ok : Bool

pub v3_send_enc_msg : Server → List ℕ → ℕ → ℕ → Option SendResult
v3_send_enc_msg sv xs len sent =
    if leb len (length xs)
    then some (record {
      buf = htons len ++ take len xs;
      server = record sv {
        sent_packet_count = u32 (sv.sent_packet_count + 1);
        sent_byte_count = (sv.sent_byte_count + (len + 2)) % 2 ^ 64;
      };
      ok = sent == len + 2;
    })
    else none

-- `_v3_send` encrypts in place, and returns true whatever the sending returned.
pub v3_send : Server → List ℕ → ℕ → ℕ → Option SendResult
v3_send sv xs len sent = do
  (key, out) ← ventrilo_enc sv.client_key xs len
  r ← v3_send_enc_msg (record sv { client_key = key }) out len sent
  some (record r { ok = true })

-- What `_v3_recv_enc_msg` returns: -1, or the length of the message that it stored. A connection
-- that the server closed gives length 0.
pub data Received : Type 0 where
  minus_one : Received
  message : List ℕ → Received

-- `(msg->len = …) <= 0`: the field is a `uint16_t`.
pub stored_len : Received → ℕ
stored_len minus_one = 65535
stored_len (message xs) = u16 (length xs)

-- The two bytes of `len`, which are read into the high byte first.
abbrev pub to_len : ℕ → ℕ → ℕ
to_len high low = high * 2 ^ 8 + low

module _ (net : Socket) where
  -- `_v3_sockd != -1`, `_v3_user_loggedin`, and the socket.
  pub record Conn : Type 0 where
    pub connected : Bool
    pub loggedin : Bool
    pub socket : net.State

  pub v3_close_connection : Conn → Conn
  v3_close_connection c = record c { connected = false; loggedin = false }

  -- The reads of one byte of the length: 0 and -1 both close the connection and return 0.
  pub after_byte : Conn → Recv → (ℕ → Option (Received × Conn)) → Option (Received × Conn)
  after_byte c (got (b ∷ [])) k = k b
  after_byte c (got []) k = some (message [], v3_close_connection c)
  after_byte c (got (b ∷ b' ∷ bs)) k = some (minus_one, c)
  after_byte c closed k = some (message [], v3_close_connection c)
  after_byte c failed k = some (message [], v3_close_connection c)

  -- The reads of the body: 0 closes the connection, -1 is passed on.
  pub after_body : Conn → Recv → (List ℕ → Option (Received × Conn)) → Option (Received × Conn)
  after_body c (got []) k = some (message [], v3_close_connection c)
  after_body c (got (x ∷ xs)) k = k (x ∷ xs)
  after_body c closed k = some (message [], v3_close_connection c)
  after_body c failed k = some (minus_one, c)

  -- The loop over `packlen`, which is the length of `buff`. `none` means that the fuel ran out;
  -- `recv_loop_total` shows that `len` rounds are enough.
  pub recv_loop : ℕ → ℕ → List ℕ → Conn → Option (Received × Conn)
  recv_loop zero len buff c = if ltb (length buff) len then none else some (message buff, c)
  recv_loop (suc fuel) len buff c =
      let r = net.recv c.socket (len - length buff) in
      let c' = record c { socket = r.1 } in
      if ltb (length buff) len
      then after_body c' r.0 (λ xs. recv_loop fuel len (buff ++ xs) c')
      else some (message buff, c)

  pub v3_recv_enc_msg : Conn → Option (Received × Conn)
  v3_recv_enc_msg c =
      if c.connected
      then (let r = net.recv c.socket 1 in
          let c1 = record c { socket = r.1 } in
          after_byte c1 r.0 λ high.
            (let r2 = net.recv r.1 1 in
              let c2 = record c { socket = r2.1 } in
              after_byte c2 r2.0 λ low. recv_loop (to_len high low) (to_len high low) [] c2))
      else some (message [], c)

-- `_v3_net_message`, as `_v3_recv` fills it.
pub record NetMessage : Type 0 where
  pub len : ℕ
  pub type : ℕ
  pub contents : List ℕ

-- The outcome of `_v3_recv` for one waiting message: `_v3_logout` is called and NULL returned, or a
-- message is returned.
pub data Taken : Type 0 where
  logout : Taken
  returned : NetMessage → Server → Taken

-- `msgdata` after the call: 65535 bytes on the stack, which start as `stale`.
abbrev pub msgdata : List ℕ → Received → List ℕ
msgdata stale minus_one = stale
msgdata stale (message xs) = xs ++ drop (length xs) stale

pub decrypt : Server → List ℕ → ℕ → Option (List ℕ × Server)
decrypt sv xs len =
    if sv.recv_packet_count == 1 then (do ys ← ventrilo_first_dec xs len; some (ys, sv)) else (do
      (key, ys) ← ventrilo_dec sv.server_key xs len
      some (ys, record sv { server_key = key }))

-- What follows the call of `_v3_recv_enc_msg`: the counters, the decryption, and the message.
pub take_message : Server → List ℕ → Received → Option Taken
unfolding decrypt
take_message sv stale r =
    let len = stored_len r in
    let counted = record sv {
      recv_packet_count = u32 (sv.recv_packet_count + 1);
      recv_byte_count = (sv.recv_byte_count + len) % 2 ^ 64;
    } in
    if leb len 0 then some logout else (do
      (ys, sv') ← decrypt counted (msgdata stale r) len
      t0 ← get_elem? ys 0
      t1 ← get_elem? ys 1
      some (returned (record { len = len; type = t0 + t1 * 2 ^ 8; contents = take len ys }) sv'))
