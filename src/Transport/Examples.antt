-- ===== src/Transport/Examples.antt =====
-- A socket that gives one byte at a time, and the theorems of the transport at concrete inputs.
use ventmac.Prelude.{
  ℕ, ◌+◌, ◌*◌, ◌^◌, ◌≤◌, ◌<◌, ◌≡◌, ◌≢◌, refl, true, false, List, [], ◌∷◌, ◌++◌, none, arith, length,
  take, drop, replicate,
}
use ventmac.Crypt.{KeyCtx, ventrilo_enc, enc_loop, advance}
use ventmac.Crypt.RoundTrip.{IsReady}
use ventmac.Transport.{
  Recv, got, closed, Socket, Server, Conn, v3_send, v3_send_enc_msg, v3_recv_enc_msg, recv_loop,
}
use ventmac.Transport.Reassembly.{Delivers, v3_recv_enc_msg-Delivers, recv_loop_total}
use ventmac.Transport.EndToEnd.{
  IsMessage, IsInStep, Exchanged, take_message-v3_send, Arrives, wire, v3_recv-v3_send,
}

trickle_recv : List ℕ → ℕ → Recv × List ℕ
trickle_recv [] n = (closed, [])
trickle_recv (x ∷ xs) n = (got (x ∷ []), xs)

trickle_law :
    (s : List ℕ) (n : ℕ)
    → 0 < n
    → s ≢ []
    → (k : ℕ) × (0 < k)
      × (k ≤ n)
      × (k ≤ length s)
      × ((trickle_recv s n).0 ≡ got (take k s))
      × ((trickle_recv s n).1 ≡ drop k s)
unfolding trickle_recv
trickle_law [] n pos ne = absurd (ne refl)
trickle_law (x ∷ xs) n pos ne = (1, omega arith, pos, omega arith, refl, refl)

abbrev trickle : Socket
trickle = record {
  State = List ℕ;
  recv = trickle_recv;
  pending = λ s. s;
  recv-pending = trickle_law;
}

abbrev ctx : KeyCtx
ctx = record { key = 10 ∷ 20 ∷ 30 ∷ replicate 253 0; size = 3; pos = 2 }

ctx-IsReady : IsReady ctx
ctx-IsReady = record { nonempty = omega arith; fits = omega arith; within = omega arith }

abbrev server : Server
server = record {
  server_key = ctx;
  client_key = ctx;
  recv_packet_count = 1;
  recv_byte_count = 0;
  sent_packet_count = 0;
  sent_byte_count = 0;
}

abbrev conn : List ℕ → Conn trickle
conn s = record { connected = true; loggedin = false; socket = s }

v3_recv_enc_msg-Delivers_example :
    Delivers trickle
      (conn (0 ∷ 2 ∷ 7 ∷ 8 ∷ 9 ∷ []))
      (7 ∷ 8 ∷ [])
      (9 ∷ [])
      (v3_recv_enc_msg trickle (conn (0 ∷ 2 ∷ 7 ∷ 8 ∷ 9 ∷ [])))
v3_recv_enc_msg-Delivers_example =
    v3_recv_enc_msg-Delivers trickle (conn (0 ∷ 2 ∷ 7 ∷ 8 ∷ 9 ∷ [])) (7 ∷ 8 ∷ []) (9 ∷ []) refl
      (omega arith) refl

recv_loop_total_example : recv_loop trickle 2 2 [] (conn (7 ∷ [])) ≢ none
recv_loop_total_example = recv_loop_total trickle 2 2 [] (conn (7 ∷ [])) (omega arith)

servers-IsInStep : IsInStep server server
servers-IsInStep = record { ready = ctx-IsReady; same = refl; started = omega arith }

ping-IsMessage : IsMessage (0x37 ∷ 0 ∷ 5 ∷ [])
ping-IsMessage = record { bytes = omega arith; small = omega arith }

take_message-v3_send_example :
    Exchanged server server (0x37 ∷ 0 ∷ 5 ∷ []) (replicate 10 99) 5 (0x37 + 0 * 2 ^ 8)
take_message-v3_send_example =
    take_message-v3_send server server 0x37 0 (5 ∷ []) (replicate 10 99) 5 servers-IsInStep
      ping-IsMessage

abbrev stream : List ℕ
stream = 0 ∷ 3 ∷ 85 ∷ 11 ∷ 27 ∷ 1 ∷ 2 ∷ []

stream_lem : stream ≡ wire (v3_send server (0x37 ∷ 0 ∷ 5 ∷ []) 3 5) ++ (1 ∷ 2 ∷ [])
unfolding v3_send v3_send_enc_msg ventrilo_enc enc_loop advance
stream_lem = refl

v3_recv-v3_send_example :
    Arrives trickle
      (conn stream)
      server
      server
      (0x37 ∷ 0 ∷ 5 ∷ [])
      []
      (1 ∷ 2 ∷ [])
      5
      (0x37 + 0 * 2 ^ 8)
v3_recv-v3_send_example =
    v3_recv-v3_send trickle (conn stream) server server 0x37 0 (5 ∷ []) [] (1 ∷ 2 ∷ []) 5 refl
      servers-IsInStep ping-IsMessage stream_lem
