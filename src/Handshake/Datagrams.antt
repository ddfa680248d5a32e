-- ===== src/Handshake/Datagrams.antt =====
-- The obfuscation of `ventrilo3_send_udp` and `ventrilo3_recv_udp`.
use ventmac.Prelude.{
  ℕ, suc, ◌+◌, ◌<◌, ◌≡◌, refl, sym, ap, ap₂, List, [], ◌∷◌, ◌++◌, append_assoc, some, arith, All,
  IsByte, length, length-append, take, take_short, ◌≤◌, drop, take_prefix, drop_prefix, get_elem?,
  get_elem?-append, bit_or, u8, u32, sub8, ◌<<<◌, lt→ltb,
}
use ventmac.Handshake.{
  tmp_byte, send_udp_loop, recv_udp_loop, start, ventrilo3_send_udp, Auth, find_auth, received,
  ventrilo3_recv_udp,
}

length-send_udp_loop :
    (ip k : ℕ) (bytes : List ℕ) → length (send_udp_loop ip k bytes) ≡ length bytes
unfolding send_udp_loop
length-send_udp_loop ip k [] = refl
length-send_udp_loop ip k (x ∷ bytes) = ap suc (length-send_udp_loop ip (u32 (k + 1)) bytes)

undo_byte : (x d : ℕ) → IsByte x → sub8 (u8 (x + d)) d ≡ x
undo_byte x d h = omega arith

recv_udp_loop-send_udp_loop :
    (ip k : ℕ) (bytes : List ℕ)
    → All IsByte bytes
    → recv_udp_loop ip k (send_udp_loop ip k bytes) ≡ bytes
unfolding recv_udp_loop send_udp_loop
recv_udp_loop-send_udp_loop ip k [] h = refl
recv_udp_loop-send_udp_loop ip k (x ∷ bytes) h =
    ap₂ (λ y ys. y ∷ ys) (undo_byte x (tmp_byte ip k) h.0)
      (recv_udp_loop-send_udp_loop ip (u32 (k + 1)) bytes h.1)

take_16 : (head rest : List ℕ) → length head ≡ 16 → take 16 (head ++ rest) ≡ head
take_16 head rest h = rw (sym h) (take_prefix head rest)

drop_16 : (head rest : List ℕ) → length head ≡ 16 → drop 16 (head ++ rest) ≡ rest
drop_16 head rest h = rw (sym h) (drop_prefix head rest)

-- A datagram of a header of 16 bytes and a body, sent to an auth server that is found in the table
-- under its address and with its `vnum`, is received from it byte for byte, with the index of the
-- server; the length in the header must be above 16, and the receiver takes at least as many bytes as the
-- datagram has.
pub ventrilo3_recv_udp-ventrilo3_send_udp :
    (vauth : List Auth) (ip i : ℕ) (a : Auth) (head body buff : List ℕ) (lo hi : ℕ)
    → find_auth ip 0 vauth ≡ some (i, a)
    → length head ≡ 16
    → All IsByte body
    → get_elem? head 10 ≡ some lo
    → get_elem? head 11 ≡ some hi
    → 16 < bit_or lo (hi <<< 8)
    → (maxsz : ℕ) → length (head ++ body) ≤ maxsz
    → ventrilo3_recv_udp
        (some vauth)
        maxsz
        (some (ip, ventrilo3_send_udp a.vnum ip (head ++ body)))
        buff
      ≡ some (
          received
            (length (head ++ body))
            (some i)
            (head ++ body ++ drop (length (head ++ body)) buff))
unfolding ventrilo3_recv_udp ventrilo3_send_udp
ventrilo3_recv_udp-ventrilo3_send_udp vauth ip i a head body buff lo hi found h b e10 e11 long maxsz
      room =
    let sent = send_udp_loop ip (start ip a.vnum) body in
    let shape : length (head ++ sent) ≡ length (head ++ body) = omega (
      arith,
      length-append head sent,
      length-append head body,
      length-send_udp_loop ip (start ip a.vnum) body,
    ) in
    let rest = drop (length (head ++ body)) buff in
    rw (take_16 head body h, drop_16 head body h)
      (rw
        (
          ventrilo3_recv_udp,
          found,
          take_short maxsz (head ++ sent) (omega (arith, shape, room)),
          shape,
          append_assoc head sent rest,
          get_elem?-append head (sent ++ rest) 10 (omega arith),
          e10,
        )
        (rw (
          get_elem?-append head (sent ++ rest) 11 (omega arith),
          e11,
          lt→ltb 16 (bit_or lo (hi <<< 8)) long,
          take_16 head sent h,
          drop_16 head sent h,
          recv_udp_loop-send_udp_loop ip (start ip a.vnum) body b,
        )))
