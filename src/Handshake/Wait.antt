-- ===== src/Handshake/Wait.antt =====
-- The wait of `ventrilo3_handshake` for the answer of an auth server.
use ventmac.Prelude.{
  ℕ, ◌+◌, ◌≤◌, ◌<◌, ◌≡◌, ap, ◌∙◌, false, List, [], ◌∷◌, ◌++◌, Option, none, some, arith, All,
  IsByte, length, length-drop, take, drop, take_within, drop_within, get_elem?, bit_or, ◌<<<◌, ltb,
  leb, ◌==◌, ◌||◌,
}
use ventmac.Handshake.{
  ventrilo3_send_udp, Auth, find_auth, keys, wait_loop, after_recv, unknown, ventrilo3_recv_udp,
}
use ventmac.Handshake.Datagrams.{ventrilo3_recv_udp-ventrilo3_send_udp}

-- A datagram from a peer that is not in the table, before the deadline.
abbrev pub IsStray : List Auth → ℕ → ℕ × ℕ × List ℕ → Type 0
IsStray vauth deadline (now, peer, datagram) = (now < deadline) × (find_auth peer 0 vauth ≡ none)

abbrev pub arrive : List (ℕ × ℕ × List ℕ) → List (ℕ × Option (ℕ × List ℕ))
arrive [] = []
arrive ((now, peer, datagram) ∷ rest) = (now, some (peer, datagram)) ∷ arrive rest

late : (now deadline : ℕ) → now < deadline → leb deadline now ≡ false
late now deadline h = ground arith

enough : (len : ℕ) → 0x6c ≤ len → (len == 0 || ltb len (0x5c + 16)) ≡ false
enough len h = ground arith

recv_stray :
    (vauth : List Auth) (peer : ℕ) (datagram buff : List ℕ)
    → find_auth peer 0 vauth ≡ none
    → ventrilo3_recv_udp (some vauth) 0x200 (some (peer, datagram)) buff
      ≡ some (unknown (take 0x200 datagram ++ drop (length (take 0x200 datagram)) buff))
unfolding ventrilo3_recv_udp
recv_stray vauth peer datagram buff h = rw (ventrilo3_recv_udp, h)

-- A part of a buffer that lies within what was received.
part :
    (n from : ℕ) (xs ys zs : List ℕ)
    → from + n ≤ length (xs ++ ys)
    → take n (drop from (xs ++ ys ++ zs)) ≡ take n (drop from (xs ++ ys))
part n from xs ys zs h =
    ap (take n) (drop_within from (xs ++ ys) zs (omega arith))
    ∙ take_within n (drop from (xs ++ ys)) zs (omega (arith, length-drop from (xs ++ ys)))

module _ (vauth : List Auth) (deadline ip i : ℕ) (a : Auth) (head body : List ℕ) (lo hi : ℕ)
    (found : find_auth ip 0 vauth ≡ some (i, a)) (h : length head ≡ 16) (b : All IsByte body)
    (e10 : get_elem? head 10 ≡ some lo) (e11 : get_elem? head 11 ≡ some hi)
    (long : 16 < bit_or lo (hi <<< 8)) (full : 0x6c ≤ length (head ++ body))
    (room : length (head ++ body) ≤ 0x200) where
  -- However many stray datagrams come first, the answer of an auth server that arrives before the
  -- deadline ends the wait with the keys that the server put into it and with the server's index.
  -- The answer has a header of 16 bytes with a length above 16, and 108 to 512 bytes.
  pub wait_loop-keys :
      (strays : List (ℕ × ℕ × List ℕ)) (now : ℕ) (later : List (ℕ × Option (ℕ × List ℕ)))
      (buff : List ℕ)
      → All (IsStray vauth deadline) strays
      → now < deadline
      → wait_loop vauth deadline
          (arrive strays ++ (now, some (ip, ventrilo3_send_udp a.vnum ip (head ++ body))) ∷ later)
          buff
        ≡ some (
            keys (some i) (take 64 (drop 0x1c (head ++ body))) (take 16 (drop 0x5c (head ++ body))))
  unfolding wait_loop after_recv
  wait_loop-keys [] now later buff stray early =
      let received_back =
        ventrilo3_recv_udp-ventrilo3_send_udp vauth ip i a head body buff lo hi found h b e10 e11
          long 0x200 room in
      let rest = drop (length (head ++ body)) buff in
      rw (late now deadline early, received_back, enough (length (head ++ body)) full)
        (rw (part 64 0x1c head body rest (omega arith), part 16 0x5c head body rest (omega arith)))
  wait_loop-keys ((t, peer, datagram) ∷ strays) now later buff stray early =
      rw (late t deadline stray.0.0, recv_stray vauth peer datagram buff stray.0.1)
        (wait_loop-keys strays now later
          (take 0x200 datagram ++ drop (length (take 0x200 datagram)) buff) stray.1 early)
