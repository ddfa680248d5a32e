-- ===== src/Handshake/Examples.antt =====
-- Tests of the handshake, and its theorems at concrete inputs.
use ventmac.Prelude.{
  ◌≡◌, refl, List, ℕ, [], ◌∷◌, ◌++◌, some, arith, replicate, drop, take, none, All, All-replicate,
  IsByte,
}
use ventmac.Crypt.{KeyCtx}
use ventmac.Handshake.{
  putbe, putbe_loop, Auth, find_auth, received, ventrilo3_send_udp, ventrilo3_recv_udp,
  ventrilo3_algo_scramble, keys, wait_loop,
}
use ventmac.Handshake.Datagrams.{ventrilo3_recv_udp-ventrilo3_send_udp}
use ventmac.Handshake.Wait.{wait_loop-keys}
use ventmac.Handshake.Scrambled.{Ready, ventrilo3_algo_scramble-Ready}

putbe_test : putbe 0x1234 16 ≡ 0x12 ∷ 0x34 ∷ []
unfolding putbe putbe_loop
putbe_test = refl

abbrev sync5 : Auth
sync5 = record { vnum = 5; host = 0x0100007f }

abbrev header : List ℕ
header = replicate 10 0 ++ 0 ∷ 0x84 ∷ replicate 4 0

abbrev body : List ℕ
body = 1 ∷ 2 ∷ 255 ∷ []

sync5_found : find_auth 0x0100007f 0 (sync5 ∷ []) ≡ some (0, sync5)
unfolding find_auth
sync5_found = refl

nobody : find_auth 9 0 (sync5 ∷ []) ≡ none
unfolding find_auth
nobody = refl

ventrilo3_recv_udp-ventrilo3_send_udp_example :
    ventrilo3_recv_udp
      (some (sync5 ∷ []))
      512
      (some (0x0100007f, ventrilo3_send_udp 5 0x0100007f (header ++ body)))
      (replicate 512 0)
    ≡ some (received 19 (some 0) (header ++ body ++ drop 19 (replicate 512 0)))
ventrilo3_recv_udp-ventrilo3_send_udp_example =
    ventrilo3_recv_udp-ventrilo3_send_udp (sync5 ∷ []) 0x0100007f 0 sync5 header body
      (replicate 512 0) 0 0x84 sync5_found refl (omega arith, (omega arith, (omega arith, tt))) refl
      refl (omega arith) 512 (omega arith)

abbrev short_key : KeyCtx
short_key = record { key = replicate 256 9; size = 20; pos = 3 }

ventrilo3_algo_scramble-Ready_example : Ready (ventrilo3_algo_scramble short_key (replicate 64 1))
ventrilo3_algo_scramble-Ready_example =
    ventrilo3_algo_scramble-Ready short_key (replicate 64 1) refl (omega arith) (omega arith)

abbrev answer : List ℕ
answer = replicate 120 7

answer_bytes : All IsByte (replicate 120 7)
answer_bytes = All-replicate IsByte 120 7 (omega arith)

wait_loop-keys_example :
    wait_loop
      (sync5 ∷ [])
      6
      ((1, some (9, body))
        ∷ (2, some (0x0100007f, ventrilo3_send_udp 5 0x0100007f (header ++ answer)))
        ∷ [])
      (replicate 512 0)
    ≡ some (
        keys
          (some 0)
          (take 64 (drop 0x1c (header ++ answer)))
          (take 16 (drop 0x5c (header ++ answer))))
wait_loop-keys_example =
    wait_loop-keys (sync5 ∷ []) 6 0x0100007f 0 sync5 header answer 0 0x84 sync5_found refl
      answer_bytes refl refl (omega arith) (omega arith) (omega arith) ((1, 9, body) ∷ []) 2 []
      (replicate 512 0) ((omega arith, nobody), tt) (omega arith)
