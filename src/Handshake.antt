-- ===== src/Handshake.antt =====
-- Sources/CVentrilo3/ventrilo3_handshake.c: numbers in network order, the obfuscation of the datagrams
-- to and from the auth servers, the wait for their answer, and the key that is made of it.
-- `none` is an access past the end of a buffer. Sockets, the resolution of names and the clock are
-- parameters: what arrives, and when.
pub mod Numbers
pub mod Datagrams
pub mod Scrambled
pub mod Wait
mod Examples
use ventmac.Prelude.{
  ℕ, zero, suc, ◌+◌, ◌-◌, ◌*◌, ◌/◌, ◌%◌, ◌^◌, Bool, true, false, List, [], ◌∷◌, ◌++◌, Option, none,
  some, get_elem?, get_or, length, take, drop, replicate, bit_and, bit_or, u8, u32, sub8, ◌<<<◌,
  ◌>>>◌, ◌||◌, ltb, leb, ◌==◌, if◌then◌else◌, ◌>>=◌,
}
use ventmac.Crypt.{KeyCtx}

-- The loop of `getbe`; `bytes - 1 - i` is the number of bytes that are left after this one.
unfoldable pub getbe_loop : ℕ → ℕ → List ℕ → Option ℕ
getbe_loop zero num bytes = some num
getbe_loop (suc left) num [] = none
getbe_loop (suc left) num (d ∷ bytes) =
    getbe_loop left (u32 (bit_or num (d <<< (left <<< 3)))) bytes

unfoldable pub getbe : List ℕ → ℕ → Option ℕ
getbe bytes bits = getbe_loop (bits >>> 3) 0 bytes

-- The bytes that `putbe` writes at `data`; `& 0xff` keeps the low byte.
unfoldable pub putbe_loop : ℕ → ℕ → List ℕ
putbe_loop zero num = []
putbe_loop (suc left) num = u8 (num >>> (left <<< 3)) ∷ putbe_loop left num

unfoldable pub putbe : ℕ → ℕ → List ℕ
putbe num bits = putbe_loop (bits >>> 3) num

-- The bytes of an address, in the order of the host; `k & 3` is below 4.
abbrev pub tmp : ℕ → List ℕ
tmp ip = u8 ip ∷ u8 (ip >>> 8) ∷ u8 (ip >>> 16) ∷ u8 (ip >>> 24) ∷ []

abbrev pub tmp_byte : ℕ → ℕ → ℕ
tmp_byte ip k = get_or (tmp ip) (bit_and k 3) 0

unfoldable pub send_udp_loop : ℕ → ℕ → List ℕ → List ℕ
send_udp_loop ip k [] = []
send_udp_loop ip k (x ∷ bytes) = u8 (x + tmp_byte ip k) ∷ send_udp_loop ip (u32 (k + 1)) bytes

unfoldable pub recv_udp_loop : ℕ → ℕ → List ℕ → List ℕ
recv_udp_loop ip k [] = []
recv_udp_loop ip k (x ∷ bytes) = sub8 x (tmp_byte ip k) ∷ recv_udp_loop ip (u32 (k + 1)) bytes

abbrev pub start : ℕ → ℕ → ℕ
start ip vnum = u32 (bit_and (u8 ip) 0x0f * vnum)

-- The datagram that is sent: `vnum >= 0` holds for every `uint32_t`.
unfoldable pub ventrilo3_send_udp : ℕ → ℕ → List ℕ → List ℕ
ventrilo3_send_udp vnum ip bytes = take 16 bytes ++ send_udp_loop ip (start ip vnum) (drop 16 bytes)

-- `host` is the address that `inet_addr` gives for the resolved name.
pub record Auth : Type 0 where
  pub vnum : ℕ
  pub host : ℕ

-- The first entry with the address of the peer, and its index.
pub find_auth : ℕ → ℕ → List Auth → Option (ℕ × Auth)
find_auth peer i [] = none
find_auth peer i (a ∷ vauth) =
    let rest = find_auth peer (i + 1) vauth in if a.host == peer then some (i, a) else rest

-- What `ventrilo3_recv_udp` returns: -1, 0 for an unknown peer, or the length, with the buffer and
-- `*handshake_num`, which is `none` where it is not written.
pub data RecvUdp : Type 0 where
  minus_one : RecvUdp
  unknown : List ℕ → RecvUdp
  received : (len : ℕ) (handshake_num : Option ℕ) (bytes : List ℕ) → RecvUdp

-- `arrival` is the sender and the bytes of the datagram, or `none` when `select` or `recvfrom` fails;
-- `recvfrom` takes at most `maxsz` bytes of it; `buff` is the buffer, whose rest keeps what it held. The
-- table is `none` for NULL.
unfoldable pub ventrilo3_recv_udp :
    Option (List Auth) → (maxsz : ℕ) → Option (ℕ × List ℕ) → List ℕ → Option RecvUdp
unfolding find_auth
ventrilo3_recv_udp vauth maxsz none buff = some minus_one
ventrilo3_recv_udp none maxsz (some (peer, datagram)) buff =
    let taken = take maxsz datagram in
    some (received (length taken) none (taken ++ drop (length taken) buff))
ventrilo3_recv_udp (some vauth) maxsz (some (peer, datagram)) buff =
    let taken = take maxsz datagram in
    let len = length taken in
    let bytes = taken ++ drop len buff in
    elim (find_auth peer 0 vauth) [
      | none ↦ some (unknown bytes)
      | some (i, a) ↦ (do
        lo ← get_elem? bytes 10
        hi ← get_elem? bytes 11
        some (
            received len (some i) (
              if ltb 16 (bit_or lo (hi <<< 8))
              then take 16 taken
                ++ recv_udp_loop peer (start peer a.vnum) (drop 16 taken)
                ++ drop len buff
              else bytes)))
    ]

-- The state of the wait: it failed, an auth server's keys are there, or nothing more has arrived.
-- What a failed wait leaves in `*handshake_num` is not modelled.
pub data Outcome : Type 0 where
  failed waiting : Outcome
  keys : (handshake_num : Option ℕ) (handshake_key handshake : List ℕ) → Outcome

-- One round of the wait goes on by `next`, with the buffer.
unfoldable pub after_recv : RecvUdp → (List ℕ → Option Outcome) → Option Outcome
after_recv minus_one next = some failed
after_recv (unknown bytes) next = next bytes
after_recv (received len i bytes) next =
    let again = next bytes in
    if len == 0 || ltb len (0x5c + 16)
    then again
    else some (keys i (take 64 (drop 0x1c bytes)) (take 16 (drop 0x5c bytes)))

-- The wait of `ventrilo3_handshake`, over what arrives and the time of each round.
unfoldable pub wait_loop : List Auth → ℕ → List (ℕ × Option (ℕ × List ℕ)) → List ℕ → Option Outcome
wait_loop vauth deadline [] buff = some waiting
wait_loop vauth deadline ((now, arrival) ∷ arrivals) buff =
    let round = (do
      r ← ventrilo3_recv_udp (some vauth) 0x200 arrival buff
      after_recv r (wait_loop vauth deadline arrivals)) in
    if leb deadline now then some failed else round

-- One byte of the key: `d` is what is added.
abbrev pub scrambled : ℕ → ℕ → ℕ → ℕ
scrambled i b d = let s = u8 (b + d) in if s == 0 then u8 (i + 36) else s

unfoldable pub scramble_loop : ℕ → List ℕ → ℕ → ℕ → List ℕ → Option (List ℕ)
scramble_loop keylen v3key zero i key = some key
scramble_loop keylen v3key (suc left) i [] = none
scramble_loop keylen v3key (suc left) i (b ∷ key) = do
  d ← (if ltb i 64 then get_elem? v3key i else some (i + keylen))
  rest ← scramble_loop keylen v3key left (i + 1) key
  some (scrambled i b d ∷ rest)

-- `memset(key + ctx->size, 0, 64 - ctx->size)` when the key is short.
abbrev pub padded : KeyCtx → KeyCtx
padded ctx = record ctx {
  key =
      if ltb ctx.size 64
      then take ctx.size ctx.key ++ replicate (64 - ctx.size) 0 ++ drop 64 ctx.key
      else ctx.key;
  size = if ltb ctx.size 64 then 64 else ctx.size;
}

unfoldable pub ventrilo3_algo_scramble : KeyCtx → List ℕ → Option KeyCtx
unfolding scramble_loop
ventrilo3_algo_scramble ctx v3key = do
  key ← scramble_loop (padded ctx).size v3key (padded ctx).size 0 (padded ctx).key
  some (record (padded ctx) { key = key; pos = 0 })
