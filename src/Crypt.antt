-- ===== src/Crypt.antt =====
-- Sources/CVentrilo3/ventrilo_algo.h: the stream cipher of the protocol, the fixed obfuscation of
-- the first message, and the split of a key message into the two keys.
-- A buffer is a list of bytes. A loop takes the number of rounds left, and returns `none` where it
-- would read or write past the end of the list.
pub mod RoundTrip
pub mod Keys
mod Examples
use ventmac.Prelude.{
  ℕ, zero, suc, ◌+◌, ◌-◌, ◌%◌, Bool, true, false, not, ◌||◌, List, [], ◌∷◌, ◌++◌, Option, none,
  some, get_elem?, take, drop, u8, sub8, ltb, ◌==◌, if◌then◌else◌, ◌>>=◌,
}

-- `key` is the whole array, 256 bytes; `size` of them are in use.
pub record KeyCtx : Type 0 where
  pub key : List ℕ
  pub size : ℕ
  pub pos : ℕ

-- `ctx->pos++; if(ctx->pos == ctx->size) ctx->pos = 0;`
unfoldable pub advance : KeyCtx → KeyCtx
advance ctx = record ctx { pos = if ctx.pos + 1 == ctx.size then 0 else ctx.pos + 1 }

-- The loops of `ventrilo_enc` and `ventrilo_dec`: `i` rounds are done, `left` remain.
unfoldable pub enc_loop : KeyCtx → ℕ → ℕ → List ℕ → Option (KeyCtx × List ℕ)
enc_loop ctx zero i xs = some (ctx, xs)
enc_loop ctx (suc left) i [] = none
enc_loop ctx (suc left) i (x ∷ xs) = do
  k ← get_elem? ctx.key ctx.pos
  (ctx', ys) ← enc_loop (advance ctx) left (i + 1) xs
  some (ctx', u8 (x + (k + i % 45)) ∷ ys)

pub dec_loop : KeyCtx → ℕ → ℕ → List ℕ → Option (KeyCtx × List ℕ)
dec_loop ctx zero i xs = some (ctx, xs)
dec_loop ctx (suc left) i [] = none
dec_loop ctx (suc left) i (x ∷ xs) = do
  k ← get_elem? ctx.key ctx.pos
  (ctx', ys) ← dec_loop (advance ctx) left (i + 1) xs
  some (ctx', sub8 x (k + i % 45) ∷ ys)

unfoldable pub ventrilo_enc : KeyCtx → List ℕ → ℕ → Option (KeyCtx × List ℕ)
ventrilo_enc ctx xs size = enc_loop ctx size 0 xs

pub ventrilo_dec : KeyCtx → List ℕ → ℕ → Option (KeyCtx × List ℕ)
ventrilo_dec ctx xs size = dec_loop ctx size 0 xs

-- The eleven bytes of the fixed key.
abbrev pub first : List ℕ
first = 0xaa ∷ 0x55 ∷ 0x22 ∷ 0xcc ∷ 0x69 ∷ 0x7c ∷ 0x38 ∷ 0x91 ∷ 0x88 ∷ 0xf5 ∷ 0xe1 ∷ []

pub first_enc_loop : ℕ → ℕ → List ℕ → Option (List ℕ)
first_enc_loop zero i xs = some xs
first_enc_loop (suc left) i [] = none
first_enc_loop (suc left) i (x ∷ xs) = do
  k ← get_elem? first (i % 11)
  ys ← first_enc_loop left (i + 1) xs
  some (u8 (x + (k + i % 27)) ∷ ys)

pub first_dec_loop : ℕ → ℕ → List ℕ → Option (List ℕ)
first_dec_loop zero i xs = some xs
first_dec_loop (suc left) i [] = none
first_dec_loop (suc left) i (x ∷ xs) = do
  k ← get_elem? first (i % 11)
  ys ← first_dec_loop left (i + 1) xs
  some (sub8 x (k + i % 27) ∷ ys)

pub ventrilo_first_enc : List ℕ → ℕ → Option (List ℕ)
ventrilo_first_enc xs size = first_enc_loop size 0 xs

pub ventrilo_first_dec : List ℕ → ℕ → Option (List ℕ)
ventrilo_first_dec xs size = first_dec_loop size 0 xs

-- What the scan of `ventrilo_read_keys` leaves: `del` (`none` is -1), whether the two pointers were
-- exchanged, and the final `i`.
pub record Scan : Type 0 where
  pub del : Option ℕ
  pub swapped : Bool
  pub stop : ℕ

-- The body of the loop at a byte `x` that is not 0.
pub mark : Option ℕ → Bool → ℕ → ℕ → Option ℕ × Bool
mark (some d) swapped i x = (some d, swapped)
mark none swapped i x =
    if x == b'|'
    then (some i, swapped)
    else if x == b','
    then (some i, not swapped)
    else (none, swapped)

pub scan_loop : ℕ → ℕ → Option ℕ × Bool → List ℕ → Option Scan
scan_loop zero i (del, swapped) xs = some (record { del = del; swapped = swapped; stop = i })
scan_loop (suc left) i (del, swapped) [] = none
scan_loop (suc left) i (del, swapped) (x ∷ xs) =
    let rest = scan_loop left (i + 1) (mark del swapped i x) xs in
    if x == 0 then some (record { del = del; swapped = swapped; stop = i }) else rest

-- `memcpy(ctx->key, part, ctx->size)` and the resets around it.
pub load_key : KeyCtx → List ℕ → ℕ → KeyCtx
load_key ctx part size = record ctx {
  key = take size part ++ drop size ctx.key;
  size = size;
  pos = 0;
}

-- The assignments after the loop, to the contexts that `client` and `server` then point to.
-- The Boolean is false where the function returns -1.
pub assign_keys : ℕ → ℕ → List ℕ → KeyCtx → KeyCtx → Bool × KeyCtx × KeyCtx
assign_keys del stop xs client server =
    let server_size = stop - (del + 1) in
    if ltb 256 del || ltb 256 server_size
    then (false, record client { size = del }, record server { size = server_size })
    else (true, load_key client xs del, load_key server (drop (del + 1) xs) server_size)

pub apply_scan : Scan → List ℕ → KeyCtx → KeyCtx → Option ℕ → Bool × KeyCtx × KeyCtx
apply_scan sc xs client server none = (false, client, server)
apply_scan sc xs client server (some del) =
    if sc.swapped
    then (let (ok, s, c) = assign_keys del sc.stop xs server client in (ok, c, s))
    else assign_keys del sc.stop xs client server

pub ventrilo_read_keys : KeyCtx → KeyCtx → List ℕ → ℕ → Option (Bool × KeyCtx × KeyCtx)
ventrilo_read_keys client server xs size = do
  sc ← scan_loop size 0 (none, false) xs
  some (apply_scan sc xs client server sc.del)
