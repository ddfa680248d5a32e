-- ===== src/Crypt/RoundTrip.antt =====
-- The cipher of ventrilo_algo.h: every step is undone, in step with the sender's key position.
use mathlib.Core.Option
use ventmac.Prelude.{
  ℕ, zero, suc, ◌+◌, ◌%◌, ◌≤◌, ◌<◌, ◌≡◌, refl, List, [], ◌∷◌, ◌++◌, Option, some, Option-cases, inl,
  inr, arith, length, get_elem?, get_or, get_elem?-eq-get_or, All, IsByte, u8, sub8, ◌>>=◌, ap,
}
use ventmac.Crypt.{
  KeyCtx, advance, enc_loop, dec_loop, ventrilo_enc, ventrilo_dec, first, first_enc_loop,
  first_dec_loop, ventrilo_first_enc, ventrilo_first_dec,
}

-- A context that `ventrilo_read_keys` can have filled: a key that is not empty, and a position in it.
pub record IsReady (ctx : KeyCtx) : Type 0 where
  pub nonempty : 0 < ctx.size
  pub fits : ctx.size ≤ length ctx.key
  pub within : ctx.pos < ctx.size

pub advance-IsReady : {ctx : KeyCtx} → IsReady ctx → IsReady (advance ctx)
unfolding advance
advance-IsReady v = ground arith

sub8-u8 : (x d : ℕ) → IsByte x → sub8 (u8 (x + d)) d ≡ x
sub8-u8 x d h = omega arith

-- What both ends of a connection have after one message of `size` bytes.
pub record Passed (ctx : KeyCtx) (xs : List ℕ) (sent : Option (KeyCtx × List ℕ))
    (received : List ℕ → Option (KeyCtx × List ℕ)) : Type 0 where
  pub ctx' : KeyCtx
  pub out : List ℕ
  pub sends : sent ≡ some (ctx', out)
  pub receives : received out ≡ some (ctx', xs)
  pub ready : IsReady ctx'
  pub same_length : length out ≡ length xs

loop-Passed :
    (ctx : KeyCtx) (left i : ℕ) (xs : List ℕ)
    → IsReady ctx
    → left ≤ length xs
    → All IsByte xs
    → Passed ctx xs (enc_loop ctx left i xs) (dec_loop ctx left i)
unfolding enc_loop dec_loop
loop-Passed ctx zero i xs v h b = record {
  ctx' = ctx;
  out = xs;
  sends = refl;
  receives = refl;
  ready = v;
  same_length = refl;
}
loop-Passed ctx (suc left) i [] v h b = elim h [ ]
loop-Passed ctx (suc left) i (x ∷ xs) v h b =
    let rest = loop-Passed (advance ctx) left (i + 1) xs (advance-IsReady v) (omega arith) b.1 in
    let k = get_or ctx.key ctx.pos 0 in
    let key_at : get_elem? ctx.key ctx.pos ≡ some k =
      get_elem?-eq-get_or ctx.key ctx.pos 0 (omega arith) in
    record {
      ctx' = rest.ctx';
      out = u8 (x + (k + i % 45)) ∷ rest.out;
      sends = ground (arith, key_at, rest.sends);
      receives = ground (arith, key_at, rest.receives, sub8-u8 x (k + i % 45) b.0);
      ready = rest.ready;
      same_length = ap suc rest.same_length;
    }

-- From equal contexts, decryption gives back what was encrypted and leaves the receiver's context
-- equal to the sender's. Neither reads outside the key or the buffer, and the key position stays
-- within the key.
pub ventrilo_dec-ventrilo_enc :
    (ctx : KeyCtx) (xs : List ℕ) (size : ℕ)
    → IsReady ctx
    → size ≤ length xs
    → All IsByte xs
    → Passed ctx xs (ventrilo_enc ctx xs size) (λ out. ventrilo_dec ctx out size)
unfolding ventrilo_enc ventrilo_dec
ventrilo_dec-ventrilo_enc ctx xs size v h b = loop-Passed ctx size 0 xs v h b

-- A sequence of messages encrypted one after the other with one context, as `_v3_send` does.
pub send_all : KeyCtx → List (List ℕ) → Option (List (List ℕ))
send_all ctx [] = some []
send_all ctx (m ∷ ms) = do
  (ctx', out) ← ventrilo_enc ctx m (length m)
  outs ← send_all ctx' ms
  some (out ∷ outs)

-- The same sequence decrypted by the other end, as `_v3_recv` does.
pub receive_all : KeyCtx → List (List ℕ) → Option (List (List ℕ))
receive_all ctx [] = some []
receive_all ctx (m ∷ ms) = do
  (ctx', out) ← ventrilo_dec ctx m (length m)
  outs ← receive_all ctx' ms
  some (out ∷ outs)

-- For every sequence of messages of bytes, two ends that start from one key context that is ready
-- stay in step: the sender does not fault, and the receiver decrypts the encrypted messages to the
-- original ones, in order. Ready is a context with at least one byte in use, all of them within
-- the key, and a position among them.
pub receive_all-send_all :
    (ctx : KeyCtx) (ms : List (List ℕ))
    → IsReady ctx
    → All (All IsByte) ms
    → (wire : List (List ℕ)) × (send_all ctx ms ≡ some wire) × (receive_all ctx wire ≡ some ms)
unfolding send_all receive_all
receive_all-send_all ctx [] v b = ([], refl, refl)
receive_all-send_all ctx (m ∷ ms) v b =
    let one = ventrilo_dec-ventrilo_enc ctx m (length m) v (omega arith) b.0 in
    let (wire, sends, receives) = receive_all-send_all one.ctx' ms one.ready b.1 in
    (
      one.out ∷ wire,
      rw one.sends (rw sends refl),
      rw one.same_length (rw one.receives (rw receives refl)),
    )

first_key : (i : ℕ) → get_elem? first (i % 11) ≡ some (get_or first (i % 11) 0)
first_key i = get_elem?-eq-get_or first (i % 11) 0 (omega arith)

first_loop-undo :
    (left i : ℕ) (xs : List ℕ)
    → left ≤ length xs
    → All IsByte xs
    → (out : List ℕ) × (first_enc_loop left i xs ≡ some out) × (first_dec_loop left i out ≡ some xs)
unfolding first_enc_loop first_dec_loop
first_loop-undo zero i xs h b = (xs, refl, refl)
first_loop-undo (suc left) i [] h b = elim h [ ]
first_loop-undo (suc left) i (x ∷ xs) h b =
    let (out, sends, receives) = first_loop-undo left (i + 1) xs (omega arith) b.1 in
    let k = get_or first (i % 11) 0 in
    (
      u8 (x + (k + i % 27)) ∷ out,
      rw (first_key i) (rw sends refl),
      rw (first_key i) (rw receives (rw (sub8-u8 x (k + i % 27) b.0) refl)),
    )

-- The fixed obfuscation of the first message is undone byte for byte, and never faults when `size`
-- is within the buffer.
pub ventrilo_first_dec-ventrilo_first_enc :
    (xs : List ℕ) (size : ℕ)
    → size ≤ length xs
    → All IsByte xs
    → (out : List ℕ) × (ventrilo_first_enc xs size ≡ some out)
      × (ventrilo_first_dec out size ≡ some xs)
unfolding ventrilo_first_enc ventrilo_first_dec
ventrilo_first_dec-ventrilo_first_enc xs size h b = first_loop-undo size 0 xs h b

-- Bytes behind the ones that are decrypted are left alone.
dec_loop-append :
    (ctx ctx' : KeyCtx) (left i : ℕ) (xs ys tail : List ℕ)
    → dec_loop ctx left i xs ≡ some (ctx', ys)
    → dec_loop ctx left i (xs ++ tail) ≡ some (ctx', ys ++ tail)
unfolding dec_loop
dec_loop-append ctx ctx' zero i xs ys tail e =
    ap (λ (r : Option (KeyCtx × List ℕ)). Option.map (λ q. (q.0, q.1 ++ tail)) r) e
dec_loop-append ctx ctx' (suc left) i [] ys tail e = cc
dec_loop-append ctx ctx' (suc left) i (x ∷ xs) ys tail e =
    elim (Option-cases (get_elem? ctx.key ctx.pos)) [
      | inl q ↦ absurd (ground arith)
      | inr (k, q) ↦ elim (Option-cases (dec_loop (advance ctx) left (i + 1) xs)) [
        | inl r ↦ absurd (ground arith)
        | inr ((c, zs), r) ↦
            rw (q, dec_loop-append (advance ctx) c left (i + 1) xs zs tail r)
              (ap (λ (r : Option (KeyCtx × List ℕ)). Option.map (λ q. (q.0, q.1 ++ tail)) r)
                (rw (q, r) at e))
      ]
    ]

pub ventrilo_dec-append :
    (ctx ctx' : KeyCtx) (xs ys tail : List ℕ) (size : ℕ)
    → ventrilo_dec ctx xs size ≡ some (ctx', ys)
    → ventrilo_dec ctx (xs ++ tail) size ≡ some (ctx', ys ++ tail)
unfolding ventrilo_dec
ventrilo_dec-append ctx ctx' xs ys tail size e = dec_loop-append ctx ctx' size 0 xs ys tail e
