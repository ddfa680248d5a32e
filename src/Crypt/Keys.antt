-- ===== src/Crypt/Keys.antt =====
-- ventrilo_read_keys: where the key message is split, and what each context then holds.
use ventmac.Prelude.{
  ℕ, zero, suc, ◌+◌, ◌-◌, ◌≤◌, ◌<◌, ◌≡◌, ◌≢◌, refl, ap, ◌∙◌, ◌⊎◌, Bool, true, false, List, [], ◌∷◌,
  ◌++◌, Option, none, some, arith, length, length-append, All, drop, take_prefix, drop_prefix,
  drop-add,
}
use ventmac.Crypt.{KeyCtx, mark, scan_loop, load_key, assign_keys, apply_scan, ventrilo_read_keys}
use ventmac.Crypt.RoundTrip.{IsReady}

-- A byte before the separator: neither the end of the text nor a separator.
abbrev pub IsPlain : ℕ → Type 0
IsPlain x = (x ≢ 0) × (x ≢ b'|') × (x ≢ b',')

abbrev pub IsNonzero : ℕ → Type 0
IsNonzero x = x ≢ 0

-- The scan ends here: no round is left, or the next byte is 0.
abbrev pub IsEnd : ℕ → List ℕ → Type 0
IsEnd zero xs = Unit
IsEnd (suc left) [] = ⊥
IsEnd (suc left) (x ∷ xs) = x ≡ 0

scan_stops :
    (left i : ℕ) (del : Option ℕ) (swapped : Bool) (xs : List ℕ)
    → IsEnd left xs
    → scan_loop left i (del, swapped) xs ≡ some (record { del = del; swapped = swapped; stop = i })
unfolding scan_loop
scan_stops zero i del swapped xs h = refl
scan_stops (suc left) i del swapped [] h = elim h [ ]
scan_stops (suc left) i del swapped (x ∷ xs) h = ground arith

-- `n` rounds pass over a part of `n` bytes without a separator.
scan_plain :
    (c : List ℕ) (n left i j : ℕ) (xs : List ℕ)
    → n ≡ length c + left
    → j ≡ i + length c
    → All IsPlain c
    → scan_loop n i (none, false) (c ++ xs) ≡ scan_loop left j (none, false) xs
unfolding scan_loop mark
scan_plain [] n left i j xs e f h =
    let e' : n ≡ left = omega arith in let f' : j ≡ i = omega arith in rw (e', f')
scan_plain (x ∷ c) zero left i j xs e f h = absurd (omega arith)
scan_plain (x ∷ c) (suc n) left i j xs e f h =
    ground (arith, scan_plain c n left (i + 1) j xs (omega arith) (omega arith) h.1)

scan_rest :
    (s : List ℕ) (n left i j d : ℕ) (swapped : Bool) (xs : List ℕ)
    → n ≡ length s + left
    → j ≡ i + length s
    → All IsNonzero s
    → scan_loop n i (some d, swapped) (s ++ xs) ≡ scan_loop left j (some d, swapped) xs
unfolding scan_loop mark
scan_rest [] n left i j d swapped xs e f h =
    let e' : n ≡ left = omega arith in let f' : j ≡ i = omega arith in rw (e', f')
scan_rest (x ∷ s) zero left i j d swapped xs e f h = absurd (omega arith)
scan_rest (x ∷ s) (suc n) left i j d swapped xs e f h =
    ground (arith, scan_rest s n left (i + 1) j d swapped xs (omega arith) (omega arith) h.1)

scan_separator :
    (left i sep : ℕ) (st : Option ℕ × Bool) (xs : List ℕ)
    → sep ≢ 0
    → mark none false i sep ≡ st
    → scan_loop (suc left) i (none, false) (sep ∷ xs) ≡ scan_loop left (i + 1) st xs
unfolding scan_loop
scan_separator left i sep st xs h m = ground (arith, ap (λ t. scan_loop left (i + 1) t xs) m)

-- A context that holds `part` as its key, and the old bytes behind it.
abbrev pub loaded : KeyCtx → List ℕ → KeyCtx
loaded ctx part = record ctx {
  key = part ++ drop (length part) ctx.key;
  size = length part;
  pos = 0;
}

-- A key message: one key, a separator, the other key, and `left` more bytes that the scan may read,
-- of which the first, if any, is 0.
pub record IsKeyMessage (c s t : List ℕ) (left : ℕ) : Type 0 where
  pub plain : All IsPlain c
  pub nonzero : All IsNonzero s
  pub ends : IsEnd left t

abbrev pub message : List ℕ → ℕ → List ℕ → List ℕ → List ℕ
message c sep s t = c ++ sep ∷ (s ++ t)

abbrev pub total : List ℕ → List ℕ → ℕ → ℕ
total c s left = length c + suc (length s + left)

module _ (c s t : List ℕ) (left : ℕ) (v : IsKeyMessage c s t left) where
  scan_message :
      (sep : ℕ) (swapped : Bool)
      → sep ≢ 0
      → mark none false (length c) sep ≡ (some (length c), swapped)
      → scan_loop (total c s left) 0 (none, false) (message c sep s t)
        ≡ some
            (record { del = some (length c); swapped = swapped; stop = length c + (1 + length s) })
  scan_message sep swapped h m =
      scan_plain c (total c s left) (suc (length s + left)) 0 (length c) (sep ∷ (s ++ t)) refl
        (omega arith) v.plain
      ∙ scan_separator (length s + left) (length c) sep _ (s ++ t) h m
      ∙ scan_rest s (length s + left) left (length c + 1) (length c + (1 + length s)) (length c)
          swapped t refl (omega arith) v.nonzero
      ∙ scan_stops left (length c + (1 + length s)) (some (length c)) swapped t v.ends

  load_first : (sep : ℕ) (ctx : KeyCtx) → load_key ctx (message c sep s t) (length c) ≡ loaded ctx c
  unfolding load_key
  load_first sep ctx = rw (take_prefix c (sep ∷ (s ++ t)))

  load_second :
      (sep n : ℕ) (ctx : KeyCtx)
      → n ≡ length s
      → load_key ctx (drop (length c + 1) (message c sep s t)) n ≡ loaded ctx s
  unfolding load_key
  load_second sep n ctx e =
      rw (e, drop-add (length c) 1 (message c sep s t), drop_prefix c (sep ∷ (s ++ t)))
        (rw (take_prefix s t))

  -- Both keys are stored whole when both fit, each in the context that stands for its side.
  assign_both :
      (sep : ℕ) (a b : KeyCtx)
      → length c ≤ 256
      → length s ≤ 256
      → assign_keys (length c) (length c + (1 + length s)) (message c sep s t) a b
        ≡ (true, loaded a c, loaded b s)
  unfolding assign_keys
  assign_both sep a b hc hs =
      let e : length c + (1 + length s) - (length c + 1) ≡ length s = omega arith in
      rw (e, load_first sep a, load_second sep (length s) b refl) (ground arith)

  assign_neither :
      (sep : ℕ) (a b : KeyCtx)
      → (256 < length c) ⊎ (256 < length s)
      → (assign_keys (length c) (length c + (1 + length s)) (message c sep s t) a b).0 ≡ false
  unfolding assign_keys
  assign_neither sep a b h = ground arith

  -- A message with the separator `|` gives the client the key before it and the server the key
  -- after it, with both positions at 0; with the separator `,` the two are exchanged.
  -- Both keys must be at most 256 bytes long.
  pub ventrilo_read_keys-splits :
      (client server : KeyCtx)
      → length c ≤ 256
      → length s ≤ 256
      → (ventrilo_read_keys client server (message c b'|' s t) (total c s left)
          ≡ some (true, loaded client c, loaded server s))
        × (ventrilo_read_keys client server (message c b',' s t) (total c s left)
            ≡ some (true, loaded client s, loaded server c))
  unfolding ventrilo_read_keys apply_scan mark
  ventrilo_read_keys-splits client server hc hs = (
    rw (scan_message b'|' false (omega arith) refl) (rw (assign_both b'|' client server hc hs)),
    rw (scan_message b',' true (omega arith) refl) (rw (assign_both b',' server client hc hs)),
  )

-- The result of a call that returns -1.
abbrev pub IsRefused : Option (Bool × KeyCtx × KeyCtx) → Type 0
IsRefused none = ⊥
IsRefused (some (ok, client, server)) = ok ≡ false

module _ (c s t : List ℕ) (left : ℕ) (v : IsKeyMessage c s t left) where
  -- A message in which one of the two parts is longer than 256 bytes is refused, with either
  -- separator.
  pub ventrilo_read_keys-too_long :
      (client server : KeyCtx)
      → (256 < length c) ⊎ (256 < length s)
      → IsRefused (ventrilo_read_keys client server (message c b'|' s t) (total c s left))
        × IsRefused (ventrilo_read_keys client server (message c b',' s t) (total c s left))
  unfolding ventrilo_read_keys apply_scan mark
  ventrilo_read_keys-too_long client server h = (
    rw (scan_message c s t left v b'|' false (omega arith) refl)
        (assign_neither c s t left v b'|' client server h),
    rw (scan_message c s t left v b',' true (omega arith) refl)
        (assign_neither c s t left v b',' server client h),
  )

-- A text with no separator up to its end is refused, and both contexts are left as they were.
pub ventrilo_read_keys-no_separator :
    (c t : List ℕ) (left : ℕ) (client server : KeyCtx)
    → All IsPlain c
    → IsEnd left t
    → ventrilo_read_keys client server (c ++ t) (length c + left) ≡ some (false, client, server)
unfolding ventrilo_read_keys apply_scan
ventrilo_read_keys-no_separator c t left client server plain ends =
    rw
      (
        scan_plain c (length c + left) left 0 (length c) t refl (omega arith) plain,
        scan_stops left (length c) none false t ends,
      )
      refl

-- What is loaded is ready for the cipher, when the key is not empty and the array is large enough.
pub loaded-IsReady : (ctx : KeyCtx) (part : List ℕ) → 0 < length part → IsReady (loaded ctx part)
loaded-IsReady ctx part h = record {
  nonempty = h;
  fits = omega (arith, length-append part (drop (length part) ctx.key));
  within = h;
}
