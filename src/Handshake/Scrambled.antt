-- ===== src/Handshake/Scrambled.antt =====
-- `ventrilo3_algo_scramble`: the key that the ciphers use after the handshake.
use ventmac.Prelude.{
  ℕ, zero, suc, ◌+◌, ◌-◌, ◌≤◌, ◌<◌, ◌≡◌, ◌≢◌, refl, ap, inl, inr, Bool-cases, List, [], ◌∷◌, ◌++◌,
  Option, some, arith, true, length, length-append, length-take, length-drop, length-replicate,
  take, drop, replicate, get_elem?, get_or, get_elem?-eq-get_or, u8, ltb, ◌==◌, if◌then◌else◌,
}
use ventmac.Crypt.{KeyCtx}
use ventmac.Crypt.RoundTrip.{IsReady}
use ventmac.Handshake.{scrambled, scramble_loop, padded, ventrilo3_algo_scramble}

-- The loop ends within the key; it leaves no zero byte but where `i + 36` is 256.
pub record Scrambles (i left : ℕ) (key : List ℕ) (result : Option (List ℕ)) : Type 0 where
  pub key' : List ℕ
  pub returns : result ≡ some key'
  pub same_length : length key' ≡ length key
  pub nonzero : (j : ℕ) → j < left → i + j ≢ 220 → get_or key' j 0 ≢ 0

scrambled-nonzero : (i b d : ℕ) → i < 256 → i ≢ 220 → scrambled i b d ≢ 0
scrambled-nonzero i b d h k = elim (Bool-cases (u8 (b + d) == 0)) [
  | inl e ↦ rw e (omega arith)
  | inr e ↦ rw e (ground arith)
]

addend :
    (keylen : ℕ) (v3key : List ℕ) (i : ℕ)
    → 64 ≤ length v3key
    → (d : ℕ) × ((if ltb i 64 then get_elem? v3key i else some (i + keylen)) ≡ some d)
addend keylen v3key i h = elim (Bool-cases (ltb i 64)) [
  | inl e ↦ (get_or v3key i 0, rw e (get_elem?-eq-get_or v3key i 0 (ground arith)))
  | inr e ↦ (i + keylen, rw e)
]

nonzero_step :
    (i left s : ℕ) (key : List ℕ)
    → (i ≢ 220 → s ≢ 0)
    → ((j : ℕ) → j < left → i + 1 + j ≢ 220 → get_or key j 0 ≢ 0)
    → (j : ℕ) → j < suc left
    → i + j ≢ 220
    → get_or (s ∷ key) j 0 ≢ 0
nonzero_step i left s key first later zero less k = first (omega arith)
nonzero_step i left s key first later (suc j) less k = later j (omega arith) (omega arith)

scramble_loop-Scrambles :
    (keylen : ℕ) (v3key : List ℕ) (left i : ℕ) (key : List ℕ)
    → 64 ≤ length v3key
    → left ≤ length key
    → i + left ≤ 256
    → Scrambles i left key (scramble_loop keylen v3key left i key)
unfolding scramble_loop
scramble_loop-Scrambles keylen v3key zero i key h k room = record {
  key' = key;
  returns = refl;
  same_length = refl;
  nonzero = λ j less. elim less [ ];
}
scramble_loop-Scrambles keylen v3key (suc left) i [] h k room = elim k [ ]
scramble_loop-Scrambles keylen v3key (suc left) i (b ∷ key) h k room =
    let d = addend keylen v3key i h in
    let rest =
      scramble_loop-Scrambles keylen v3key left (i + 1) key h (omega arith) (omega arith) in
    record {
      key' = scrambled i b d.0 ∷ rest.key';
      returns = rw (d.1, rest.returns);
      same_length = ap suc rest.same_length;
      nonzero =
          nonzero_step i left (scrambled i b d.0) rest.key'
            (scrambled-nonzero i b d.0 (omega arith)) rest.nonzero;
    }

short : (m : ℕ) → ltb m 64 ≡ true → m < 64
short m e = ground arith

length-filled :
    (size : ℕ) (key : List ℕ)
    → size < 64
    → length key ≡ 256
    → length (take size key ++ replicate (64 - size) 0 ++ drop 64 key) ≡ 256
length-filled size key h k =
    let zeros : List ℕ = replicate (64 - size) 0 in
    omega (
      arith,
      length-append (take size key ++ zeros) (drop 64 key),
      length-append (take size key) zeros,
      length-append (take size key) (zeros ++ drop 64 key),
      length-append zeros (drop 64 key),
      length-take size key,
      length-replicate {A = ℕ} (64 - size) 0,
      length-drop 64 key,
    )

length-padded : (ctx : KeyCtx) → length ctx.key ≡ 256 → length (padded ctx).key ≡ 256
length-padded ctx h = elim (Bool-cases (ltb ctx.size 64)) [
  | inl e ↦ rw e (length-filled ctx.size ctx.key (short ctx.size e) h)
  | inr e ↦ rw e h
]

padded_size :
    (n : ℕ) → n ≤ 256 → (64 ≤ (if ltb n 64 then 64 else n)) × ((if ltb n 64 then 64 else n) ≤ 256)
padded_size n h = (ground arith, ground arith)

-- The scrambled context, ready for the cipher.
pub record Ready (result : Option KeyCtx) : Type 0 where
  pub ctx' : KeyCtx
  pub returns : result ≡ some ctx'
  pub ready : IsReady ctx'
  pub from_start : ctx'.pos ≡ 0
  pub long : 64 ≤ ctx'.size
  pub same_length : length ctx'.key ≡ 256
  pub nonzero : (j : ℕ) → j < ctx'.size → j ≢ 220 → get_or ctx'.key j 0 ≢ 0

-- For a key array of 256 bytes of which at most all are in use, and a handshake key of at least 64,
-- the result is a context that is ready for the cipher, from position 0, with at least 64 bytes in
-- use, of which only the one at 220 can be zero.
pub ventrilo3_algo_scramble-Ready :
    (ctx : KeyCtx) (v3key : List ℕ)
    → length ctx.key ≡ 256
    → ctx.size ≤ 256
    → 64 ≤ length v3key
    → Ready (ventrilo3_algo_scramble ctx v3key)
unfolding ventrilo3_algo_scramble
ventrilo3_algo_scramble-Ready ctx v3key h k long =
    let size = (padded ctx).size in
    let whole = length-padded ctx h in
    let (big, fits) = padded_size ctx.size k in
    let s =
      scramble_loop-Scrambles size v3key size 0 (padded ctx).key long (omega arith) (omega arith) in
    let same = s.same_length in
    record {
      ctx' = record (padded ctx) { key = s.key'; pos = 0 };
      returns = rw s.returns;
      ready = record { nonempty = omega arith; fits = omega arith; within = omega arith };
      from_start = refl;
      long = big;
      same_length = omega arith;
      nonzero = λ j less k. s.nonzero j less (omega arith);
    }
