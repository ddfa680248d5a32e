-- ===== src/Codecs/Table.antt =====
-- What the look-ups of codecs find, and that one packet of audio fits its buffer.
use ventmac.Prelude.{
  ℕ, ◌*◌, ◌≤◌, ◌<◌, ◌≡◌, ◌≢◌, sym, ◌∙◌, ◌⊎◌, inl, inr, refl, Bool, true, false, ◌&&◌, Bool-cases,
  List, [], ◌∷◌, ◌++◌, Option, some, arith, All, All-append, leb, ltb, ◌==◌, if◌then◌else◌, ==_iff,
}
use ventmac.Codecs.{
  Codec, gsm_rows, opus_rows, speex_rows, rows, unsupported, v3_codecs, codec_loop, v3_get_codec,
  v3_get_codec_rate, v3_max_pcm_frames,
}

-- A row that can be used: it is not the last one, a packet of it is not empty and fits the 32768
-- bytes of `v3_event_data.sample`, in stereo too.
pub record Usable (c : Codec) : Type 0 where
  pub not_last : c.codec ≢ 255
  pub some_bytes : 0 < v3_max_pcm_frames c * c.pcmframesize
  pub fits : v3_max_pcm_frames c * c.pcmframesize * 2 ≤ 32768
  pub some_rate : 0 < c.rate

abbrev usable : Codec → Bool
usable c =
    ltb c.codec 255
    && ltb 0 (v3_max_pcm_frames c * c.pcmframesize)
    && leb (v3_max_pcm_frames c * c.pcmframesize * 2) 32768
    && ltb 0 c.rate

abbrev all_usable : List Codec → Bool
all_usable [] = true
all_usable (c ∷ cs) = usable c && all_usable cs

false-ne-true : ¬ (false ≡ true)
false-ne-true = λ e. cc

both_true : (a b : Bool) → a ≡ true → b ≡ true → (a && b) ≡ true
both_true true b p q = q
both_true false b p q = p

and_true : (a b : Bool) → (a && b) ≡ true → (a ≡ true) × (b ≡ true)
and_true true b h = (refl, h)
and_true false b h = (h, elim (false-ne-true h) [ ])

ltb→lt : {m n : ℕ} → ltb m n ≡ true → m < n
ltb→lt h = ground arith

leb→le : {m n : ℕ} → leb m n ≡ true → m ≤ n
leb→le h = ground arith

usable-Usable : (c : Codec) → usable c ≡ true → Usable c
usable-Usable c h =
    let (abc, rated) = and_true _ _ h in
    let (ab, fits) = and_true _ _ abc in
    let (a, b) = and_true _ _ ab in
    let below : c.codec < 255 = ground arith in
    record {
      not_last = omega arith;
      some_bytes = ltb→lt b;
      fits = leb→le fits;
      some_rate = ltb→lt rated;
    }

all_usable-Usable : (cs : List Codec) → all_usable cs ≡ true → All Usable cs
all_usable-Usable [] h = tt
all_usable-Usable (c ∷ cs) h =
    let (first, rest) = and_true _ _ h in (usable-Usable c first, all_usable-Usable cs rest)

chosen-Usable : (b : Bool) (cs : List Codec) → All Usable cs → All Usable (if b then cs else [])
chosen-Usable true cs h = h
chosen-Usable false cs h = tt

-- Every row of the table but the last can be used, whichever codecs are compiled in: a packet of
-- audio is not empty and fits the 32768 bytes of a sample, in stereo too, and the rate is not 0.
pub rows-Usable : (gsm opus speex : Bool) → All Usable (rows gsm opus speex)
unfolding v3_max_pcm_frames
rows-Usable gsm opus speex =
    All-append Usable ((if gsm then gsm_rows else []) ++ (if opus then opus_rows else [])) _
      (All-append Usable (if gsm then gsm_rows else []) _
        (chosen-Usable gsm gsm_rows (all_usable-Usable gsm_rows refl))
        (chosen-Usable opus opus_rows (all_usable-Usable opus_rows refl)))
      (chosen-Usable speex speex_rows (all_usable-Usable speex_rows refl))

abbrev pub IsFor : ℕ → ℕ → Codec → Type 0
IsFor codec format c = (c.codec ≡ codec) × (c.format ≡ format)

-- What the two look-ups give: a usable row for the codec and the format, or, when no row is, the
-- last entry; the rate is that of the entry.
pub record Finds (cs : List Codec) (codec format : ℕ) (result : Option Codec) (rate : Option ℕ)
    : Type 0 where
  pub entry : Codec
  pub returns : result ≡ some entry
  pub returns_rate : rate ≡ some entry.rate
  pub right :
      (IsFor codec format entry × Usable entry)
      ⊎ ((entry ≡ unsupported) × All (λ c. ¬ (IsFor codec format c)) cs)

differs : (m n : ℕ) → m ≢ n → (m == n) ≡ false
differs m n h = ground arith

fits_test :
    (codec format : ℕ) (c : Codec)
    → (IsFor codec format c × ((c.codec == codec && c.format == format) ≡ true))
      ⊎ ((¬ (IsFor codec format c)) × ((c.codec == codec && c.format == format) ≡ false))
fits_test codec format c = elim (Bool-cases (c.codec == codec && c.format == format)) [
  | inl e ↦
      let (p, q) = and_true _ _ e in
      inl (((==_iff c.codec codec).0 p, (==_iff c.format format).0 q), e)
  | inr e ↦ inr (
    (λ f.
        let both = both_true _ _ ((==_iff c.codec codec).1 f.0) ((==_iff c.format format).1 f.1) in
        false-ne-true (sym e ∙ both)),
    e,
  )
]

loop-Finds :
    (codec format : ℕ) (cs : List Codec)
    → All Usable cs
    → Finds cs codec format
        (codec_loop codec format (cs ++ unsupported ∷ []))
        (v3_get_codec_rate (cs ++ unsupported ∷ []) codec format)
unfolding codec_loop v3_get_codec_rate
loop-Finds codec format [] u = record {
  entry = unsupported;
  returns = refl;
  returns_rate = refl;
  right = inr (refl, tt);
}
loop-Finds codec format (c ∷ cs) u =
    let rest = loop-Finds codec format cs u.1 in
    let here : (c.codec == 255) ≡ false = differs c.codec 255 u.0.not_last in
    elim (fits_test codec format c) [
      | inl (found, e) ↦ record {
        entry = c;
        returns = rw (here, e);
        returns_rate = rw (here, e);
        right = inl (found, u.0);
      }
      | inr (other, e) ↦ record {
        entry = rest.entry;
        returns = rw (here, e) rest.returns;
        returns_rate = rw (here, e) rest.returns_rate;
        right = elim rest.right [
          | inl r ↦ inl r
          | inr (last, none_fits) ↦ inr (last, (other, none_fits))
        ];
      }
    ]

-- For every choice of compiled codecs, `v3_get_codec` and `v3_get_codec_rate` end within the table and
-- give the same entry's codec and rate: one that can be used and is for the codec and the format,
-- or, when no row is, the last one.
pub v3_get_codec-Finds :
    (gsm opus speex : Bool) (codec format : ℕ)
    → Finds
        (rows gsm opus speex)
        codec
        format
        (v3_get_codec (v3_codecs gsm opus speex) codec format)
        (v3_get_codec_rate (v3_codecs gsm opus speex) codec format)
unfolding v3_get_codec
v3_get_codec-Finds gsm opus speex codec format =
    loop-Finds codec format (rows gsm opus speex) (rows-Usable gsm opus speex)
