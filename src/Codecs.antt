-- ===== src/Codecs.antt =====
-- Sources/CVentrilo3/libventrilo3.h and libventrilo3.c: the table of codecs, its look-ups, and the
-- number of frames that one packet of audio holds.
-- `gsm`, `opus` and `speex` say which codecs are compiled in. `none` is a read past the table.
pub mod Table
mod Examples
use ventmac.Prelude.{
  ℕ, ◌*◌, Bool, true, false, ◌&&◌, ◌||◌, List, [], ◌∷◌, ◌++◌, Option, none, some, get_or, ◌==◌,
  if◌then◌else◌, ◌>>=◌,
}
use ventmac.Wire.Structs.{MsgChannel}
use ventmac.Roster.{Lists}
use ventmac.Roster.Lookup.{v3_get_channel}

-- The fields but the name; they are unsigned, so that -1 is the greatest number.
pub record Codec : Type 0 where
  pub codec : ℕ
  pub format : ℕ
  pub pcmframesize : ℕ
  pub rate : ℕ
  pub quality : ℕ

abbrev row : ℕ → ℕ → ℕ → ℕ → ℕ → Codec
row codec format pcmframesize rate quality = record {
  codec = codec;
  format = format;
  pcmframesize = pcmframesize;
  rate = rate;
  quality = quality;
}

abbrev pub gsm_rows : List Codec
gsm_rows =
    row 0 0 640 8000 255
    ∷ row 0 1 640 11025 255
    ∷ row 0 2 640 22050 255
    ∷ row 0 3 640 44100 255
    ∷ []

abbrev pub opus_rows : List Codec
opus_rows = row 1 0 (960 * 2) 48000 255 ∷ row 2 0 (960 * 2) 48000 255 ∷ []

abbrev pub speex_rows : List Codec
speex_rows =
    row 3 0 320 8000 0
    ∷ row 3 1 320 8000 1
    ∷ row 3 2 320 8000 2
    ∷ row 3 3 320 8000 3
    ∷ row 3 4 320 8000 4
    ∷ row 3 5 320 8000 5
    ∷ row 3 6 320 8000 6
    ∷ row 3 7 320 8000 7
    ∷ row 3 8 320 8000 8
    ∷ row 3 9 320 8000 9
    ∷ row 3 10 320 8000 10
    ∷ row 3 11 640 16000 0
    ∷ row 3 12 640 16000 1
    ∷ row 3 13 640 16000 2
    ∷ row 3 14 640 16000 3
    ∷ row 3 15 640 16000 4
    ∷ row 3 16 640 16000 5
    ∷ row 3 17 640 16000 6
    ∷ row 3 18 640 16000 7
    ∷ row 3 19 640 16000 8
    ∷ row 3 20 640 16000 9
    ∷ row 3 21 640 16000 10
    ∷ row 3 22 1280 32000 0
    ∷ row 3 23 1280 32000 1
    ∷ row 3 24 1280 32000 2
    ∷ row 3 25 1280 32000 3
    ∷ row 3 26 1280 32000 4
    ∷ row 3 27 1280 32000 5
    ∷ row 3 28 1280 32000 6
    ∷ row 3 29 1280 32000 7
    ∷ row 3 30 1280 32000 8
    ∷ row 3 31 1280 32000 9
    ∷ row 3 32 1280 32000 10
    ∷ []

-- The last entry, "Unsupported Codec".
abbrev pub unsupported : Codec
unsupported = row 255 255 0 0 255

abbrev pub rows : Bool → Bool → Bool → List Codec
rows gsm opus speex =
    (if gsm then gsm_rows else [])
    ++ (if opus then opus_rows else [])
    ++ (if speex then speex_rows else [])

abbrev pub v3_codecs : Bool → Bool → Bool → List Codec
v3_codecs gsm opus speex = rows gsm opus speex ++ unsupported ∷ []

-- The walk up to the entry that fits, or to the last one.
pub codec_loop : ℕ → ℕ → List Codec → Option Codec
codec_loop codec format [] = none
codec_loop codec format (c ∷ cs) =
    let rest = codec_loop codec format cs in
    if c.codec == 255
    then some c
    else if c.codec == codec && c.format == format
    then some c
    else rest

pub v3_get_codec : List Codec → ℕ → ℕ → Option Codec
unfolding codec_loop
v3_get_codec codecs codec format = codec_loop codec format codecs

unfoldable pub v3_get_codec_rate : List Codec → ℕ → ℕ → Option ℕ
v3_get_codec_rate [] codec format = none
v3_get_codec_rate (c ∷ cs) codec format =
    let rest = v3_get_codec_rate cs codec format in
    if c.codec == 255
    then some 0
    else if c.codec == codec && c.format == format
    then some c.rate
    else rest

-- `channel_codec` and `channel_format`, the eighteenth and nineteenth of the settings.
abbrev pub channel_codec : MsgChannel → ℕ
channel_codec c = get_or c.settings 17 0

abbrev pub channel_format : MsgChannel → ℕ
channel_format c = get_or c.settings 18 0

-- `codec` and `format` are `v3_server.codec` and `v3_server.codec_format`.
pub v3_get_channel_codec : List Codec → ℕ → ℕ → Lists → ℕ → Option Codec
v3_get_channel_codec codecs codec format l id =
    let default = v3_get_codec codecs codec format in
    if id == 0 then default else elim (v3_get_channel l id) [
      | none ↦ default
      | some c ↦
          if channel_codec c == 65535 || channel_format c == 65535
          then default
          else v3_get_codec codecs (channel_codec c) (channel_format c)
    ]

abbrev pub gsm_frames : ℕ → ℕ
gsm_frames format =
    if format == 0
    then 3
    else if format == 1
    then 4
    else if format == 2
    then 7
    else if format == 3
    then 15
    else 0

pub v3_max_pcm_frames : Codec → ℕ
v3_max_pcm_frames c =
    if c.codec == 0
    then gsm_frames c.format
    else if c.codec == 1
    then 1
    else if c.codec == 2
    then 1
    else if c.codec == 3
    then 6
    else 0
