-- ===== src/Codecs/Examples.antt =====
-- Tests of the codec table, and its theorems at concrete inputs.
use ventmac.Prelude.{◌≡◌, refl, true, false, some}
use ventmac.Codecs.{rows, v3_codecs, v3_get_codec, v3_get_codec_rate}
use ventmac.Codecs.Table.{Finds, v3_get_codec-Finds}

rate_test : v3_get_codec_rate (v3_codecs false true true) 3 32 ≡ some 32000
unfolding v3_get_codec_rate
rate_test = refl

v3_get_codec-Finds_example :
    Finds
      (rows false true true)
      3
      9
      (v3_get_codec (v3_codecs false true true) 3 9)
      (v3_get_codec_rate (v3_codecs false true true) 3 9)
v3_get_codec-Finds_example = v3_get_codec-Finds false true true 3 9
