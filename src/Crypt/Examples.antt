-- ===== src/Crypt/Examples.antt =====
-- Tests of the cipher, and its theorems at concrete inputs.
use ventmac.Prelude.{ℕ, ◌≡◌, refl, true, List, [], ◌∷◌, none, some, arith, replicate}
use ventmac.Crypt.{
  KeyCtx, advance, ventrilo_enc, enc_loop, ventrilo_dec, ventrilo_first_enc, first_enc_loop,
  ventrilo_first_dec, ventrilo_read_keys,
}
use ventmac.Crypt.RoundTrip.{
  IsReady, Passed, ventrilo_dec-ventrilo_enc, send_all, receive_all, receive_all-send_all,
  ventrilo_first_dec-ventrilo_first_enc,
}
use ventmac.Crypt.Keys.{IsKeyMessage, message, total, loaded, ventrilo_read_keys-splits}

abbrev ctx : KeyCtx
ctx = record { key = 10 ∷ 20 ∷ 30 ∷ replicate 253 0; size = 3; pos = 2 }

abbrev blank : KeyCtx
blank = record { key = replicate 256 0; size = 0; pos = 0 }

abbrev plain_text : List ℕ
plain_text = 250 ∷ 1 ∷ 2 ∷ 3 ∷ []

ctx-IsReady : IsReady ctx
ctx-IsReady = record { nonempty = omega arith; fits = omega arith; within = omega arith }

enc_wraps : ventrilo_enc ctx plain_text 4 ≡ some (record ctx { pos = 0 }, 24 ∷ 12 ∷ 24 ∷ 36 ∷ [])
unfolding ventrilo_enc enc_loop advance
enc_wraps = refl

first_enc_runs : ventrilo_first_enc plain_text 4 ≡ some (164 ∷ 87 ∷ 38 ∷ 210 ∷ [])
unfolding ventrilo_first_enc first_enc_loop
first_enc_runs = refl

reads_past_the_end : ventrilo_enc ctx plain_text 5 ≡ none
unfolding ventrilo_enc enc_loop advance
reads_past_the_end = refl

ventrilo_dec-ventrilo_enc_example :
    Passed ctx plain_text (ventrilo_enc ctx plain_text 4) (λ out. ventrilo_dec ctx out 4)
ventrilo_dec-ventrilo_enc_example =
    ventrilo_dec-ventrilo_enc ctx plain_text 4 ctx-IsReady (omega arith) (omega arith)

receive_all-send_all_example :
    (wire : List (List ℕ)) × (send_all ctx (plain_text ∷ (7 ∷ []) ∷ []) ≡ some wire)
    × (receive_all ctx wire ≡ some (plain_text ∷ (7 ∷ []) ∷ []))
receive_all-send_all_example =
    receive_all-send_all ctx (plain_text ∷ (7 ∷ []) ∷ []) ctx-IsReady (omega arith)

ventrilo_first_dec-ventrilo_first_enc_example :
    (out : List ℕ) × (ventrilo_first_enc plain_text 3 ≡ some out)
    × (ventrilo_first_dec out 3 ≡ some plain_text)
ventrilo_first_dec-ventrilo_first_enc_example =
    ventrilo_first_dec-ventrilo_first_enc plain_text 3 (omega arith) (omega arith)

abbrev client_key : List ℕ
client_key = b'a' ∷ b'b' ∷ []

abbrev server_key : List ℕ
server_key = b'x' ∷ b'|' ∷ b'z' ∷ []

keys-IsKeyMessage : IsKeyMessage client_key server_key (0 ∷ 9 ∷ []) 2
keys-IsKeyMessage = record { plain = omega arith; nonzero = omega arith; ends = refl }

ventrilo_read_keys-splits_example :
    (ventrilo_read_keys blank blank
        (message client_key b'|' server_key (0 ∷ 9 ∷ []))
        (total client_key server_key 2)
      ≡ some (true, loaded blank client_key, loaded blank server_key))
    × (ventrilo_read_keys blank blank
          (message client_key b',' server_key (0 ∷ 9 ∷ []))
          (total client_key server_key 2)
        ≡ some (true, loaded blank server_key, loaded blank client_key))
ventrilo_read_keys-splits_example =
    ventrilo_read_keys-splits client_key server_key (0 ∷ 9 ∷ []) 2 keys-IsKeyMessage blank blank
      (omega arith) (omega arith)

abbrev long_key : List ℕ
long_key = replicate 257 7

long-IsKeyMessage : IsKeyMessage long_key server_key [] 0
long-IsKeyMessage = record { plain = omega arith; nonzero = omega arith; ends = tt }
