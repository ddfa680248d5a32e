-- ===== src/Wire/Filters.antt =====
-- `_v3_strip_c0_set` and `_v3_parse_filter`, and reads past the end of a packet.
use ventmac.Prelude.{
  ℕ, ◌≤◌, ◌<◌, ◌≡◌, ◌≢◌, ◌⊎◌, refl, List, [], ◌∷◌, ◌++◌, none, some, arith, All, u8, u16,
}
use ventmac.Wire.{v3_strip_c0_set, split_comma, v3_parse_filter}

-- What `_v3_strip_c0_set` promises of a text before its final NUL.
abbrev pub IsStripped : List ℕ → List ℕ → Type 0
IsStripped [] [] = Unit
IsStripped [] (d ∷ t) = ⊥
IsStripped (c ∷ s) [] = ⊥
IsStripped (c ∷ s) (d ∷ t) = (32 ≤ d) × ((c < 32) × (d ≡ 32) ⊎ (32 ≤ c) × (d ≡ c)) × IsStripped s t

abbrev pub IsText : List ℕ → Type 0
IsText s = All (λ c. c ≢ 0) s

-- Of a text with no NUL before its end, each control character below 0x20 becomes a space and every
-- other byte stays; the length stays.
pub v3_strip_c0_set-IsStripped : (s : List ℕ) → IsText s → IsStripped s (v3_strip_c0_set s)
unfolding v3_strip_c0_set
v3_strip_c0_set-IsStripped [] h = tt
v3_strip_c0_set-IsStripped (c ∷ s) h = ground (arith, v3_strip_c0_set-IsStripped s h.1)

-- Doing it twice is doing it once.
pub v3_strip_c0_set_idem : (s : List ℕ) → v3_strip_c0_set (v3_strip_c0_set s) ≡ v3_strip_c0_set s
unfolding v3_strip_c0_set
v3_strip_c0_set_idem [] = refl
v3_strip_c0_set_idem (c ∷ s) = ground (arith, v3_strip_c0_set_idem s)

abbrev pub HasNoComma : List ℕ → Type 0
HasNoComma s = All (λ c. c ≢ b',') s

split_comma-append :
    (s rest : List ℕ) → HasNoComma s → split_comma (s ++ b',' ∷ rest) ≡ some (s, rest)
unfolding split_comma
split_comma-append [] rest h = refl
split_comma-append (c ∷ s) rest h = ground (arith, split_comma-append s rest h.1)

split_comma-none : (s : List ℕ) → HasNoComma s → split_comma s ≡ none
unfolding split_comma
split_comma-none [] h = refl
split_comma-none (c ∷ s) h = ground (arith, split_comma-none s h.1)

-- A value of three parts with two commas gives the three numbers that `atoi` reads, cut to the width
-- of their fields; a value with fewer than two commas is refused.
pub v3_parse_filter_parts :
    (atoi : List ℕ → ℕ) (a i t : List ℕ)
    → HasNoComma a
    → HasNoComma i
    → (v3_parse_filter atoi (a ++ b',' ∷ (i ++ b',' ∷ t))
        ≡ some (record { action = u8 (atoi a); interval = u16 (atoi i); times = u8 (atoi t) }))
      × (v3_parse_filter atoi (a ++ b',' ∷ i) ≡ none)
      × (v3_parse_filter atoi a ≡ none)
unfolding v3_parse_filter
v3_parse_filter_parts atoi a i t ha hi = (
  rw (split_comma-append a _ ha, split_comma-append i t hi),
  rw (split_comma-append a i ha, split_comma-none i hi),
  rw (split_comma-none a ha),
)
