-- ===== src/Roster/Tree/Paths/Chain.antt =====
-- Channels with the names on the way to them from the root, and that the look-ups find them.
use ventmac.Prelude.{
  ℕ, ◌≤◌, ◌≡◌, ◌≢◌, refl, sym, false, inl, inr, List, [], ◌∷◌, ◌++◌, some, arith, Bool-cases, All,
  length, ◌==◌, ◌⊎◌, take, take_short, All-map, true, ==_iff,
}
use ventmac.Wire.Structs.{MsgChannel}
use ventmac.Roster.{Lists, strdup}
use ventmac.Roster.Keyed.{find_entry}
use ventmac.Roster.Tree.Paths.{same_text, find_child}

-- A name that a path can hold.
pub record IsName (s : List ℕ) : Type 0 where
  pub some_byte : s ≢ []
  pub short : length s ≤ 32
  pub plain : All (λ c. (c ≢ b'/') × (c ≢ 0)) s

-- The channel is listed, with no other before it that has its number, or its parent and the start of
-- whose name is its name.
pub record IsListed (c : MsgChannel) (cs : List MsgChannel) : Type 0 where
  pub before : List MsgChannel
  pub after : List MsgChannel
  pub listed : cs ≡ before ++ c ∷ after
  pub apart :
      All
        (λ d. (d.id ≢ c.id) × ((d.parent ≢ c.parent) ⊎ (take 32 (strdup d.name) ≢ strdup c.name)))
        before

-- The names from the root to a channel.
pub data Chain (l : Lists) : ℕ → List (List ℕ) → Type 0 where
  top :
      (id : ℕ) (c : MsgChannel)
      → c.id ≡ id
      → IsListed c l.channels
      → c.parent ≡ 0
      → IsName (strdup c.name)
      → Chain l id (strdup c.name ∷ [])
  below :
      (id : ℕ) (c : MsgChannel) {ns : List (List ℕ)}
      → c.id ≡ id
      → IsListed c l.channels
      → c.parent ≢ 0
      → Chain l c.parent ns
      → IsName (strdup c.name)
      → Chain l id (ns ++ strdup c.name ∷ [])

same_text_refl : (s : List ℕ) → same_text s s ≡ true
unfolding same_text
same_text_refl [] = refl
same_text_refl (c ∷ s) = ground (arith, same_text_refl s)

same_text-equal : (s t : List ℕ) → same_text s t ≡ true → s ≡ t
unfolding same_text
same_text-equal [] [] h = refl
same_text-equal [] (d ∷ t) h = cc
same_text-equal (c ∷ s) [] h = cc
same_text-equal (c ∷ s) (d ∷ t) h = elim (Bool-cases (c == d)) [
  | inl e ↦
      let tails : same_text s t ≡ true = rw e at h in
      rw ((==_iff c d).0 e, same_text-equal s t tails)
  | inr e ↦ let absurd : false ≡ true = rw e at h in cc
]

same_text-other : (s t : List ℕ) → s ≢ t → same_text s t ≡ false
same_text-other s t h = elim (Bool-cases (same_text s t)) [
  | inl e ↦ elim (h (same_text-equal s t e)) [ ]
  | inr e ↦ e
]

module _ (c : MsgChannel) (after : List MsgChannel) where
  find_entry-before :
      (before : List MsgChannel)
      → All (λ d. d.id ≢ c.id) before
      → find_entry MsgChannel.id c.id (before ++ c ∷ after) ≡ some c
  unfolding find_entry
  find_entry-before [] h = let here : (c.id == c.id) ≡ true = ground arith in rw here
  find_entry-before (d ∷ before) h =
      let other : (d.id == c.id) ≡ false = ground (arith, h.0) in
      rw (other, find_entry-before before h.1)

  find_child-before :
      (before : List MsgChannel)
      → IsName (strdup c.name)
      → All (λ d. (d.parent ≢ c.parent) ⊎ (take 32 (strdup d.name) ≢ strdup c.name)) before
      → find_child c.parent (strdup c.name) (before ++ c ∷ after) ≡ some c.id
  unfolding find_child
  find_child-before [] name h =
      let here : (c.parent == c.parent) ≡ true = ground arith in
      rw (
        here,
        take_short 32 (strdup c.name) (omega (arith, name.short)),
        same_text_refl (strdup c.name),
      )
  find_child-before (d ∷ before) name h = elim h.0 [
    | inl k ↦
        let other : (d.parent == c.parent) ≡ false = ground (arith, k) in
        rw (other, find_child-before before name h.1)
    | inr k ↦ elim (Bool-cases (d.parent == c.parent)) [
      | inl e ↦ rw (
        e,
        same_text-other (take 32 (strdup d.name)) (strdup c.name) k,
        find_child-before before name h.1,
      )
      | inr e ↦ rw (e, find_child-before before name h.1)
    ]
  ]

-- Both look-ups give the channel.
pub IsListed-found :
    (c : MsgChannel) (cs : List MsgChannel) {id : ℕ}
    → c.id ≡ id
    → IsListed c cs
    → find_entry MsgChannel.id id cs ≡ some c
IsListed-found c cs k h =
    rw (sym k, h.listed)
      (find_entry-before c h.after h.before (All-map (λ d p. p.0) h.before h.apart))

pub IsListed-child :
    (c : MsgChannel) (cs : List MsgChannel) {id : ℕ}
    → c.id ≡ id
    → IsListed c cs
    → IsName (strdup c.name)
    → find_child c.parent (strdup c.name) cs ≡ some id
IsListed-child c cs k h name =
    rw (sym k, h.listed)
      (find_child-before c h.after h.before name (All-map (λ d p. p.1) h.before h.apart))
