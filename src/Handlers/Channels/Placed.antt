-- ===== src/Handlers/Channels/Placed.antt =====
-- What the move of a channel in the case 0x3b of `_v3_process_message` does to the list.
use ventmac.Prelude.{
  ℕ, zero, suc, ◌+◌, ◌-◌, ◌<◌, ◌≡◌, ◌≢◌, refl, sym, ◌∙◌, true, false, inl, inr, List, [], ◌∷◌, none,
  some, arith, Bool-cases, Option-cases, length, get_elem?, ltb, ◌==◌, if◌then◌else◌, ==_iff,
}
use ventmac.Wire.Structs.{MsgChannel}
use ventmac.Roster.Keyed.{Distinct, find_entry}
use ventmac.Handlers.Channels.{place, unlink, insert_at, relink}
use ventmac.Handlers.Channels.Moves.{
  find-nth, find-unlink, find-insert_at, Distinct-unlink, Distinct-insert_at, get_elem?-unlink,
  get_elem?-insert_at,
}

get_elem?-lt {ℓ} :
    {A : Type ℓ} (xs : List A) (k : ℕ) {a : A} → get_elem? xs k ≡ some a → k < length xs
get_elem?-lt [] k e = cc
get_elem?-lt (x ∷ xs) zero e = omega arith
get_elem?-lt (x ∷ xs) (suc k) e = omega (arith, get_elem?-lt xs k e)

-- The channel that stands at a place.
pub record StandsAt (id n : ℕ) (cs : List MsgChannel) : Type 0 where
  pub channel : MsgChannel
  pub found : get_elem? cs n ≡ some channel
  pub named : channel.id ≡ id

pub place-StandsAt :
    (id : ℕ) (cs : List MsgChannel) {n : ℕ} → place id cs ≡ some n → StandsAt id n cs
unfolding place
place-StandsAt id [] e = cc
place-StandsAt id (c ∷ cs) {n} e = elim (Bool-cases (c.id == id)) [
  | inl t ↦
      let at_head : some zero ≡ some n = rw t at e in
      let same : n ≡ 0 = cc in
      rw same (record { channel = c; found = refl; named = (==_iff c.id id).0 t })
  | inr t ↦ elim (Option-cases (place id cs)) [
    | inl p ↦ let nowhere : none ≡ some n = rw (t, p) at e in cc
    | inr (k, p) ↦
        let further : some (suc k) ≡ some n = rw (t, p) at e in
        let same : n ≡ suc k = cc in
        let s = place-StandsAt id cs p in
        rw same (record { channel = s.channel; found = s.found; named = s.named })
  ]
]

-- The same channels, each once, with the first of the two directly before the second.
pub record Placed (c t : MsgChannel) (cs cs' : List MsgChannel) : Type 0 where
  pub k : ℕ
  pub first : get_elem? cs' k ≡ some c
  pub second : get_elem? cs' (suc k) ≡ some t
  pub distinct : Distinct MsgChannel.id cs'
  pub same : (id : ℕ) → find_entry MsgChannel.id id cs' ≡ find_entry MsgChannel.id id cs

module _ (cs : List MsgChannel) (n : ℕ) (c : MsgChannel) (d : Distinct MsgChannel.id cs)
    (at_n : get_elem? cs n ≡ some c) where
  unlinked-find : find_entry MsgChannel.id c.id (unlink n cs) ≡ none
  unlinked-find = rw (find-unlink n cs c.id at_n d) (ground arith)

  found_at : (id : ℕ) → c.id ≡ id → find_entry MsgChannel.id id cs ≡ some c
  found_at id k = rw (sym k) (find-nth n cs at_n d)

  inserted-find :
      (m id : ℕ)
      → find_entry MsgChannel.id id (insert_at m c (unlink n cs)) ≡ find_entry MsgChannel.id id cs
  inserted-find m id =
      rw (find-insert_at m (unlink n cs) id c unlinked-find, find-unlink n cs id at_n d)
        (elim (Bool-cases (c.id == id)) [
          | inl e ↦ let k : c.id ≡ id = (==_iff c.id id).0 e in rw e (sym (found_at id k))
          | inr e ↦ rw e
        ])

  inserted-Distinct : (m : ℕ) → Distinct MsgChannel.id (insert_at m c (unlink n cs))
  inserted-Distinct m =
      Distinct-insert_at m (unlink n cs) c unlinked-find (Distinct-unlink n cs at_n d)

  inserted-Placed :
      (m : ℕ) {t : MsgChannel}
      → get_elem? (unlink n cs) m ≡ some t
      → Placed c t cs (insert_at m c (unlink n cs))
  inserted-Placed m {t} e =
      let (first, second) =
        get_elem?-insert_at m c (unlink n cs) (omega (arith, get_elem?-lt (unlink n cs) m e)) in
      record {
        k = m;
        first = first;
        second = second ∙ e;
        distinct = inserted-Distinct m;
        same = inserted-find m;
      }

  -- Wherever the channel is linked in, the list holds the same channels, each once.
  pub relink-kept :
      (target : ℕ) {cs' : List MsgChannel}
      → relink target n c cs ≡ some cs'
      → Distinct MsgChannel.id cs'
        × ((id : ℕ) → find_entry MsgChannel.id id cs' ≡ find_entry MsgChannel.id id cs)
  unfolding relink
  relink-kept target {cs'} done = elim (Bool-cases (n + 1 == target)) [
    | inl e ↦ let absurd : none ≡ some cs' = rw e at done in cc
    | inr e ↦
        let m = if ltb n target then target - 1 else target in
        let linked : some (insert_at m c (unlink n cs)) ≡ some cs' = rw e at done in
        let same : insert_at m c (unlink n cs) ≡ cs' = cc in
        rw (sym same) (inserted-Distinct m, inserted-find m)
  ]

module _ (cs : List MsgChannel) (target n : ℕ) (c t : MsgChannel) (d : Distinct MsgChannel.id cs)
    (at_target : get_elem? cs target ≡ some t) (at_n : get_elem? cs n ≡ some c) where
  before :
      (n + 1 == target) ≡ false
      → ltb n target ≡ true
      → get_elem? (unlink n cs) (target - 1) ≡ some t
  before e b =
      let up : suc (target - 1) ≡ target = ground (arith, b) in
      let low : ltb (target - 1) n ≡ false = ground (arith, b, e) in
      rw (get_elem?-unlink n (target - 1) cs, low, up) at_target

  behind : n ≢ target → ltb n target ≡ false → get_elem? (unlink n cs) target ≡ some t
  behind other b =
      let up : ltb target n ≡ true = ground (arith, b, other) in
      rw (get_elem?-unlink n target cs, up) at_target

  abbrev pub relinked : List MsgChannel
  relinked = elim (relink target n c cs) [ none ↦ cs | some cs' ↦ cs' ]

  pub relinked-Placed : n ≢ target → Placed c t cs relinked
  unfolding relink
  relinked-Placed other = elim (Bool-cases (n + 1 == target)) [
    | inl e ↦
        let next : suc n ≡ target = omega (arith, (==_iff (n + 1) target).0 e) in
        rw (relinked, relink, e)
          (record {
            k = n;
            first = at_n;
            second = rw next at_target;
            distinct = d;
            same = λ id. refl;
          })
    | inr e ↦ elim (Bool-cases (ltb n target)) [
      | inl b ↦
          rw (relinked, relink, e, b) (inserted-Placed cs n c d at_n (target - 1) (before e b))
      | inr b ↦ rw (relinked, relink, e, b) (inserted-Placed cs n c d at_n target (behind other b))
    ]
  ]
