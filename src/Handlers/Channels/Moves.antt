-- ===== src/Handlers/Channels/Moves.antt =====
-- A channel that is unlinked and linked in again elsewhere: the same channels, in another order.
use ventmac.Prelude.{
  ℕ, zero, suc, ◌≤◌, ◌≡◌, ◌≢◌, refl, List, [], ◌∷◌, none, some, arith, length, get_elem?, ltb, ◌==◌,
  if◌then◌else◌,
}
use ventmac.Wire.Structs.{MsgChannel}
use ventmac.Roster.Keyed.{Distinct, find_entry}
use ventmac.Handlers.Channels.{unlink, insert_at}

pub find-nth :
    (n : ℕ) (cs : List MsgChannel) {c : MsgChannel}
    → get_elem? cs n ≡ some c
    → Distinct MsgChannel.id cs
    → find_entry MsgChannel.id c.id cs ≡ some c
unfolding find_entry
find-nth n [] e d = cc
find-nth zero (x ∷ cs) {c} e d = let same : x ≡ c = cc in rw same (ground arith)
find-nth (suc n) (x ∷ cs) {c} e d = let rest = find-nth n cs e d.1 in ground (arith, d.0, rest)

pub find-unlink :
    (n : ℕ) (cs : List MsgChannel) (i : ℕ) {c : MsgChannel}
    → get_elem? cs n ≡ some c
    → Distinct MsgChannel.id cs
    → find_entry MsgChannel.id i (unlink n cs)
      ≡ (if c.id == i then none else find_entry MsgChannel.id i cs)
unfolding unlink find_entry
find-unlink n [] i e d = cc
find-unlink zero (x ∷ cs) i {c} e d =
    let same : x ≡ c = cc in
    let gone : find_entry MsgChannel.id c.id cs ≡ none = rw same at d.0 in
    rw same (ground (arith, gone))
find-unlink (suc n) (x ∷ cs) i {c} e d =
    let rest = find-unlink n cs i e d.1 in ground (arith, d.0, rest, find-nth n cs e d.1)

absent_tail :
    (x : MsgChannel) (cs : List MsgChannel) (i : ℕ)
    → find_entry MsgChannel.id i (x ∷ cs) ≡ none
    → (x.id ≢ i) × (find_entry MsgChannel.id i cs ≡ none)
unfolding find_entry
absent_tail x cs i h = (ground arith, ground arith)

pub find-insert_at :
    (n : ℕ) (cs : List MsgChannel) (i : ℕ) (c : MsgChannel)
    → find_entry MsgChannel.id c.id cs ≡ none
    → find_entry MsgChannel.id i (insert_at n c cs)
      ≡ (if c.id == i then some c else find_entry MsgChannel.id i cs)
unfolding insert_at find_entry
find-insert_at zero cs i c h = refl
find-insert_at (suc n) [] i c h = refl
find-insert_at (suc n) (x ∷ cs) i c h =
    let (other, rest) = absent_tail x cs c.id h in ground (arith, find-insert_at n cs i c rest)

pub Distinct-unlink :
    (n : ℕ) (cs : List MsgChannel) {c : MsgChannel}
    → get_elem? cs n ≡ some c
    → Distinct MsgChannel.id cs
    → Distinct MsgChannel.id (unlink n cs)
unfolding unlink
Distinct-unlink n [] e d = cc
Distinct-unlink zero (x ∷ cs) e d = d.1
Distinct-unlink (suc n) (x ∷ cs) {c} e d =
    (rw (find-unlink n cs x.id e d.1, d.0) (ground arith), Distinct-unlink n cs e d.1)

pub Distinct-insert_at :
    (n : ℕ) (cs : List MsgChannel) (c : MsgChannel)
    → find_entry MsgChannel.id c.id cs ≡ none
    → Distinct MsgChannel.id cs
    → Distinct MsgChannel.id (insert_at n c cs)
unfolding insert_at
Distinct-insert_at zero cs c h d = (h, d)
Distinct-insert_at (suc n) [] c h d = (h, d)
Distinct-insert_at (suc n) (x ∷ cs) c h d =
    let (other, rest) = absent_tail x cs c.id h in
    (
      rw (find-insert_at n cs x.id c rest, d.0) (ground (arith, other)),
      Distinct-insert_at n cs c rest d.1,
    )

pub get_elem?-unlink :
    (n k : ℕ) (cs : List MsgChannel)
    → get_elem? (unlink n cs) k ≡ (if ltb k n then get_elem? cs k else get_elem? cs (suc k))
unfolding unlink
get_elem?-unlink zero k [] = ground arith
get_elem?-unlink (suc n) k [] = ground arith
get_elem?-unlink zero k (x ∷ cs) = ground arith
get_elem?-unlink (suc n) zero (x ∷ cs) = ground arith
get_elem?-unlink (suc n) (suc k) (x ∷ cs) = ground (arith, get_elem?-unlink n k cs)

pub get_elem?-insert_at :
    (n : ℕ) (c : MsgChannel) (cs : List MsgChannel)
    → n ≤ length cs
    → (get_elem? (insert_at n c cs) n ≡ some c)
      × (get_elem? (insert_at n c cs) (suc n) ≡ get_elem? cs n)
unfolding insert_at
get_elem?-insert_at zero c cs h = (refl, refl)
get_elem?-insert_at (suc n) c [] h = elim h [ ]
get_elem?-insert_at (suc n) c (x ∷ cs) h = get_elem?-insert_at n c cs (omega arith)
