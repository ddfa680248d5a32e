-- ===== src/Roster/Tree/Paths/RoundTrip.antt =====
-- A path of names that `v3_get_channel_path` makes leads `v3_get_channel_id` back to the channel.
use ventmac.Prelude.{
  ℕ, zero, suc, ◌≤◌, ◌≡◌, ◌≢◌, refl, sym, ap, ◌∙◌, false, inl, inr, List, [], ◌∷◌, ◌++◌,
  append_assoc, append-nil, Option, none, some, arith, Bool-cases, Option-cases, All, All-append,
  length-append, length, ltb, ◌==◌,
}
use ventmac.Roster.{Lists, strdup}
use ventmac.Roster.Tree.Paths.Chain.{IsName, Chain, top, below, IsListed-found, IsListed-child}
use ventmac.Roster.Tree.Paths.{
  path_loop, v3_get_channel_path, add_name, split_path, find_child, id_loop, v3_get_channel_id,
}

-- The names, each with the separator before it but the first.
pub join : List (List ℕ) → List ℕ
join [] = []
join (n ∷ []) = n
join (n ∷ m ∷ ns) = n ++ b'/' ∷ join (m ∷ ns)

join-append :
    (ns : List (List ℕ)) (n : List ℕ) → ns ≢ [] → join (ns ++ n ∷ []) ≡ join ns ++ b'/' ∷ n
unfolding join
join-append [] n h = elim (h refl) [ ]
join-append (a ∷ []) n h = refl
join-append (a ∷ b ∷ ns) n h =
    rw (join-append (b ∷ ns) n (λ e. cc), append_assoc a (b'/' ∷ join (b ∷ ns)) (b'/' ∷ n))

split_path-append :
    (word s rest : List ℕ)
    → All (λ c. (c ≢ b'/') × (c ≢ 0)) s
    → split_path word (s ++ b'/' ∷ rest) ≡ add_name (word ++ s) (split_path [] rest)
unfolding split_path
split_path-append word [] rest h = rw (append-nil word)
split_path-append word (c ∷ s) rest h =
    let other : (c == b'/') ≡ false = ground (arith, h.0) in
    rw (other, split_path-append (word ++ c ∷ []) s rest h.1, append_assoc word (c ∷ []) s)

split_path-last :
    (word s : List ℕ)
    → All (λ c. (c ≢ b'/') × (c ≢ 0)) s
    → split_path word s ≡ add_name (word ++ s) (some [])
unfolding split_path
split_path-last word [] h = rw (append-nil word)
split_path-last word (c ∷ s) h =
    let other : (c == b'/') ≡ false = ground (arith, h.0) in
    rw (other, split_path-last (word ++ c ∷ []) s h.1, append_assoc word (c ∷ []) s)

add_name-some : (n : List ℕ) (ns : List (List ℕ)) → n ≢ [] → add_name n (some ns) ≡ some (n ∷ ns)
add_name-some [] ns h = elim (h refl) [ ]
add_name-some (c ∷ n) ns h = refl

split_path-join : (ns : List (List ℕ)) → All IsName ns → ns ≢ [] → split_path [] (join ns) ≡ some ns
unfolding join
split_path-join [] h k = elim (k refl) [ ]
split_path-join (n ∷ []) h k =
    rw (split_path-last [] n h.0.plain) (add_name-some n [] h.0.some_byte)
split_path-join (n ∷ m ∷ ns) h k =
    rw (split_path-append [] n (join (m ∷ ns)) h.0.plain, split_path-join (m ∷ ns) h.1 (λ e. cc))
      (add_name-some n (m ∷ ns) h.0.some_byte)

strdup-plain : (s : List ℕ) → All (λ c. c ≢ 0) s → strdup s ≡ s
unfolding strdup
strdup-plain [] h = refl
strdup-plain (c ∷ s) h =
    let other : (c == 0) ≡ false = ground (arith, h.0) in rw (other, strdup-plain s h.1)

plain-append :
    (s t : List ℕ)
    → All (λ c. (c ≢ b'/') × (c ≢ 0)) s
    → All (λ c. c ≢ 0) t
    → All (λ c. c ≢ 0) (s ++ t)
plain-append [] t h k = k
plain-append (c ∷ s) t h k = (h.0.1, plain-append s t h.1 k)

join-plain : (ns : List (List ℕ)) → All IsName ns → All (λ c. c ≢ 0) (join ns)
unfolding join
join-plain [] h = tt
join-plain (n ∷ []) h = rw (sym (append-nil n)) (plain-append n [] h.0.plain tt)
join-plain (n ∷ m ∷ ns) h =
    plain-append n (b'/' ∷ join (m ∷ ns)) h.0.plain (omega arith, join-plain (m ∷ ns) h.1)

not_empty : (ns : List (List ℕ)) (n : List ℕ) → ns ++ n ∷ [] ≢ []
not_empty [] n e = cc
not_empty (a ∷ ns) n e = cc

-- What has been resolved so far is the parent of the next name.
id_loop-append :
    (l : Lists) (ns : List (List ℕ)) (n : List ℕ) (start k : ℕ)
    → id_loop l start ns ≡ k
    → k ≢ 0
    → id_loop l start (ns ++ n ∷ []) ≡ id_loop l k (n ∷ [])
unfolding id_loop
id_loop-append l [] n start k e other = ap (λ x. id_loop l x (n ∷ [])) e
id_loop-append l (a ∷ ns) n start k e other = elim (Bool-cases (ltb 32 (length a))) [
  | inl t ↦ let zero_end : 0 ≡ k = rw t at e in elim (other (sym zero_end)) [ ]
  | inr t ↦ elim (Option-cases (find_child start a l.channels)) [
    | inl x ↦ let zero_end : 0 ≡ k = rw (t, x) at e in elim (other (sym zero_end)) [ ]
    | inr (id, x) ↦
        let further : id_loop l id ns ≡ k = rw (t, x) at e in
        rw (t, x, id_loop-append l ns n id k further other)
  ]
]

id_loop-one :
    (l : Lists) (start id : ℕ) (n : List ℕ)
    → IsName n
    → find_child start n l.channels ≡ some id
    → id_loop l start (n ∷ []) ≡ id
unfolding id_loop
id_loop-one l start id n h e =
    let fits : ltb 32 (length n) ≡ false = ground (arith, h.short) in rw (fits, e)

-- What a chain gives.
record Resolves (l : Lists) (id : ℕ) (ns : List (List ℕ)) : Type 0 where
  names : All IsName ns
  some_name : ns ≢ []
  resolved : id_loop l 0 ns ≡ id

Chain-Resolves : (l : Lists) (id : ℕ) (ns : List (List ℕ)) → Chain l id ns → Resolves l id ns
Chain-Resolves l id _ (top _ c k listed root name) = record {
  names = (name, tt);
  some_name = λ e. cc;
  resolved = id_loop-one l 0 id (strdup c.name) name (
      ap (λ p. find_child p (strdup c.name) l.channels) (sym root)
      ∙ IsListed-child c l.channels k listed name);
}
Chain-Resolves l id _ (below _ c {ns} k listed other up name) =
    let r = Chain-Resolves l c.parent ns up in
    record {
      names = All-append IsName ns (strdup c.name ∷ []) r.names (name, tt);
      some_name = not_empty ns (strdup c.name);
      resolved =
          id_loop-append l ns (strdup c.name) 0 c.parent r.resolved other
          ∙ id_loop-one l c.parent id (strdup c.name) name
              (IsListed-child c l.channels k listed name);
    }

not_short : (ns : List (List ℕ)) (n : List ℕ) → length (ns ++ n ∷ []) ≤ 0 → ⊥
not_short [] n h = elim h [ ]
not_short (a ∷ ns) n h = elim h [ ]

-- The names before the path so far.
abbrev extend : List ℕ → Option (List ℕ) → List ℕ
extend names none = names
extend names (some p) = names ++ b'/' ∷ p

path_loop-Chain :
    (fuel : ℕ) (l : Lists) (id : ℕ) (ns : List (List ℕ)) (path : Option (List ℕ))
    → Chain l id ns
    → length ns ≤ fuel
    → path_loop fuel l id path ≡ some (some (extend (join ns) path))
unfolding path_loop join
path_loop-Chain zero l id _ path (top _ c k listed root name) h = elim h [ ]
path_loop-Chain (suc fuel) l id _ none (top _ c k listed root name) h =
    rw (path_loop, IsListed-found c l.channels k listed, root)
path_loop-Chain (suc fuel) l id _ (some p) (top _ c k listed root name) h =
    rw (path_loop, IsListed-found c l.channels k listed, root)
path_loop-Chain zero l id _ path (below _ c {ns} k listed other up name) h =
    elim (not_short ns (strdup c.name) h) [ ]
path_loop-Chain (suc fuel) l id _ none (below _ c {ns} k listed other up name) h =
    let inner : (c.parent == 0) ≡ false = ground (arith, other) in
    let r = Chain-Resolves l c.parent ns up in
    rw (
      path_loop,
      IsListed-found c l.channels k listed,
      inner,
      path_loop-Chain fuel l c.parent ns (some (strdup c.name)) up
          (omega (arith, h, length-append ns (strdup c.name ∷ []))),
      join-append ns (strdup c.name) r.some_name,
    )
path_loop-Chain (suc fuel) l id _ (some p) (below _ c {ns} k listed other up name) h =
    let inner : (c.parent == 0) ≡ false = ground (arith, other) in
    let r = Chain-Resolves l c.parent ns up in
    rw (
      path_loop,
      IsListed-found c l.channels k listed,
      inner,
      path_loop-Chain fuel l c.parent ns (some (strdup c.name ++ b'/' ∷ p)) up
          (omega (arith, h, length-append ns (strdup c.name ∷ []))),
      join-append ns (strdup c.name) r.some_name,
      append_assoc (join ns) (b'/' ∷ strdup c.name) (b'/' ∷ p),
    )

-- For a channel whose names up to the root are each 1 to 32 bytes long and without a separator,
-- and with at least as much fuel as names, `v3_get_channel_path` ends and gives the names joined
-- by separators, from which `v3_get_channel_id` gives the channel again. Before the channel, and
-- each one above it, the list has no channel with its number and no sibling whose first 32 bytes
-- are its name.
pub v3_get_channel_id-v3_get_channel_path :
    (fuel : ℕ) (l : Lists) (id : ℕ) (ns : List (List ℕ))
    → Chain l id ns
    → length ns ≤ fuel
    → (v3_get_channel_path fuel l id ≡ some (some (join ns))) × (v3_get_channel_id l (join ns) ≡ id)
unfolding v3_get_channel_path v3_get_channel_id
v3_get_channel_id-v3_get_channel_path fuel l id ns chain h =
    let r = Chain-Resolves l id ns chain in
    (
      path_loop-Chain fuel l id ns none chain h,
      rw (
        v3_get_channel_id,
        strdup-plain (join ns) (join-plain ns r.names),
        split_path-join ns r.names r.some_name,
        r.resolved,
      ),
    )
