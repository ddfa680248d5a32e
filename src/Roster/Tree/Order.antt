-- ===== src/Roster/Tree/Order.antt =====
-- `v3_get_channel_sort` of `libventrilo3.c`: it compares the places of two channels in the list.
use ventmac.Prelude.{
  ℕ, suc, ◌+◌, ◌≤◌, ◌≡◌, refl, ap, ◌∙◌, inl, inr, Bool-cases, List, [], ◌∷◌, ◌++◌, Option, none,
  some, pos, negsuc, arith, true, length, ◌==◌, if◌then◌else◌,
}
use ventmac.Wire.Structs.{MsgChannel}
use ventmac.Roster.{Lists}
use ventmac.Roster.Keyed.{find_entry, Distinct}
use ventmac.Roster.Tree.{sort_loop, side, v3_get_channel_sort}

some-ne-none {ℓ} : {A : Type ℓ} {a : A} → ¬ (some a ≡ none)
some-ne-none = λ e. cc

none-ne-some {ℓ} : {A : Type ℓ} {a : A} → ¬ (none ≡ some a)
none-ne-some = λ e. cc

sort_loop-append :
    (id : ℕ) (xs ys : List MsgChannel) (ctr : ℕ) (found : Option ℕ)
    → sort_loop id (xs ++ ys) ctr found
      ≡ sort_loop id ys (ctr + length xs) (sort_loop id xs ctr found)
unfolding sort_loop
sort_loop-append id [] ys ctr found = let e : ctr + 0 ≡ ctr = omega arith in rw e
sort_loop-append id (x ∷ xs) ys ctr found =
    let e : ctr + suc (length xs) ≡ ctr + 1 + length xs = omega arith in
    rw e (sort_loop-append id xs ys (ctr + 1) (if x.id == id then some ctr else found))

sort_loop-absent :
    (id : ℕ) (cs : List MsgChannel) (ctr : ℕ) (found : Option ℕ)
    → find_entry MsgChannel.id id cs ≡ none
    → sort_loop id cs ctr found ≡ found
unfolding sort_loop find_entry
sort_loop-absent id [] ctr found h = refl
sort_loop-absent id (c ∷ cs) ctr found h = elim (Bool-cases (c.id == id)) [
  | inl e ↦ elim (some-ne-none (rw e at h)) [ ]
  | inr e ↦ rw e (sort_loop-absent id cs (ctr + 1) found (rw e at h))
]

-- A place at or behind the counter.
pub record Found (ctr : ℕ) (result : Option ℕ) : Type 0 where
  pub n : ℕ
  pub returns : result ≡ some n
  pub behind : ctr ≤ n

weaken : {m n : ℕ} {result : Option ℕ} → Found n result → m ≤ n → Found m result
weaken f h = let k = f.behind in record { n = f.n; returns = f.returns; behind = omega arith }

Distinct-suffix :
    (xs ys : List MsgChannel) → Distinct MsgChannel.id (xs ++ ys) → Distinct MsgChannel.id ys
Distinct-suffix [] ys d = d
Distinct-suffix (x ∷ xs) ys d = Distinct-suffix xs ys d.1

sort_loop-Found-some :
    (id : ℕ) (cs : List MsgChannel) (ctr n : ℕ) → n ≤ ctr → Found n (sort_loop id cs ctr (some n))
unfolding sort_loop
sort_loop-Found-some id [] ctr n h = record { n = n; returns = refl; behind = omega arith }
sort_loop-Found-some id (c ∷ cs) ctr n h = elim (Bool-cases (c.id == id)) [
  | inl e ↦ rw e (weaken (sort_loop-Found-some id cs (ctr + 1) ctr (omega arith)) h)
  | inr e ↦ rw e (sort_loop-Found-some id cs (ctr + 1) n (omega arith))
]

sort_loop-Found :
    (id : ℕ) (cs : List MsgChannel) (ctr : ℕ) (found : Option ℕ) {d : MsgChannel}
    → find_entry MsgChannel.id id cs ≡ some d
    → Found ctr (sort_loop id cs ctr found)
unfolding sort_loop find_entry
sort_loop-Found id [] ctr found h = elim (none-ne-some h) [ ]
sort_loop-Found id (c ∷ cs) ctr found h = elim (Bool-cases (c.id == id)) [
  | inl e ↦ rw e (sort_loop-Found-some id cs (ctr + 1) ctr (omega arith))
  | inr e ↦ rw e (weaken (sort_loop-Found id cs (ctr + 1) found (rw e at h)) (omega arith))
]

place_first :
    (before after : List MsgChannel) (c : MsgChannel)
    → find_entry MsgChannel.id c.id after ≡ none
    → sort_loop c.id (before ++ c ∷ after) 0 none ≡ some (length before)
unfolding sort_loop
place_first before after c h =
    let zero_left : 0 + length before ≡ length before = omega arith in
    let e : (c.id == c.id) ≡ true = ground arith in
    rw (sort_loop-append c.id before (c ∷ after) 0 none, e)
      (sort_loop-absent c.id after (0 + length before + 1) (some (0 + length before)) h
        ∙ ap some zero_left)

place_second :
    (before after : List MsgChannel) (c : MsgChannel) (k : ℕ) {d : MsgChannel}
    → find_entry MsgChannel.id k after ≡ some d
    → Found (length before + 1) (sort_loop k (before ++ c ∷ after) 0 none)
unfolding sort_loop
place_second before after c k h =
    rw (sort_loop-append k before (c ∷ after) 0 none)
      (weaken (sort_loop-Found k after (0 + length before + 1) _ h) (omega arith))

sides :
    (m n : ℕ) → m + 1 ≤ n → (side (some m) (some n) ≡ negsuc 0) × (side (some n) (some m) ≡ pos 1)
unfolding side
sides m n h = (ground arith, ground arith)

-- When no number stands twice, the sort of two channels is -1 where the first stands before the
-- second in the list, and 1 the other way round.
pub v3_get_channel_sort-order :
    (l : Lists) (before after : List MsgChannel) (c d : MsgChannel)
    → l.channels ≡ before ++ c ∷ after
    → Distinct MsgChannel.id l.channels
    → find_entry MsgChannel.id d.id after ≡ some d
    → (v3_get_channel_sort l c.id d.id ≡ negsuc 0) × (v3_get_channel_sort l d.id c.id ≡ pos 1)
unfolding v3_get_channel_sort
v3_get_channel_sort-order l before after c d split distinct h =
    let (absent, _) = Distinct-suffix before (c ∷ after) (rw split at distinct) in
    let f = place_second before after c d.id h in
    let k = f.behind in
    rw (split, place_first before after c absent, f.returns)
      (sides (length before) f.n (omega arith))
