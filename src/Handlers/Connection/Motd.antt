-- ===== src/Handlers/Connection/Motd.antt =====
-- The case 0x50 of `_v3_process_message`: a message of the day that comes in fragments.
use ventmac.Prelude.{
  ℕ, zero, suc, ◌+◌, ◌≤◌, ◌<◌, ◌≡◌, ◌≢◌, refl, true, false, inl, inr, List, [], ◌∷◌, ◌++◌,
  append-nil, append_assoc, map, Option, some, arith, Bool-cases, length, take, ltb, leb, ◌==◌,
  if◌then◌else◌,
}
use ventmac.Roster.{strdup}
use ventmac.Handlers.{Client, display_motd}
use ventmac.Handlers.Connection.{ok, Msg0x50, add_fragment, process_0x50}
use ventmac.Handlers.Dispatch.{x50, v3_process_message, process_all}

-- The fragments from the one with the number `i` to the last of `n`.
pub data Fragments (flag n : ℕ) : ℕ → List Msg0x50 → Type 0 where
  last : Fragments flag n n []
  next :
      {i : ℕ} {ms : List Msg0x50} (m : Msg0x50)
      → i < n
      → m.guest_motd_flag ≡ flag
      → m.message_num ≡ n
      → m.message_id ≡ i
      → m.message_size ≤ length m.message
      → Fragments flag n (suc i) ms
      → Fragments flag n i (m ∷ ms)

abbrev pub fragment : Msg0x50 → List ℕ
fragment m = strdup (take m.message_size m.message)

unfoldable pub whole : List Msg0x50 → List ℕ
whole [] = []
whole (m ∷ ms) = fragment m ++ whole ms

abbrev pub motd_of : ℕ → Client → Option (List ℕ)
motd_of flag c = if flag == 1 then c.server.guest_motd else c.server.motd

abbrev pub with_motd : ℕ → List ℕ → Client → Client
with_motd flag text c = record c {
  server =
      if flag == 1
      then record c.server { guest_motd = some text }
      else record c.server { motd = some text };
}

with_motd-motd_of :
    (flag : ℕ) (text : List ℕ) (c : Client) → motd_of flag (with_motd flag text c) ≡ some text
with_motd-motd_of flag text c = elim (Bool-cases (flag == 1)) [ inl e ↦ rw e | inr e ↦ rw e ]

with_motd-with_motd :
    (flag : ℕ) (t text : List ℕ) (c : Client)
    → with_motd flag text (with_motd flag t c) ≡ with_motd flag text c
with_motd-with_motd flag t text c = elim (Bool-cases (flag == 1)) [ inl e ↦ rw e | inr e ↦ rw e ]

-- The text so far: nothing before the first fragment.
abbrev pub SoFar : (flag i : ℕ) → List ℕ → Client → Type 0
SoFar flag zero t c = t ≡ []
SoFar flag (suc i) t c = motd_of flag c ≡ some t

text-SoFar :
    (flag i : ℕ) (t : List ℕ) (c : Client)
    → SoFar flag i t c
    → (if i == 0 then some [] else motd_of flag c) ≡ some t
text-SoFar flag zero t c h = rw h
text-SoFar flag (suc i) t c h = let later : (suc i == 0) ≡ false = ground arith in rw (later, h)

module _ (flag n i : ℕ) (m : Msg0x50) (t : List ℕ) (c : Client) (more : i < n)
    (e : m.guest_motd_flag ≡ flag) (f : m.message_num ≡ n) (g : m.message_id ≡ i)
    (h : m.message_size ≤ length m.message) (so_far : SoFar flag i t c) where
  added : add_fragment m (motd_of flag c) ≡ some (t ++ fragment m)
  unfolding add_fragment
  added =
      let fits : leb m.message_size (length m.message) ≡ true = ground (arith, h) in
      let known : (if i == 0 then some [] else motd_of flag c) ≡ some t =
        text-SoFar flag i t c so_far in
      elim (Bool-cases (i == 0)) [
        | inl z ↦
            let text : some [] ≡ some t = rw z at known in
            let empty : t ≡ [] = cc in rw (add_fragment, fits, g, z, empty)
        | inr z ↦
            let text : motd_of flag c ≡ some t = rw z at known in
            rw (add_fragment, fits, g, z, text)
      ]

  one_fragment :
      v3_process_message (x50 m) c
      ≡ some (
        ok,
        with_motd flag (t ++ fragment m) c,
        if i + 1 == n then display_motd flag (take 32767 (t ++ fragment m)) ∷ [] else [],
      )
  unfolding v3_process_message process_0x50 add_fragment
  one_fragment =
      let room : ltb n (i + 1) ≡ false = ground arith in
      rw (process_0x50, add_fragment, e, added, f, g, room)

Fragments-append :
    (flag n i : ℕ) (ms : List Msg0x50) (t : List ℕ) (c : Client)
    → Fragments flag n i ms
    → i + length ms ≡ n
    → ms ≢ []
    → SoFar flag i t c
    → process_all (map x50 ms) c
      ≡ some (with_motd flag (t ++ whole ms) c, display_motd flag (take 32767 (t ++ whole ms)) ∷ [])
unfolding process_all whole
Fragments-append flag n i [] t c last count some_left so_far = elim (some_left refl) [ ]
Fragments-append flag n i (m ∷ []) t c (next _ more e f g h rest) count some_left so_far =
    let done : (i + 1 == n) ≡ true = ground (arith, count) in
    rw (process_all, one_fragment flag n i m t c more e f g h so_far, done, append-nil (fragment m))
Fragments-append flag n i (m ∷ m' ∷ ms) t c (next _ more e f g h rest) count some_left so_far =
    let going : (i + 1 == n) ≡ false = ground (arith, count) in
    let c' = with_motd flag (t ++ fragment m) c in
    let tail =
      Fragments-append flag n (suc i) (m' ∷ ms) (t ++ fragment m) c' rest (omega (arith, count))
        (λ x. cc) (with_motd-motd_of flag (t ++ fragment m) c) in
    rw (
      process_all,
      one_fragment flag n i m t c more e f g h so_far,
      going,
      tail,
      with_motd-with_motd flag (t ++ fragment m) (t ++ fragment m ++ whole (m' ∷ ms)) c,
      append_assoc t (fragment m) (whole (m' ∷ ms)),
    )

-- When all fragments of a message of the day come in order, none longer than the space for it, then no
-- message faults, the text of the server is the fragments joined in that order, each cut at its first
-- NUL, only the last fragment queues an event, which has the first 32767 bytes of the text, and
-- nothing else of the client changes.
pub Fragments-whole :
    (flag n : ℕ) (ms : List Msg0x50) (c : Client)
    → Fragments flag n 0 ms
    → length ms ≡ n
    → ms ≢ []
    → process_all (map x50 ms) c
      ≡ some (with_motd flag (whole ms) c, display_motd flag (take 32767 (whole ms)) ∷ [])
Fragments-whole flag n ms c parts count some_left =
    Fragments-append flag n 0 ms [] c parts (omega (arith, count)) some_left refl
