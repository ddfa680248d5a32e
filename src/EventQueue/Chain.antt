-- ===== src/EventQueue/Chain.antt =====
-- The list that the pointers of the event queue make up.
use ventmac.Prelude.{ℕ, ◌≡◌, ◌≢◌, refl, sym, ◌∙◌, List, [], ◌∷◌, ◌++◌, Option, none, some, arith}
use ventmac.EventQueue.{Event, Node, Cells, update}

-- An event and the address of its node.
abbrev pub Entry : Type 0
Entry = ℕ × Event

-- From `head` the `next` pointers lead through these nodes, in this order, to NULL.
abbrev pub IsChain : Cells → Option ℕ → List Entry → Type 0
IsChain cell head [] = head ≡ none
IsChain cell head ((p, e) ∷ es) =
    (head ≡ some p)
    × (next : Option ℕ) × (cell p ≡ some (record { event = e; next = next }))
    × IsChain cell next es

-- `p` is not the address of one of these nodes.
abbrev pub IsNew : ℕ → List Entry → Type 0
IsNew p [] = Unit
IsNew p ((q, e) ∷ es) = (q ≢ p) × IsNew p es

abbrev pub IsDistinct : List Entry → Type 0
IsDistinct [] = Unit
IsDistinct ((p, e) ∷ es) = IsNew p es × IsDistinct es

abbrev pub last_pointer : List Entry → Option ℕ
last_pointer [] = none
last_pointer ((p, e) ∷ []) = some p
last_pointer (a ∷ b ∷ es) = last_pointer (b ∷ es)

pub update_ne :
    (cell : Cells) (p : ℕ) (v : Option Node) (q : ℕ) → q ≢ p → update cell p v q ≡ cell q
update_ne cell p v q h = ground arith

pub update_self : (cell : Cells) (p : ℕ) (v : Option Node) → update cell p v p ≡ v
update_self cell p v = ground arith

-- A write at another address leaves the list as it was.
pub IsChain-update :
    (cell : Cells) (p : ℕ) (v : Option Node) (head : Option ℕ) (es : List Entry)
    → IsNew p es
    → IsChain cell head es
    → IsChain (update cell p v) head es
IsChain-update cell p v head [] fresh c = c
IsChain-update cell p v head ((q, e) ∷ es) fresh c =
    (c.0, c.1, update_ne cell p v q fresh.0 ∙ c.2, IsChain-update cell p v c.1 es fresh.1 c.3)

-- A node in the list is allocated, so an address that is free is new.
pub IsNew-of_free :
    (cell : Cells) (p : ℕ) (head : Option ℕ) (es : List Entry)
    → cell p ≡ none
    → IsChain cell head es
    → IsNew p es
IsNew-of_free cell p head [] free c = tt
IsNew-of_free cell p head ((q, e) ∷ es) free c =
    ((λ h. cc (c.2)), IsNew-of_free cell p c.1 es free c.3)

pub IsNew-append :
    (p q : ℕ) (e : Event) (es : List Entry) → IsNew p es → q ≢ p → IsNew p (es ++ (q, e) ∷ [])
IsNew-append p q e [] fresh h = (h, tt)
IsNew-append p q e ((r, f) ∷ es) fresh h = (fresh.0, IsNew-append p q e es fresh.1 h)

pub IsDistinct-append :
    (q : ℕ) (e : Event) (es : List Entry)
    → IsDistinct es
    → IsNew q es
    → IsDistinct (es ++ (q, e) ∷ [])
IsDistinct-append q e [] d fresh = (tt, tt)
IsDistinct-append q e ((r, f) ∷ es) d fresh =
    (IsNew-append r q e es d.0 (λ h. fresh.0 (sym h)), IsDistinct-append q e es d.1 fresh.1)

pub last_pointer-append :
    (q : ℕ) (e : Event) (es : List Entry) → last_pointer (es ++ (q, e) ∷ []) ≡ some q
last_pointer-append q e [] = refl
last_pointer-append q e (a ∷ []) = refl
last_pointer-append q e (a ∷ b ∷ es) = last_pointer-append q e (b ∷ es)

pub last_pointer-ne :
    (p last : ℕ) (es : List Entry) → IsNew p es → last_pointer es ≡ some last → last ≢ p
last_pointer-ne p last [] fresh l = absurd (cc)
last_pointer-ne p last ((q, e) ∷ []) fresh l = λ h. fresh.0 (ground arith)
last_pointer-ne p last (a ∷ b ∷ es) fresh l = last_pointer-ne p last (b ∷ es) fresh.1 l

-- Linking a new last node behind the old one extends the list by it.
pub IsChain-append :
    (cell : Cells) (head : Option ℕ) (a : Entry) (es : List Entry) (q : ℕ) (e : Event)
    → IsDistinct (a ∷ es)
    → IsNew q (a ∷ es)
    → IsChain cell head (a ∷ es)
    → cell q ≡ some (record { event = e; next = none })
    → (last : ℕ) × (n : Node) × (last_pointer (a ∷ es) ≡ some last)
      × (cell last ≡ some n)
      × IsChain
          (update cell last (some (record n { next = some q })))
          head
          ((a ∷ es) ++ (q, e) ∷ [])
IsChain-append cell head (p, f) [] q e d fresh c new = (
  p,
  record { event = f; next = c.1 },
  refl,
  c.2,
  (
    c.0,
    some q,
    update_self cell p _,
    (refl, none, update_ne cell p _ q (λ h. fresh.0 (sym h)) ∙ new, refl),
  ),
)
IsChain-append cell head (p, f) (b ∷ es) q e d fresh c new =
    let (last, n, l, m, c') = IsChain-append cell c.1 b es q e d.1 fresh.1 c.3 new in
    (
      last,
      n,
      l,
      m,
      (
        c.0,
        c.1,
        update_ne cell last _ p (λ h. last_pointer-ne p last (b ∷ es) d.0 l (sym h)) ∙ c.2,
        c',
      ),
    )
