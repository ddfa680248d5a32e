-- ===== src/Handlers/Mirror/Steps.antt =====
-- How the steps of a handler keep the lists in agreement with the events.
use ventmac.Prelude.{
  ℕ, ◌≡◌, inl, inr, List, [], ◌∷◌, ◌++◌, Option, none, some, Bool-cases, ◌==◌, ◌>>=◌, Bool, false,
  sym, ==_iff,
}
use ventmac.Roster.{Lists}
use ventmac.Roster.Keyed.{
  put_entry, remove_entry, find_entry, find_entry-put_entry, Distinct-put_entry,
  find_entry-remove_entry, Distinct-remove_entry,
}
use ventmac.Handlers.{
  Client, Effect, queued, sees_channels, Act, skip, post, ◌&>◌, each, try_lists, on_lists,
}
use ventmac.Handlers.Mirror.{View, see, replay, IsShown, Agrees, After, Mirrors, replay-append}

put_shown {ℓ κ} :
    {A : Type ℓ} (P : Option A → Type κ) (replace : A → A) (new : A)
    → P (some new)
    → ((x : A) → P (some (replace x)))
    → (o : Option A) → P (elim o [ none ↦ some new | some x ↦ some (replace x) ])
put_shown P replace new e h none = e
put_shown P replace new e h (some x) = h x

module _ {ℓ κ} {A : Type ℓ} (key : A → ℕ) (Shows Shows' : ℕ → Option A → Type κ) (xs : List A)
    (r : IsShown key Shows xs) where
  pub IsShown-put_entry :
      (replace : A → A) (new : A)
      → ((x : A) → key (replace x) ≡ key new)
      → Shows' (key new) (some new)
      → ((x : A) → Shows' (key new) (some (replace x)))
      → ((id : ℕ) (o : Option A) → (key new == id) ≡ false → Shows id o → Shows' id o)
      → IsShown key Shows' (put_entry key replace new xs)
  IsShown-put_entry replace new keeps e h others = record {
    distinct = Distinct-put_entry key replace new keeps xs r.distinct;
    same = λ id.
        rw (find_entry-put_entry key replace new keeps id xs) (elim (Bool-cases (key new == id)) [
          | inl here ↦
              rw (here, sym ((==_iff (key new) id).0 here))
                (put_shown (Shows' (key new)) replace new e h (find_entry key (key new) xs))
          | inr other ↦ rw other (others id (find_entry key id xs) other (r.same id))
        ]);
  }

  pub IsShown-remove_entry :
      (k : ℕ)
      → Shows' k none
      → ((id : ℕ) (o : Option A) → (k == id) ≡ false → Shows id o → Shows' id o)
      → IsShown key Shows' (remove_entry key k xs).1
  IsShown-remove_entry k e others = record {
    distinct = Distinct-remove_entry key k xs r.distinct;
    same = λ id. rw (find_entry-remove_entry key k id xs r.distinct) (elim (Bool-cases (k == id)) [
      | inl here ↦ rw (here, sym ((==_iff k id).0 here)) e
      | inr other ↦ rw other (others id (find_entry key id xs) other (r.same id))
    ]);
  }

pub skip-Mirrors : Mirrors skip
unfolding replay
skip-Mirrors c v a = a

-- An event that tells nothing of the lists.
pub post-Mirrors :
    (e : Effect) → ((b : Bool) (v : View) → see (queued b e) v ≡ v) → Mirrors (post e)
unfolding replay
post-Mirrors e quiet c v a = rw (quiet (sees_channels c) v) a

After-prefix :
    (o : Option (Client × List Effect)) (out : List Effect) (v : View)
    → After (replay out v) o
    → After v (do (c', more) ← o; some (c', out ++ more))
After-prefix none out v h = tt
After-prefix (some (c', more)) out v h = rw (replay-append out more v) h

pub After-bind :
    (o : Option (Client × List Effect)) (g : Act) (v : View)
    → After v o
    → Mirrors g
    → After v (do (c1, out1) ← o; (c2, out2) ← g c1; some (c2, out1 ++ out2))
After-bind none g v h hg = tt
After-bind (some (c1, out1)) g v h hg = After-prefix (g c1) out1 v (hg c1 (replay out1 v) h)

pub seq-Mirrors : (f g : Act) → Mirrors f → Mirrors g → Mirrors (f &> g)
seq-Mirrors f g hf hg c v a = After-bind (f c) g v (hf c v a) hg

pub each-Mirrors {ℓ} :
    {A : Type ℓ} (f : A → Act) → ((x : A) → Mirrors (f x)) → (xs : List A) → Mirrors (each f xs)
unfolding each
each-Mirrors f h [] = skip-Mirrors
each-Mirrors f h (x ∷ xs) = seq-Mirrors (f x) (each f xs) (h x) (each-Mirrors f h xs)

-- The lists change as the event says.
pub on_lists-Mirrors :
    (f : Lists → Lists) (e : Effect)
    → ((b : Bool) (l : Lists) (v : View) → Agrees l v → Agrees (f l) (see (queued b e) v))
    → Mirrors (on_lists f &> post e)
unfolding replay
on_lists-Mirrors f e h c v a = h (sees_channels (record c { lists = f c.lists })) c.lists v a

abbrev pub AfterLists : View → Option Lists → Type 0
AfterLists v none = Unit
AfterLists v (some l) = Agrees l v

try_lists_post :
    (o : Option Lists) (c : Client) (e : Effect) (v : View)
    → ((b : Bool) → AfterLists (see (queued b e) v) o)
    → After v (do
      (c1, out1) ← (do l ← o; some (record c { lists = l }, []))
      (c2, out2) ← post e c1
      some (c2, out1 ++ out2))
unfolding replay
try_lists_post none c e v h = tt
try_lists_post (some l) c e v h = h (sees_channels (record c { lists = l }))

pub try_lists-Mirrors :
    (f : Lists → Option Lists) (e : Effect)
    → ((b : Bool) (l : Lists) (v : View) → Agrees l v → AfterLists (see (queued b e) v) (f l))
    → Mirrors (try_lists f &> post e)
unfolding replay
try_lists-Mirrors f e h c v a = try_lists_post (f c.lists) c e v λ b. h b c.lists v a
