-- ===== src/Roster/Keyed.antt =====
-- Lists of entries with a key, as the loops over the linked lists of `libventrilo3.c` treat them.
use ventmac.Prelude.{
  ℕ, ◌≡◌, refl, Bool, true, false, List, [], ◌∷◌, Option, none, some, arith, ◌==◌, if◌then◌else◌,
}

module _ {ℓ} {A : Type ℓ} (key : A → ℕ) where
  -- The first entry with the key of `new` is replaced; when there is none, `new` goes to the end.
  unfoldable pub put_entry : (A → A) → A → List A → List A
  put_entry replace new [] = new ∷ []
  put_entry replace new (x ∷ xs) =
      let rest = put_entry replace new xs in if key x == key new then replace x ∷ xs else x ∷ rest

  -- The first entry with the key is unlinked.
  unfoldable pub remove_entry : ℕ → List A → Bool × List A
  remove_entry id [] = (false, [])
  remove_entry id (x ∷ xs) =
      let rest = remove_entry id xs in if key x == id then (true, xs) else (rest.0, x ∷ rest.1)

  unfoldable pub find_entry : ℕ → List A → Option A
  find_entry id [] = none
  find_entry id (x ∷ xs) = let rest = find_entry id xs in if key x == id then some x else rest

  -- No entry has the key of an earlier one.
  abbrev pub Distinct : List A → Type ℓ
  Distinct [] = Unit
  Distinct (x ∷ xs) = (find_entry (key x) xs ≡ none) × Distinct xs

  module _ (replace : A → A) (new : A) (keeps : (x : A) → key (replace x) ≡ key new) where
    pub find_entry-put_entry :
        (id : ℕ) (xs : List A)
        → find_entry id (put_entry replace new xs) ≡ (
            if key new == id
            then elim (find_entry (key new) xs) [ none ↦ some new | some x ↦ some (replace x) ]
            else find_entry id xs)
    unfolding put_entry find_entry
    find_entry-put_entry id [] = refl
    find_entry-put_entry id (x ∷ xs) = ground (arith, keeps x, find_entry-put_entry id xs)

    pub Distinct-put_entry : (xs : List A) → Distinct xs → Distinct (put_entry replace new xs)
    unfolding put_entry find_entry
    Distinct-put_entry [] d = (refl, tt)
    Distinct-put_entry (x ∷ xs) d =
        ground (arith, keeps x, Distinct-put_entry xs d.1, find_entry-put_entry (key x) xs)

  pub find_entry-remove_entry :
      (k id : ℕ) (xs : List A)
      → Distinct xs
      → find_entry id (remove_entry k xs).1 ≡ (if k == id then none else find_entry id xs)
  unfolding remove_entry find_entry
  find_entry-remove_entry k id [] d = ground arith
  find_entry-remove_entry k id (x ∷ xs) d = ground (arith, d.0, find_entry-remove_entry k id xs d.1)

  pub Distinct-remove_entry : (k : ℕ) (xs : List A) → Distinct xs → Distinct (remove_entry k xs).1
  unfolding remove_entry find_entry
  Distinct-remove_entry k [] d = tt
  Distinct-remove_entry k (x ∷ xs) d =
      ground
        (arith, d.0, d.1, Distinct-remove_entry k xs d.1, find_entry-remove_entry k (key x) xs d.1)

  pub remove_entry-found :
      (k : ℕ) (xs : List A)
      → (remove_entry k xs).0 ≡ elim (find_entry k xs) [ none ↦ false | some x ↦ true ]
  unfolding remove_entry find_entry
  remove_entry-found k [] = refl
  remove_entry-found k (x ∷ xs) = ground (arith, remove_entry-found k xs)
