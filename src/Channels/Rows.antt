-- ===== src/Channels/Rows.antt =====
-- Tables with a key: the first row that has it is found and edited, and a new row stands at the end.
use superflash_ia.Prelude.{
  suc, ◌+◌, ◌≤◌, Bool, true, ◌≡◌, refl, none, some, List, [], ◌∷◌, ◌++◌, arith, if◌then◌else◌,
  first, count,
}

module _ {ℓ} {A : Type ℓ} where
  -- The row that `scalars(...).first()` finds is edited in place.
  abbrev pub update_first : (A → Bool) → (A → A) → List A → List A
  update_first p f [] = []
  update_first p f (x ∷ xs) = if p x then f x ∷ xs else x ∷ update_first p f xs

  module _ (p q : A → Bool) (f : A → A) where
    -- One edit makes at most one more row pass.
    pub count-update_first : (xs : List A) → count q (update_first p f xs) ≤ suc (count q xs)
    count-update_first [] = omega arith
    count-update_first (x ∷ xs) = ground (arith, count-update_first xs)

    pub count-update_first_le :
        ((x : A) → p x ≡ true → q (f x) ≡ true → q x ≡ true)
        → (xs : List A) → count q (update_first p f xs) ≤ count q xs
    count-update_first_le h [] = omega arith
    count-update_first_le h (x ∷ xs) =
        let r = count-update_first_le h xs in let k = h x in ground arith

    -- The edited row is found by a key that no row had before and it has now.
    pub first-update_first_new :
        ((x : A) → p x ≡ true → q (f x) ≡ true)
        → (xs : List A) (x : A) → first p xs ≡ some x
        → first q xs ≡ none
        → first q (update_first p f xs) ≡ some (f x)
    first-update_first_new h [] x e n = ground arith
    first-update_first_new h (y ∷ xs) x e n =
        let r = first-update_first_new h xs x in let k = h y in ground arith

  -- An edit that keeps the key: the row is found again.
  pub first-update_first :
      (p : A → Bool) (f : A → A)
      → ((x : A) → p x ≡ true → p (f x) ≡ true)
      → (xs : List A) (x : A) → first p xs ≡ some x
      → first p (update_first p f xs) ≡ some (f x)
  first-update_first p f h [] x e = ground arith
  first-update_first p f h (y ∷ xs) x e =
      let r = first-update_first p f h xs x in let k = h y in ground arith

  module _ (q : A → Bool) where
    pub count-add : (xs : List A) (x : A) → count q (xs ++ x ∷ []) ≡ count q (x ∷ []) + count q xs
    count-add [] x = ground arith
    count-add (y ∷ xs) x = ground (arith, count-add xs x)

    pub count-none : (xs : List A) → first q xs ≡ none → count q xs ≡ 0
    count-none [] h = refl
    count-none (x ∷ xs) h = let r = count-none xs in ground arith

    pub first-add :
        (xs : List A) (x : A) → first q xs ≡ none → q x ≡ true → first q (xs ++ x ∷ []) ≡ some x
    first-add [] x h k = rw k refl
    first-add (y ∷ xs) x h k = let r = first-add xs x in ground arith
