-- ===== src/Servers/Rows.antt =====
-- Lemmas on the rows that pass a test, for the removal of a server.
use superflash_ia.Prelude.{
  ◌>>=◌, ◌∙◌, sym, ◌≤◌, ℕ, Bool, true, false, not, ◌≡◌, refl, subst, inl, inr, Bool-cases, none,
  some, List, [], ◌∷◌, arith, select, first, count, update, length, nat_eq, string_eq,
}
use mathlib.Core.Option.{Option, some-injective}
use superflash_ia.Onboarding.Types.{Status, is_active, Onboarding}
use superflash_ia.Channels.Rows.{update_first}
use superflash_ia.Servers.Relations.{is_cancelled, is_not_cancelled_job}
use superflash_ia.Servers.Repository.{is_active_job}

module _ {ℓ} {A : Type ℓ} (p : A → Bool) where
  pub select-none : (xs : List A) → count p xs ≡ 0 → select (λ x. not (p x)) xs ≡ xs
  select-none [] h = refl
  select-none (x ∷ xs) h = let r = select-none xs in ground arith

  pub update-none : (f : A → A) (xs : List A) → count p xs ≡ 0 → update p f xs ≡ xs
  update-none f [] h = refl
  update-none f (x ∷ xs) h = let r = update-none f xs in ground arith

  pub first-passes : (xs : List A) (x : A) → first p xs ≡ some x → p x ≡ true
  first-passes [] x h = ground arith
  first-passes (y ∷ xs) x h = elim (Bool-cases (p y)) [
    | inl passes ↦ subst (λ z. p z ≡ true) (some-injective y x (ground (arith, passes, h))) passes
    | inr fails ↦ first-passes xs x (ground (arith, fails, h))
  ]

  pub first-select : (xs : List A) → first p (select (λ x. not (p x)) xs) ≡ none
  first-select [] = refl
  first-select (x ∷ xs) = let r = first-select xs in ground arith

  pub length-select : (xs : List A) → length (select p xs) ≡ count p xs
  length-select [] = refl
  length-select (x ∷ xs) = let r = length-select xs in ground arith

  pub count-update_none :
      (q : A → Bool) (f : A → A)
      → ((x : A) → q x ≡ true → p x ≡ true)
      → ((x : A) → p x ≡ true → q (f x) ≡ false)
      → (xs : List A) → count q (update p f xs) ≡ 0
  count-update_none q f h k [] = refl
  count-update_none q f h k (x ∷ xs) =
      let r = count-update_none q f h k xs in let a = h x in let b = k x in ground arith

pub count-select_none {ℓ} :
    {A : Type ℓ} (p q : A → Bool) (xs : List A) → count p xs ≡ 0 → count p (select q xs) ≡ 0
count-select_none p q [] h = refl
count-select_none p q (x ∷ xs) h = let r = count-select_none p q xs in ground arith

pub count-select_le {ℓ} :
    {A : Type ℓ} (p q : A → Bool) (xs : List A) → count p (select q xs) ≤ count p xs
count-select_le p q [] = omega arith
count-select_le p q (x ∷ xs) = let r = count-select_le p q xs in ground arith

is_active_lem : (st : Status) → is_active st ≡ true → is_cancelled st ≡ false
unfolding is_active
is_active_lem st h = ground arith

pub active_is_not_cancelled :
    (key : ℕ) (xs : List Onboarding)
    → count (is_not_cancelled_job key) xs ≡ 0
    → count (is_active_job key) xs ≡ 0
active_is_not_cancelled key [] h = refl
active_is_not_cancelled key (x ∷ xs) h =
    let r = active_is_not_cancelled key xs in let k = is_active_lem x.status in ground arith

module _ {ℓ} {A : Type ℓ} where
  -- The row that a key finds is replaced by one with that key.
  pub count-replace_le :
      (p q : A → Bool) (s s' : A)
      → (q s' ≡ true → q s ≡ true)
      → (xs : List (A)) → first p xs ≡ some s
      → count q (update_first p (λ _. s') xs) ≤ count q xs
  count-replace_le p q s s' h [] e = ground arith
  count-replace_le p q s s' h (x ∷ xs) e = elim (Bool-cases (p x)) [
    | inl here ↦
        let same : x ≡ s = some-injective x s (ground (arith, here, e)) in
        let h' = subst (λ z. q s' ≡ true → q z ≡ true) (sym same) h in ground (arith, here, h')
    | inr there ↦
        let r = count-replace_le p q s s' h xs (ground (arith, there, e)) in
        ground (arith, there, r)
  ]

  first_counts :
      (p q : A → Bool) (d : A) (xs : List (A)) → first q xs ≡ some d → p d ≡ true → 1 ≤ count p xs
  first_counts p q d [] e h = ground arith
  first_counts p q d (x ∷ xs) e h = elim (Bool-cases (q x)) [
    | inl here ↦
        let same : x ≡ d = some-injective x d (ground (arith, here, e)) in
        let h' : p x ≡ true = subst (λ z. p z ≡ true) (sym same) h in ground (arith, h')
    | inr there ↦ let r = first_counts p q d xs (ground (arith, there, e)) h in ground (arith, r)
  ]

  -- With one row at most that passes, two searches that find such a row find the same.
  pub first_same :
      (p q : A → Bool) (s d : A) (xs : List (A))
      → count p xs ≤ 1
      → first p xs ≡ some s
      → first q xs ≡ some d
      → p d ≡ true
      → s ≡ d
  first_same p q s d [] c e f h = absurd (ground (arith, e))
  first_same p q s d (x ∷ xs) c e f h = elim (Bool-cases (p x)) [
    | inl here ↦
        let a : x ≡ s = some-injective x s (ground (arith, here, e)) in
        elim (Bool-cases (q x)) [
          | inl also ↦ sym a ∙ some-injective x d (ground (arith, also, f))
          | inr there ↦
              let r = first_counts p q d xs (ground (arith, there, f)) h in
              absurd (ground (arith, c, here, r))
        ]
    | inr there ↦ elim (Bool-cases (q x)) [
      | inl also ↦
          let a : x ≡ d = some-injective x d (ground (arith, also, f)) in
          let b : p x ≡ true = subst (λ z. p z ≡ true) (sym a) h in
          absurd (ground (arith, there, b))
      | inr elsewhere ↦
          first_same p q s d xs (ground (arith, c, there)) (ground (arith, e, there))
            (ground (arith, f, elsewhere)) h
    ]
  ]

-- A chain that gives a value gave one at its first step.
pub bind-some {ℓ κ} :
    {A : Type ℓ} {B : Type κ} (o : Option A) (f : A → Option B) (b : B)
    → (o >>= f) ≡ some b
    → (a : A) × (o ≡ some a) × (f a ≡ some b)
bind-some none f b h = absurd (ground (arith, h))
bind-some (some a) f b h = (a, refl, h)
