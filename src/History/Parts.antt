-- ===== src/History/Parts.antt =====
-- What the pages of a history are: its parts by number and by a test.
use superflash_ia.Prelude.{
  ℕ, pos, negsuc, zero, suc, ◌<◌, ◌≤◌, Bool, true, false, ◌≡◌, refl, inl, inr, Bool-cases, Option,
  none, some, List, [], ◌∷◌, ◌++◌, arith, ◌==◌, nat_eq, select, length, All,
}
use superflash_ia.History.Samples.{Sample, MetricCursor, is_beyond, take}
use superflash_ia.History.Sorted.{precedes, drop, IsDescending, IsKeyed, All-select}

module _ {Measures : Type 0} where
  pub take_all : (n : ℕ) (ss : List (Sample Measures)) → length ss ≤ n → take n ss ≡ ss
  take_all zero [] h = refl
  take_all zero (s ∷ ss) h = absurd (omega (arith, h))
  take_all (suc n) [] h = refl
  take_all (suc n) (s ∷ ss) h = rw (take_all n ss (omega (arith, h))) refl

  pub take-take : (n : ℕ) (ss : List (Sample Measures)) → take n (take (suc n) ss) ≡ take n ss
  take-take zero ss = refl
  take-take (suc n) [] = refl
  take-take (suc n) (s ∷ ss) = rw (take-take n ss) refl

  pub length-take :
      (n : ℕ) (ss : List (Sample Measures)) → n < length ss → n < length (take (suc n) ss)
  length-take n [] h = absurd (omega (arith, h))
  length-take zero (s ∷ ss) h = omega arith
  length-take (suc n) (s ∷ ss) h = omega (arith, length-take n ss (omega (arith, h)))

  pub take-append-drop : (n : ℕ) (ss : List (Sample Measures)) → take n ss ++ drop n ss ≡ ss
  take-append-drop zero ss = refl
  take-append-drop (suc n) [] = refl
  take-append-drop (suc n) (s ∷ ss) = rw (take-append-drop n ss) refl

  pub length-drop :
      (n : ℕ) (ss : List (Sample Measures))
      → suc n < length ss
      → length (drop (suc n) ss) < length ss
  length-drop n [] h = absurd (omega (arith, h))
  length-drop zero (s ∷ ss) h = omega arith
  length-drop (suc n) (s ∷ []) h = absurd (omega (arith, h))
  length-drop (suc n) (s ∷ t ∷ ss) h = omega (arith, length-drop n (t ∷ ss) (omega (arith, h)))

  pub select-IsDescending :
      (p : Sample Measures → Bool) (ss : List (Sample Measures))
      → IsDescending ss
      → IsDescending (select p ss)
  unfolding IsDescending
  select-IsDescending p [] d = d
  select-IsDescending p (s ∷ ss) d = elim (Bool-cases (p s)) [
    | inl passes ↦
        rw passes (All-select (λ t. precedes s t ≡ true) p ss d.0, select-IsDescending p ss d.1)
    | inr fails ↦ rw fails (select-IsDescending p ss d.1)
  ]

  pub select-IsKeyed :
      (p : Sample Measures → Bool) (ss : List (Sample Measures))
      → IsKeyed ss
      → IsKeyed (select p ss)
  unfolding IsKeyed
  select-IsKeyed p [] k = k
  select-IsKeyed p (s ∷ ss) k = elim (Bool-cases (p s)) [
    | inl passes ↦
        rw passes
          (All-select (λ t. s.sample_id == t.sample_id ≡ false) p ss k.0, select-IsKeyed p ss k.1)
    | inr fails ↦ rw fails (select-IsKeyed p ss k.1)
  ]

  pub select-passes :
      (p : Sample Measures → Bool) (ss : List (Sample Measures))
      → All (λ s. p s ≡ true) (select p ss)
  select-passes p [] = tt
  select-passes p (s ∷ ss) = elim (Bool-cases (p s)) [
    | inl passes ↦ rw passes (passes, select-passes p ss)
    | inr fails ↦ rw fails (select-passes p ss)
  ]

  pub select-select :
      (p q : Sample Measures → Bool)
      → ((s : Sample Measures) → q s ≡ true → p s ≡ true)
      → (ss : List (Sample Measures)) → select q (select p ss) ≡ select q ss
  select-select p q h [] = refl
  select-select p q h (s ∷ ss) = let r = select-select p q h ss in let k = h s in ground arith

  pub is_beyond-precedes :
      (before : Option MetricCursor) (s t : Sample Measures)
      → is_beyond before s ≡ true
      → precedes s t ≡ true
      → is_beyond before t ≡ true
  is_beyond-precedes none s t h k = refl
  is_beyond-precedes (some (at, pos n)) s t h k = ground arith
  is_beyond-precedes (some (at, negsuc n)) s t h k = ground arith

  pub select-true : (ss : List (Sample Measures)) → select (λ s. true) ss ≡ ss
  select-true [] = refl
  select-true (s ∷ ss) = rw (select-true ss) refl
