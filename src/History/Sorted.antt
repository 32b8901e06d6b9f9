-- ===== src/History/Sorted.antt =====
-- What the order of the samples gives: no sample stands before itself, and the samples of a history
-- that stand behind one of them are those that follow it.
use superflash_ia.Prelude.{
  ℕ, zero, suc, ◌<◌, Bool, true, false, ◌≡◌, refl, subst, inl, inr, Bool-cases, some, List, [], ◌∷◌,
  arith, if◌then◌else◌, ◌==◌, nat_eq, select, length, All, All-map,
}
use mathlib.Core.Option.{some-injective}
use superflash_ia.History.Samples.{Sample, is_before, position, insert, newest_first, take, last}

module _ {Measures : Type 0} where
  -- A list without its first samples.
  abbrev pub drop : ℕ → List (Sample Measures) → List (Sample Measures)
  drop zero ss = ss
  drop (suc n) [] = []
  drop (suc n) (s ∷ ss) = drop n ss

  abbrev pub precedes : Sample Measures → Sample Measures → Bool
  precedes s t = is_before (position s) t

  -- Every sample stands before the ones that follow it.
  unfoldable pub IsDescending : List (Sample Measures) → Type 0
  IsDescending [] = Unit
  IsDescending (s ∷ ss) = All (λ t. precedes s t ≡ true) ss × IsDescending ss

  -- The primary key: no two samples have the same id.
  unfoldable pub IsKeyed : List (Sample Measures) → Type 0
  IsKeyed [] = Unit
  IsKeyed (s ∷ ss) = All (λ t. s.sample_id == t.sample_id ≡ false) ss × IsKeyed ss

  precedes_irrefl : (s : Sample Measures) → precedes s s ≡ false
  precedes_irrefl s = ground arith

  precedes_trans :
      (s t r : Sample Measures) → precedes s t ≡ true → precedes t r ≡ true → precedes s r ≡ true
  precedes_trans s t r h k = ground arith

  precedes_asym : (s t : Sample Measures) → precedes s t ≡ true → precedes t s ≡ false
  precedes_asym s t h = ground arith

  precedes_total :
      (s t : Sample Measures)
      → s.sample_id == t.sample_id ≡ false
      → precedes s t ≡ false
      → precedes t s ≡ true
  precedes_total s t h k = ground arith

  All-insert :
      (P : Sample Measures → Type 0) (s : Sample Measures) (ss : List (Sample Measures))
      → P s
      → All P ss
      → All P (insert s ss)
  unfolding insert
  All-insert P s [] p ps = (p, ps)
  All-insert P s (t ∷ ts) p ps = elim (Bool-cases (precedes s t)) [
    | inl before ↦ rw before (p, ps)
    | inr behind ↦ rw behind (ps.0, All-insert P s ts p ps.1)
  ]

  All-newest_first :
      (P : Sample Measures → Type 0) (ss : List (Sample Measures))
      → All P ss
      → All P (newest_first ss)
  unfolding newest_first
  All-newest_first P [] ps = ps
  All-newest_first P (s ∷ ss) ps =
      All-insert P s (newest_first ss) ps.0 (All-newest_first P ss ps.1)

  insert-IsDescending :
      (s : Sample Measures) (ss : List (Sample Measures))
      → All (λ t. s.sample_id == t.sample_id ≡ false) ss
      → IsDescending ss
      → IsDescending (insert s ss)
  unfolding insert IsDescending
  insert-IsDescending s [] new d = (new, d)
  insert-IsDescending s (t ∷ ts) new d = elim (Bool-cases (precedes s t)) [
    | inl before ↦ rw before (
      (
        before,
        All-map (λ r. precedes t r ≡ true) (λ r. precedes s r ≡ true)
            (λ r. precedes_trans s t r before) ts d.0,
      ),
      d,
    )
    | inr behind ↦ rw behind (
      All-insert (λ r. precedes t r ≡ true) s ts (precedes_total s t new.0 behind) d.0,
      insert-IsDescending s ts new.1 d.1,
    )
  ]

  pub newest_first-IsDescending :
      (ss : List (Sample Measures)) → IsKeyed ss → IsDescending (newest_first ss)
  unfolding newest_first IsDescending IsKeyed
  newest_first-IsDescending [] k = k
  newest_first-IsDescending (s ∷ ss) k =
      insert-IsDescending s (newest_first ss)
        (All-newest_first (λ t. s.sample_id == t.sample_id ≡ false) ss k.0)
        (newest_first-IsDescending ss k.1)

  pub All-take :
      (P : Sample Measures → Type 0) (n : ℕ) (ss : List (Sample Measures)) (s : Sample Measures)
      → All P ss
      → last (take n ss) ≡ some s
      → P s
  All-take P zero ss s ps e = ground arith
  All-take P (suc n) [] s ps e = ground arith
  All-take P (suc zero) (t ∷ ss) s ps e = subst P (some-injective t s e) ps.0
  All-take P (suc (suc n)) (t ∷ []) s ps e = subst P (some-injective t s e) ps.0
  All-take P (suc (suc n)) (t ∷ r ∷ ss) s ps e = All-take P (suc n) (r ∷ ss) s ps.1 e

  pub select-All :
      (p : Sample Measures → Bool) (ss : List (Sample Measures))
      → All (λ s. p s ≡ true) ss
      → select p ss ≡ ss
  select-All p [] ps = refl
  select-All p (s ∷ ss) ps = rw (ps.0, select-All p ss ps.1) refl

  -- The samples behind the last one of a page are the rest of the history.
  pub select-precedes :
      (n : ℕ) (ss : List (Sample Measures))
      → IsDescending ss
      → suc n < length ss
      → (s : Sample Measures) × (last (take (suc n) ss) ≡ some s)
        × (select (precedes s) ss ≡ drop (suc n) ss)
  unfolding IsDescending
  select-precedes n [] d l = absurd (omega (arith, l))
  select-precedes zero (t ∷ ss) d l =
      (t, refl, rw (precedes_irrefl t) (select-All (precedes t) ss d.0))
  select-precedes (suc n) (t ∷ []) d l = absurd (omega (arith, l))
  select-precedes (suc n) (t ∷ r ∷ ss) d l =
      let h = select-precedes n (r ∷ ss) d.1 (omega (arith, l)) in
      let k = All-take (λ s. precedes t s ≡ true) (suc n) (r ∷ ss) h.0 d.0 h.1 in
      (h.0, h.1, rw (precedes_asym t h.0 k) h.2)

  pub All-select :
      (P : Sample Measures → Type 0) (p : Sample Measures → Bool) (ss : List (Sample Measures))
      → All P ss
      → All P (select p ss)
  All-select P p [] ps = ps
  All-select P p (s ∷ ss) ps = elim (Bool-cases (p s)) [
    | inl passes ↦ rw passes (ps.0, All-select P p ss ps.1)
    | inr fails ↦ rw fails (All-select P p ss ps.1)
  ]

  insert_front :
      (s : Sample Measures) (ss : List (Sample Measures))
      → All (λ t. precedes s t ≡ true) ss
      → insert s ss ≡ s ∷ ss
  unfolding insert
  insert_front s [] ps = refl
  insert_front s (t ∷ ss) ps = rw ps.0 refl

  select-insert :
      (p : Sample Measures → Bool) (s : Sample Measures) (ss : List (Sample Measures))
      → IsDescending ss
      → select p (insert s ss) ≡ (if p s then insert s (select p ss) else select p ss)
  unfolding insert IsDescending
  select-insert p s [] d = ground arith
  select-insert p s (t ∷ ss) d = elim (Bool-cases (precedes s t)) [
    | inl before ↦
        let ps =
          All-select (λ r. precedes s r ≡ true) p (t ∷ ss)
            (
              before,
              All-map (λ r. precedes t r ≡ true) (λ r. precedes s r ≡ true)
                  (λ r. precedes_trans s t r before) ss d.0,
            ) in
        rw (before, insert_front s (select p (t ∷ ss)) ps) refl
    | inr behind ↦ elim (Bool-cases (p t)) [
      | inl passes ↦
          let r = select-insert p s ss d.1 in rw (behind, passes, r, behind) (ground arith)
      | inr fails ↦ rw (behind, fails) (select-insert p s ss d.1)
    ]
  ]

  pub select-newest_first :
      (p : Sample Measures → Bool) (ss : List (Sample Measures))
      → IsKeyed ss
      → select p (newest_first ss) ≡ newest_first (select p ss)
  unfolding newest_first IsKeyed
  select-newest_first p [] k = refl
  select-newest_first p (s ∷ ss) k =
      let d = newest_first-IsDescending ss k.1 in
      rw (select-insert p s (newest_first ss) d, select-newest_first p ss k.1)
        (elim (Bool-cases (p s)) [ inl passes ↦ rw passes refl | inr fails ↦ rw fails refl ])
