-- ===== src/Alerts/Current.antt =====
-- After a synchronisation the alerts that are not resolved are those of the candidates.
use superflash_ia.Prelude.{
  ℕ, String, Bool, true, false, not, ◌≡◌, refl, subst, ◌||◌, ◌⊎◌, inl, inr, none, some, List, [],
  ◌∷◌, ◌++◌, map, arith, if◌then◌else◌, ◌==◌, string_eq, update, first, contains, All, All-append,
  Bool-cases, Option-cases,
}
use superflash_ia.Alerts.Types.{is_resolved, Floats, Candidate, Alert}
use superflash_ia.Alerts.Sync.{
  fingerprint_of, refreshed, created, AlertTable, has_fingerprint, sync_one, sync_all, resolve,
  is_over, sync,
}

module _ (F : Floats) where
  -- The alerts with these fingerprints are not resolved.
  abbrev IsOpenOn : (String → Bool) → Alert F → Type 0
  IsOpenOn p a = p a.fingerprint ≡ true → is_resolved a.status ≡ false

  abbrev or_is : String → (String → Bool) → String → Bool
  or_is text p x = x == text || p x

  refreshed_open :
      (c : Candidate F) (now : ℕ) (a : Alert F) → is_resolved (refreshed F c now a).status ≡ false
  unfolding refreshed
  refreshed_open c now a = ground arith

  update_open :
      (p : String → Bool) (c : Candidate F) (now : ℕ) (as' : List (Alert F))
      → All (IsOpenOn p) as'
      → All
          (IsOpenOn (or_is (fingerprint_of F c) p))
          (update (has_fingerprint F (fingerprint_of F c)) (refreshed F c now) as')
  update_open p c now [] h = tt
  update_open p c now (a ∷ as') (x, h) =
      (lem (Bool-cases (a.fingerprint == fingerprint_of F c)), update_open p c now as' h)
    where
      lem :
          ((a.fingerprint == fingerprint_of F c) ≡ true)
            ⊎ ((a.fingerprint == fingerprint_of F c) ≡ false)
          → IsOpenOn
              (or_is (fingerprint_of F c) p)
              (if a.fingerprint == fingerprint_of F c then refreshed F c now a else a)
      lem (inl e) = rw e (λ _. refreshed_open c now a)
      lem (inr e) = rw e (λ k. x (ground arith))

  weaken_open :
      (p : String → Bool) (c : Candidate F) (as' : List (Alert F))
      → first (has_fingerprint F (fingerprint_of F c)) as' ≡ none
      → All (IsOpenOn p) as'
      → All (IsOpenOn (or_is (fingerprint_of F c) p)) as'
  weaken_open p c [] e h = tt
  weaken_open p c (a ∷ as') e (x, h) =
      ((λ k. x (ground arith)), weaken_open p c as' (ground arith) h)

  sync_one-open :
      (existing : List String) (p : String → Bool) (now : ℕ) (c : Candidate F) (t t' : AlertTable F)
      → sync_one F existing now c t ≡ some t'
      → All (IsOpenOn p) t.alerts
      → All (IsOpenOn (or_is (fingerprint_of F c) p)) t'.alerts
  unfolding sync_one created
  sync_one-open existing p now c t t' e h =
      elim (Bool-cases (contains existing (fingerprint_of F c))) [
        | inl known ↦
            let k : update (has_fingerprint F (fingerprint_of F c)) (refreshed F c now) t.alerts
                ≡ t'.alerts =
              ground arith in
            subst (All (IsOpenOn (or_is (fingerprint_of F c) p))) k (update_open p c now t.alerts h)
        | inr new ↦
            let n : first (has_fingerprint F (fingerprint_of F c)) t.alerts ≡ none = ground arith in
            let k : t.alerts ++ created F c now t.next_alert ∷ [] ≡ t'.alerts = ground arith in
            subst (All (IsOpenOn (or_is (fingerprint_of F c) p))) k
              (All-append _ t.alerts _ (weaken_open p c t.alerts n h) ((λ _. refl), tt))
      ]

  abbrev either : (String → Bool) → List String → String → Bool
  either p texts x = p x || contains texts x

  move_open :
      (p : String → Bool) (text : String) (texts : List String) (as' : List (Alert F))
      → All (IsOpenOn (either (or_is text p) texts)) as'
      → All (IsOpenOn (either p (text ∷ texts))) as'
  move_open p text texts [] h = tt
  move_open p text texts (a ∷ as') (x, h) = ((λ k. x (ground arith)), move_open p text texts as' h)

  start_open :
      (p : String → Bool) (as' : List (Alert F))
      → All (IsOpenOn p) as'
      → All (IsOpenOn (either p [])) as'
  start_open p [] h = tt
  start_open p (a ∷ as') (x, h) = ((λ k. x (ground arith)), start_open p as' h)

  sync_all-open :
      (existing : List String) (p : String → Bool) (now : ℕ) (cs : List (Candidate F))
      (t t' : AlertTable F)
      → sync_all F existing now cs t ≡ some t'
      → All (IsOpenOn p) t.alerts
      → All (IsOpenOn (either p (map (fingerprint_of F) cs))) t'.alerts
  unfolding sync_all
  sync_all-open existing p now [] t t' e h =
      let k : t.alerts ≡ t'.alerts = ground arith in
      subst (All (IsOpenOn (either p []))) k (start_open p t.alerts h)
  sync_all-open existing p now (c ∷ cs) t t' e h =
      elim (Option-cases (sync_one F existing now c t)) [
        | inl raises ↦ ground arith
        | inr (t1, one) ↦ move_open p (fingerprint_of F c) (map (fingerprint_of F) cs) t'.alerts (
            sync_all-open existing (or_is (fingerprint_of F c) p) now cs t1 t' (ground arith)
              (sync_one-open existing p now c t t1 one h))
      ]

  resolve_open :
      (now : ℕ) (texts : List String) (as' : List (Alert F))
      → All (IsOpenOn (either (λ _. false) texts)) as'
      → All
          (λ (a : Alert F). is_resolved a.status ≡ not (contains texts a.fingerprint))
          (update (is_over F texts) (resolve F now) as')
  resolve_open now texts [] h = tt
  resolve_open now texts (a ∷ as') (x, h) = (ground arith, resolve_open now texts as' h)

  none_open : (as' : List (Alert F)) → All (IsOpenOn (λ _. false)) as'
  none_open [] = tt
  none_open (a ∷ as') = ((λ k. ground arith), none_open as')

  -- Where a synchronisation commits, an alert is resolved exactly where no candidate has its
  -- fingerprint, whatever state the alerts were in before.
  pub sync_current :
      (now : ℕ) (cs : List (Candidate F)) (t t' : AlertTable F)
      → sync F now cs t ≡ some t'
      → All
          (λ (a : Alert F).
            is_resolved a.status ≡ not (contains (map (fingerprint_of F) cs) a.fingerprint))
          t'.alerts
  unfolding sync
  sync_current now cs t t' e =
      let existing : List String = map (λ (a : Alert F). a.fingerprint) t.alerts in
      let texts : List String = map (fingerprint_of F) cs in
      elim (Option-cases (sync_all F existing now cs t)) [
        | inl raises ↦ ground arith
        | inr (t1, all) ↦
            let k : update (is_over F texts) (resolve F now) t1.alerts ≡ t'.alerts = ground arith in
            subst (All _) k (
              resolve_open now texts t1.alerts
                (sync_all-open existing (λ _. false) now cs t t1 all (none_open t.alerts)))
      ]
