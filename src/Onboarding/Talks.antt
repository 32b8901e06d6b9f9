-- ===== src/Onboarding/Talks.antt =====
-- What a visit of app/services/onboarding_service.py leaves in its report, by its steps.
use superflash_ia.Prelude.{Bool, true, false, ◌≡◌, refl, ◌∷◌, if◌then◌else◌, string_eq}
use superflash_ia.Ssh.Catalogue.{SshOperation, check_sudo, SshCommandResult}
use superflash_ia.Onboarding.Job.{operation, Reply, answered, raised, crashed}
use superflash_ia.Onboarding.Visit.{
  Greeting, welcomed, turned_away, broken, Host, Visit, VisitOutcome, ok, error, crash, Talk, pure,
  after, ◌>>=◌, ◌>>◌, write, outcome_of, answers_root, run, connect, has_privilege,
}

module _ {R : Type 0} where
  -- The report of a talk that ends well passes.
  unfoldable pub IsGood : {A : Type 0} → (R → Bool) → VisitOutcome A × Visit R → Type 0
  IsGood q (ok a, v) = q v.report ≡ true
  IsGood q (error e, v) = Unit
  IsGood q (crash, v) = Unit

  unfoldable pub Gives : {A : Type 0} → (R → Bool) → (R → Bool) → Talk R A → Type 0
  Gives p q m = (v : Visit R) → p v.report ≡ true → IsGood q (m v)

  pub bind-Gives :
      {A B : Type 0} (p q r : R → Bool) (m : Talk R A) (f : A → Talk R B)
      → Gives p q m
      → ((a : A) → Gives q r (f a))
      → Gives p r (m >>= f)
  unfolding Gives IsGood ◌>>=◌
  bind-Gives {A} {B} p q r m f h k v e = go (m v) (h v e)
    where
      go : (o : VisitOutcome A × Visit R) → IsGood q o → IsGood r (after o.0 f o.1)
      go (ok a, w) g = k a w g
      go (error x, w) g = tt
      go (crash, w) g = tt

  pub write-Gives :
      (p q : R → Bool) (f : R → R) → ((r : R) → p r ≡ true → q (f r) ≡ true) → Gives p q (write f)
  unfolding Gives IsGood
  write-Gives p q f h v e = h v.report e

  pub write_then-Gives :
      {B : Type 0} (p q r : R → Bool) (f : R → R) (m : Talk R B)
      → ((x : R) → p x ≡ true → q (f x) ≡ true)
      → Gives q r m
      → Gives p r (write f >> m)
  write_then-Gives p q r f m h k =
      bind-Gives p q r (write f) (λ _. m) (write-Gives p q f h) (λ _. k)

  pub pure-Gives : {A : Type 0} (p : R → Bool) (a : A) → Gives p p (pure a)
  unfolding Gives IsGood
  pure-Gives p a v e = e

  pub if-Gives :
      {A : Type 0} (p q : R → Bool) (b : Bool) (m n : Talk R A)
      → Gives p q m
      → Gives p q n
      → Gives p q (if b then m else n)
  if-Gives p q true m n h k = h
  if-Gives p q false m n h k = k

  pub answered-IsGood :
      (p : R → Bool) (w : Visit R) (reply : Reply)
      → p w.report ≡ true
      → IsGood p (outcome_of reply, w)
  unfolding IsGood
  answered-IsGood p w (answered r) h = h
  answered-IsGood p w (raised code) h = tt
  answered-IsGood p w crashed h = tt

  pub run-Gives :
      (p : R → Bool) (host : Host) (op : SshOperation) (root : Bool) → Gives p p (run host op root)
  unfolding Gives
  run-Gives p host op root v e =
      let reply = host.reply v.exchanges (operation op root) in
      answered-IsGood p (record v { exchanges = (operation op root, reply) ∷ v.exchanges }) reply e

  pub run_then-Gives :
      {B : Type 0} (p q : R → Bool) (host : Host) (op : SshOperation) (root : Bool)
      (f : SshCommandResult → Talk R B)
      → ((r : SshCommandResult) → Gives p q (f r))
      → Gives p q (run host op root >>= f)
  run_then-Gives p q host op root f h =
      bind-Gives p p q (run host op root) f (run-Gives p host op root) h

  pub connect-Gives : (p : R → Bool) (host : Host) → Gives p p (connect host)
  unfolding Gives IsGood
  connect-Gives p host v e = go host.greeting refl
    where
      go : (g : Greeting) → host.greeting ≡ g → IsGood p (connect host v)
      go (welcomed fingerprint status) h = rw (connect, h) e
      go (turned_away x) h = rw (connect, h) tt
      go broken h = rw (connect, h) tt

  pub has_privilege-Gives : (p : R → Bool) (host : Host) → Gives p p (has_privilege host)
  has_privilege-Gives p host = run_then-Gives p p host check_sudo false _ (λ r.
      if-Gives p p (answers_root r) (pure true) _ (pure-Gives p true)
        (run_then-Gives p p host check_sudo true _ (λ r'. pure-Gives p (answers_root r'))))
