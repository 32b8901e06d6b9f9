-- ===== src/Onboarding/Shown.antt =====
-- What the exchanges with a host show, and the visits of app/services/onboarding_service.py that rest
-- their report on them.
use superflash_ia.Prelude.{
  Bool, true, false, not, ◌&&◌, ◌||◌, ◌≡◌, refl, List, [], ◌∷◌, arith, if◌then◌else◌, ◌==◌,
  string_eq, nat_eq,
}
use superflash_ia.Text.{in_text, strip}
use superflash_ia.Ssh.Catalogue.{
  SshOperation, check_sudo, check_temp_write, check_requirements, detect_inventory,
  SshCommandResult,
}
use superflash_ia.Ssh.Inventory.{Python, parse_inventory_output}
use superflash_ia.Onboarding.Job.{Command, operation, Reply, answered, raised, crashed, Exchange}
use superflash_ia.Onboarding.Precheck.{missing_marks, any_in, is_root}
use superflash_ia.Onboarding.Visit.{
  Greeting, welcomed, turned_away, broken, Host, Visit, VisitOutcome, ok, error, crash, Talk, pure,
  after, ◌>>=◌, write, outcome_of, answers_root, run, connect, has_privilege,
}

abbrev pub any_of : (Exchange → Bool) → List Exchange → Bool
any_of f [] = false
any_of f (e ∷ es) = f e || any_of f es

-- The user's number was answered, and is that of root.
abbrev pub is_root_answer : Exchange → Bool
is_root_answer (operation check_sudo root, answered r) = r.exit_code == 0 && strip r.stdout == "0"
is_root_answer _ = false

-- The temporary directory was found writable.
abbrev pub is_write_answer : Exchange → Bool
is_write_answer (operation check_temp_write root, answered r) = r.exit_code == 0
is_write_answer _ = false

-- An inventory with a host name was read.
abbrev pub is_inventory_answer : Python → Exchange → Bool
is_inventory_answer python (operation detect_inventory root, answered r) =
    r.exit_code == 0 && not ((parse_inventory_output python r.stdout).hostname == "unknown")
is_inventory_answer python _ = false

-- The required tools and systemd were found.
abbrev pub is_tools_answer : Exchange → Bool
is_tools_answer (operation check_requirements root, answered r) =
    r.exit_code == 0 && not (any_in missing_marks r.stdout) && in_text "systemd=ok" r.stdout
is_tools_answer _ = false

abbrev pub is_welcomed : Greeting → Bool
is_welcomed (welcomed fingerprint status) = true
is_welcomed _ = false

module _ {R : Type 0} where
  -- What holds of the result and the visit of a talk that ends well.
  unfoldable pub IsShown : {A : Type 0} → (A → Visit R → Bool) → VisitOutcome A × Visit R → Type 0
  IsShown q (ok a, v) = q a v ≡ true
  IsShown q (error e, v) = Unit
  IsShown q (crash, v) = Unit

  unfoldable pub Shows : {A : Type 0} → (Visit R → Bool) → (A → Visit R → Bool) → Talk R A → Type 0
  Shows p q m = (v : Visit R) → p v ≡ true → IsShown q (m v)

  pub bind-Shows :
      {A B : Type 0} (p : Visit R → Bool) (q : A → Visit R → Bool) (r : B → Visit R → Bool)
      (m : Talk R A) (f : A → Talk R B)
      → Shows p q m
      → ((a : A) → Shows (q a) r (f a))
      → Shows p r (m >>= f)
  unfolding Shows IsShown ◌>>=◌
  bind-Shows {A} {B} p q r m f h k v e = go (m v) (h v e)
    where
      go : (o : VisitOutcome A × Visit R) → IsShown q o → IsShown r (after o.0 f o.1)
      go (ok a, w) g = k a w g
      go (error x, w) g = tt
      go (crash, w) g = tt

  pub write-Shows :
      (p : Visit R → Bool) (q : Visit R → Bool) (f : R → R)
      → ((v : Visit R) → p v ≡ true → q (record v { report = f v.report }) ≡ true)
      → Shows p (λ u. q) (write f)
  unfolding Shows IsShown
  write-Shows p q f h v e = h v e

  pub pure-Shows :
      {A : Type 0} (p : Visit R → Bool) (q : A → Visit R → Bool) (a : A)
      → ((v : Visit R) → p v ≡ true → q a v ≡ true)
      → Shows p q (pure a)
  unfolding Shows IsShown
  pure-Shows p q a h v e = h v e

  answered-IsShown :
      (q : SshCommandResult → Visit R → Bool) (v : Visit R) (c : Command) (es : List Exchange)
      (reply : Reply)
      → ((a : SshCommandResult) → q a (record v { exchanges = (c, answered a) ∷ es }) ≡ true)
      → IsShown q (outcome_of reply, record v { exchanges = (c, reply) ∷ es })
  unfolding IsShown
  answered-IsShown q v c es (answered a) h = h a
  answered-IsShown q v c es (raised code) h = tt
  answered-IsShown q v c es crashed h = tt

  pub run-Shows :
      (p : Visit R → Bool) (q : SshCommandResult → Visit R → Bool) (host : Host) (op : SshOperation)
      (root : Bool)
      → ((v : Visit R) (a : SshCommandResult)
          → p v ≡ true
          → q a (record v { exchanges = (operation op root, answered a) ∷ v.exchanges }) ≡ true)
      → Shows p q (run host op root)
  unfolding Shows
  run-Shows p q host op root h v e =
      answered-IsShown q v (operation op root) v.exchanges
        (host.reply v.exchanges (operation op root)) (λ a. h v a e)

  pub connect-Shows :
      (p : Visit R → Bool) (host : Host)
      → Shows p (λ key v. is_welcomed host.greeting && p v) (connect host)
  unfolding Shows IsShown
  connect-Shows p host v e = go host.greeting refl
    where
      go :
          (g : Greeting)
          → host.greeting ≡ g
          → IsShown (λ key w. is_welcomed host.greeting && p w) (connect host v)
      go (welcomed fingerprint status) h = rw (connect, h) e
      go (turned_away x) h = rw (connect, h) tt
      go broken h = rw (connect, h) tt

  -- A predicate that more exchanges keep.
  abbrev pub IsKeptBy : (Visit R → Bool) → Type 0
  IsKeptBy p =
      (v : Visit R) (e : Exchange)
      → p v ≡ true
      → p (record v { exchanges = e ∷ v.exchanges }) ≡ true

  root_shown :
      (p : Visit R → Bool)
      → IsKeptBy p
      → (v : Visit R) (root : Bool) (a : SshCommandResult) → p v ≡ true
      → let w = record v { exchanges = (operation check_sudo root, answered a) ∷ v.exchanges } in
        (p w && (not (answers_root a) || any_of is_root_answer w.exchanges)) ≡ true
  unfolding is_root
  root_shown p k v root a e =
      let x = k v (operation check_sudo root, answered a) e in ground (arith, x)

  -- The user has privileges only if a command has shown it.
  pub has_privilege-Shows :
      (p : Visit R → Bool) (host : Host)
      → IsKeptBy p
      → Shows p (λ b v. p v && (not b || any_of is_root_answer v.exchanges)) (has_privilege host)
  has_privilege-Shows p host k =
      bind-Shows p (λ a v. p v && (not (answers_root a) || any_of is_root_answer v.exchanges)) _
        (run host check_sudo false) _
        (run-Shows p _ host check_sudo false (λ v a e. root_shown p k v false a e))
        (λ a. go (answers_root a))
    where
      go :
          (b : Bool)
          → Shows
              (λ v. p v && (not b || any_of is_root_answer v.exchanges))
              (λ b' v. p v && (not b' || any_of is_root_answer v.exchanges))
              (if b then pure true else (run host check_sudo true >>= λ r'. pure (answers_root r')))
      go true = pure-Shows _ _ true (λ v e. e)
      go false =
          bind-Shows _ (λ a v. p v && (not (answers_root a) || any_of is_root_answer v.exchanges)) _
            (run host check_sudo true) _
            (run-Shows _ _ host check_sudo true
              (λ v a e. let e' : p v ≡ true = ground (arith, e) in root_shown p k v true a e'))
            (λ a. pure-Shows _ _ (answers_root a) (λ v e. e))
