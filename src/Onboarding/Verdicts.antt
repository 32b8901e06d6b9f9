-- ===== src/Onboarding/Verdicts.antt =====
-- What the report of `test_ssh` of app/services/onboarding_service.py says of the host.
use superflash_ia.Prelude.{
  ap, string_eq, ◌==◌, subst, inl, inr, Bool-cases, ◌||◌, String, ⊤, Bool, true, false, not, ◌&&◌,
  ◌≡◌, refl, Option, none, some, arith, is_some, contains,
}
use mathlib.Core.Option.{some-injective}
use superflash_ia.Ssh.Catalogue.{
  SshOperation, check_sudo, check_temp_write, check_requirements, check_exporter,
  check_exporter_version, detect_inventory, firewall_status, SshCommandResult, SshServiceError,
  detect_firewall,
}
use superflash_ia.Ssh.Catalogue
use superflash_ia.Ssh.Inventory.{RemoteInventory}
use superflash_ia.Onboarding.Visit.{
  Host, Visit, VisitOutcome, ok, error, crash, connect, has_privilege, write, run,
}
use superflash_ia.Onboarding.Preflight.{
  TestReport, greeted, with_temp_write, usable_inventory, with_inventory, with_verdict, preflight,
  test_answer, with_error, with_key_error, refused_login, start_test, test_ssh,
}
use superflash_ia.Ssh.Inventory.{parse_inventory_output}
use superflash_ia.Onboarding.Shown.{
  any_of, is_root_answer, is_write_answer, is_inventory_answer, is_welcomed, IsShown, Shows,
  bind-Shows, write-Shows, run-Shows, connect-Shows, IsKeptBy, has_privilege-Shows,
}
use superflash_ia.Onboarding.Talks.{
  IsGood, Gives, bind-Gives, write-Gives, write_then-Gives, run_then-Gives, connect-Gives,
  has_privilege-Gives,
}

-- The report after each step of the preflight.
abbrev is_greeted : TestReport → Bool
is_greeted r = r.reachable && r.authentication_ok && not (is_some r.error_code)

abbrev is_tried : TestReport → Bool
is_tried r = r.reachable && r.authentication_ok && (is_some r.error_code || r.temp_write_ok)

abbrev is_known : TestReport → Bool
is_known r =
    r.reachable
    && r.authentication_ok
    && (is_some r.error_code || (r.temp_write_ok && is_some r.discovered_inventory))

abbrev is_judged : TestReport → Bool
is_judged r =
    is_some r.error_code
    || (r.reachable
        && r.authentication_ok
        && r.privilege_ok
        && r.temp_write_ok
        && is_some r.discovered_inventory)

abbrev is_fresh : TestReport → Bool
is_fresh r = not (is_some r.error_code)

inventory-is_known :
    (i : Option RemoteInventory) (r : TestReport)
    → is_tried r ≡ true
    → is_known (with_inventory i r) ≡ true
inventory-is_known none r h = ground arith
inventory-is_known (some i) r h = ground arith

preflight-Gives : (host : Host) → Gives is_fresh is_judged (preflight host)
unfolding preflight
preflight-Gives host =
    bind-Gives is_fresh is_fresh is_judged (connect host) _ (connect-Gives is_fresh host) (λ key.
      write_then-Gives is_fresh is_greeted is_judged (greeted key) _ (λ r h. h)
        (bind-Gives is_greeted is_greeted is_judged (has_privilege host) _
          (has_privilege-Gives is_greeted host)
          (λ p.
            write_then-Gives is_greeted is_greeted is_judged _ _ (λ r h. h)
              (run_then-Gives is_greeted is_judged host check_temp_write false _ (λ t.
                write_then-Gives is_greeted is_tried is_judged (with_temp_write (Catalogue.ok t)) _
                  (λ r h. ground arith)
                  (run_then-Gives is_tried is_judged host detect_inventory false _ (λ raw.
                    write_then-Gives is_tried is_known is_judged _ _
                      (inventory-is_known (usable_inventory host raw))
                      (write-Gives is_known is_judged with_verdict (λ r h. ground arith)))))))))

with_key_error-code :
    (code : String) (r : TestReport)
    → is_some (with_key_error code r).error_code ≡ is_some r.error_code
with_key_error-code code r = elim (Bool-cases (code == "host_key_new")) [
  | inl new ↦ rw (with_key_error, new) refl
  | inr not_new ↦ elim (Bool-cases (code == "host_key_changed" || code == "fingerprint_mismatch")) [
    | inl changed ↦ rw (with_key_error, not_new, changed) refl
    | inr same ↦ elim (Bool-cases (contains refused_login code)) [
      | inl login ↦ rw (with_key_error, not_new, same, login) refl
      | inr other ↦ rw (with_key_error, not_new, same, other) refl
    ]
  ]
]

with_error-code :
    (e : SshServiceError) (r : TestReport) → is_some (with_error e r).error_code ≡ true
with_error-code e r = with_key_error-code e.error_code _

test_answer-is_judged :
    (v : VisitOutcome ⊤ × Visit TestReport) (r : TestReport)
    → IsGood is_judged v
    → test_answer v.0 v.1.report ≡ some r
    → is_judged r ≡ true
unfolding IsGood
test_answer-is_judged (ok u, v) r g h = subst (λ x. is_judged x ≡ true) (some-injective _ _ h) g
test_answer-is_judged (error e, v) r g h =
    subst (λ x. is_judged x ≡ true) (some-injective _ _ h) (rw (with_error-code e v.report) refl)
test_answer-is_judged (crash, v) r g h = absurd (ground (arith, h))

-- What a report says was shown by the host.
abbrev is_backed : Host → Visit TestReport → Bool
is_backed host v =
    (not v.report.privilege_ok || any_of is_root_answer v.exchanges)
    && (not v.report.temp_write_ok || any_of is_write_answer v.exchanges)
    && (not (is_some v.report.discovered_inventory)
        || any_of (is_inventory_answer host.python) v.exchanges)

abbrev is_visited : Host → Visit TestReport → Bool
is_visited host v = is_welcomed host.greeting && is_backed host v

is_visited-kept : (host : Host) → IsKeptBy (is_visited host)
is_visited-kept host v e h = ground (arith, h)

-- The answer has an inventory with a host name.
abbrev gives_inventory : Host → SshCommandResult → Bool
gives_inventory host raw =
    Catalogue.ok raw && not ((parse_inventory_output host.python raw.stdout).hostname == "unknown")

inventory-is_visited :
    (host : Host) (raw : SshCommandResult) (v : Visit TestReport)
    → (is_visited host v
        && (not (gives_inventory host raw) || any_of (is_inventory_answer host.python) v.exchanges))
      ≡ true
    → is_visited host (record v { report = with_inventory (usable_inventory host raw) v.report })
      ≡ true
inventory-is_visited host raw v h = elim (Bool-cases (Catalogue.ok raw)) [
  | inr unread ↦ rw (usable_inventory, unread) (ground (arith, h))
  | inl read ↦
      elim (Bool-cases ((parse_inventory_output host.python raw.stdout).hostname == "unknown")) [
        | inl unknown ↦ rw (usable_inventory, read, with_inventory, unknown) (ground (arith, h))
        | inr known ↦
            rw (usable_inventory, read, with_inventory, known) (ground (arith, h, read, known))
      ]
]

verdict-is_visited :
    (host : Host) (v : Visit TestReport)
    → is_visited host v ≡ true
    → is_visited host (record v { report = with_verdict v.report }) ≡ true
verdict-is_visited host v h = ground (arith, h)

preflight-Shows : (host : Host) → Shows (is_backed host) (λ u. is_visited host) (preflight host)
unfolding preflight
preflight-Shows host =
    let j = is_visited host in
    bind-Shows (is_backed host) (λ key. j) _ (connect host) _ (connect-Shows (is_backed host) host)
      (λ key.
        bind-Shows j (λ u. j) _ (write (greeted key)) _ (write-Shows j j (greeted key) (λ v h. h))
          (λ _.
            bind-Shows j (λ p v. j v && (not p || any_of is_root_answer v.exchanges)) _
              (has_privilege host) _ (has_privilege-Shows j host (is_visited-kept host))
              (λ p.
                bind-Shows _ (λ u. j) _ (write _) _ (write-Shows _ j _ (λ v h. ground (arith, h)))
                  (λ _.
                    bind-Shows j
                      (λ t v. j v && (not (Catalogue.ok t) || any_of is_write_answer v.exchanges)) _
                      (run host check_temp_write false) _
                      (run-Shows j _ host check_temp_write false (λ v a h. ground (arith, h)))
                      (λ t.
                        bind-Shows _ (λ u. j) _ (write (with_temp_write (Catalogue.ok t))) _
                          (write-Shows _ j _ (λ v h. ground (arith, h)))
                          (λ _.
                            bind-Shows j
                              (λ raw v.
                                j v
                                && (not (gives_inventory host raw)
                                    || any_of (is_inventory_answer host.python) v.exchanges))
                              _ (run host detect_inventory false) _
                              (run-Shows j _ host detect_inventory false
                                (λ v a h. ground (arith, h)))
                              (λ raw.
                                bind-Shows _ (λ u. j) _
                                  (write (with_inventory (usable_inventory host raw))) _
                                  (write-Shows _ j _ (inventory-is_visited host raw))
                                  (λ _.
                                    write-Shows j j with_verdict (verdict-is_visited host)))))))))

test_answer-is_visited :
    (host : Host) (v : VisitOutcome ⊤ × Visit TestReport) (r : TestReport)
    → IsShown (λ u. is_visited host) v
    → test_answer v.0 v.1.report ≡ some r
    → r.error_code ≡ none
    → is_visited host (record (v.1) { report = r }) ≡ true
unfolding IsShown
test_answer-is_visited host (ok u, v) r g h n =
    subst (λ x. is_visited host (record v { report = x }) ≡ true) (some-injective _ _ h) g
test_answer-is_visited host (error e, v) r g h n =
    let x = with_error-code e v.report in
    let y = ap (λ (z : TestReport). is_some z.error_code) (some-injective _ _ h) in
    let z = ap is_some n in absurd (ground (arith, x, y, z))
test_answer-is_visited host (crash, v) r g h n = absurd (ground (arith, h))

-- A preflight whose report has no error code has opened a session with the host, and the report says
-- so. Among the commands that it sent, one answered the number of root, the one that tests the
-- temporary directory ended well, and one answered an inventory with a host name; the report says that
-- the user has privileges and can write, and has an inventory.
pub test_ssh_lem :
    (host : Host) (fingerprint : Option String) (r : TestReport)
    → (test_ssh host fingerprint).0 ≡ some r
    → r.error_code ≡ none
    → let sent = (test_ssh host fingerprint).1 in
      ((r.reachable
          && r.authentication_ok
          && r.privilege_ok
          && r.temp_write_ok
          && is_some r.discovered_inventory)
        ≡ true)
      × (is_welcomed host.greeting ≡ true)
      × (any_of is_root_answer sent ≡ true)
      × (any_of is_write_answer sent ≡ true)
      × (any_of (is_inventory_answer host.python) sent ≡ true)
unfolding test_ssh Gives Shows
test_ssh_lem host fingerprint r h n =
    let v = preflight host (start_test fingerprint) in
    let g = preflight-Gives host (start_test fingerprint) refl in
    let j = test_answer-is_judged v r g h in
    let k = preflight-Shows host (start_test fingerprint) refl in
    let b = test_answer-is_visited host v r k h n in
    let z = ap is_some n in
    (
      ground (arith, j, z),
      ground (arith, b),
      ground (arith, j, z, b),
      ground (arith, j, z, b),
      ground (arith, j, z, b),
    )
