-- ===== src/Onboarding/Backed.antt =====
-- What a report of `discover` of app/services/onboarding_service.py says was shown by the host.
use superflash_ia.Prelude.{
  String, ⊤, Bool, true, false, not, ◌&&◌, ◌||◌, ◌≡◌, refl, ap, subst, inl, inr, Bool-cases, Option,
  some, [], ◌∷◌, arith, is_some, if◌then◌else◌, ◌==◌, string_eq, contains,
}
use mathlib.Core.Option.{some-injective}
use superflash_ia.Text.{in_text}
use superflash_ia.Ssh.Catalogue.{
  check_requirements, check_exporter, check_exporter_version, detect_inventory, firewall_status,
  detect_firewall, SshOperation, SshCommandResult, SshServiceError,
}
use superflash_ia.Ssh.Catalogue
use superflash_ia.Ssh.Inventory.{RemoteInventory}
use superflash_ia.Onboarding.Visit.{
  Host, Visit, VisitOutcome, ok, error, crash, Talk, pure, ◌>>=◌, ◌>>◌, write, run, connect,
  has_privilege,
}
use superflash_ia.Onboarding.Preflight.{usable_inventory, safe_code}
use superflash_ia.Onboarding.Discovery.{
  DiscoveryReport, PortStatus, Blocking, with_greeting, with_requirements, lacks_requirements,
  port_of, check_port_owner, is_occupied, block_if, warn_if, Warning, inventory_unavailable,
  with_privilege, is_usable, with_found_inventory, with_firewall, has_no_primary,
  reviewed_firewalls, look, discovery_answer, discovery_report, discover,
}
use superflash_ia.Ssh.Inventory.{parse_inventory_output}
use superflash_ia.Onboarding.Job.{operation, answered}
use superflash_ia.Onboarding.Discovery.{
  port_occupied, firewall_review_required, with_exporter, Warning, inventory_unavailable,
  interface_not_detected, requirements_missing, privilege_required,
}
use superflash_ia.Onboarding.Found.{
  is_empty, is_blocked, blocked, blocked_with, look-Gives, discovery_answer-is_found,
}
use superflash_ia.Onboarding.Shown.{
  any_of, is_tools_answer, is_root_answer, is_inventory_answer, is_welcomed, IsShown, Shows,
  bind-Shows, write-Shows, pure-Shows, run-Shows, connect-Shows, IsKeptBy, has_privilege-Shows,
}
use superflash_ia.Onboarding.Talks.{Gives}

-- What a report says was shown by the host.
abbrev is_backed : Host → Visit DiscoveryReport → Bool
is_backed host v =
    (not v.report.privilege_ok || any_of is_root_answer v.exchanges)
    && (not (is_some v.report.discovered_inventory)
        || any_of (is_inventory_answer host.python) v.exchanges)
    && (is_blocked v.report || not v.report.systemd_available || any_of is_tools_answer v.exchanges)

abbrev is_visited : Host → Visit DiscoveryReport → Bool
is_visited host v = is_welcomed host.greeting && is_backed host v

is_visited-kept : (host : Host) → IsKeptBy (is_visited host)
is_visited-kept host v e h = ground (arith, h)

-- A blocking error more keeps it.
block_if-is_visited :
    (host : Host) (t : Bool) (b : Blocking) (v : Visit DiscoveryReport)
    → is_visited host v ≡ true
    → is_visited host (record v { report = block_if t b v.report }) ≡ true
block_if-is_visited host false b v h = h
block_if-is_visited host true b v h = let x = blocked b v.report in ground (arith, h, x)

warn_if-is_visited :
    (host : Host) (t : Bool) (b : Warning) (v : Visit DiscoveryReport)
    → is_visited host v ≡ true
    → is_visited host (record v { report = warn_if t b v.report }) ≡ true
warn_if-is_visited host false b v h = h
warn_if-is_visited host true b v h = h

requirements-is_visited :
    (host : Host) (q : SshCommandResult) (v : Visit DiscoveryReport)
    → (is_visited host v && (lacks_requirements q || any_of is_tools_answer v.exchanges)) ≡ true
    → is_visited host (record v { report = with_requirements q v.report }) ≡ true
requirements-is_visited host q v h = elim (Bool-cases (lacks_requirements q)) [
  | inl lacks ↦
      let x = blocked requirements_missing (record (v.report) {
        systemd_available = in_text "systemd=ok" q.stdout;
        port_9100_status = port_of q.stdout;
      }) in
      rw (with_requirements, lacks) (ground (arith, h, x))
  | inr has ↦ rw (with_requirements, has) (ground (arith, h, has))
]

tools_shown :
    (host : Host) (v : Visit DiscoveryReport) (a : SshCommandResult)
    → is_visited host v ≡ true
    → let w = record v {
      exchanges = (operation check_requirements false, answered a) ∷ v.exchanges;
    } in
      (is_visited host w && (lacks_requirements a || any_of is_tools_answer w.exchanges)) ≡ true
tools_shown host v a h = ground (arith, h)

-- The answer has an inventory with a host name.
abbrev gives_inventory : Host → SshCommandResult → Bool
gives_inventory host raw =
    Catalogue.ok raw && not ((parse_inventory_output host.python raw.stdout).hostname == "unknown")

inventory-is_visited :
    (host : Host) (raw : SshCommandResult) (v : Visit DiscoveryReport)
    → (is_visited host v
        && (not (gives_inventory host raw) || any_of (is_inventory_answer host.python) v.exchanges))
      ≡ true
    → is_visited host
        (record v { report = with_found_inventory (usable_inventory host raw) v.report })
      ≡ true
inventory-is_visited host raw v h =
    let k : is_visited host v ≡ true = ground (arith, h) in
    elim (Bool-cases (Catalogue.ok raw)) [
      | inr unread ↦
          rw (usable_inventory, unread) (block_if-is_visited host true inventory_unavailable v k)
      | inl read ↦ elim (Bool-cases (is_usable (parse_inventory_output host.python raw.stdout))) [
        | inl usable ↦
            rw (usable_inventory, read, with_found_inventory, usable)
              (ground (arith, h, read, usable))
        | inr not_usable ↦
            rw (usable_inventory, read, with_found_inventory, not_usable)
              (block_if-is_visited host true inventory_unavailable v k)
      ]
    ]

run_kept :
    (host : Host) (op : SshOperation) (root : Bool)
    → Shows (is_visited host) (λ a. is_visited host) (run host op root)
run_kept host op root =
    run-Shows (is_visited host) _ host op root
      (λ v a h. is_visited-kept host v (operation op root, answered a) h)

owner-Shows :
    (host : Host) (port : PortStatus)
    → Shows (is_visited host) (λ u. is_visited host) (check_port_owner host port)
owner-Shows host port = go (is_occupied port)
  where
    go :
        (b : Bool)
        → Shows
            (is_visited host)
            (λ u. is_visited host)
            (if b
              then (run host check_exporter false >>= λ probe.
                  write (block_if (not (Catalogue.ok probe)) port_occupied))
              else pure tt)
    go true =
        bind-Shows _ (λ a. is_visited host) _ (run host check_exporter false) _
          (run_kept host check_exporter false)
          (λ probe.
            write-Shows _ (is_visited host) _
              (block_if-is_visited host (not (Catalogue.ok probe)) port_occupied))
    go false = pure-Shows _ _ tt (λ v h. h)

privilege-is_visited :
    (host : Host) (p : Bool) (v : Visit DiscoveryReport)
    → (is_visited host v && (not p || any_of is_root_answer v.exchanges)) ≡ true
    → is_visited host (record v { report = with_privilege p v.report }) ≡ true
privilege-is_visited host p v h =
    block_if-is_visited host (not p) privilege_required
      (record v { report = record (v.report) { privilege_ok = p } }) (ground (arith, h))

exporter-is_visited :
    (host : Host) (b : Bool) (version : Option String) (v : Visit DiscoveryReport)
    → is_visited host v ≡ true
    → is_visited host (record v { report = with_exporter b version v.report }) ≡ true
exporter-is_visited host true version v h = h
exporter-is_visited host false version v h = h

firewall-is_visited :
    (host : Host) (f : String) (i : Option RemoteInventory) (v : Visit DiscoveryReport)
    → is_visited host v ≡ true
    → is_visited host (record v { report = with_firewall f i v.report }) ≡ true
firewall-is_visited host f i v h =
    let v1 : Visit DiscoveryReport = record v {
      report = record (v.report) { detected_firewall = f };
    } in
    let t = contains reviewed_firewalls f in
    let v2 : Visit DiscoveryReport = record v {
      report = warn_if t firewall_review_required v1.report;
    } in
    warn_if-is_visited host (has_no_primary i) interface_not_detected v2
      (warn_if-is_visited host t firewall_review_required v1 h)

-- The discovery from its check of the privileges on.
abbrev inspect : Host → Talk DiscoveryReport ⊤
inspect host = do
  privilege ← has_privilege host
  write (with_privilege privilege)
  raw ← run host detect_inventory false
  write (with_found_inventory (usable_inventory host raw))
  exporter ← run host check_exporter false
  version ← run host check_exporter_version false
  write (with_exporter (Catalogue.ok exporter) (host.version_of version.stdout))
  firewall ← run host firewall_status true
  write (
      with_firewall (detect_firewall host.lower firewall.stdout host.monitor_ip)
        (usable_inventory host raw))

privileged-Shows : (host : Host) → Shows (is_visited host) (λ u. is_visited host) (inspect host)
privileged-Shows host =
    let j = is_visited host in
    bind-Shows j (λ p v. j v && (not p || any_of is_root_answer v.exchanges)) _ (has_privilege host)
      _ (has_privilege-Shows j host (is_visited-kept host))
      (λ p.
        bind-Shows _ (λ u. j) _ (write (with_privilege p)) _
          (write-Shows _ j _ (privilege-is_visited host p))
          (λ _.
            bind-Shows j
              (λ raw v.
                j v
                && (not (gives_inventory host raw)
                    || any_of (is_inventory_answer host.python) v.exchanges))
              _ (run host detect_inventory false) _
              (run-Shows j _ host detect_inventory false (λ v a h. ground (arith, h)))
              (λ raw.
                bind-Shows _ (λ u. j) _ (write (with_found_inventory (usable_inventory host raw))) _
                  (write-Shows _ j _ (inventory-is_visited host raw))
                  (λ _.
                    bind-Shows j (λ a. j) _ (run host check_exporter false) _
                      (run_kept host check_exporter false)
                      (λ x.
                        bind-Shows j (λ a. j) _ (run host check_exporter_version false) _
                          (run_kept host check_exporter_version false)
                          (λ y.
                            bind-Shows j (λ u. j) _
                              (write (with_exporter (Catalogue.ok x) (host.version_of y.stdout))) _
                              (write-Shows j j _ (
                                exporter-is_visited host (Catalogue.ok x)
                                  (host.version_of y.stdout)))
                              (λ _.
                                bind-Shows j (λ a. j) _ (run host firewall_status true) _
                                  (run_kept host firewall_status true)
                                  (λ z. write-Shows j j _ (
                                    firewall-is_visited host
                                      (detect_firewall host.lower z.stdout host.monitor_ip)
                                      (usable_inventory host raw))))))))))

look-Shows : (host : Host) → Shows (is_backed host) (λ u. is_visited host) (look host)
unfolding look
look-Shows host =
    let j = is_visited host in
    bind-Shows (is_backed host) (λ key. j) _ (connect host) _ (connect-Shows (is_backed host) host)
      (λ key.
        bind-Shows j (λ u. j) _ (write (with_greeting key)) _
          (write-Shows j j (with_greeting key) (λ v h. h))
          (λ _.
            bind-Shows j
              (λ q v. j v && (lacks_requirements q || any_of is_tools_answer v.exchanges)) _
              (run host check_requirements false) _
              (run-Shows j _ host check_requirements false (tools_shown host))
              (λ q.
                bind-Shows _ (λ u. j) _ (write (with_requirements q)) _
                  (write-Shows _ j _ (requirements-is_visited host q))
                  (λ _.
                    bind-Shows j (λ u. j) _ (check_port_owner host (port_of q.stdout)) _
                      (owner-Shows host (port_of q.stdout)) (λ _. privileged-Shows host)))))

discovery_answer-is_visited :
    (host : Host) (v : VisitOutcome ⊤ × Visit DiscoveryReport) (r : DiscoveryReport)
    → IsShown (λ u. is_visited host) v
    → discovery_answer v.0 v.1.report ≡ some r
    → r.blocking_errors ≡ []
    → is_visited host (record (v.1) { report = r }) ≡ true
unfolding IsShown
discovery_answer-is_visited host (ok u, v) r g h n =
    subst (λ x. is_visited host (record v { report = x }) ≡ true) (some-injective _ _ h) g
discovery_answer-is_visited host (error e, v) r g h n =
    let x = blocked_with e (record (v.report) { error_code = some (safe_code e.error_code) }) in
    let y = ap is_blocked (some-injective _ _ h) in
    let z = ap is_empty n in absurd (ground (arith, x, y, z))
discovery_answer-is_visited host (crash, v) r g h n = absurd (ground (arith, h))

-- A discovery whose report has no blocking errors has opened a session with the host, and the report
-- says so. Among the commands that it sent, one answered that systemd and the required tools are there,
-- one the number of root, and one an inventory with a host name; the report says that there is
-- systemd, that the user has privileges, and has an inventory.
pub discover_lem :
    (host : Host) (fingerprint : Option String) (r : DiscoveryReport)
    → (discover host fingerprint).0 ≡ some r
    → r.blocking_errors ≡ []
    → let sent = (discover host fingerprint).1 in
      ((r.reachable
          && r.authentication_ok
          && r.systemd_available
          && r.privilege_ok
          && is_some r.discovered_inventory)
        ≡ true)
      × (is_welcomed host.greeting ≡ true)
      × (any_of is_tools_answer sent ≡ true)
      × (any_of is_root_answer sent ≡ true)
      × (any_of (is_inventory_answer host.python) sent ≡ true)
unfolding discover Gives Shows
discover_lem host fingerprint r h n =
    let start : Visit DiscoveryReport = record {
      report = discovery_report fingerprint;
      exchanges = [];
    } in
    let g = look-Gives host start refl in
    let j = discovery_answer-is_found (look host start) r g h in
    let k = look-Shows host start refl in
    let b = discovery_answer-is_visited host (look host start) r k h n in
    let e : is_empty r.blocking_errors ≡ true = rw n refl in
    (
      ground (arith, j, e),
      ground (arith, b),
      ground (arith, j, e, b),
      ground (arith, j, e, b),
      ground (arith, j, e, b),
    )
