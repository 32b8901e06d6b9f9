-- ===== src/Onboarding/Found.antt =====
-- What the report of `discover` of app/services/onboarding_service.py says of the host.
use superflash_ia.Prelude.{
  String, ⊤, Bool, true, false, not, ◌&&◌, ◌||◌, ◌≡◌, refl, subst, inl, inr, Bool-cases, Option,
  none, some, List, [], ◌∷◌, ◌++◌, arith, is_some, ◌==◌, string_eq, contains,
}
use mathlib.Core.Option.{some-injective}
use superflash_ia.Text.{in_text}
use superflash_ia.Ssh.Catalogue.{
  SshOperation, check_sudo, check_temp_write, check_requirements, check_exporter,
  check_exporter_version, detect_inventory, firewall_status, SshCommandResult, SshServiceError,
  detect_firewall,
}
use superflash_ia.Ssh.Catalogue
use superflash_ia.Ssh.Inventory.{RemoteInventory}
use superflash_ia.Onboarding.Visit.{
  Host, Visit, VisitOutcome, ok, error, crash, connect, has_privilege,
}
use superflash_ia.Onboarding.Preflight.{usable_inventory, safe_code}
use superflash_ia.Onboarding.Discovery.{
  DiscoveryReport, PortStatus, Blocking, with_greeting, with_requirements, lacks_requirements,
  port_of, check_port_owner, is_occupied, block_if, warn_if, Warning, inventory_unavailable,
  with_privilege, is_usable, with_found_inventory, with_firewall, has_no_primary,
  reviewed_firewalls, exporter_not_healthy, look, login_codes, block_with, discovery_answer,
}
use superflash_ia.Onboarding.Talks.{
  IsGood, Gives, bind-Gives, write-Gives, write_then-Gives, pure-Gives, if-Gives, run_then-Gives,
  connect-Gives, has_privilege-Gives,
}

abbrev pub is_empty : List Blocking → Bool
is_empty [] = true
is_empty (b ∷ bs) = false

abbrev pub is_blocked : DiscoveryReport → Bool
is_blocked r = not (is_empty r.blocking_errors)

-- The report after each step of the discovery.
abbrev any_report : DiscoveryReport → Bool
any_report r = true

abbrev is_reached : DiscoveryReport → Bool
is_reached r = r.reachable && r.authentication_ok

abbrev has_systemd : DiscoveryReport → Bool
has_systemd r = is_blocked r || (is_reached r && r.systemd_available)

abbrev is_privileged : DiscoveryReport → Bool
is_privileged r = is_blocked r || (is_reached r && r.systemd_available && r.privilege_ok)

abbrev is_found : DiscoveryReport → Bool
is_found r =
    is_blocked r
    || (is_reached r && r.systemd_available && r.privilege_ok && is_some r.discovered_inventory)

not_empty-append : (bs : List Blocking) (b : Blocking) → is_empty (bs ++ b ∷ []) ≡ false
not_empty-append [] b = refl
not_empty-append (x ∷ xs) b = refl

pub blocked : (b : Blocking) (r : DiscoveryReport) → is_blocked (block_if true b r) ≡ true
blocked b r = rw (block_if, not_empty-append r.blocking_errors b) refl

-- What holds of a blocked report and of an edited one holds of the outcome of a check.
block_if-holds :
    (t : Bool) (b : Blocking) (p : DiscoveryReport → Bool) (r : DiscoveryReport)
    → (t ≡ false → p r ≡ true)
    → ((r' : DiscoveryReport) → is_blocked r' ≡ true → p r' ≡ true)
    → p (block_if t b r) ≡ true
block_if-holds true b p r h k = k _ (blocked b r)
block_if-holds false b p r h k = h refl

blocked-has_systemd : (r : DiscoveryReport) → is_blocked r ≡ true → has_systemd r ≡ true
blocked-has_systemd r h = ground arith

blocked-is_privileged : (r : DiscoveryReport) → is_blocked r ≡ true → is_privileged r ≡ true
blocked-is_privileged r h = ground arith

blocked-is_found : (r : DiscoveryReport) → is_blocked r ≡ true → is_found r ≡ true
blocked-is_found r h = ground arith

systemd-holds :
    (q : SshCommandResult) → lacks_requirements q ≡ false → in_text "systemd=ok" q.stdout ≡ true
systemd-holds q h = ground arith

requirements-has_systemd :
    (q : SshCommandResult) (r : DiscoveryReport)
    → is_reached r ≡ true
    → has_systemd (with_requirements q r) ≡ true
requirements-has_systemd q r h =
    block_if-holds (lacks_requirements q) _ has_systemd _
      (λ l. let s = systemd-holds q l in ground arith) blocked-has_systemd

privilege-is_privileged :
    (p : Bool) (r : DiscoveryReport)
    → has_systemd r ≡ true
    → is_privileged (with_privilege p r) ≡ true
privilege-is_privileged p r h =
    block_if-holds (not p) _ is_privileged _ (λ l. ground arith) blocked-is_privileged

inventory-is_found :
    (i : Option RemoteInventory) (r : DiscoveryReport)
    → is_privileged r ≡ true
    → is_found (with_found_inventory i r) ≡ true
inventory-is_found none r h =
    blocked-is_found (block_if true inventory_unavailable r) (blocked inventory_unavailable r)
inventory-is_found (some i) r h = elim (Bool-cases (is_usable i)) [
  | inl usable ↦ rw (with_found_inventory, usable) h'
  | inr not_usable ↦
      rw (with_found_inventory, not_usable)
        (blocked-is_found (block_if true inventory_unavailable r) (blocked inventory_unavailable r))
]
  where
    h' : is_found (record r { discovered_inventory = some i }) ≡ true
    h' = ground arith

owner-has_systemd :
    (host : Host) (port : PortStatus) → Gives has_systemd has_systemd (check_port_owner host port)
owner-has_systemd host port =
    if-Gives has_systemd has_systemd (is_occupied port) _ _
      (run_then-Gives has_systemd has_systemd host check_exporter false _ (λ probe.
        write-Gives has_systemd has_systemd _ (λ r h.
          block_if-holds (not (Catalogue.ok probe)) _ has_systemd r (λ l. h) blocked-has_systemd)))
      (pure-Gives has_systemd tt)

warn_if-is_found :
    (t : Bool) (w : Warning) (r : DiscoveryReport)
    → is_found r ≡ true
    → is_found (warn_if t w r) ≡ true
warn_if-is_found true w r h = h
warn_if-is_found false w r h = h

reviewed-is_found :
    (f : String) (i : Option RemoteInventory) (r : DiscoveryReport)
    → is_found r ≡ true
    → is_found (with_firewall f i r) ≡ true
reviewed-is_found f i r h =
    warn_if-is_found (has_no_primary i) _ _
      (warn_if-is_found (contains reviewed_firewalls f) _ (record r { detected_firewall = f }) h)

pub look-Gives : (host : Host) → Gives any_report is_found (look host)
unfolding look
look-Gives host =
    bind-Gives any_report any_report is_found (connect host) _ (connect-Gives any_report host)
      (λ key.
        write_then-Gives any_report is_reached is_found (with_greeting key) _ (λ r h. refl)
          (run_then-Gives is_reached is_found host check_requirements false _ (λ q.
            write_then-Gives is_reached has_systemd is_found (with_requirements q) _
              (requirements-has_systemd q)
              (bind-Gives has_systemd has_systemd is_found
                (check_port_owner host (port_of q.stdout)) _
                (owner-has_systemd host (port_of q.stdout))
                (λ _.
                  bind-Gives has_systemd has_systemd is_found (has_privilege host) _
                    (has_privilege-Gives has_systemd host)
                    (λ p.
                      write_then-Gives has_systemd is_privileged is_found (with_privilege p) _
                        (privilege-is_privileged p)
                        (run_then-Gives is_privileged is_found host detect_inventory false _ (λ raw.
                          write_then-Gives is_privileged is_found is_found _ _
                            (inventory-is_found (usable_inventory host raw))
                            (run_then-Gives is_found is_found host check_exporter false _ (λ x.
                              run_then-Gives is_found is_found host check_exporter_version false _
                                (λ y.
                                  write_then-Gives is_found is_found is_found _ _
                                    (λ r h.
                                      warn_if-is_found (not (Catalogue.ok x)) exporter_not_healthy _
                                        h)
                                    (run_then-Gives is_found is_found host firewall_status true _
                                      (λ z. write-Gives is_found is_found _ (
                                        reviewed-is_found
                                          (detect_firewall host.lower z.stdout host.monitor_ip)
                                          (usable_inventory host raw)))))))))))))))

pub blocked_with : (e : SshServiceError) (r : DiscoveryReport) → is_blocked (block_with e r) ≡ true
blocked_with e r = elim (Bool-cases (e.error_code == "host_key_new")) [
  | inl new ↦ rw (block_with, new) (blocked _ (record r { reachable = true }))
  | inr not_new ↦ elim (Bool-cases (e.error_code == "host_key_changed")) [
    | inl changed ↦ rw (block_with, not_new, changed) (blocked _ (record r { reachable = true }))
    | inr same ↦ elim (Bool-cases (contains login_codes e.error_code)) [
      | inl login ↦
          rw (block_with, not_new, same, login) (blocked _ (record r { reachable = true }))
      | inr other ↦ elim (Bool-cases (e.error_code == "invalid_private_key")) [
        | inl key ↦ rw (block_with, not_new, same, other, key) (blocked _ r)
        | inr any ↦ rw (block_with, not_new, same, other, any) (blocked _ r)
      ]
    ]
  ]
]

pub discovery_answer-is_found :
    (v : VisitOutcome ⊤ × Visit DiscoveryReport) (r : DiscoveryReport)
    → IsGood is_found v
    → discovery_answer v.0 v.1.report ≡ some r
    → is_found r ≡ true
unfolding IsGood
discovery_answer-is_found (ok u, v) r g h = subst (λ x. is_found x ≡ true) (some-injective _ _ h) g
discovery_answer-is_found (error e, v) r g h =
    subst (λ x. is_found x ≡ true) (some-injective _ _ h)
      (blocked-is_found
        (block_with e (record v.report { error_code = some (safe_code e.error_code) }))
        (blocked_with e (record v.report { error_code = some (safe_code e.error_code) })))
discovery_answer-is_found (crash, v) r g h = absurd (ground (arith, h))
