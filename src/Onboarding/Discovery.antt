-- ===== src/Onboarding/Discovery.antt =====
-- `discover` of app/services/onboarding_service.py: what a host is like before anything is installed.
-- The texts of the report are left out.
use superflash_ia.Prelude.{
  ℕ, String, ⊤, Bool, true, false, not, ◌||◌, Option, none, some, List, [], ◌∷◌, ◌++◌, ◌==◌,
  string_eq, contains, truthy, if◌then◌else◌,
}
use superflash_ia.Text.{in_text}
use superflash_ia.Ssh.Catalogue.{
  check_requirements, check_exporter, check_exporter_version, detect_inventory, firewall_status,
  detect_firewall, SshCommandResult, SshServiceError,
}
use superflash_ia.Ssh.Catalogue
use superflash_ia.Ssh.HostKey.{HostKeyStatus}
use superflash_ia.Ssh.Inventory.{Interface, RemoteInventory}
use superflash_ia.Onboarding.Job.{Exchange}
use superflash_ia.Onboarding.Precheck.{missing_marks, any_in, has_no_interface}
use superflash_ia.Onboarding.Visit.{
  Host, VisitOutcome, ok, error, crash, Talk, pure, ◌>>=◌, ◌>>◌, write, run, connect, has_privilege,
}
use superflash_ia.Onboarding.Preflight.{
  ReportedKey, not_known, new_key, changed_key, trusted_key, of_session, usable_inventory,
  safe_code,
}

-- The values of `port_9100_status`.
pub data PortStatus : Type 0 where
  unknown_port free occupied : PortStatus

pub data Warning : Type 0 where
  exporter_not_healthy firewall_review_required interface_not_detected : Warning

-- The blocking errors: those of the service, and the code of an `SSHServiceError` in capitals.
pub data Blocking : Type 0 where
  requirements_missing port_occupied privilege_required inventory_unavailable : Blocking
  key_confirmation_required host_key_changed invalid_private_key : Blocking
  upper_code : String → Blocking

pub record DiscoveryReport : Type 0 where
  pub reachable : Bool
  pub authentication_ok : Bool
  pub privilege_ok : Bool
  pub discovered_inventory : Option RemoteInventory
  pub host_key_fingerprint : Option String
  pub host_key_status : ReportedKey
  pub detected_firewall : String
  pub detected_interface : Option String
  pub link_speed_mbps : Option ℕ
  pub exporter_status : String
  pub exporter_version : Option String
  pub port_9100_status : PortStatus
  pub systemd_available : Bool
  pub warnings : List Warning
  pub blocking_errors : List Blocking
  pub error_code : Option String

abbrev pub discovery_report : Option String → DiscoveryReport
discovery_report fingerprint = record {
  reachable = false;
  authentication_ok = false;
  privilege_ok = false;
  discovered_inventory = none;
  host_key_fingerprint = fingerprint;
  host_key_status = not_known;
  detected_firewall = "unknown";
  detected_interface = none;
  link_speed_mbps = none;
  exporter_status = "unknown";
  exporter_version = none;
  port_9100_status = unknown_port;
  systemd_available = false;
  warnings = [];
  blocking_errors = [];
  error_code = none;
}

-- `blocking_errors.append(...)`, if a test holds.
abbrev pub block_if : Bool → Blocking → DiscoveryReport → DiscoveryReport
block_if false b r = r
block_if true b r = record r { blocking_errors = r.blocking_errors ++ b ∷ [] }

abbrev pub warn_if : Bool → Warning → DiscoveryReport → DiscoveryReport
warn_if false w r = r
warn_if true w r = record r { warnings = r.warnings ++ w ∷ [] }

abbrev pub port_of : String → PortStatus
port_of output =
    if in_text "port_9100=occupied" output
    then occupied
    else if in_text "port_9100=free" output
    then free
    else unknown_port

abbrev pub is_occupied : PortStatus → Bool
is_occupied occupied = true
is_occupied _ = false

abbrev pub lacks_requirements : SshCommandResult → Bool
lacks_requirements r =
    not (Catalogue.ok r) || any_in missing_marks r.stdout || not (in_text "systemd=ok" r.stdout)

abbrev pub with_greeting : Option String × HostKeyStatus → DiscoveryReport → DiscoveryReport
with_greeting key r = record r {
  reachable = true;
  authentication_ok = true;
  host_key_status = of_session key.1;
  host_key_fingerprint = key.0;
}

abbrev pub with_requirements : SshCommandResult → DiscoveryReport → DiscoveryReport
with_requirements q r = block_if (lacks_requirements q) requirements_missing (record r {
  systemd_available = in_text "systemd=ok" q.stdout;
  port_9100_status = port_of q.stdout;
})

-- An occupied port is allowed if the exporter answers on it.
abbrev pub check_port_owner : Host → PortStatus → Talk DiscoveryReport ⊤
check_port_owner host port =
    if is_occupied port
    then (run host check_exporter false >>= λ probe.
        write (block_if (not (Catalogue.ok probe)) port_occupied))
    else pure tt

abbrev pub with_privilege : Bool → DiscoveryReport → DiscoveryReport
with_privilege privilege r =
    block_if (not privilege) privilege_required (record r { privilege_ok = privilege })

abbrev pub is_usable : RemoteInventory → Bool
is_usable i = not (i.hostname == "unknown" || has_no_interface i.interfaces)

-- `_interface_speed`
abbrev pub speed_at : String → List Interface → Option ℕ
speed_at name [] = none
speed_at name (i ∷ rest) = if i.name == name then i.speed_mbps else speed_at name rest

abbrev pub interface_speed : RemoteInventory → Option String → Option ℕ
interface_speed i none = none
interface_speed i (some name) = speed_at name i.interfaces

abbrev pub with_found_inventory : Option RemoteInventory → DiscoveryReport → DiscoveryReport
with_found_inventory none r = block_if true inventory_unavailable r
with_found_inventory (some i) r =
    if is_usable i
    then record r {
      discovered_inventory = some i;
      detected_interface = i.primary_interface;
      link_speed_mbps = interface_speed i i.primary_interface;
    }
    else block_if true inventory_unavailable r

abbrev pub with_exporter : Bool → Option String → DiscoveryReport → DiscoveryReport
with_exporter is_healthy version r = warn_if (not is_healthy) exporter_not_healthy (record r {
  exporter_status = if is_healthy then "healthy" else "not_healthy";
  exporter_version = version;
})

abbrev pub reviewed_firewalls : List String
reviewed_firewalls = "unknown" ∷ "not_configured" ∷ "exposed" ∷ "partial" ∷ []

abbrev pub has_no_primary : Option RemoteInventory → Bool
has_no_primary none = false
has_no_primary (some i) = not (truthy i.primary_interface)

abbrev pub with_firewall : String → Option RemoteInventory → DiscoveryReport → DiscoveryReport
with_firewall firewall inventory r = warn_if (has_no_primary inventory) interface_not_detected (
    warn_if (contains reviewed_firewalls firewall) firewall_review_required
      (record r { detected_firewall = firewall }))

-- The body of the `try`.
unfoldable pub look : Host → Talk DiscoveryReport ⊤
look host = do
  key ← connect host
  write (with_greeting key)
  requirements ← run host check_requirements false
  write (with_requirements requirements)
  check_port_owner host (port_of requirements.stdout)
  privilege ← has_privilege host
  write (with_privilege privilege)
  raw ← run host detect_inventory false
  write (with_found_inventory (usable_inventory host raw))
  exporter ← run host check_exporter false
  version ← run host check_exporter_version false
  write (with_exporter (Catalogue.ok exporter) (host.version_of version.stdout))
  firewall ← run host firewall_status true
  write (
      with_firewall (detect_firewall host.lower firewall.stdout host.monitor_ip)
        (usable_inventory host raw))

abbrev pub login_codes : List String
login_codes =
    "authentication_failed" ∷ "wrong_password" ∷ "password_authentication_disabled"
    ∷ "public_key_required" ∷ "permission_denied" ∷ []

-- The `except`.
abbrev pub block_with : SshServiceError → DiscoveryReport → DiscoveryReport
block_with e r =
    if e.error_code == "host_key_new"
    then block_if true key_confirmation_required (record r {
      reachable = true;
      host_key_status = new_key;
      host_key_fingerprint = e.fingerprint;
    })
    else if e.error_code == "host_key_changed"
    then block_if true host_key_changed (record r {
      reachable = true;
      host_key_status = changed_key;
      host_key_fingerprint = e.fingerprint;
    })
    else if contains login_codes e.error_code
    then block_if true (upper_code e.error_code)
        (record r { reachable = true; host_key_status = trusted_key })
    else if e.error_code == "invalid_private_key"
    then block_if true invalid_private_key r
    else block_if true (upper_code e.error_code) r

abbrev pub discovery_answer : VisitOutcome ⊤ → DiscoveryReport → Option DiscoveryReport
discovery_answer (ok u) r = some r
discovery_answer (error e) r =
    some (block_with e (record r { error_code = some (safe_code e.error_code) }))
discovery_answer crash r = none

unfoldable pub discover : Host → Option String → Option DiscoveryReport × List Exchange
discover host fingerprint =
    let v = look host (record { report = discovery_report fingerprint; exchanges = [] }) in
    (discovery_answer v.0 v.1.report, v.1.exchanges)
