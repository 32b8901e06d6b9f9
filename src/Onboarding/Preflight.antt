-- ===== src/Onboarding/Preflight.antt =====
-- `test_ssh` of app/services/onboarding_service.py: the preflight of a host. The texts of the report
-- are left out.
use superflash_ia.Prelude.{
  String, ⊤, Bool, true, false, not, ◌&&◌, ◌||◌, Option, none, some, List, [], ◌∷◌, ◌==◌, string_eq,
  contains, is_some, or_text, if◌then◌else◌,
}
use superflash_ia.Ssh.Catalogue.{
  check_temp_write, detect_inventory, SshCommandResult, SshServiceError,
}
use superflash_ia.Ssh.Catalogue
use superflash_ia.Ssh.HostKey.{HostKeyStatus}
use superflash_ia.Ssh.Inventory.{RemoteInventory, parse_inventory_output}
use superflash_ia.Onboarding.Job.{Exchange}
use superflash_ia.Onboarding.Visit.{
  Host, Visit, VisitOutcome, ok, error, crash, Talk, ◌>>=◌, ◌>>◌, write, run, connect,
  has_privilege,
}

-- The values of `host_key_status`.
pub data ReportedKey : Type 0 where
  not_known new_key changed_key trusted_key : ReportedKey
  of_session : HostKeyStatus → ReportedKey

pub record TestReport : Type 0 where
  pub reachable : Bool
  pub authentication_ok : Bool
  pub privilege_ok : Bool
  pub temp_write_ok : Bool
  pub host_key_fingerprint : Option String
  pub host_key_status : ReportedKey
  pub discovered_inventory : Option RemoteInventory
  pub error_code : Option String

abbrev pub test_report : Option String → TestReport
test_report fingerprint = record {
  reachable = false;
  authentication_ok = false;
  privilege_ok = false;
  temp_write_ok = false;
  host_key_fingerprint = fingerprint;
  host_key_status = not_known;
  discovered_inventory = none;
  error_code = none;
}

abbrev pub greeted : Option String × HostKeyStatus → TestReport → TestReport
greeted key r = record r {
  reachable = true;
  authentication_ok = true;
  host_key_fingerprint = key.0;
  host_key_status = of_session key.1;
}

abbrev pub with_temp_write : Bool → TestReport → TestReport
with_temp_write is_writable r = record r {
  temp_write_ok = is_writable;
  error_code = if is_writable then r.error_code else some "temporary_directory_unavailable";
}

abbrev pub usable_inventory : Host → SshCommandResult → Option RemoteInventory
usable_inventory host raw =
    if Catalogue.ok raw then some (parse_inventory_output host.python raw.stdout) else none

abbrev pub with_inventory : Option RemoteInventory → TestReport → TestReport
with_inventory none r = record r { error_code = some "inventory_failed" }
with_inventory (some i) r =
    if i.hostname == "unknown"
    then record r { error_code = some "inventory_failed" }
    else record r { discovered_inventory = some i }

abbrev pub with_verdict : TestReport → TestReport
with_verdict r =
    if not r.privilege_ok && not (is_some r.error_code)
    then record r { error_code = some "permission_denied" }
    else r

-- The body of the `try`.
unfoldable pub preflight : Host → Talk TestReport ⊤
preflight host = do
  key ← connect host
  write (greeted key)
  privilege ← has_privilege host
  write (λ r. record r { privilege_ok = privilege })
  temp_write ← run host check_temp_write false
  write (with_temp_write (Catalogue.ok temp_write))
  raw ← run host detect_inventory false
  write (with_inventory (usable_inventory host raw))
  write with_verdict

abbrev pub safe_code : String → String
safe_code code = if code == "host_key_changed" then "fingerprint_mismatch" else code

-- The codes of a host that answers and refuses the user.
abbrev pub refused_login : List String
refused_login =
    "wrong_password" ∷ "permission_denied" ∷ "password_authentication_disabled"
    ∷ "public_key_required" ∷ []

abbrev pub with_key_error : String → TestReport → TestReport
with_key_error code r =
    if code == "host_key_new"
    then record r { reachable = true; host_key_status = new_key }
    else if code == "host_key_changed" || code == "fingerprint_mismatch"
    then record r { reachable = true; host_key_status = changed_key }
    else if contains refused_login code
    then record r { reachable = true }
    else r

-- The `except`.
abbrev pub with_error : SshServiceError → TestReport → TestReport
with_error e r = with_key_error e.error_code (record r {
  error_code = some (safe_code e.error_code);
  host_key_fingerprint = or_text e.fingerprint r.host_key_fingerprint;
})

-- The answer, or none for an exception that is no `SSHServiceError`, and what was sent.
abbrev pub test_answer : VisitOutcome ⊤ → TestReport → Option TestReport
test_answer (ok u) r = some r
test_answer (error e) r = some (with_error e r)
test_answer crash r = none

abbrev pub start_test : Option String → Visit TestReport
start_test fingerprint = record { report = test_report fingerprint; exchanges = [] }

unfoldable pub test_ssh : Host → Option String → Option TestReport × List Exchange
test_ssh host fingerprint =
    let v = preflight host (start_test fingerprint) in (test_answer v.0 v.1.report, v.1.exchanges)
