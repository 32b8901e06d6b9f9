-- ===== src/Ssh/Catalogue.antt =====
-- The operations, the scripts and the errors of app/services/ssh_service.py.
use superflash_ia.Prelude.{
  ℕ, String, Bool, ◌&&◌, ◌||◌, Option, none, List, [], ◌∷◌, ◌==◌, string_eq, nat_eq, if◌then◌else◌,
}
use superflash_ia.Text.{in_text, strip, is_empty}

pub data SshOperation : Type 0 where
  check_sudo detect_inventory check_requirements check_exporter check_exporter_version :
      SshOperation
  service_status firewall_status check_temp_write : SshOperation

-- `_ALLOWED_SCRIPTS`
abbrev pub allowed_scripts : List String
allowed_scripts =
    "install-node-exporter.sh" ∷ "update-node-exporter.sh" ∷ "remove-node-exporter.sh"
    ∷ "repair-node-exporter.sh" ∷ "configure-node-exporter-firewall.sh"
    ∷ "install-superflash-agent.sh" ∷ "update-superflash-agent.sh" ∷ "remove-superflash-agent.sh"
    ∷ []

pub record SshCredentials : Type 0 where
  pub host : String
  pub port : ℕ
  pub username : String
  pub password : Option String
  pub private_key : Option String
  pub expected_host_key_fingerprint : Option String

pub record SshCommandResult : Type 0 where
  pub exit_code : ℕ
  pub stdout : String

abbrev pub ok : SshCommandResult → Bool
ok r = r.exit_code == 0

-- `SSHServiceError`, without its messages.
pub record SshServiceError : Type 0 where
  pub error_code : String
  pub fingerprint : Option String

abbrev pub coded : String → SshServiceError
coded c = record { error_code = c; fingerprint = none }

-- `detect_firewall`; `lower` is `str.lower`.
unfoldable pub detect_firewall : (String → String) → String → String → String
unfolding in_text strip
detect_firewall lower output monitor_ip =
    let normalized = lower output in
    let has_managed_allow = in_text monitor_ip output && in_text "9100" output in
    let has_managed_deny =
      in_text "superflash-node-exporter" normalized
      && (in_text "deny" normalized || in_text "drop" normalized) in
    if is_empty (strip output)
    then "unknown"
    else if has_managed_allow && has_managed_deny
    then "restricted"
    else if has_managed_allow
    then "partial"
    else if in_text "9100" output
    then "exposed"
    else "not_configured"
