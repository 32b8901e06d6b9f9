-- ===== src/Onboarding/Types.antt =====
-- The rows of app/models/onboarding.py and the statuses and steps of app/schemas/onboarding.py.
-- An instant is a number of microseconds; a nullable column is an `Option`.
use superflash_ia.Prelude.{ℕ, String, Bool, true, false, Option, List, string_eq}

-- `OnboardingStatus`
pub data Status : Type 0 where
  pending connecting authenticating discovering installing_exporter : Status
  configuring_firewall verifying_exporter registering_inventory : Status
  configuring_monitoring validating completed failed cancelled rollback_required : Status

-- `TERMINAL_STATUSES`
unfoldable pub is_terminal : Status → Bool
is_terminal completed = true
is_terminal failed = true
is_terminal cancelled = true
is_terminal rollback_required = true
is_terminal _ = false

-- `ACTIVE_ONBOARDING_STATUSES`
unfoldable pub is_active : Status → Bool
is_active pending = true
is_active connecting = true
is_active authenticating = true
is_active discovering = true
is_active installing_exporter = true
is_active configuring_firewall = true
is_active verifying_exporter = true
is_active registering_inventory = true
is_active configuring_monitoring = true
is_active validating = true
is_active _ = false

abbrev pub is_pending : Status → Bool
is_pending pending = true
is_pending _ = false

-- The keys of `STEP_PROGRESS`.
pub data Step : Type 0 where
  connecting authenticating discovering installing_exporter configuring_firewall : Step
  verifying_exporter registering_inventory configuring_monitoring validating : Step

unfoldable pub step_status : Step → Status
step_status Step.connecting = Status.connecting
step_status Step.authenticating = Status.authenticating
step_status Step.discovering = Status.discovering
step_status Step.installing_exporter = Status.installing_exporter
step_status Step.configuring_firewall = Status.configuring_firewall
step_status Step.verifying_exporter = Status.verifying_exporter
step_status Step.registering_inventory = Status.registering_inventory
step_status Step.configuring_monitoring = Status.configuring_monitoring
step_status Step.validating = Status.validating

unfoldable pub step_progress : Step → ℕ
step_progress Step.connecting = 5
step_progress Step.authenticating = 12
step_progress Step.discovering = 25
step_progress Step.installing_exporter = 45
step_progress Step.configuring_firewall = 60
step_progress Step.verifying_exporter = 70
step_progress Step.registering_inventory = 82
step_progress Step.configuring_monitoring = 90
step_progress Step.validating = 97

unfoldable pub step_name : Step → String
step_name Step.connecting = "connecting"
step_name Step.authenticating = "authenticating"
step_name Step.discovering = "discovering"
step_name Step.installing_exporter = "installing_exporter"
step_name Step.configuring_firewall = "configuring_firewall"
step_name Step.verifying_exporter = "verifying_exporter"
step_name Step.registering_inventory = "registering_inventory"
step_name Step.configuring_monitoring = "configuring_monitoring"
step_name Step.validating = "validating"

-- `ServerOnboarding`
pub record Onboarding : Type 0 where
  pub onboarding_id : ℕ
  pub server_id : ℕ
  pub status : Status
  pub current_step : String
  pub progress_percent : ℕ
  pub started_at : Option ℕ
  pub completed_at : Option ℕ
  pub failed_at : Option ℕ
  pub last_error_code : Option String
  pub last_error_message_sanitized : Option String
  pub retry_count : ℕ
  pub last_successful_step : Option String
  pub created_by : String
  pub auth_method : String
  pub ssh_port : ℕ
  pub ssh_username : String
  pub cancel_requested : Bool
  pub created_at : ℕ
  pub updated_at : Option ℕ

-- `OnboardingAuditEvent`
pub record AuditEvent : Type 0 where
  pub onboarding_id : ℕ
  pub server_id : ℕ
  pub actor : String
  pub event : String
  pub step : String
  pub success : Bool
  pub detail_sanitized : String
  pub created_at : ℕ

-- One onboarding as the database holds it: its row and its audit events, the newest first.
pub record Ledger : Type 0 where
  pub row : Onboarding
  pub audits : List AuditEvent

-- `ServerOperationalStatus`
pub data ServerStatus : Type 0 where
  online degraded offline unknown maintenance : ServerStatus

-- The columns of `Server` that the onboarding reads or writes.
pub record Server : Type 0 where
  pub server_id : ℕ
  pub external_id : String
  pub name : String
  pub hostname : Option String
  pub network_interface : Option String
  pub prometheus_url : Option String
  pub contract_status : String
  pub ssh_host_key_fingerprint : Option String
  pub ssh_management_configured : Bool
  pub ssh_management_key_fingerprint : Option String
  pub ssh_management_key_created_at : Option ℕ
  pub ssh_management_key_rotated_at : Option ℕ
  pub node_exporter_status : String
  pub node_exporter_version : Option String
  pub last_heartbeat_at : Option ℕ
  pub status : ServerStatus
  pub enabled : Bool

-- `ServerInventorySnapshot`; the inventory itself is kept by its fingerprint.
pub record InventorySnapshot : Type 0 where
  pub server_id : ℕ
  pub captured_at : ℕ
  pub fingerprint : String
