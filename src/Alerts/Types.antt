-- ===== src/Alerts/Types.antt =====
-- The rows of app/models/alert.py and the candidates of app/schemas/alerts.py. The numbers that are
-- floating point in Python are of a type that the model takes as a parameter.
use superflash_ia.Prelude.{ℕ, String, Bool, true, false, Option}

-- `AlertType`
pub data AlertType : Type 0 where
  high_cpu high_memory high_disk high_network_utilization stale_server : AlertType

-- Its values.
unfoldable pub type_value : AlertType → String
type_value high_cpu = "high_cpu"
type_value high_memory = "high_memory"
type_value high_disk = "high_disk"
type_value high_network_utilization = "high_network_utilization"
type_value stale_server = "stale_server"

abbrev pub type_beq : AlertType → AlertType → Bool
type_beq high_cpu high_cpu = true
type_beq high_memory high_memory = true
type_beq high_disk high_disk = true
type_beq high_network_utilization high_network_utilization = true
type_beq stale_server stale_server = true
type_beq _ _ = false

-- `AlertSeverity`
pub data Severity : Type 0 where
  info warning critical : Severity

-- `AlertStatus`
pub data AlertStatus : Type 0 where
  active acknowledged resolved : AlertStatus

abbrev pub is_resolved : AlertStatus → Bool
is_resolved resolved = true
is_resolved _ = false

-- The floating point numbers, with the operations of the code on them: `a > b`, `a >= n`, `a <= 0`,
-- `round(a / b * 100, 2)`, `round(age.total_seconds() / 60, 1)` of microseconds and `float(n)`; and how Python writes
-- numbers and integers.
pub record Floats : Type 1 where
  pub Number : Type 0
  pub exceeds : Number → Number → Bool
  pub is_at_least : Number → ℕ → Bool
  pub is_positive : Number → Bool
  pub percentage : Number → Number → Number
  pub minutes_of : ℕ → Number
  pub from_int : ℕ → Number
  pub text_of : Number → String
  pub decimal : ℕ → String

module _ (F : Floats) where
  -- `AlertRead`, as far as the evaluation sets it.
  pub record Candidate : Type 0 where
    pub alert_type : AlertType
    pub server_id : ℕ
    pub server_name : String
    pub message : String
    pub value : Option F.Number
    pub threshold : Option F.Number
    pub collected_at : Option ℕ

  -- `Alert`
  pub record Alert : Type 0 where
    pub alert_id : ℕ
    pub fingerprint : String
    pub alert_type : AlertType
    pub severity : Severity
    pub status : AlertStatus
    pub server_id : ℕ
    pub server_name : String
    pub message : String
    pub value : Option F.Number
    pub threshold : Option F.Number
    pub collected_at : Option ℕ
    pub first_seen_at : ℕ
    pub last_seen_at : ℕ
    pub acknowledged_at : Option ℕ
    pub resolved_at : Option ℕ

  -- The columns of a server and of its latest sample that the evaluation reads.
  pub record WatchedServer : Type 0 where
    pub server_id : ℕ
    pub name : String
    pub enabled : Bool
    pub network_capacity_mbps : Option F.Number

  pub record Sample : Type 0 where
    pub collected_at : ℕ
    pub cpu_percent : F.Number
    pub memory_percent : F.Number
    pub disk_percent : Option F.Number
    pub output_mbps : F.Number

  -- The settings `alert_*`.
  pub record Thresholds : Type 0 where
    pub cpu : F.Number
    pub memory : F.Number
    pub disk : F.Number
    pub network_utilization : F.Number
    pub stale_minutes : ℕ
