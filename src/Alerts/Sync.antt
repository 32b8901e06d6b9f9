-- ===== src/Alerts/Sync.antt =====
-- `AlertService._sync` and the endpoint that changes an alert. The column `fingerprint` is unique: a
-- second row with one raises, and the transaction is lost.
use superflash_ia.Prelude.{
  ℕ, suc, String, Bool, true, false, not, ◌&&◌, Option, none, some, List, [], ◌∷◌, ◌++◌, map,
  if◌then◌else◌, ◌==◌, nat_eq, string_eq, update, first, contains, is_some,
}
use Prim.Native.String.{◌++◌ as ◌<>◌}
use superflash_ia.Alerts.Types.{
  AlertType, high_cpu, high_memory, high_disk, type_value, Severity, warning, critical, AlertStatus,
  active, acknowledged, resolved, is_resolved, Floats, Candidate, Alert,
}

module _ (F : Floats) where
  -- `f"{candidate.server_id}:{candidate.type.value}"`
  abbrev pub fingerprint_of : Candidate F → String
  fingerprint_of c = F.decimal c.server_id <> (":" <> type_value c.alert_type)

  abbrev is_usage : AlertType → Bool
  is_usage high_cpu = true
  is_usage high_memory = true
  is_usage high_disk = true
  is_usage _ = false

  -- `_severity`; a missing value counts as 0.
  unfoldable pub severity_of : Candidate F → Severity
  severity_of c =
      if is_usage c.alert_type
      then (elim c.value [
        | none ↦ warning
        | some value ↦ if F.is_at_least value 95 then critical else warning
      ])
      else warning

  -- The assignments of `fields` and of the status to a row that exists.
  unfoldable pub refreshed : Candidate F → ℕ → Alert F → Alert F
  unfolding severity_of
  refreshed c now a =
      let kept = record a {
        fingerprint = fingerprint_of c;
        alert_type = c.alert_type;
        severity = severity_of c;
        server_id = c.server_id;
        server_name = c.server_name;
        message = c.message;
        value = c.value;
        threshold = c.threshold;
        collected_at = c.collected_at;
        last_seen_at = now;
      } in
      elim a.status [
        | resolved ↦ record kept { status = active; acknowledged_at = none; resolved_at = none }
        | acknowledged ↦ kept
        | active ↦ record kept { status = active }
      ]

  -- The row that `create` adds.
  unfoldable pub created : Candidate F → ℕ → ℕ → Alert F
  unfolding severity_of
  created c now key = record {
    alert_id = key;
    fingerprint = fingerprint_of c;
    alert_type = c.alert_type;
    severity = severity_of c;
    status = active;
    server_id = c.server_id;
    server_name = c.server_name;
    message = c.message;
    value = c.value;
    threshold = c.threshold;
    collected_at = c.collected_at;
    first_seen_at = now;
    last_seen_at = now;
    acknowledged_at = none;
    resolved_at = none;
  }

  pub record AlertTable : Type 0 where
    pub alerts : List (Alert F)
    pub next_alert : ℕ

  abbrev pub has_fingerprint : String → Alert F → Bool
  has_fingerprint text a = a.fingerprint == text

  -- One candidate; `existing` are the fingerprints of the rows that were loaded before the loop.
  unfoldable pub sync_one : List String → ℕ → Candidate F → AlertTable → Option AlertTable
  sync_one existing now c t =
      let text = fingerprint_of c in
      if contains existing text
      then some (record t { alerts = update (has_fingerprint text) (refreshed c now) t.alerts })
      else if is_some (first (has_fingerprint text) t.alerts)
      then none
      else some (record t {
        alerts = t.alerts ++ created c now t.next_alert ∷ [];
        next_alert = suc t.next_alert;
      })

  unfoldable pub sync_all : List String → ℕ → List (Candidate F) → AlertTable → Option AlertTable
  sync_all existing now [] t = some t
  sync_all existing now (c ∷ cs) t = elim (sync_one existing now c t) [
    | none ↦ none
    | some t' ↦ sync_all existing now cs t'
  ]

  abbrev pub resolve : ℕ → Alert F → Alert F
  resolve now a = record a { status = resolved; resolved_at = some now }

  -- The test of the last loop, over `list_current`.
  abbrev pub is_over : List String → Alert F → Bool
  is_over fingerprints a = not (is_resolved a.status) && not (contains fingerprints a.fingerprint)

  -- `_sync`: the table that it commits, or none where it raises.
  unfoldable pub sync : ℕ → List (Candidate F) → AlertTable → Option AlertTable
  sync now candidates t =
      let existing = map (λ (a : Alert F). a.fingerprint) t.alerts in
      let fingerprints = map fingerprint_of candidates in
      elim (sync_all existing now candidates t) [
        | none ↦ none
        | some t' ↦
            some (record t' { alerts = update (is_over fingerprints) (resolve now) t'.alerts })
      ]

  -- `update_alert`, once the row is found.
  unfoldable pub set_status : AlertStatus → ℕ → Alert F → Alert F
  set_status status now a = record a {
    status = status;
    acknowledged_at = elim status [ acknowledged ↦ some now | _ ↦ none ];
    resolved_at = elim status [ resolved ↦ some now | _ ↦ none ];
  }
