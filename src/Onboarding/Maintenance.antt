-- ===== src/Onboarding/Maintenance.antt =====
-- `maintenance` of app/services/onboarding_service.py, for a server that is stored: the actions on what
-- an onboarding has installed.
use superflash_ia.Prelude.{
  ℕ, String, ⊤, Bool, true, false, not, ◌&&◌, ◌||◌, Option, none, some, List, [], ◌∷◌, ◌==◌, nat_eq,
  string_eq, contains, truthy, or_text, ltb, if◌then◌else◌,
}
use superflash_ia.Ssh.Catalogue.{
  check_exporter, check_exporter_version, firewall_status, detect_firewall, SshCommandResult,
  SshServiceError, coded,
}
use superflash_ia.Ssh.Catalogue
use superflash_ia.Onboarding.Types.{Onboarding, Server, AuditEvent}
use superflash_ia.Onboarding.Texts.{safe_errors, text_for}
use superflash_ia.Onboarding.Job.{Exchange, script}
use superflash_ia.Onboarding.Visit.{
  Host, VisitOutcome, ok, error, crash, Talk, pure, ◌>>=◌, ◌>>◌, write, send, run, connect,
}

pub data MaintenanceAction : Type 0 where
  diagnose repair update reinstall : MaintenanceAction

abbrev pub is_update : MaintenanceAction → Bool
is_update update = true
is_update _ = false

-- The script of an action that changes the host; `diagnose` has none.
abbrev pub script_of : MaintenanceAction → Option String
script_of diagnose = none
script_of repair = some "repair-node-exporter.sh"
script_of update = some "update-node-exporter.sh"
script_of reinstall = some "install-node-exporter.sh"

-- The event, `maintenance_` with the value of the action.
abbrev pub event_of : MaintenanceAction → String
event_of diagnose = "maintenance_diagnose"
event_of repair = "maintenance_repair"
event_of update = "maintenance_update"
event_of reinstall = "maintenance_reinstall"

-- The answer, without the action.
pub record MaintenanceResult : Type 0 where
  pub status : String
  pub message : String
  pub exporter_status : String
  pub exporter_version : Option String

abbrev pub maintenance_text : String
maintenance_text = "La acción administrada no pudo validarse."

abbrev pub maintenance_result : MaintenanceResult
maintenance_result = record {
  status = "failed";
  message = maintenance_text;
  exporter_status = "unknown";
  exporter_version = none;
}

-- The database, as far as it is written.
pub record Books : Type 0 where
  pub server : Server
  pub audits : List AuditEvent

abbrev pub raise : {A : Type 0} → String → Talk MaintenanceResult A
raise code v = (error (coded code), v)

abbrev pub raise_unless : Bool → String → Talk MaintenanceResult ⊤
raise_unless b code = if b then pure tt else raise code

abbrev pub reported : Bool → MaintenanceResult → MaintenanceResult
reported is_healthy r = record r {
  exporter_status = if is_healthy then "healthy" else "not_healthy";
  status = "ok";
  message = "Diagnóstico completado sin ejecutar cambios.";
}

abbrev pub reviewed : Host → String → MaintenanceResult → MaintenanceResult
reviewed host firewall r = record r {
  message =
      if contains ("restricted" ∷ "partial" ∷ [])
        (detect_firewall host.lower firewall host.monitor_ip)
      then r.message
      else "Diagnóstico completado; revisar la configuración del firewall.";
}

-- A diagnosis: it assigns nothing to the server.
unfoldable pub look_after : Host → Talk MaintenanceResult (Server → Server)
look_after host = do
  exporter ← run host check_exporter false
  firewall ← run host firewall_status true
  write (reported (Catalogue.ok exporter))
  version ← run host check_exporter_version false
  write (λ r. record r { exporter_version = host.version_of version.stdout })
  write (reviewed host firewall.stdout)
  pure (λ s. s)

abbrev pub maintained : Option String → Option String → Server → Server
maintained version fingerprint s = record s {
  node_exporter_status = "running";
  node_exporter_version = version;
  ssh_host_key_fingerprint = or_text fingerprint s.ssh_host_key_fingerprint;
}

abbrev pub validated : Option String → MaintenanceResult → MaintenanceResult
validated version r = record r {
  exporter_version = version;
  status = "ok";
  message = "Acción administrada completada y validada.";
}

-- An action that changes the host, by its script; what it assigns to the server.
unfoldable pub change_host :
    Host → String → Option String → Talk MaintenanceResult (Server → Server)
change_host host name fingerprint = do
  operation ← send host (script name)
  raise_unless (Catalogue.ok operation) "maintenance_failed"
  firewall ← send host (script "configure-node-exporter-firewall.sh")
  raise_unless (Catalogue.ok firewall) "firewall_failed"
  exporter ← run host check_exporter false
  raise_unless (Catalogue.ok exporter) "exporter_unhealthy"
  write (λ r. record r { exporter_status = "healthy" })
  version ← run host check_exporter_version false
  write (validated (host.version_of version.stdout))
  pure (maintained (host.version_of version.stdout) fingerprint)

-- `target_version or settings.node_exporter_version`, which an update must have.
abbrev pub lacks_version : MaintenanceAction → Option String → Option String → Bool
lacks_version action target wanted = is_update action && not (truthy (or_text target wanted))

abbrev pub perform :
    Host
    → MaintenanceAction
    → Option String
    → Option String
    → Option String
    → Talk MaintenanceResult (Server → Server)
perform host action target wanted fingerprint = elim (script_of action) [
  | none ↦ look_after host
  | some name ↦
      (raise_unless (not (lacks_version action target wanted)) "target_version_not_configured"
        >> change_host host name fingerprint)
]

unfoldable pub attend :
    Host
    → MaintenanceAction
    → Option String
    → Option String
    → Talk MaintenanceResult (Server → Server)
attend host action target wanted = do key ← connect host; perform host action target wanted key.0

abbrev pub newer_job : Onboarding → Onboarding → Bool
newer_job a b =
    ltb b.created_at a.created_at
    || (b.created_at == a.created_at && ltb b.onboarding_id a.onboarding_id)

abbrev pub newest_of : Onboarding → Option Onboarding → Onboarding
newest_of a none = a
newest_of a (some b) = if newer_job b a then b else a

-- `latest_for_server`
unfoldable pub latest_for_server : ℕ → List Onboarding → Option Onboarding
latest_for_server key [] = none
latest_for_server key (o ∷ rest) =
    let newest = latest_for_server key rest in
    if o.server_id == key then some (newest_of o newest) else newest

abbrev pub maintenance_event : MaintenanceAction → String → String → ℕ → ℕ → Onboarding → AuditEvent
maintenance_event action actor message key now o = record {
  onboarding_id = o.onboarding_id;
  server_id = key;
  actor = actor;
  event = event_of action;
  step = "maintenance";
  success = true;
  detail_sanitized = message;
  created_at = now;
}

abbrev pub with_event :
    (Onboarding → AuditEvent) → Option Onboarding → List AuditEvent → List AuditEvent
with_event event none audits = audits
with_event event (some o) audits = event o ∷ audits

abbrev pub excused : SshServiceError → MaintenanceResult → MaintenanceResult
excused e r = record r { message = text_for safe_errors e.error_code maintenance_text }

-- The end of the `try`: the commit, or the `except`; an exception of another kind is not caught.
abbrev pub settle :
    MaintenanceAction
    → String
    → ℕ
    → List Onboarding
    → Books
    → VisitOutcome (Server → Server)
    → MaintenanceResult
    → Option MaintenanceResult × Books
settle action actor now jobs books (ok assign) r =
    let key = books.server.server_id in
    let event = maintenance_event action actor r.message key now in
    (
      some r,
      record {
        server = assign books.server;
        audits = with_event event (latest_for_server key jobs) books.audits;
      },
    )
settle action actor now jobs books (error e) r = (some (excused e r), books)
settle action actor now jobs books crash r = (none, books)

-- `maintenance`: the answer, or none for an exception, what is stored then, and what was sent.
unfoldable pub maintenance :
    Host
    → MaintenanceAction
    → Option String
    → Option String
    → String
    → ℕ
    → List Onboarding
    → Books
    → (Option MaintenanceResult × Books) × List Exchange
maintenance host action target wanted actor now jobs books =
    if not (truthy books.server.hostname)
    then (
      (
        some (record maintenance_result { message = "Servidor sin endpoint SSH configurado." }),
        books,
      ),
      [],
    )
    else let v =
        attend host action target wanted (record { report = maintenance_result; exchanges = [] }) in
      (settle action actor now jobs books v.0 v.1.report, v.1.exchanges)
