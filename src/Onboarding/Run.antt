-- ===== src/Onboarding/Run.antt =====
-- `OnboardingService.run` and `rollback` of app/services/onboarding_service.py, phase by phase.
use superflash_ia.Prelude.{
  ℕ, String, ⊤, Bool, true, false, not, Option, none, some, ◌==◌, string_eq, option_beq, truthy,
  or_else, or_text, if◌then◌else◌,
}
use superflash_ia.Text.{in_text}
use superflash_ia.Ssh.Catalogue.{check_exporter, check_exporter_version, SshCommandResult}
use superflash_ia.Ssh.Catalogue
use superflash_ia.Ssh.Inventory.{RemoteInventory}
use superflash_ia.Onboarding.Types.{Status, Step, ServerStatus, Onboarding, Server}
use superflash_ia.Onboarding.Api.{event_for}
use superflash_ia.Onboarding.Job.{
  Surroundings, Command, operation, script, removal, Connection, opened, refused, broken,
  ManagementKey, absent, unreadable, invalid, present, World, Job, Outcome, ok, error, crash, pure,
  ◌>>=◌, ◌>>◌, raise_unless, current, assign, add_audit, commit, close, send, now, tick,
}
use superflash_ia.Onboarding.Steps.{transition, check_cancel, fail}
use superflash_ia.Onboarding.Precheck.{discover_and_precheck, register_inventory, probe_prometheus}

abbrev pub install_script : String
install_script = "install-node-exporter.sh"

abbrev pub update_script : String
update_script = "update-node-exporter.sh"

abbrev pub remove_script : String
remove_script = "remove-node-exporter.sh"

abbrev pub firewall_script : String
firewall_script = "configure-node-exporter-firewall.sh"

-- The command of the installation.
abbrev pub installs : Command → Bool
installs (script name) = name == install_script
installs (operation _ _) = false
installs (removal _) = false

-- `installed = True`
abbrev pub mark_installed : Job ⊤
mark_installed w = (ok tt, record w { installed = true })

-- The columns that the end of the job assigns to the onboarding.
abbrev pub completed_at : ℕ → ℕ → Onboarding → Onboarding
completed_at at updated r = record r {
  status = Status.completed;
  current_step = "completed";
  progress_percent = 100;
  completed_at = some at;
  updated_at = some updated;
  last_successful_step = some "validating";
}

-- The columns of the management key, where the file holds a key.
abbrev pub keyed : String → ℕ → ℕ → Server → Server
keyed fingerprint modified rotated s =
    let same =
      option_beq (λ (a : String) b. a == b) s.ssh_management_key_fingerprint (some fingerprint) in
    record s {
      ssh_management_configured = true;
      ssh_management_key_rotated_at =
          if same
          then s.ssh_management_key_rotated_at
          else if truthy s.ssh_management_key_fingerprint
          then some rotated
          else none;
      ssh_management_key_fingerprint = some fingerprint;
      ssh_management_key_created_at = some (or_else s.ssh_management_key_created_at modified);
    }

-- The columns of a server that goes into service.
abbrev pub enabled_with : Option String → Server → Server
enabled_with fingerprint s = record s {
  enabled = true;
  status = ServerStatus.online;
  ssh_host_key_fingerprint = or_text fingerprint s.ssh_host_key_fingerprint;
}

abbrev pub running_with : Option String → ℕ → Server → Server
running_with version at s = record s {
  node_exporter_version = version;
  contract_status = "active";
  last_heartbeat_at = some at;
}

abbrev pub edit_server : (Server → Server) → World → World
edit_server f w = record w { server = f w.server }

module _ (env : Surroundings) (actor : String) where
  abbrev pub connect : Connection → Job (Option String)
  connect (opened fingerprint) w = (ok fingerprint, w)
  connect (refused code) w = (error code, w)
  connect broken w = (crash, w)

  -- From the connection to the discovery.
  unfoldable pub prepare : Job (Option String × RemoteInventory)
  prepare = do
    transition env Step.connecting actor true
    fingerprint ← connect env.connection
    transition env Step.authenticating actor true
    check_cancel env
    inventory ← discover_and_precheck env
    transition env Step.discovering actor true
    pure (fingerprint, inventory)

  -- The installation, where no exporter answers.
  unfoldable pub install : Job ⊤
  install = do
    installation ← send env (script install_script)
    raise_unless (Catalogue.ok installation) "installer_failed"
    mark_installed

  -- The update, where the settings want a version that the exporter does not report.
  unfoldable pub update : String → Job ⊤
  update wanted = do
    version ← send env (operation check_exporter_version false)
    if in_text wanted version.stdout then pure tt else (do
      updated ← send env (script update_script)
      raise_unless (Catalogue.ok updated) "installer_failed")

  unfoldable pub ensure_exporter : Bool → Job ⊤
  ensure_exporter answers =
      if not answers
      then install
      else if truthy env.wanted_exporter_version
      then update (or_else env.wanted_exporter_version "")
      else pure tt

  -- The exporter and the firewall.
  unfoldable pub provision : Job ⊤
  provision = do
    exporter ← send env (operation check_exporter false)
    transition env Step.installing_exporter actor (Catalogue.ok exporter)
    ensure_exporter (Catalogue.ok exporter)
    check_cancel env
    firewall ← send env (script firewall_script)
    transition env Step.configuring_firewall actor (Catalogue.ok firewall)
    raise_unless (Catalogue.ok firewall) "firewall_failed"
    verified ← send env (operation check_exporter false)
    transition env Step.verifying_exporter actor (Catalogue.ok verified)
    raise_unless (Catalogue.ok verified) "exporter_unhealthy"

  -- The inventory and Prometheus.
  unfoldable pub register : RemoteInventory → Job ⊤
  register inventory = do
    check_cancel env
    register_inventory env actor inventory
    transition env Step.registering_inventory actor true
    w ← current
    raise_unless (truthy w.server.prometheus_url) "prometheus_not_configured"
    transition env Step.configuring_monitoring actor true
    is_up ← probe_prometheus env
    raise_unless is_up "prometheus_unavailable"
    check_cancel env
    transition env Step.validating actor true

  -- `server.enabled = True` and the two assignments after it.
  abbrev pub enable : Option String → Job ⊤
  enable fingerprint w = (ok tt, edit_server (enabled_with fingerprint) w)

  -- The management key, with one reading of the clock.
  abbrev pub store_management_key : ManagementKey → Job ⊤
  store_management_key absent w = (ok tt, w)
  store_management_key unreadable w = (crash, w)
  store_management_key invalid w = (error "invalid_private_key", w)
  store_management_key (present fingerprint modified) w =
      (ok tt, edit_server (keyed fingerprint modified (now env w)) (tick env w))

  -- `server.node_exporter_status = "running"`
  abbrev pub mark_running : Job ⊤
  mark_running w = (ok tt, edit_server (λ s. record s { node_exporter_status = "running" }) w)

  abbrev pub running : String → Job ⊤
  running output w =
      (ok tt, edit_server (running_with (env.version_of output) (now env w)) (tick env w))

  -- The last assignments, the event and the commit.
  unfoldable pub complete : World → World
  complete w =
      let at = now env w in
      let w' = assign (completed_at at (now env (tick env w))) (tick env (tick env w)) in
      let event =
        event_for w'.row actor "completed" true
          "SSH, Node Exporter, firewall, inventory y Prometheus validados." (now env w') in
      commit (add_audit (record event { step = "validating" }) (tick env w'))

  -- From `server.enabled = True` to the end.
  unfoldable pub finalise : Option String → Job ⊤
  finalise fingerprint = do
    enable fingerprint
    store_management_key env.management_key
    mark_running
    version ← send env (operation check_exporter_version false)
    running version.stdout
    check_cancel env
    λ w. (ok tt, complete w)

  -- The body of the `try`.
  unfoldable pub onboard : Job ⊤
  onboard = do found ← prepare; provision; register found.1; finalise found.0

  -- The handlers of `run`; `installed` is the local variable.
  unfoldable pub handle : Outcome ⊤ → World → World
  handle (ok _) w = w
  handle (error code) w = fail env code actor w.installed w
  handle crash w = fail env "internal_error" actor w.installed w

  -- `run`, where the onboarding is found; `found` is whether its server is.
  unfoldable pub run : Bool → World → World
  run found w =
      let (outcome, w') = onboard w in
      if found then close (handle outcome w') else close (fail env "internal_error" actor false w)
