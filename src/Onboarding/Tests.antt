-- ===== src/Onboarding/Tests.antt =====
-- The theorems of the onboarding at one server: a host that answers everything, one that refuses the
-- connection, and requests of an operator.
use superflash_ia.Prelude.{
  ◌+◌, ◌*◌, ◌<◌, ◌≤◌, String, true, false, ◌≡◌, ◌≢◌, refl, ◌⊎◌, none, some, List, [], ◌&&◌,
  string_eq, if◌then◌else◌, length,
}
use superflash_ia.Ssh.Catalogue.{
  SshOperation, check_sudo, detect_inventory, check_requirements, SshCommandResult,
}
use superflash_ia.Ssh.Inventory.{Python, parse_inventory_output}
use superflash_ia.Onboarding.Types.{
  Status, is_terminal, Step, step_status, step_progress, Onboarding, Ledger, Server, ServerStatus,
}
use superflash_ia.Onboarding.Texts.{safe_error}
use superflash_ia.Onboarding.Api.{Action, done, recover_stale, cancel_onboarding, retry_onboarding}
use superflash_ia.Onboarding.Job.{
  Surroundings, World, Command, operation, script, removal, Reply, answered, raised, Exchange,
  opened, refused as not_opened, reachable, absent, ok, error, crash, act_all, others_act, refresh,
  send, commit, close, ◌>>=◌,
}
use superflash_ia.Onboarding.Steps.{transition, take_step, check_cancel, is_stop_code}
use superflash_ia.Onboarding.Precheck.{
  meets_requirements, is_root, has_interface, inventory_error, check_port, check_privilege,
  discover_and_precheck, register_inventory, store_inventory, add_inventory_snapshot_if_changed,
  prometheus_target_status,
}
use superflash_ia.Onboarding.Run.{
  prepare, ensure_exporter, provision, register, finalise, complete, onboard, handle, run,
}
use superflash_ia.Onboarding.Rollback.{remove_components, rollback}
use superflash_ia.Onboarding.Removed.{rollback_lem}
use superflash_ia.Onboarding.Terminal.{IsConsistent, run_terminal}
use superflash_ia.Onboarding.Installed.{has_installed, run_marks_install}
use superflash_ia.Onboarding.Enabled.{IsVerified}
use superflash_ia.Onboarding.Verified.{run_enables-IsVerified}
use superflash_ia.Onboarding.Stops.{
  transition_iff, run_terminal_sends_nothing, complete_over_cancel, finalise_failure_enables,
}
use superflash_ia.Onboarding.Requests.{recover_stale_iff, retry_hides_cancel}

abbrev result : String → SshCommandResult
result text = record { exit_code = 0; stdout = text }

abbrev answer_of : SshOperation → String
answer_of check_sudo = "0"
answer_of check_requirements = "systemctl=ok"
answer_of detect_inventory =
    "hostname=node\narch=x86_64\ninterfaces=eth0|10.0.0.2\nprimary_interface=eth0"
answer_of _ = "version 1.8.1"

abbrev answers : List Exchange → Command → Reply
answers exchanges (operation op root) = answered (result (answer_of op))
answers exchanges (script name) = answered (result "")
answers exchanges (removal name) = answered (result "")

abbrev python : Python
python = record { int_of = λ _. none; is_global = λ _. false }

abbrev env : Surroundings
env = record {
  clock = λ n. 1000 + n;
  others = λ _. [];
  connection = opened (some "SHA256:host");
  reply = answers;
  probe = λ _. reachable (some true);
  monitor_ip = "10.0.0.1";
  wanted_exporter_version = none;
  management_key = absent;
  version_of = λ _. some "1.8.1";
  digest = λ _. "digest";
  python = python;
}

abbrev unreachable_env : Surroundings
unreachable_env = record env { connection = not_opened "ssh_timeout" }

abbrev failing_env : Surroundings
failing_env = record env { reply = λ _ _. raised "command_timeout" }

abbrev row : Onboarding
row = record {
  onboarding_id = 1;
  server_id = 7;
  status = Status.pending;
  current_step = "pending";
  progress_percent = 0;
  started_at = none;
  completed_at = none;
  failed_at = none;
  last_error_code = none;
  last_error_message_sanitized = none;
  retry_count = 0;
  last_successful_step = none;
  created_by = "operator";
  auth_method = "password";
  ssh_port = 22;
  ssh_username = "root";
  cancel_requested = false;
  created_at = 1;
  updated_at = some 1;
}

abbrev ledger : Ledger
ledger = record { row = row; audits = [] }

abbrev cancelled_ledger : Ledger
cancelled_ledger = record ledger {
  row = record row { status = Status.cancelled; cancel_requested = true };
}

abbrev server : Server
server = record {
  server_id = 7;
  external_id = "node";
  name = "node";
  hostname = some "10.0.0.2";
  network_interface = none;
  prometheus_url = some "http://10.0.0.1:9090";
  contract_status = "pending";
  ssh_host_key_fingerprint = none;
  ssh_management_configured = false;
  ssh_management_key_fingerprint = none;
  ssh_management_key_created_at = none;
  ssh_management_key_rotated_at = none;
  node_exporter_status = "unknown";
  node_exporter_version = none;
  last_heartbeat_at = none;
  status = ServerStatus.unknown;
  enabled = false;
}

abbrev world : World
world = record {
  stored = ledger;
  stored_server = server;
  stored_snapshots = [];
  row = row;
  unsaved = λ r. r;
  new_audits = [];
  server = server;
  snapshots = [];
  exchanges = [];
  installed = false;
  readings = 0;
  turns = 0;
}

abbrev cancelled_world : World
cancelled_world = record world { stored = cancelled_ledger; row = cancelled_ledger.row }

world-IsConsistent : IsConsistent world
unfolding is_terminal
world-IsConsistent = record { saved = refl; known = λ h. h }

run_terminal_example : is_terminal (run env "operator" true world).stored.row.status ≡ true
run_terminal_example = run_terminal env "operator" true world world-IsConsistent

world_enables : (run env "operator" true world).stored_server.enabled ≡ true
unfolding run onboard prepare provision register finalise complete ensure_exporter handle
    discover_and_precheck register_inventory store_inventory check_port check_privilege
    meets_requirements is_root has_interface inventory_error prometheus_target_status transition
    check_cancel take_step refresh others_act send commit close ◌>>=◌ is_terminal step_status
    parse_inventory_output add_inventory_snapshot_if_changed
world_enables = refl

run_enables-IsVerified_example : IsVerified (run env "operator" true world)
run_enables-IsVerified_example =
    run_enables-IsVerified env "operator" true world (refl, refl) world_enables

world_refused : (onboard unreachable_env "operator" world).0 ≡ error "ssh_timeout"
unfolding onboard prepare transition take_step refresh others_act commit ◌>>=◌ is_terminal
    step_status
world_refused = refl

refused_row :
    let w' = (onboard unreachable_env "operator" world).1 in
    (is_terminal w'.row.status && is_stop_code w'.row.last_error_code) ≡ false
unfolding onboard prepare transition take_step refresh others_act commit ◌>>=◌ is_terminal
    step_status
refused_row = refl

run_marks_install_example :
    let w' = (onboard unreachable_env "operator" world).1 in
    let f = run unreachable_env "operator" true world in
    (f.stored.row.status
      ≡ (if has_installed w'.exchanges then Status.rollback_required else Status.failed))
    × (f.stored.row.last_error_code ≡ some "ssh_timeout")
    × (f.stored.row.last_error_message_sanitized ≡ some (safe_error "ssh_timeout"))
run_marks_install_example =
    run_marks_install unreachable_env "operator" "ssh_timeout" world refl world_refused refused_row

transition_iff_example :
    let now = others_act env world in
    (((transition env Step.connecting "operator" true world).0 ≡ ok tt)
      × (is_terminal now.stored.row.status ≡ false)
      × (now.stored.row.cancel_requested ≡ false)
      × ((transition env Step.connecting "operator" true world).1.stored.row.status
          ≡ step_status Step.connecting)
      × ((transition env Step.connecting "operator" true world).1.stored.row.progress_percent
          ≡ step_progress Step.connecting))
    ⊎ (((transition env Step.connecting "operator" true world).0 ≢ ok tt)
        × ((is_terminal now.stored.row.status ≡ true) ⊎ (now.stored.row.cancel_requested ≡ true))
        × ((transition env Step.connecting "operator" true world).1.stored ≡ now.stored))
transition_iff_example = transition_iff env "operator" Step.connecting true world

run_terminal_sends_nothing_example :
    (run env "operator" true cancelled_world).exchanges ≡ cancelled_world.exchanges
unfolding is_terminal
run_terminal_sends_nothing_example = run_terminal_sends_nothing env "operator" cancelled_world refl

complete_over_cancel_example :
    let s = (complete env "operator" cancelled_world).stored.row in
    (s.status ≡ Status.completed)
    × (s.cancel_requested ≡ true)
    × (s.last_error_code ≡ cancelled_world.stored.row.last_error_code)
complete_over_cancel_example = complete_over_cancel env "operator" cancelled_world refl refl

finalise_failure_enables_example :
    let (outcome, w') = finalise failing_env "operator" (some "SHA256:host") world in
    let f = close (handle failing_env "operator" outcome w') in
    (f.stored_server.enabled ≡ true)
    × (f.stored.row.status ≡ (if world.installed then Status.rollback_required else Status.failed))
    × (f.stored.row.last_error_code ≡ some "command_timeout")
unfolding is_terminal
finalise_failure_enables_example =
    finalise_failure_enables failing_env "operator" (some "SHA256:host") world refl refl refl

recover_stale_iff_example :
    let (l', recovered) = recover_stale 60 90000000 90000001 "system-recovery" ledger in
    ((recovered ≡ true)
      × (is_terminal ledger.row.status ≡ false)
      × (1 + 60 * 1000000 < 90000000)
      × (l'.row.status ≡ (if ledger.row.cancel_requested then Status.cancelled else Status.failed))
      × (length l'.audits ≡ length ledger.audits + 1))
    ⊎ ((recovered ≡ false)
        × (l' ≡ ledger)
        × ((is_terminal ledger.row.status ≡ true) ⊎ (90000000 ≤ 1 + 60 * 1000000)))
recover_stale_iff_example = recover_stale_iff 60 90000000 90000001 1 "system-recovery" ledger refl

-- The row that a cancellation and a retry of `ledger` leave, and a job whose database holds it.
abbrev retried_ledger : Ledger
retried_ledger = record cancelled_ledger {
  row = record row { status = Status.pending; retry_count = 1; updated_at = some 9 };
}

retry_done :
    retry_onboarding 60 8 8 9 (cancel_onboarding 60 5 5 5 "operator" ledger)
    ≡ done
        (record retried_ledger { audits = (cancel_onboarding 60 5 5 5 "operator" ledger).audits })
unfolding retry_onboarding cancel_onboarding recover_stale is_terminal
retry_done = refl

abbrev retried_world : World
retried_world = record world {
  stored = record retried_ledger { audits = (cancel_onboarding 60 5 5 5 "operator" ledger).audits };
}

abbrev requested_world : World
requested_world = record world { stored = cancel_onboarding 60 5 5 5 "operator" ledger }

retry_hides_cancel_example :
    ((transition env Step.discovering "operator" true requested_world).0 ≢ ok tt)
    × ((transition env Step.discovering "operator" true retried_world).0 ≡ ok tt)
unfolding others_act
retry_hides_cancel_example =
    retry_hides_cancel env "operator" 60 5 5 5 8 8 9 "operator" Step.discovering requested_world
      retried_world ledger retried_world.stored retry_done refl refl

rollback_example :
    let outcome = (remove_components env "operator" cancelled_world).0 in
    let f = rollback env "operator" cancelled_world in
    ((outcome ≡ ok tt)
      × (f.stored_server.enabled ≡ false)
      × ((f.stored.row.status ≡ Status.failed) ⊎ (f.stored.row.status ≡ Status.rollback_required)))
    ⊎ ((code : String) × (outcome ≡ error code) × (f.stored.row.status ≡ Status.rollback_required))
    ⊎ ((outcome ≡ crash)
        × (f.stored_server ≡ cancelled_world.stored_server)
        × ((acts : List Action) × (f.stored ≡ act_all acts cancelled_world.stored)))
rollback_example = rollback_lem env "operator" cancelled_world
