-- ===== src/Onboarding/VisitTests.antt =====
-- The theorems of the preflight and the discovery at a host that answers everything.
use superflash_ia.Prelude.{String, true, false, ◌≡◌, refl, none, some, List, [], ◌∷◌, ◌&&◌, is_some}
use superflash_ia.Ssh.Catalogue.{
  SshOperation, check_sudo, detect_inventory, check_requirements, SshCommandResult, detect_firewall,
}
use superflash_ia.Ssh.HostKey.{already_trusted}
use superflash_ia.Ssh.Inventory.{Python, parse_inventory_output}
use superflash_ia.Onboarding.Job.{Command, operation, script, removal, Reply, answered, Exchange}
use superflash_ia.Onboarding.Precheck.{is_root}
use superflash_ia.Text.{in_text}
use superflash_ia.Onboarding.Visit.{Host, welcomed, ◌>>=◌}
use superflash_ia.Onboarding.Preflight.{TestReport, of_session, preflight, test_ssh}
use superflash_ia.Onboarding.Discovery.{
  DiscoveryReport, free, firewall_review_required, look, discover,
}
use superflash_ia.Onboarding.Shown.{
  any_of, is_root_answer, is_write_answer, is_tools_answer, is_inventory_answer, is_welcomed,
}
use superflash_ia.Onboarding.Backed.{discover_lem}
use superflash_ia.Onboarding.Verdicts.{test_ssh_lem}

abbrev result : String → SshCommandResult
result text = record { exit_code = 0; stdout = text }

abbrev answer_of : SshOperation → String
answer_of check_sudo = "0"
answer_of check_requirements = "systemd=ok port_9100=free"
answer_of detect_inventory =
    "hostname=node\narch=x86_64\ninterfaces=eth0|10.0.0.2\nprimary_interface=eth0"
answer_of _ = "version 1.8.1"

abbrev answers : List Exchange → Command → Reply
answers exchanges (operation op root) = answered (result (answer_of op))
answers exchanges (script name) = answered (result "")
answers exchanges (removal name) = answered (result "")

abbrev python : Python
python = record { int_of = λ _. none; is_global = λ _. false }

abbrev host : Host
host = record {
  greeting = welcomed (some "SHA256:host") already_trusted;
  reply = answers;
  monitor_ip = "10.0.0.1";
  lower = λ text. text;
  version_of = λ _. some "1.8.1";
  python = python;
}

abbrev good_report : TestReport
good_report = record {
  reachable = true;
  authentication_ok = true;
  privilege_ok = true;
  temp_write_ok = true;
  host_key_fingerprint = some "SHA256:host";
  host_key_status = of_session already_trusted;
  discovered_inventory = some (parse_inventory_output python (answer_of detect_inventory));
  error_code = none;
}

host_passes : (test_ssh host none).0 ≡ some good_report
unfolding test_ssh preflight ◌>>=◌ is_root parse_inventory_output
host_passes = refl

test_ssh_example :
    let sent = (test_ssh host none).1 in
    ((good_report.reachable
        && good_report.authentication_ok
        && good_report.privilege_ok
        && good_report.temp_write_ok
        && is_some good_report.discovered_inventory)
      ≡ true)
    × (is_welcomed host.greeting ≡ true)
    × (any_of is_root_answer sent ≡ true)
    × (any_of is_write_answer sent ≡ true)
    × (any_of (is_inventory_answer host.python) sent ≡ true)
test_ssh_example = test_ssh_lem host none good_report host_passes refl

abbrev found_report : DiscoveryReport
found_report = record {
  reachable = true;
  authentication_ok = true;
  privilege_ok = true;
  discovered_inventory = some (parse_inventory_output python (answer_of detect_inventory));
  host_key_fingerprint = some "SHA256:host";
  host_key_status = of_session already_trusted;
  detected_firewall = "not_configured";
  detected_interface = some "eth0";
  link_speed_mbps = none;
  exporter_status = "healthy";
  exporter_version = some "1.8.1";
  port_9100_status = free;
  systemd_available = true;
  warnings = firewall_review_required ∷ [];
  blocking_errors = [];
  error_code = none;
}

host_found : (discover host none).0 ≡ some found_report
unfolding discover look ◌>>=◌ is_root parse_inventory_output in_text detect_firewall
host_found = refl

discover_example :
    let sent = (discover host none).1 in
    ((found_report.reachable
        && found_report.authentication_ok
        && found_report.systemd_available
        && found_report.privilege_ok
        && is_some found_report.discovered_inventory)
      ≡ true)
    × (is_welcomed host.greeting ≡ true)
    × (any_of is_tools_answer sent ≡ true)
    × (any_of is_root_answer sent ≡ true)
    × (any_of (is_inventory_answer host.python) sent ≡ true)
discover_example = discover_lem host none found_report host_found refl
