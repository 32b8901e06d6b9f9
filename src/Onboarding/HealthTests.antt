-- ===== src/Onboarding/HealthTests.antt =====
-- The theorems of the health of an onboarding and of the maintenance, at a completed one whose server
-- has two samples.
use superflash_ia.Prelude.{
  String, Option, ◌⊎◌, ℕ, ◌+◌, true, false, ◌≡◌, refl, none, some, List, [], ◌∷◌, ◌&&◌, ◌==◌,
  string_eq,
}
use superflash_ia.Ssh.Catalogue.{check_exporter_version}
use superflash_ia.Ssh.HostKey.{already_trusted}
use superflash_ia.Onboarding.Types.{Status, Onboarding, Server, ServerStatus}
use superflash_ia.Onboarding.Job.{
  Surroundings, Command, operation, Reply, answered, Exchange, raised, opened, reachable, absent,
}
use superflash_ia.Onboarding.Texts.{text_for}
use superflash_ia.Onboarding.Visit.{Host, welcomed, ◌>>=◌}
use superflash_ia.Onboarding.Maintenance.{
  repair, diagnose, Books, look_after, change_host, attend, maintenance,
}
use superflash_ia.Onboarding.Maintained.{IsAllOrNothing, maintenance_lem}
use superflash_ia.Onboarding.Precheck.{prometheus_target_status}
use superflash_ia.Onboarding.Health.{
  Health, is_completed, has_recent, last_scrape_of, health, healthy_iff,
}
use superflash_ia.History.Samples.{Sample}

abbrev env : Surroundings
env = record {
  clock = λ n. 1000 + n;
  others = λ _. [];
  connection = opened none;
  reply = λ _ _. raised "command_timeout";
  probe = λ _. reachable (some true);
  monitor_ip = "10.0.0.1";
  wanted_exporter_version = none;
  management_key = absent;
  version_of = λ _. none;
  digest = λ _. "digest";
  python = record { int_of = λ _. none; is_global = λ _. false };
}

abbrev row : Onboarding
row = record {
  onboarding_id = 1;
  server_id = 7;
  status = Status.completed;
  current_step = "completed";
  progress_percent = 100;
  started_at = some 1;
  completed_at = some 2;
  failed_at = none;
  last_error_code = none;
  last_error_message_sanitized = none;
  retry_count = 0;
  last_successful_step = none;
  created_by = "operator";
  auth_method = "password";
  ssh_port = 22;
  ssh_username = "root";
  cancel_requested = false;
  created_at = 1;
  updated_at = some 2;
}

abbrev server : Server
server = record {
  server_id = 7;
  external_id = "node";
  name = "node";
  hostname = some "10.0.0.2";
  network_interface = none;
  prometheus_url = some "http://10.0.0.1:9090";
  contract_status = "active";
  ssh_host_key_fingerprint = none;
  ssh_management_configured = false;
  ssh_management_key_fingerprint = none;
  ssh_management_key_created_at = none;
  ssh_management_key_rotated_at = none;
  node_exporter_status = "running";
  node_exporter_version = none;
  last_heartbeat_at = none;
  status = ServerStatus.online;
  enabled = true;
}

abbrev sample : ℕ → ℕ → Sample ℕ
sample key at = record { sample_id = key; owner_id = 7; collected_at = at; measures = 0 }

abbrev samples : List (Sample ℕ)
samples = sample 1 5000000 ∷ sample 2 700000000 ∷ []

abbrev status_of : Option Health → String
status_of none = "none"
status_of (some h) = h.overall_status

-- The newest sample is 600.9 seconds old, which the code takes for 600.
still_healthy : status_of (health env (λ s. s) 300 1300900000 [] samples row server) ≡ "healthy"
unfolding health last_scrape_of prometheus_target_status
still_healthy = refl

degraded : status_of (health env (λ s. s) 300 1301000000 [] samples row server) ≡ "degraded"
unfolding health last_scrape_of prometheus_target_status
degraded = refl

healthy_iff_example :
    let answer = health env (λ s. s) 300 1300900000 [] samples row server in
    ((prometheus_target_status env server ≡ none) × (answer ≡ none))
    ⊎ ((h : Health) × (answer ≡ some h)
        × ((h.overall_status == "healthy")
            ≡ (is_completed row.status && has_recent server.server_id 300 1300900000 samples)))
healthy_iff_example = healthy_iff env (λ s. s) 300 1300900000 [] samples row server

abbrev answers : List Exchange → Command → Reply
answers exchanges c = answered (record { exit_code = 0; stdout = "version 1.8.1" })

abbrev host : Host
host = record {
  greeting = welcomed (some "SHA256:host") already_trusted;
  reply = answers;
  monitor_ip = "10.0.0.1";
  lower = λ text. text;
  version_of = λ _. some "1.8.1";
  python = env.python;
}

-- A host on which the exporter does not tell its version.
abbrev answers_partly : List Exchange → Command → Reply
answers_partly exchanges (operation check_exporter_version root) = raised "command_timeout"
answers_partly exchanges c = answers exchanges c

abbrev silent_host : Host
silent_host = record host { reply = answers_partly }

abbrev books : Books
books = record { server = server; audits = [] }

repaired :
    (maintenance host repair none none "operator" 9
      (row ∷ [])
      books).0.1.server.node_exporter_version
    ≡ some "1.8.1"
unfolding maintenance attend change_host ◌>>=◌
repaired = refl

-- A diagnosis that fails after its status was written: the status is ok, nothing is stored.
diagnosed : (maintenance silent_host diagnose none none "operator" 9 (row ∷ []) books).0 ≡ (
  some (record {
    status = "ok";
    message = "La comprobación remota superó el tiempo máximo.";
    exporter_status = "healthy";
    exporter_version = none;
  }),
  books,
)
unfolding maintenance attend look_after ◌>>=◌ text_for
diagnosed = refl

maintenance_example :
    IsAllOrNothing books (maintenance host repair none none "operator" 9 (row ∷ []) books).0
maintenance_example =
    maintenance_lem host repair none none "operator" 9 (row ∷ []) books "repair-node-exporter.sh"
      refl
