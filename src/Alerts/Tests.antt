-- ===== src/Alerts/Tests.antt =====
-- The theorems of the alerts at one server, with natural numbers for the measured values.
use superflash_ia.Prelude.{
  ℕ, ◌+◌, ◌*◌, ◌/◌, true, not, ◌≡◌, refl, none, some, [], ◌∷◌, ltb, leb, map, All, contains,
  string_eq, if◌then◌else◌,
}
use superflash_ia.Alerts.Types.{
  high_cpu, high_memory, high_disk, high_network_utilization, stale_server, resolved, acknowledged,
  is_resolved, warning, type_value, Floats, Candidate, Alert, WatchedServer, Sample, Thresholds,
}
use superflash_ia.Alerts.Evaluate.{network_utilization, evaluate_metric}
use superflash_ia.Alerts.Sync.{fingerprint_of, AlertTable, sync, sync_all, sync_one, created}
use superflash_ia.Alerts.Fired.{fired, above, fired-evaluate_metric}
use superflash_ia.Alerts.Current.{sync_current}

abbrev floats : Floats
floats = record {
  Number = ℕ;
  exceeds = λ a b. ltb b a;
  is_at_least = λ a n. leb n a;
  is_positive = λ a. ltb 0 a;
  percentage = λ a b. a * 100 / b;
  minutes_of = λ n. n / 60000000;
  from_int = λ n. n;
  text_of = λ _. "95";
  decimal = λ _. "7";
}

abbrev server : WatchedServer floats
server = record { server_id = 7; name = "node"; enabled = true; network_capacity_mbps = some 1000 }

abbrev sample : Sample floats
sample = record {
  collected_at = 1;
  cpu_percent = 95;
  memory_percent = 10;
  disk_percent = none;
  output_mbps = 900;
}

abbrev thresholds : Thresholds floats
thresholds = record {
  cpu = 90;
  memory = 90;
  disk = 90;
  network_utilization = 85;
  stale_minutes = 15;
}

fired-evaluate_metric_example :
    let cs = evaluate_metric floats thresholds server sample 2 in
    (fired floats stale_server cs ≡ (if ltb (1 + 15 * 60000000) 2 then 1 else 0))
    × (fired floats high_cpu cs ≡ above floats (some 95) 90)
    × (fired floats high_memory cs ≡ above floats (some 10) 90)
    × (fired floats high_disk cs ≡ above floats none 90)
    × (fired floats high_network_utilization cs
        ≡ above floats (network_utilization floats 900 (some 1000)) 85)
fired-evaluate_metric_example = fired-evaluate_metric floats thresholds server sample 2

abbrev high : Candidate floats
high = record {
  alert_type = high_cpu;
  server_id = 7;
  server_name = "node";
  message = "CPU";
  value = some 95;
  threshold = some 90;
  collected_at = some 1;
}

-- An alert of the memory that was acknowledged and holds no longer.
abbrev old : Alert floats
old = record {
  alert_id = 1;
  fingerprint = "7:high_memory";
  alert_type = high_memory;
  severity = warning;
  status = acknowledged;
  server_id = 7;
  server_name = "node";
  message = "Memoria";
  value = some 95;
  threshold = some 90;
  collected_at = some 1;
  first_seen_at = 1;
  last_seen_at = 1;
  acknowledged_at = some 1;
  resolved_at = none;
}

abbrev before : AlertTable floats
before = record { alerts = old ∷ []; next_alert = 2 }

abbrev after_sync : AlertTable floats
after_sync = record {
  alerts = record old { status = resolved; resolved_at = some 2 } ∷ created floats high 2 2 ∷ [];
  next_alert = 3;
}

synced : sync floats 2 (high ∷ []) before ≡ some after_sync
unfolding sync sync_all sync_one type_value created
synced = refl

sync_current_example :
    All
      (λ (a : Alert floats).
        is_resolved a.status
        ≡ not (contains (map (fingerprint_of floats) (high ∷ [])) a.fingerprint))
      after_sync.alerts
sync_current_example = sync_current floats 2 (high ∷ []) before after_sync synced
