-- ===== src/Alerts/Evaluate.antt =====
-- `AlertService.evaluate`: the candidates that the latest samples give.
use superflash_ia.Prelude.{
  ℕ, ◌-◌, ◌*◌, ◌/◌, String, Bool, Option, none, some, List, [], ◌∷◌, ◌++◌, if◌then◌else◌, ltb, ◌==◌,
  nat_eq,
}
use Prim.Native.String.{◌++◌ as ◌<>◌}
use superflash_ia.Alerts.Types.{
  AlertType, high_cpu, high_memory, high_disk, high_network_utilization, stale_server, Floats,
  Candidate, WatchedServer, Sample, Thresholds,
}

module _ (F : Floats) where
  -- `compute_network_utilization`
  unfoldable pub network_utilization : F.Number → Option F.Number → Option F.Number
  network_utilization output none = none
  network_utilization output (some capacity) =
      if F.is_positive capacity then some (F.percentage output capacity) else none

  -- The candidate of a server without a sample.
  abbrev pub never_seen : WatchedServer F → Candidate F
  never_seen server = record {
    alert_type = stale_server;
    server_id = server.server_id;
    server_name = server.name;
    message = "El servidor no tiene ninguna muestra registrada";
    value = none;
    threshold = none;
    collected_at = none;
  }

  -- The age of a sample: Python's difference is negative for a sample of the future, which is never
  -- old.
  abbrev pub is_stale : Thresholds F → Sample F → ℕ → Bool
  is_stale settings metric now = ltb (settings.stale_minutes * 60000000) (now - metric.collected_at)

  abbrev pub stale : Thresholds F → WatchedServer F → Sample F → ℕ → Candidate F
  stale settings server metric now =
      let age = now - metric.collected_at in
      record {
        alert_type = stale_server;
        server_id = server.server_id;
        server_name = server.name;
        message = "Sin muestras desde hace " <> (F.decimal (age / 60000000) <> " minutos");
        value = some (F.minutes_of age);
        threshold = some (F.from_int settings.stale_minutes);
        collected_at = some metric.collected_at;
      }

  -- One line of `checks`.
  pub record Check : Type 0 where
    pub alert_type : AlertType
    pub value : Option F.Number
    pub threshold : F.Number
    pub label : String

  abbrev pub breach : Check → F.Number → WatchedServer F → Sample F → Candidate F
  breach check value server metric = record {
    alert_type = check.alert_type;
    server_id = server.server_id;
    server_name = server.name;
    message =
        check.label
        <> (" en "
            <> (F.text_of value
                <> ("% supera el umbral de " <> (F.text_of check.threshold <> "%"))));
    value = some value;
    threshold = some check.threshold;
    collected_at = some metric.collected_at;
  }

  -- `checks`
  abbrev pub checks : Thresholds F → WatchedServer F → Sample F → List Check
  checks settings server metric =
      record {
        alert_type = high_cpu;
        value = some metric.cpu_percent;
        threshold = settings.cpu;
        label = "CPU";
      }
      ∷ record {
        alert_type = high_memory;
        value = some metric.memory_percent;
        threshold = settings.memory;
        label = "Memoria";
      }
      ∷ record {
        alert_type = high_disk;
        value = metric.disk_percent;
        threshold = settings.disk;
        label = "Disco";
      }
      ∷ record {
        alert_type = high_network_utilization;
        value = network_utilization metric.output_mbps server.network_capacity_mbps;
        threshold = settings.network_utilization;
        label = "Utilización de red";
      }
      ∷ []

  -- The loop over them.
  unfoldable pub run_checks : List Check → WatchedServer F → Sample F → List (Candidate F)
  run_checks [] server metric = []
  run_checks (check ∷ rest) server metric =
      let later = run_checks rest server metric in
      elim check.value [
        | none ↦ later
        | some value ↦
            if F.exceeds value check.threshold
            then breach check value server metric ∷ later
            else later
      ]

  -- `_evaluate_metric`
  unfoldable pub evaluate_metric :
      Thresholds F → WatchedServer F → Sample F → ℕ → List (Candidate F)
  evaluate_metric settings server metric now =
      (if is_stale settings metric now then stale settings server metric now ∷ [] else [])
      ++ run_checks (checks settings server metric) server metric

  -- `latest_metrics_for_enabled`, for one server: the sample of the latest instant.
  abbrev pub latest_sample : ℕ → List (ℕ × Sample F) → Option (Sample F)
  latest_sample key [] = none
  latest_sample key ((server_id, metric) ∷ rest) =
      let later = latest_sample key rest in
      if server_id == key
      then (elim later [
        | none ↦ some metric
        | some l ↦ some (if ltb metric.collected_at l.collected_at then l else metric)
      ])
      else later

  -- `evaluate`, without the synchronisation; the servers are those of `list_all`.
  unfoldable pub evaluate :
      Thresholds F → List (ℕ × Sample F) → ℕ → List (WatchedServer F) → List (Candidate F)
  evaluate settings samples now [] = []
  evaluate settings samples now (server ∷ servers) =
      let rest = evaluate settings samples now servers in
      if server.enabled
      then (elim (latest_sample server.server_id samples) [
        | none ↦ never_seen server ∷ rest
        | some metric ↦ evaluate_metric settings server metric now ++ rest
      ])
      else rest
