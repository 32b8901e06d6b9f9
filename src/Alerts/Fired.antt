-- ===== src/Alerts/Fired.antt =====
-- Which alerts a sample gives.
use superflash_ia.Prelude.{
  ℕ, ◌+◌, ◌*◌, ◌≡◌, Option, none, some, List, [], ◌∷◌, ◌++◌, arith, if◌then◌else◌, count, ltb,
}
use superflash_ia.Alerts.Types.{
  AlertType, high_cpu, high_memory, high_disk, high_network_utilization, stale_server, type_beq,
  Floats, Candidate, WatchedServer, Sample, Thresholds,
}
use superflash_ia.Alerts.Evaluate.{
  network_utilization, is_stale, stale, Check, checks, run_checks, evaluate_metric,
}

module _ (F : Floats) where
  -- How many candidates have the type.
  abbrev pub fired : AlertType → List (Candidate F) → ℕ
  fired kind cs = count (λ (c : Candidate F). type_beq c.alert_type kind) cs

  abbrev pub above : Option F.Number → F.Number → ℕ
  above none threshold = 0
  above (some value) threshold = if F.exceeds value threshold then 1 else 0

  count-append :
      (kind : AlertType) (xs ys : List (Candidate F))
      → fired kind (xs ++ ys) ≡ fired kind xs + fired kind ys
  count-append kind [] ys = omega arith
  count-append kind (x ∷ xs) ys = let r = count-append kind xs ys in ground arith

  -- A check fires its own type, once, where its value exceeds its threshold.
  fired-run_checks :
      (kind : AlertType) (check : Check F) (rest : List (Check F)) (server : WatchedServer F)
      (m : Sample F)
      → fired kind (run_checks F (check ∷ rest) server m)
        ≡ (if type_beq check.alert_type kind then above check.value check.threshold else 0)
          + fired kind (run_checks F rest server m)
  unfolding run_checks
  fired-run_checks kind check rest server m = ground arith

  -- What the checks fire of one type.
  fired-checks :
      (kind : AlertType) (settings : Thresholds F) (server : WatchedServer F) (m : Sample F)
      → fired kind (run_checks F (checks F settings server m) server m)
        ≡ (if type_beq high_cpu kind then above (some m.cpu_percent) settings.cpu else 0)
          + ((if type_beq high_memory kind
                then above (some m.memory_percent) settings.memory
                else 0)
              + ((if type_beq high_disk kind then above m.disk_percent settings.disk else 0)
                  + (if type_beq high_network_utilization kind
                      then above
                          (network_utilization F m.output_mbps server.network_capacity_mbps)
                          settings.network_utilization
                      else 0)))
  unfolding run_checks
  fired-checks kind settings server m =
      let net : Check F = record {
        alert_type = high_network_utilization;
        value = network_utilization F m.output_mbps server.network_capacity_mbps;
        threshold = settings.network_utilization;
        label = "Utilización de red";
      } in
      let disk : Check F = record {
        alert_type = high_disk;
        value = m.disk_percent;
        threshold = settings.disk;
        label = "Disco";
      } in
      let memory : Check F = record {
        alert_type = high_memory;
        value = some m.memory_percent;
        threshold = settings.memory;
        label = "Memoria";
      } in
      let cpu : Check F = record {
        alert_type = high_cpu;
        value = some m.cpu_percent;
        threshold = settings.cpu;
        label = "CPU";
      } in
      let r1 = fired-run_checks kind cpu (memory ∷ disk ∷ net ∷ []) server m in
      let r2 = fired-run_checks kind memory (disk ∷ net ∷ []) server m in
      let r3 = fired-run_checks kind disk (net ∷ []) server m in
      let r4 = fired-run_checks kind net [] server m in omega (arith, r1, r2, r3, r4)

  -- The age fires its own type only.
  fired-stale :
      (kind : AlertType) (settings : Thresholds F) (server : WatchedServer F) (m : Sample F)
      (now : ℕ)
      → fired kind (if is_stale F settings m now then stale F settings server m now ∷ [] else [])
        ≡ (if type_beq stale_server kind
            then (if ltb (m.collected_at + settings.stale_minutes * 60000000) now then 1 else 0)
            else 0)
  fired-stale kind settings server m now = ground arith

  -- Of each type a sample fires one alert or none: the one of its age exactly where the sample is older
  -- than the limit, the others exactly where the value is known and exceeds its threshold.
  pub fired-evaluate_metric :
      (settings : Thresholds F) (server : WatchedServer F) (m : Sample F) (now : ℕ)
      → let cs = evaluate_metric F settings server m now in
        (fired stale_server cs
          ≡ (if ltb (m.collected_at + settings.stale_minutes * 60000000) now then 1 else 0))
        × (fired high_cpu cs ≡ above (some m.cpu_percent) settings.cpu)
        × (fired high_memory cs ≡ above (some m.memory_percent) settings.memory)
        × (fired high_disk cs ≡ above m.disk_percent settings.disk)
        × (fired high_network_utilization cs
            ≡ above
                (network_utilization F m.output_mbps server.network_capacity_mbps)
                settings.network_utilization)
  unfolding evaluate_metric
  fired-evaluate_metric settings server m now =
      let f = λ (kind : AlertType).
        count-append kind
          (if is_stale F settings m now then stale F settings server m now ∷ [] else [])
          (run_checks F (checks F settings server m) server m) in
      let g = λ (kind : AlertType). fired-stale kind settings server m now in
      let h = λ (kind : AlertType). fired-checks kind settings server m in
      (
        omega (arith, f stale_server, g stale_server, h stale_server),
        omega (arith, f high_cpu, g high_cpu, h high_cpu),
        omega (arith, f high_memory, g high_memory, h high_memory),
        omega (arith, f high_disk, g high_disk, h high_disk),
        omega (
          arith,
          f high_network_utilization,
          g high_network_utilization,
          h high_network_utilization,
        ),
      )
