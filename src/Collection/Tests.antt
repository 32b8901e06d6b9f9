-- ===== src/Collection/Tests.antt =====
-- The theorems of the collections: two processes with two calls each, and a history with a run that
-- died.
use superflash_ia.Prelude.{
  map, ℕ, ◌/◌, ◌≢◌, arith, true, false, ◌≡◌, refl, none, List, [], ◌∷◌, ◌++◌, if◌then◌else◌, ◌==◌,
  string_eq, some,
}
use superflash_ia.Channels.Types.{ChannelSnapshot, permanent}
use superflash_ia.Channels.Identity.{IsUnique}
use superflash_ia.Collection.Channels.{Source, Pass, sync_channels, sync_each}
use superflash_ia.Collection.Samples.{MetricSnapshot, Store, store_server_metrics}
use superflash_ia.Collection.Sampled.{IsSampledOnce, store_server_metrics-IsSampledOnce}
use superflash_ia.Collection.Synchronised.{
  Counts, actions_of, sync_channels-IsUnique, sync_each-Counts,
}
use superflash_ia.Collection.Runs.{CollectionRun, no_counters, manual, scheduler, new_run}
use superflash_ia.Collection.Runner.{raised, Collecting, RunnerState, run_locked}
use superflash_ia.Collection.Locks.{
  collecting, Event, acquire_thread, refuse_bind, close_connection, try_acquire, release, die,
  steps, step, unlocked, acquire_thread_lock, try_advisory, release_both, kill, idle,
}
use superflash_ia.Collection.Exclusion.{one_collects, idle_acquires}
use superflash_ia.Collection.Ended.{IsEnded, timed_out, run_locked_history}

abbrev process_of : ℕ → ℕ
process_of t = t / 2

abbrev events : List Event
events = acquire_thread 0 ∷ acquire_thread 2 ∷ try_acquire 0 ∷ try_acquire 2 ∷ []

first_collects : (steps true process_of events unlocked).phase 0 ≡ collecting
unfolding step acquire_thread_lock try_advisory
first_collects = refl

one_collects_example : (steps true process_of events unlocked).phase 2 ≢ collecting
one_collects_example =
    one_collects true process_of events 0 2 refl (ground arith) (λ h. ground arith) first_collects

-- The database closes the connection of the call that collects, and another one collects beside it.
abbrev closed : List Event
closed =
    acquire_thread 0 ∷ try_acquire 0 ∷ close_connection 0 ∷ acquire_thread 2 ∷ try_acquire 2 ∷ []

two_collect :
    ((steps true process_of closed unlocked).phase 0 ≡ collecting)
    × ((steps true process_of closed unlocked).phase 2 ≡ collecting)
unfolding step acquire_thread_lock try_advisory
two_collect = (refl, refl)

-- An assertion that fails keeps the lock of the process.
still_idle :
    (steps true process_of
        (acquire_thread 0 ∷ refuse_bind 0 ∷ acquire_thread 1 ∷ try_acquire 1 ∷ [])
        unlocked).phase
      1
    ≡ idle
unfolding step acquire_thread_lock
still_idle = refl

abbrev same_process : List Event
same_process = acquire_thread 0 ∷ acquire_thread 1 ∷ []

first_begun : (steps false process_of same_process unlocked).phase 0 ≢ idle
unfolding step acquire_thread_lock
first_begun h = ground arith

-- The process of the call that collects dies.
abbrev death : List Event
death = events ++ release 2 ∷ die 0 ∷ []

none_begun : (u : ℕ) → (steps true process_of death unlocked).phase u ≡ idle
unfolding step acquire_thread_lock try_advisory release_both kill
none_begun u = ground arith

idle_acquires_example :
    (steps true process_of
        (acquire_thread 2 ∷ try_acquire 2 ∷ [])
        (steps true process_of death unlocked)).phase
      2
    ≡ collecting
idle_acquires_example = idle_acquires true process_of death 2 (ground arith) none_begun

abbrev rounded : ℕ → ℕ
rounded n = n / 1000

-- A run that started at 1 and died, and one that a collection adds and that fails.
abbrev state : RunnerState
state = record {
  history = record { runs = new_run "panel" 1 scheduler 4 ∷ []; next_run = 5 };
  running_since = none;
}

abbrev failure : Collecting
failure = record { heartbeats = 800000 ∷ 900000 ∷ []; ending = raised "RuntimeError: sin datos" }

run_locked_history_example :
    let (s', ending) = run_locked rounded "panel" manual 600000 700000 failure 1000000 state in
    ((r : CollectionRun) × (s'.history.runs
        ≡ map (timed_out rounded 600000 700000) state.history.runs ++ r ∷ [])
      × (r.run_id ≡ 5)
      × (r.source ≡ "panel")
      × (r.triggered_by ≡ manual)
      × (r.started_at ≡ 700000)
      × IsEnded rounded 300 1000000 failure.ending r)
    × (s'.running_since ≡ none)
    × (ending ≡ failure.ending)
run_locked_history_example =
    run_locked_history rounded "panel" manual 600000 700000 failure 1000000 state (ground arith, tt)

-- A pass over one new channel and one whose savepoint raises.
abbrev source : Source
source = record {
  source_name = "panel";
  server_ids = ("node", 7) ∷ [];
  event_inactive_grace_hours = 6;
  event_archive_days = 7;
  permanent_archive_days = 30;
  upsert_raises = λ s. if s.external_id == "bad" then some "DataError" else none;
  reconcile_raises = λ _. none;
}

abbrev channel_snapshot : ChannelSnapshot
channel_snapshot = record {
  external_id = "ch-1";
  name = "Uno";
  source_id = none;
  category = none;
  category_id = none;
  server_external_id = some "node";
  channel_type = permanent;
  event_external_id = none;
  event_name = none;
  event_start_at = none;
  event_end_at = none;
  technical_stream_external_id = none;
  technical_stream_name = none;
  source_updated_at = none;
  enabled = true;
}

abbrev snapshots : List ChannelSnapshot
snapshots = channel_snapshot ∷ record channel_snapshot { external_id = "bad" } ∷ []

abbrev pass : Pass
pass = record {
  tables = record {
    channels = [];
    events = [];
    streams = [];
    intervals = [];
    next_channel = 1;
    next_event = 1;
    next_stream = 1;
    next_interval = 1;
  };
  result = record { collected_at = 5; counters = no_counters; errors = [] };
}

sync_channels-IsUnique_example : IsUnique (sync_channels source snapshots pass).tables.channels
sync_channels-IsUnique_example =
    sync_channels-IsUnique source snapshots pass (record { at_most_one = λ s e. ground arith })

sync_each-Counts_example :
    Counts pass.result.counters 2
      (actions_of source snapshots pass)
      (sync_each source snapshots pass).result.counters
sync_each-Counts_example = sync_each-Counts source snapshots pass

-- Two samples of a server at one instant, and one of a server that is not known.
abbrev metric : MetricSnapshot ℕ
metric = record { server_external_id = "node"; collected_at = 5; measures = 40 }

abbrev metrics : List (MetricSnapshot ℕ)
metrics = metric ∷ metric ∷ record metric { server_external_id = "other" } ∷ []

abbrev store : Store ℕ
store = record { samples = []; servers = []; result = pass.result }

store_server_metrics-IsSampledOnce_example :
    IsSampledOnce (store_server_metrics "panel" source.server_ids (λ _. none) metrics store).samples
store_server_metrics-IsSampledOnce_example =
    store_server_metrics-IsSampledOnce "panel" (source.server_ids) (λ _. none) metrics store
      (record { once = λ key at. ground arith })
