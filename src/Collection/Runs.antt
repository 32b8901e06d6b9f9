-- ===== src/Collection/Runs.antt =====
-- The history of the collections: app/models/collection_run.py and
-- app/repositories/collection_run_repository.py. An instant is a number of microseconds, and
-- `milliseconds` is Python's rounding of a length of time to milliseconds.
use superflash_ia.Prelude.{
  ℕ, suc, ◌-◌, ◌+◌, String, Bool, true, false, ◌&&◌, ◌||◌, Option, none, some, List, [], ◌∷◌, ◌++◌,
  if◌then◌else◌, ltb, ◌==◌, nat_eq, count, update,
}

-- `CollectionRunStatus`
pub data RunStatus : Type 0 where
  running success error : RunStatus

-- `CollectionTrigger`
pub data Trigger : Type 0 where
  manual scheduler : Trigger

-- The counters that a run and a `CollectionResult` share.
pub record Counters : Type 0 where
  pub servers_synced : ℕ
  pub channels_synced : ℕ
  pub server_metrics_inserted : ℕ
  pub server_metrics_skipped : ℕ
  pub channel_metrics_inserted : ℕ
  pub channel_metrics_skipped : ℕ
  pub channels_created : ℕ
  pub channels_updated : ℕ
  pub channels_reactivated : ℕ
  pub channels_deactivated : ℕ
  pub channels_archived : ℕ
  pub channels_unchanged : ℕ
  pub channels_failed : ℕ

-- The defaults of the columns.
abbrev pub no_counters : Counters
no_counters = record {
  servers_synced = 0;
  channels_synced = 0;
  server_metrics_inserted = 0;
  server_metrics_skipped = 0;
  channel_metrics_inserted = 0;
  channel_metrics_skipped = 0;
  channels_created = 0;
  channels_updated = 0;
  channels_reactivated = 0;
  channels_deactivated = 0;
  channels_archived = 0;
  channels_unchanged = 0;
  channels_failed = 0;
}

-- `CollectionRun`
pub record CollectionRun : Type 0 where
  pub run_id : ℕ
  pub started_at : ℕ
  pub heartbeat_at : Option ℕ
  pub finished_at : Option ℕ
  pub duration_ms : Option ℕ
  pub source : String
  pub status : RunStatus
  pub triggered_by : Trigger
  pub counters : Counters
  pub errors : List String

-- `CollectionResult`
pub record CollectionResult : Type 0 where
  pub collected_at : ℕ
  pub counters : Counters
  pub errors : List String

-- The table, with the key that the database gives out next.
pub record History : Type 0 where
  pub runs : List CollectionRun
  pub next_run : ℕ

abbrev pub is_running : RunStatus → Bool
is_running running = true
is_running _ = false

abbrev pub is_run : ℕ → CollectionRun → Bool
is_run key r = r.run_id == key

-- `start`
abbrev pub new_run : String → ℕ → Trigger → ℕ → CollectionRun
new_run source at trigger key = record {
  run_id = key;
  started_at = at;
  heartbeat_at = some at;
  finished_at = none;
  duration_ms = none;
  source = source;
  status = running;
  triggered_by = trigger;
  counters = no_counters;
  errors = [];
}

unfoldable pub start : String → ℕ → Trigger → History → History × ℕ
start source at trigger h = (
  record h {
    runs = h.runs ++ new_run source at trigger h.next_run ∷ [];
    next_run = suc h.next_run;
  },
  h.next_run,
)

-- `heartbeat`
abbrev pub heartbeat : ℕ → CollectionRun → CollectionRun
heartbeat at r = record r { heartbeat_at = some at }

-- The `where` of `mark_abandoned`: no row without a heartbeat passes.
abbrev pub is_abandoned : ℕ → ℕ → CollectionRun → Bool
is_abandoned timeout now r =
    is_running r.status && (elim r.heartbeat_at [ none ↦ false | some at ↦ ltb (at + timeout) now ])

abbrev pub abandoned_text : String
abandoned_text = "abandonada: heartbeat vencido (proceso interrumpido)"

module _ (milliseconds : ℕ → ℕ) where
  -- `_duration_ms`
  abbrev pub duration_ms : ℕ → ℕ → ℕ
  duration_ms started finished =
      if ltb finished started then 0 else milliseconds (finished - started)

  abbrev pub abandon : CollectionRun → CollectionRun
  abandon r = record r {
    status = error;
    finished_at = r.heartbeat_at;
    duration_ms = elim r.heartbeat_at [
      | none ↦ none
      | some at ↦ some (duration_ms r.started_at at)
    ];
    errors = abandoned_text ∷ [];
  }

  -- `mark_abandoned`, with `heartbeat_older_than` the given length of time before the instant.
  unfoldable pub mark_abandoned : ℕ → ℕ → List CollectionRun → List CollectionRun × ℕ
  mark_abandoned timeout now runs =
      (update (is_abandoned timeout now) abandon runs, count (is_abandoned timeout now) runs)

  -- `finish_success`
  abbrev pub finish_success : CollectionResult → ℕ → CollectionRun → CollectionRun
  finish_success result at r = record r {
    heartbeat_at = some at;
    finished_at = some at;
    duration_ms = some (duration_ms r.started_at at);
    status = success;
    counters = result.counters;
    errors = result.errors;
  }

  -- `finish_error`
  abbrev pub finish_error : String → ℕ → CollectionRun → CollectionRun
  finish_error text at r = record r {
    heartbeat_at = some at;
    finished_at = some at;
    duration_ms = some (duration_ms r.started_at at);
    status = error;
    errors = text ∷ [];
  }

abbrev pub starts_later : CollectionRun → CollectionRun → Bool
starts_later a b =
    ltb b.started_at a.started_at || (a.started_at == b.started_at && ltb b.run_id a.run_id)

-- `latest`: the first row of the order by start and key, both descending.
abbrev pub latest : List CollectionRun → Option CollectionRun
latest [] = none
latest (r ∷ rs) = elim (latest rs) [
  | none ↦ some r
  | some l ↦ some (if starts_later l r then l else r)
]
