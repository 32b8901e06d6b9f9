-- ===== src/Collection/Runner.antt =====
-- `CollectionRunner._run_locked`: what a collection writes to the history, whatever the service does.
use superflash_ia.Prelude.{ℕ, String, Option, none, some, List, [], ◌∷◌, update}
use superflash_ia.Collection.Runs.{
  Trigger, CollectionRun, CollectionResult, History, is_run, start, heartbeat, mark_abandoned,
  finish_success, finish_error,
}

-- How `CollectionService.run` ends.
pub data Ending : Type 0 where
  returned : CollectionResult → Ending
  raised : String → Ending

-- What the service does to the history: it calls back at these instants, and it ends so.
pub record Collecting : Type 0 where
  pub heartbeats : List ℕ
  pub ending : Ending

-- The history that is stored, and `_running_since`.
pub record RunnerState : Type 0 where
  pub history : History
  pub running_since : Option ℕ

abbrev pub edit_run : ℕ → (CollectionRun → CollectionRun) → RunnerState → RunnerState
edit_run key f s = record s {
  history = record (s.history) { runs = update (is_run key) f s.history.runs };
}

-- `_persist_heartbeat`, as often as the service calls it: each call commits.
abbrev pub persist_heartbeats : ℕ → List ℕ → RunnerState → RunnerState
persist_heartbeats key [] s = s
persist_heartbeats key (at ∷ rest) s = persist_heartbeats key rest (edit_run key (heartbeat at) s)

module _ (milliseconds : ℕ → ℕ) where
  -- What is committed before the service starts, with the key of the new row.
  unfoldable pub begin_run : String → Trigger → ℕ → ℕ → RunnerState → RunnerState × ℕ
  begin_run source trigger timeout started_at s =
      let (runs, abandoned) = mark_abandoned milliseconds timeout started_at s.history.runs in
      let (history, key) = start source started_at trigger (record (s.history) { runs = runs }) in
      (record s { history = history; running_since = some started_at }, key)

  -- The `try`, after the service: a rollback drops nothing of the row that is not stored already.
  unfoldable pub end_run : Ending → ℕ → ℕ → RunnerState → RunnerState
  end_run (returned result) key at s = edit_run key (finish_success milliseconds result at) s
  end_run (raised text) key at s = edit_run key (finish_error milliseconds text at) s

  -- `_run_locked`
  unfoldable pub run_locked :
      String → Trigger → ℕ → ℕ → Collecting → ℕ → RunnerState → RunnerState × Ending
  run_locked source trigger timeout started_at c finished_at s =
      let (s1, key) = begin_run source trigger timeout started_at s in
      let s2 = persist_heartbeats key c.heartbeats s1 in
      let s3 = end_run c.ending key finished_at s2 in (record s3 { running_since = none }, c.ending)
