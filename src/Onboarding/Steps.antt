-- ===== src/Onboarding/Steps.antt =====
-- `_transition`, `_check_cancel` and `_fail` of app/services/onboarding_service.py.
use superflash_ia.Prelude.{
  ℕ, suc, String, ⊤, Bool, false, ◌&&◌, ◌||◌, Option, none, some, ◌==◌, string_eq, or_else, is_some,
  if◌then◌else◌,
}
use superflash_ia.Onboarding.Types.{
  Status, is_terminal, Step, step_status, step_progress, step_name, Onboarding,
}
use superflash_ia.Onboarding.Texts.{safe_error}
use superflash_ia.Onboarding.Api.{event_for}
use superflash_ia.Onboarding.Job.{
  Surroundings, World, ok, error, Job, assign, add_audit, commit, refresh, now, tick,
}

-- The columns that a step assigns; `started` and `at` are the instants that it reads.
abbrev pub stepped : Step → Bool → ℕ → ℕ → Onboarding → Onboarding
stepped s success started at r = record r {
  started_at = some (or_else r.started_at started);
  current_step = step_name s;
  status = step_status s;
  progress_percent = step_progress s;
  updated_at = some at;
  last_successful_step = if success then some (step_name s) else r.last_successful_step;
}

-- `last_error_code in {"cancelled", "job_expired"}`
abbrev pub is_stop_code : Option String → Bool
is_stop_code none = false
is_stop_code (some c) = c == "cancelled" || c == "job_expired"

-- The columns that a failure assigns.
abbrev pub failed_with : String → Bool → ℕ → Onboarding → Onboarding
failed_with code rollback at r = record r {
  status = if rollback then Status.rollback_required else Status.failed;
  failed_at = some at;
  updated_at = some at;
  last_error_code = some code;
  last_error_message_sanitized = some (safe_error code);
}

module _ (env : Surroundings) where
  -- The first reading of the clock, where the job had not started.
  abbrev begin_step : World → World
  begin_step w = record w {
    readings = if is_some w.row.started_at then w.readings else suc w.readings;
  }

  -- What `_transition` does once its guards have passed. The clock is read once more where the job
  -- had not started.
  unfoldable pub take_step : Step → String → Bool → World → World
  take_step s actor success w =
      let begun = begin_step w in
      let w' = assign (stepped s success (now env w) (now env begun)) (tick env begun) in
      let event = if success then "step_completed" else "step_failed" in
      let detail = if success then "Paso completado." else "Paso fallido." in
      commit (add_audit (event_for w'.row actor event success detail (now env w')) (tick env w'))

  -- `_transition`
  unfoldable pub transition : Step → String → Bool → Job ⊤
  transition s actor success w =
      let w' = refresh env w in
      if is_terminal w'.row.status
      then (error (or_else w'.row.last_error_code "job_expired"), w')
      else if w'.row.cancel_requested
      then (error "cancelled", w')
      else (ok tt, take_step s actor success w')

  -- `_check_cancel`
  unfoldable pub check_cancel : Job ⊤
  check_cancel w =
      let w' = refresh env w in
      if w'.row.cancel_requested then (error "cancelled", w') else (ok tt, w')

  -- `_fail`, where the onboarding was found
  unfoldable pub fail : String → String → Bool → World → World
  fail code actor rollback w =
      let at = now env w in
      let w' = assign (failed_with code rollback at) (tick env w) in
      let event = event_for w'.row actor "failed" false (safe_error code) at in
      if is_terminal w.row.status && is_stop_code w.row.last_error_code
      then w
      else commit (add_audit event w')
