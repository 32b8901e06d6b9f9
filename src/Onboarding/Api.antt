-- ===== src/Onboarding/Api.antt =====
-- What other sessions do to an onboarding: `recover_stale`, and the endpoints that cancel, retry
-- and roll back. Each takes the instants that its calls of `datetime.now` return.
use superflash_ia.Prelude.{
  ℕ, ◌+◌, ◌*◌, String, Bool, true, false, not, ◌&&◌, ◌||◌, none, some, ◌∷◌, leb, string_eq, or_else,
  if◌then◌else◌,
}
use superflash_ia.Onboarding.Types.{
  Status, is_terminal, is_active, is_pending, Onboarding, AuditEvent, Ledger,
}

abbrev pub cancelled_text : String
cancelled_text = "Onboarding cancelado por el operador."

abbrev pub expired_text : String
expired_text = "El onboarding expiró por falta de actividad y quedó terminalizado."

-- `_audit` of the endpoints, and the events of the service.
abbrev pub event_for : Onboarding → String → String → Bool → String → ℕ → AuditEvent
event_for row actor event success detail now = record {
  onboarding_id = row.onboarding_id;
  server_id = row.server_id;
  actor = actor;
  event = event;
  step = row.current_step;
  success = success;
  detail_sanitized = detail;
  created_at = now;
}

-- Whether a job that is not terminal was last touched more than the timeout ago.
abbrev pub has_expired : ℕ → ℕ → Onboarding → Bool
has_expired timeout_seconds checked_at row = elim row.updated_at [
  | none ↦ false
  | some updated_at ↦ not (leb checked_at (updated_at + timeout_seconds * 1000000))
]

-- `OnboardingService.recover_stale`; `checked_at` is the first reading of the clock, `now` the
-- second.
unfoldable pub recover_stale : ℕ → ℕ → ℕ → String → Ledger → Ledger × Bool
unfolding is_terminal
recover_stale timeout_seconds checked_at now actor l =
    let row = l.row in
    let code = if row.cancel_requested then "cancelled" else "job_expired" in
    let text = if row.cancel_requested then cancelled_text else expired_text in
    let row' = record row {
      status = if row.cancel_requested then Status.cancelled else Status.failed;
      failed_at = some now;
      updated_at = some now;
      last_error_code = some code;
      last_error_message_sanitized = some text;
    } in
    let event = if row.cancel_requested then "cancelled_stale_job" else "expired" in
    if is_terminal row.status || not (has_expired timeout_seconds checked_at row)
    then (l, false)
    else (
      record l { row = row'; audits = event_for row' actor event false text now ∷ l.audits },
      true,
    )

pub data ApiError : Type 0 where
  not_found conflict : ApiError

pub data Answer : Type 0 where
  done : Ledger → Answer
  refused : ApiError → Ledger → Answer

-- `cancel_onboarding`, once the row is found.
unfoldable pub cancel_onboarding : ℕ → ℕ → ℕ → ℕ → String → Ledger → Ledger
unfolding recover_stale
cancel_onboarding timeout_seconds checked_at recovered_at now actor l =
    let l' = (recover_stale timeout_seconds checked_at recovered_at "system-recovery" l).0 in
    let row = l'.row in
    let row' = record row {
      cancel_requested = true;
      status = Status.cancelled;
      last_error_code = some "cancelled";
      last_error_message_sanitized = some cancelled_text;
      updated_at = some now;
    } in
    if is_terminal row.status then l' else record l' {
      row = row';
      audits =
          event_for row' actor "cancel_requested" false "Cancelación solicitada" now ∷ l'.audits;
    }

-- `retry_onboarding`, once the row is found.
unfoldable pub retry_onboarding : ℕ → ℕ → ℕ → ℕ → Ledger → Answer
unfolding recover_stale
retry_onboarding timeout_seconds checked_at recovered_at now l =
    let l' = (recover_stale timeout_seconds checked_at recovered_at "system-recovery" l).0 in
    let row = l'.row in
    let row' = record row {
      status = Status.pending;
      current_step = or_else row.last_successful_step "pending";
      progress_percent = 0;
      cancel_requested = false;
      retry_count = row.retry_count + 1;
      updated_at = some now;
      last_error_code = none;
      last_error_message_sanitized = none;
    } in
    if not (is_terminal row.status) && not (is_pending row.status)
    then refused conflict l'
    else done (record l' { row = row' })

abbrev pub can_roll_back : Status → Bool
can_roll_back Status.failed = true
can_roll_back Status.rollback_required = true
can_roll_back Status.cancelled = true
can_roll_back _ = false

-- `rollback_onboarding`, once the row is found: it queues the rollback.
unfoldable pub rollback_onboarding : ℕ → Ledger → Answer
rollback_onboarding now l =
    let row = l.row in
    if can_roll_back row.status
    then done (record l {
      row = record row {
        status = Status.rollback_required;
        current_step = "rollback";
        updated_at = some now;
      };
    })
    else refused conflict l

-- What `ServerRepository.cancel_active_onboardings` does to one job.
unfoldable pub cancel_for_removal : ℕ → String → Ledger → Ledger
unfolding is_active
cancel_for_removal now actor l =
    let row = l.row in
    let row' = record row {
      status = Status.cancelled;
      cancel_requested = true;
      last_error_code = some "cancelled";
      last_error_message_sanitized = some cancelled_text;
      updated_at = some now;
    } in
    if is_active row.status
    then record l {
      row = row';
      audits =
          event_for row' actor "cancelled_for_server_removal" false
            "Job de onboarding cancelado antes de retirar el servidor." now
          ∷ l.audits;
    }
    else l

-- A call of another session that commits while a job runs, of those that may end its onboarding: a
-- cancellation, an expiry, and the removal of the server. The endpoints that start the onboarding
-- again, retry and rollback, are not among them.
pub data Action : Type 0 where
  cancel : ℕ → ℕ → ℕ → ℕ → String → Action
  recover : ℕ → ℕ → ℕ → String → Action
  remove_server : ℕ → String → Action

unfoldable pub act : Action → Ledger → Ledger
unfolding cancel_onboarding recover_stale cancel_for_removal
act (cancel timeout checked_at recovered_at now actor) l =
    cancel_onboarding timeout checked_at recovered_at now actor l
act (recover timeout checked_at now actor) l = (recover_stale timeout checked_at now actor l).0
act (remove_server now actor) l = cancel_for_removal now actor l
