-- ===== src/Onboarding/Requests.antt =====
-- The endpoints that recover, cancel, retry and roll back an onboarding.
use superflash_ia.Prelude.{
  ℕ, ◌+◌, ◌*◌, ◌<◌, ◌≤◌, String, true, false, ◌≡◌, ◌≢◌, ◌⊎◌, arith, some, none, length,
  if◌then◌else◌,
}
use superflash_ia.Onboarding.Types.{Status, is_terminal, Step, Ledger}
use superflash_ia.Onboarding.Api.{
  done, refused, conflict, has_expired, recover_stale, cancel_onboarding, retry_onboarding,
  rollback_onboarding,
}
use superflash_ia.Onboarding.Job.{Surroundings, World, ok, others_act, refresh}
use superflash_ia.Onboarding.Steps.{transition}

-- An onboarding whose last update is known is recovered exactly where it is not terminal and that
-- update is more than the timeout ago. It becomes cancelled if a cancellation was requested and failed
-- otherwise, with one more event; in every other case nothing changes.
pub recover_stale_iff :
    (timeout checked_at now u : ℕ) (actor : String) (l : Ledger)
    → l.row.updated_at ≡ some u
    → let (l', recovered) = recover_stale timeout checked_at now actor l in
      ((recovered ≡ true)
        × (is_terminal l.row.status ≡ false)
        × (u + timeout * 1000000 < checked_at)
        × (l'.row.status ≡ (if l.row.cancel_requested then Status.cancelled else Status.failed))
        × (length l'.audits ≡ length l.audits + 1))
      ⊎ ((recovered ≡ false)
          × (l' ≡ l)
          × ((is_terminal l.row.status ≡ true) ⊎ (checked_at ≤ u + timeout * 1000000)))
unfolding recover_stale
recover_stale_iff timeout checked_at now u actor l e = ground arith

-- After a cancellation the onboarding is terminal. One that was terminal is left alone; one that had
-- expired is recovered instead; any other is cancelled, with the request marked and one event more.
pub cancel_onboarding_lem :
    (timeout checked_at recovered_at now : ℕ) (actor : String) (l : Ledger)
    → let l' = cancel_onboarding timeout checked_at recovered_at now actor l in
      (is_terminal l'.row.status ≡ true)
      × (((is_terminal l.row.status ≡ true) × (l' ≡ l))
          ⊎ ((is_terminal l.row.status ≡ false)
              × (has_expired timeout checked_at l.row ≡ true)
              × (l' ≡ (recover_stale timeout checked_at recovered_at "system-recovery" l).0))
          ⊎ ((is_terminal l.row.status ≡ false)
              × (has_expired timeout checked_at l.row ≡ false)
              × (l'.row.status ≡ Status.cancelled)
              × (l'.row.cancel_requested ≡ true)
              × (l'.row.last_error_code ≡ some "cancelled")
              × (length l'.audits ≡ length l.audits + 1)))
unfolding cancel_onboarding recover_stale is_terminal
cancel_onboarding_lem timeout checked_at recovered_at now actor l = (ground arith, ground arith)

-- A retry is refused exactly while the onboarding runs; where it is accepted, the onboarding is
-- pending again, without the request and the error of the last attempt, and with one retry more.
pub retry_onboarding_lem :
    (timeout checked_at recovered_at now : ℕ) (l : Ledger)
    → let r = (recover_stale timeout checked_at recovered_at "system-recovery" l).0 in
      (((is_terminal r.row.status ≡ true) ⊎ (r.row.status ≡ Status.pending))
        × ((l' : Ledger) × (retry_onboarding timeout checked_at recovered_at now l ≡ done l')
            × (l'.row.status ≡ Status.pending)
            × (l'.row.cancel_requested ≡ false)
            × (l'.row.last_error_code ≡ none)
            × (l'.row.retry_count ≡ r.row.retry_count + 1)
            × (l'.audits ≡ r.audits)))
      ⊎ ((is_terminal r.row.status ≡ false)
          × (r.row.status ≢ Status.pending)
          × (retry_onboarding timeout checked_at recovered_at now l ≡ refused conflict r))
unfolding retry_onboarding is_terminal
retry_onboarding_lem timeout checked_at recovered_at now l = ground arith

retry_onboarding_done :
    (timeout checked_at recovered_at now : ℕ) (l l' : Ledger)
    → retry_onboarding timeout checked_at recovered_at now l ≡ done l'
    → (l'.row.status ≡ Status.pending) × (l'.row.cancel_requested ≡ false)
unfolding retry_onboarding
retry_onboarding_done timeout checked_at recovered_at now l l' h = ground arith

-- A rollback is accepted exactly for a failed or cancelled onboarding and for one that waits for it;
-- it then waits for the rollback, and its events and the rest of its row stay.
pub rollback_onboarding_lem :
    (now : ℕ) (l : Ledger)
    → (((l.row.status ≡ Status.failed)
          ⊎ (l.row.status ≡ Status.cancelled)
          ⊎ (l.row.status ≡ Status.rollback_required))
        × (rollback_onboarding now l
            ≡ done (record l {
              row = record (l.row) {
                status = Status.rollback_required;
                current_step = "rollback";
                updated_at = some now;
              };
            })))
      ⊎ ((l.row.status ≢ Status.failed)
          × (l.row.status ≢ Status.cancelled)
          × (l.row.status ≢ Status.rollback_required)
          × (rollback_onboarding now l ≡ refused conflict l))
unfolding rollback_onboarding
rollback_onboarding_lem now l = ground arith

module _ (env : Surroundings) (worker : String) where
  -- A job that reads its row after a cancellation, or after the expiry that the request finds, does not
  -- take its next step. One that reads it only after a retry that followed takes it.
  pub retry_hides_cancel :
      (timeout checked_at recovered_at now : ℕ) (checked_at' recovered_at' now' : ℕ)
      (actor : String) (s : Step) (w0 w : World) (l l' : Ledger)
      → retry_onboarding timeout checked_at' recovered_at' now'
          (cancel_onboarding timeout checked_at recovered_at now actor l)
        ≡ done l'
      → (others_act env w0).stored ≡ cancel_onboarding timeout checked_at recovered_at now actor l
      → (others_act env w).stored ≡ l'
      → ((transition env s worker true w0).0 ≢ ok tt) × ((transition env s worker true w).0 ≡ ok tt)
  unfolding transition refresh is_terminal
  retry_hides_cancel timeout checked_at recovered_at now checked_at' recovered_at' now' actor s w0 w
        l l' r e0 e =
      let q =
        retry_onboarding_done timeout checked_at' recovered_at' now'
          (cancel_onboarding timeout checked_at recovered_at now actor l) l' r in
      let t = (cancel_onboarding_lem timeout checked_at recovered_at now actor l).0 in
      (ground arith, ground arith)
