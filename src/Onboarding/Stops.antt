-- ===== src/Onboarding/Stops.antt =====
-- When a job stops: cancellations and expiries as its steps see them, and the instants at which they
-- are lost.
use superflash_ia.Prelude.{
  String, Bool, true, false, ◌≡◌, ◌≢◌, refl, ◌&&◌, ◌⊎◌, arith, Option, some, if◌then◌else◌,
}
use superflash_ia.Ssh.Catalogue.{check_exporter_version}
use superflash_ia.Onboarding.Types.{Status, is_terminal, Step, step_status, step_progress}
use superflash_ia.Onboarding.Job.{
  Surroundings, operation, raised, absent, World, ok, others_act, refresh, send, commit, close,
  ◌>>=◌,
}
use superflash_ia.Onboarding.Steps.{take_step, transition, fail, is_stop_code}
use superflash_ia.Onboarding.Run.{prepare, finalise, complete, onboard, handle, run}
use superflash_ia.Onboarding.Terminal.{act_all_terminal}

module _ (env : Surroundings) (actor : String) where
  -- A step is taken exactly where the row that the database holds at that moment is neither terminal
  -- nor cancelled; otherwise nothing is stored and the job stops at an error.
  pub transition_iff :
      (s : Step) (b : Bool) (w : World)
      → let now = others_act env w in
        (((transition env s actor b w).0 ≡ ok tt)
          × (is_terminal now.stored.row.status ≡ false)
          × (now.stored.row.cancel_requested ≡ false)
          × ((transition env s actor b w).1.stored.row.status ≡ step_status s)
          × ((transition env s actor b w).1.stored.row.progress_percent ≡ step_progress s))
        ⊎ (((transition env s actor b w).0 ≢ ok tt)
            × ((is_terminal now.stored.row.status ≡ true)
                ⊎ (now.stored.row.cancel_requested ≡ true))
            × ((transition env s actor b w).1.stored ≡ now.stored))
  unfolding transition refresh take_step commit
  transition_iff s b w = ground arith

  -- A job whose onboarding is terminal when it starts sends nothing to the host, unless a retry starts
  -- it again before the job reads it: other sessions only cancel, expire and remove.
  pub run_terminal_sends_nothing :
      (w : World)
      → is_terminal w.stored.row.status ≡ true
      → (run env actor true w).exchanges ≡ w.exchanges
  unfolding run close onboard prepare transition refresh others_act ◌>>=◌ handle fail commit
  run_terminal_sends_nothing w h =
      let t : is_terminal (others_act env w).stored.row.status ≡ true =
        act_all_terminal (env.others w.turns) w.stored h in
      ground arith

  -- A job that has nothing else to commit completes the onboarding although its cancellation is stored
  -- since the last check, and the marks of the cancellation stay.
  pub complete_over_cancel :
      (w : World)
      → w.unsaved ≡ (λ r. r)
      → w.stored.row.cancel_requested ≡ true
      → let s = (complete env actor w).stored.row in
        (s.status ≡ Status.completed)
        × (s.cancel_requested ≡ true)
        × (s.last_error_code ≡ w.stored.row.last_error_code)
  unfolding complete commit
  complete_over_cancel w u h = rw u (refl, h, refl)

  -- Without a management key, if the last check of the exporter's version raises, and neither a
  -- cancellation nor an expiry had ended the job, the failure is stored together with what the job had
  -- assigned to its server: the onboarding waits for a rollback or is failed, and its server is
  -- enabled.
  pub finalise_failure_enables :
      (fingerprint : Option String) (w : World) {code : String}
      → env.management_key ≡ absent
      → env.reply w.exchanges (operation check_exporter_version false) ≡ raised code
      → (is_terminal w.row.status && is_stop_code w.row.last_error_code) ≡ false
      → let (outcome, w') = finalise env actor fingerprint w in
        let f = close (handle env actor outcome w') in
        (f.stored_server.enabled ≡ true)
        × (f.stored.row.status ≡ (if w.installed then Status.rollback_required else Status.failed))
        × (f.stored.row.last_error_code ≡ some code)
  unfolding finalise close handle fail commit send others_act ◌>>=◌
  finalise_failure_enables fingerprint w k r h = rw (k, r, h) (refl, refl, refl)
