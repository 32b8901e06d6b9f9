-- ===== src/Onboarding/Rollback.antt =====
-- `OnboardingService.rollback`: what a job installed is removed.
use superflash_ia.Prelude.{ℕ, String, ⊤, Bool, false, ◌&&◌, some, string_eq, if◌then◌else◌}
use superflash_ia.Ssh.Catalogue.{check_exporter, check_exporter_version, SshCommandResult}
use superflash_ia.Ssh.Catalogue
use superflash_ia.Onboarding.Types.{Status, ServerStatus, Onboarding, Server}
use superflash_ia.Onboarding.Texts.{safe_error}
use superflash_ia.Onboarding.Api.{event_for}
use superflash_ia.Onboarding.Job.{
  Surroundings, script, removal, World, Job, Outcome, ok, error, crash, ◌>>=◌, ◌>>◌, assign,
  add_audit, commit, close, send, now, tick,
}
use superflash_ia.Onboarding.Run.{connect, edit_server, remove_script, firewall_script}

module _ (env : Surroundings) (actor : String) where
  -- The rows that a rollback assigns.
  abbrev pub rolled_back : Bool → ℕ → Onboarding → Onboarding
  rolled_back removed at r = record r {
    status = if removed then Status.failed else Status.rollback_required;
    current_step = "rollback";
    updated_at = some at;
  }

  abbrev pub disable : Server → Server
  disable s = record s { enabled = false; status = ServerStatus.unknown }

  abbrev rollback_text : Bool → String
  rollback_text removed =
      if removed
      then "Componentes de SuperFlash retirados; reglas gestionadas revisadas."
      else safe_error "rollback_failed"

  -- What `rollback` stores once both scripts have ended.
  unfoldable pub finish_rollback : Bool → World → World
  finish_rollback removed w =
      let w' = edit_server disable (assign (rolled_back removed (now env w)) (tick env w)) in
      let event = event_for w'.row actor "rollback" removed (rollback_text removed) (now env w') in
      commit (add_audit event (tick env w'))

  unfoldable pub remove_components : Job ⊤
  remove_components = do
    connect env actor env.connection
    exporter ← send env (script remove_script)
    firewall ← send env (removal firewall_script)
    λ w. (ok tt, finish_rollback (Catalogue.ok exporter && Catalogue.ok firewall) w)

  -- The handler of `rollback`: another exception is not caught.
  unfoldable pub handle_rollback : Outcome ⊤ → World → World
  handle_rollback (ok _) w = w
  handle_rollback (error code) w = commit (
      assign (λ r. record r { status = Status.rollback_required; updated_at = some (now env w) })
        (tick env w))
  handle_rollback crash w = w

  -- `rollback`, where the onboarding and its server are found.
  unfoldable pub rollback : World → World
  rollback w = let (outcome, w') = remove_components w in close (handle_rollback outcome w')
