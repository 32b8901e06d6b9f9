-- ===== src/Onboarding/Installed.antt =====
-- Whether a failed job needs a rollback is whether it installed the exporter.
use superflash_ia.Prelude.{
  suc, String, Bool, true, false, ◌≡◌, refl, ◌&&◌, ◌||◌, List, [], ◌∷◌, arith, some, if◌then◌else◌,
}
use superflash_ia.Ssh.Catalogue
use superflash_ia.Onboarding.Types.{is_terminal, failed, rollback_required}
use superflash_ia.Onboarding.Texts.{safe_error}
use superflash_ia.Onboarding.Job.{
  Surroundings, Command, Reply, answered, raised, crashed, Exchange, World, error, others_act,
  refresh, answer, send, commit, close, ◌>>=◌,
}
use superflash_ia.Onboarding.Steps.{is_stop_code, take_step, fail}
use superflash_ia.Onboarding.Precheck.{register_inventory, store_inventory}
use superflash_ia.Onboarding.Run.{install, installs, complete, onboard, handle, run}
use superflash_ia.Onboarding.Postconditions.{Keeps, keeps, Keeps-use}
use superflash_ia.Onboarding.Stable.{IsStable, IsStableAtEnd, onboard-Keeps}

abbrev installed_by : Exchange → Bool
installed_by (c, answered r) = installs c && Catalogue.ok r
installed_by (c, raised _) = false
installed_by (c, crashed) = false

-- The host has answered that an installation succeeded.
abbrev pub has_installed : List Exchange → Bool
has_installed [] = false
has_installed (e ∷ es) = installed_by e || has_installed es

-- The local variable says what the host answered.
abbrev pub IsMarked : World → Type 0
IsMarked w = w.installed ≡ has_installed w.exchanges

module _ (env : Surroundings) (actor : String) where
  send-IsMarked : (c : Command) → installs c ≡ false → Keeps IsMarked (send env c)
  unfolding send others_act
  send-IsMarked c h = keeps (λ w p. lem (env.reply w.exchanges c) w p)
    where
      lem :
          (r : Reply) (w : World)
          → IsMarked w
          → IsMarked
              (answer env c r (record w {
                stored = (others_act env w).stored;
                turns = suc w.turns;
                exchanges = (c, r) ∷ w.exchanges;
              })).1
      lem (answered x) w p = rw h p
      lem (raised x) w p = p
      lem crashed w p = p

  install-IsMarked : Keeps IsMarked (install env actor)
  unfolding install send others_act ◌>>=◌
  install-IsMarked = keeps (λ w p. ground arith)

  IsMarked-stable : IsStable env actor IsMarked
  unfolding refresh others_act take_step commit register_inventory store_inventory
  IsMarked-stable = record {
    on_refresh = λ w p. p;
    on_send = send-IsMarked;
    on_step = λ s b w p. ground arith;
    on_install = install-IsMarked;
    on_register = λ i. keeps (λ w p. ground arith);
  }

  IsMarked-stable_end : IsStableAtEnd env actor IsMarked
  unfolding complete commit
  IsMarked-stable_end = record { on_edit = λ f w p. p; on_tick = λ w p. p; on_complete = λ w p. p }

  fail_marked :
      (code : String) (w : World)
      → IsMarked w
      → (is_terminal w.row.status && is_stop_code w.row.last_error_code) ≡ false
      → let f = fail env code actor w.installed w in
        (f.stored.row.status ≡ (if has_installed w.exchanges then rollback_required else failed))
        × (f.stored.row.last_error_code ≡ some code)
        × (f.stored.row.last_error_message_sanitized ≡ some (safe_error code))
  unfolding fail commit
  fail_marked code w p h = rw h (rw p (refl, refl, refl))

  -- From a state whose mark of an installation agrees with the exchanges: where a job stops at an
  -- error, and neither a cancellation nor an expiry had ended it before, its onboarding waits for a
  -- rollback if the host has confirmed an installation, and is failed otherwise; the code of the error
  -- and its catalogued text are stored.
  pub run_marks_install :
      (code : String) (w : World)
      → IsMarked w
      → (onboard env actor w).0 ≡ error code
      → let w' = (onboard env actor w).1 in
        let f = run env actor true w in
        (is_terminal w'.row.status && is_stop_code w'.row.last_error_code) ≡ false
        → (f.stored.row.status ≡ (if has_installed w'.exchanges then rollback_required else failed))
          × (f.stored.row.last_error_code ≡ some code)
          × (f.stored.row.last_error_message_sanitized ≡ some (safe_error code))
  unfolding run close handle
  run_marks_install code w p e h =
      rw (e, handle)
        (fail_marked code (onboard env actor w).1
          (Keeps-use IsMarked (onboard-Keeps env actor IsMarked IsMarked-stable IsMarked-stable_end)
            w p)
          h)
