-- ===== src/Onboarding/Terminal.antt =====
-- A job always leaves its onboarding in a terminal status.
use superflash_ia.Prelude.{String, ⊤, Bool, true, false, ◌≡◌, refl, ◌∷◌, List, [], arith, Option}
use superflash_ia.Ssh.Inventory.{RemoteInventory}
use superflash_ia.Onboarding.Types.{is_terminal, Step, Ledger}
use superflash_ia.Onboarding.Api.{Action, cancel, recover, remove_server, act}
use superflash_ia.Onboarding.Job.{
  Surroundings, Command, Reply, answered, raised, crashed, World, Outcome, ok, error, crash,
  act_all, others_act, refresh, answer, send, commit, close,
}
use superflash_ia.Onboarding.Steps.{take_step, fail}
use superflash_ia.Onboarding.Precheck.{register_inventory, store_inventory}
use superflash_ia.Onboarding.Run.{install, complete, finalise, onboard, handle, run}
use superflash_ia.Onboarding.Postconditions.{
  Keeps, keeps, Keeps-use, Keeps->>=, Keeps-raise_unless, IfOk, Yields, yields, Yields-use,
  Yields->>=,
}
use superflash_ia.Onboarding.Stable.{IsStable, IsStableAtEnd, onboard-Keeps}

-- What another session commits never takes a terminal onboarding back to work.
pub act_terminal :
    (a : Action) (l : Ledger)
    → is_terminal l.row.status ≡ true
    → is_terminal (act a l).row.status ≡ true
unfolding act is_terminal
act_terminal (cancel timeout checked_at recovered_at now actor) l h = ground arith
act_terminal (recover timeout checked_at now actor) l h = ground arith
act_terminal (remove_server now actor) l h = ground arith

pub act_all_terminal :
    (as' : List Action) (l : Ledger)
    → is_terminal l.row.status ≡ true
    → is_terminal (act_all as' l).row.status ≡ true
act_all_terminal [] l h = h
act_all_terminal (a ∷ as') l h = act_all_terminal as' (act a l) (act_terminal a l h)

-- The session has no assignment pending, and knows of no end that the database does not.
pub record IsConsistent (w : World) : Type 0 where
  pub saved : w.unsaved ≡ (λ r. r)
  pub known : is_terminal w.row.status ≡ true → is_terminal w.stored.row.status ≡ true

abbrev HasEnded : World → Type 0
HasEnded w = is_terminal w.stored.row.status ≡ true

module _ (env : Surroundings) (actor : String) where
  others-IsConsistent : (w : World) → IsConsistent w → IsConsistent (others_act env w)
  unfolding others_act
  others-IsConsistent w c = record {
    saved = c.saved;
    known = λ h. act_all_terminal (env.others w.turns) w.stored (c.known h);
  }

  refresh-IsConsistent : (w : World) → IsConsistent w → IsConsistent (refresh env w)
  unfolding refresh
  refresh-IsConsistent w c = record { saved = refl; known = λ h. h }

  send-IsConsistent : (c : Command) → Keeps IsConsistent (send env c)
  unfolding send
  send-IsConsistent c = keeps (λ w p.
      let q : IsConsistent (others_act env w) = others-IsConsistent w p in
      let r : Reply = env.reply (others_act env w).exchanges c in
      let e : List (Command × Reply) = (c, r) ∷ (others_act env w).exchanges in
      lem r (record (others_act env w) { exchanges = e })
        (record { saved = q.saved; known = q.known }))
    where
      lem : (r : Reply) (w : World) → IsConsistent w → IsConsistent (answer env c r w).1
      lem (answered x) w p = p
      lem (raised x) w p = p
      lem crashed w p = p

  step-IsConsistent :
      (s : Step) (b : Bool) (w : World) → IsConsistent w → IsConsistent (take_step env s actor b w)
  unfolding take_step commit
  step-IsConsistent s b w c = record { saved = refl; known = λ h. h }

  install-IsConsistent : Keeps IsConsistent (install env actor)
  unfolding install
  install-IsConsistent = Keeps->>= IsConsistent (send-IsConsistent _) (λ r.
      Keeps->>= IsConsistent (Keeps-raise_unless IsConsistent _ _)
        (λ _. keeps (λ w p. record { saved = p.saved; known = p.known })))

  register-IsConsistent :
      (i : RemoteInventory) → Keeps IsConsistent (register_inventory env actor i)
  unfolding register_inventory store_inventory
  register-IsConsistent i = keeps (λ w p. ground arith)

  IsConsistent-stable : IsStable env actor IsConsistent
  IsConsistent-stable = record {
    on_refresh = refresh-IsConsistent;
    on_send = λ c _. send-IsConsistent c;
    on_step = step-IsConsistent;
    on_install = install-IsConsistent;
    on_register = register-IsConsistent;
  }

  complete-IsConsistent : (w : World) → IsConsistent w → IsConsistent (complete env actor w)
  unfolding complete commit
  complete-IsConsistent w p = record { saved = refl; known = λ h. h }

  IsConsistent-stable_end : IsStableAtEnd env actor IsConsistent
  IsConsistent-stable_end = record {
    on_edit = λ f w p. record { saved = p.saved; known = p.known };
    on_tick = λ w p. record { saved = p.saved; known = p.known };
    on_complete = complete-IsConsistent;
  }

  -- Where the job returns, the database holds its end.
  finalise_ended : (f : Option String) → Yields HasEnded (finalise env actor f)
  unfolding finalise complete commit is_terminal
  finalise_ended f = Yields->>= HasEnded _ _ (λ _. Yields->>= HasEnded _ _ (λ _.
      Yields->>= HasEnded _ _ (λ _.
        Yields->>= HasEnded _ _
          (λ _. Yields->>= HasEnded _ _ (λ _. Yields->>= HasEnded _ _ (λ _. yields (λ w. refl)))))))

  onboard_ended : Yields HasEnded (onboard env actor)
  unfolding onboard
  onboard_ended =
      Yields->>= HasEnded _ _
        (λ _. Yields->>= HasEnded _ _ (λ _. Yields->>= HasEnded _ _ (λ _. finalise_ended _)))

  -- However the job ends, the handlers store an end.
  fail_ended :
      (code : String) (b : Bool) (w : World) → IsConsistent w → HasEnded (fail env code actor b w)
  unfolding fail commit is_terminal
  fail_ended code b w p = let k = p.known in ground arith

  handle_ended :
      (r : Outcome ⊤) (w : World)
      → IsConsistent w
      → IfOk HasEnded (r, w)
      → HasEnded (handle env actor r w)
  unfolding handle
  handle_ended (ok _) w p h = h
  handle_ended (error code) w p h = fail_ended code w.installed w p
  handle_ended crash w p h = fail_ended "internal_error" w.installed w p

  -- Whatever the host answers, whichever command fails, and whatever cancellations, expiries and removals
  -- of its server other sessions commit while it runs (they do not start it again by a retry or a
  -- rollback), a job that starts from a session in line with the database, and whose own commits do not
  -- fail, leaves its onboarding completed, failed, cancelled or waiting for a rollback.
  pub run_terminal :
      (found : Bool) (w : World)
      → IsConsistent w
      → is_terminal (run env actor found w).stored.row.status ≡ true
  unfolding run close
  run_terminal true w p =
      handle_ended (onboard env actor w).0 (onboard env actor w).1
        (Keeps-use IsConsistent
          (onboard-Keeps env actor IsConsistent IsConsistent-stable IsConsistent-stable_end) w p)
        (Yields-use HasEnded onboard_ended w)
  run_terminal false w p = fail_ended "internal_error" false w p
