-- ===== src/Onboarding/Verified.antt =====
-- A job enables its server only after the firewall is set and the exporter answers.
use superflash_ia.Prelude.{
  String, ⊤, Bool, true, false, ◌≡◌, refl, ◌⊎◌, inl, inr, ◌∷◌, arith, Option,
}
use superflash_ia.Onboarding.Job.{
  Surroundings, Command, Reply, answered, raised, crashed, World, Job, Outcome, ok, error, crash,
  others_act, refresh, answer, send, commit, close,
}
use superflash_ia.Onboarding.Steps.{take_step, fail}
use superflash_ia.Onboarding.Precheck.{register_inventory, store_inventory}
use superflash_ia.Ssh.Inventory.{RemoteInventory}
use superflash_ia.Onboarding.Run.{install, complete, finalise, onboard, handle, run}
use superflash_ia.Onboarding.Postconditions.{
  Keeps, keeps, Keeps-use, Keeps->>=, Keeps-raise_unless, Ends, Triple, triple, Triple-use,
  Triple->>=,
}
use superflash_ia.Onboarding.Stable.{
  IsStable, IsStableAtEnd, prepare-Keeps, register-Keeps, finalise-Keeps,
}
use superflash_ia.Onboarding.Enabled.{
  sets_firewall, checks_exporter, more_confirmed, IsDisabled, IsVerified, IsDisabledWith,
  IsDisabledWith-stable, provision-confirms, kept,
}

-- Where the server may be enabled, the host has confirmed.
abbrev IsGuarded : World → Type 0
IsGuarded w = IsDisabled w ⊎ IsVerified w

module _ (env : Surroundings) (actor : String) where
  send-IsVerified : (c : Command) → Keeps IsVerified (send env c)
  unfolding send others_act
  send-IsVerified c = keeps (λ w p. lem (env.reply w.exchanges c) (others_act env w) p)
    where
      lem :
          (r : Reply) (w : World)
          → IsVerified w
          → IsVerified (answer env c r (record w { exchanges = (c, r) ∷ w.exchanges })).1
      lem (answered x) w p = (
        more_confirmed sets_firewall (c, answered x) w.exchanges p.0,
        more_confirmed checks_exporter (c, answered x) w.exchanges p.1,
      )
      lem (raised x) w p = p
      lem crashed w p = p

  install-IsVerified : Keeps IsVerified (install env actor)
  unfolding install
  install-IsVerified =
      Keeps->>= _ (send-IsVerified _)
        (λ r. Keeps->>= _ (Keeps-raise_unless _ _ _) (λ _. keeps (λ w p. p)))

  register-IsVerified : (i : RemoteInventory) → Keeps IsVerified (register_inventory env actor i)
  unfolding register_inventory store_inventory
  register-IsVerified i = keeps (λ w p. ground arith)

  IsVerified-stable : IsStable env actor IsVerified
  unfolding refresh others_act take_step commit
  IsVerified-stable = record {
    on_refresh = λ w p. p;
    on_send = λ c _. send-IsVerified c;
    on_step = λ s b w p. p;
    on_install = install-IsVerified;
    on_register = register-IsVerified;
  }

  IsVerified-stable_end : IsStableAtEnd env actor IsVerified
  unfolding complete commit
  IsVerified-stable_end = record {
    on_edit = λ f w p. p;
    on_tick = λ w p. p;
    on_complete = λ w p. p;
  }

  finalise-IsGuarded :
      (f : Option String)
      → Triple (IsDisabledWith true true) (finalise env actor f) (λ _. IsGuarded) IsGuarded
  finalise-IsGuarded f = triple (λ w p. lem (finalise env actor f w).0 (finalise env actor f w).1 (
      Keeps-use IsVerified
        (finalise-Keeps env actor IsVerified IsVerified-stable IsVerified-stable_end f) w
        (p.1 refl, p.2 refl)))
    where
      lem : (r : Outcome ⊤) (w : World) → IsVerified w → Ends (λ _. IsGuarded) IsGuarded (r, w)
      lem (ok _) w p = inr p
      lem (error c) w p = inr p
      lem crash w p = inr p

  weaken :
      {P : World → Type 0} {A : Type 0} {m : Job A} {Q : A → World → Type 0}
      → Triple P m Q (IsDisabledWith false false)
      → Triple P m Q IsGuarded
  weaken {m = m} {Q = Q} t = triple (λ w p. lem (m w).0 (m w).1 (Triple-use t w p))
    where
      lem :
          (r : Outcome _) (w : World)
          → Ends Q (IsDisabledWith false false) (r, w)
          → Ends Q IsGuarded (r, w)
      lem (ok a) w p = p
      lem (error c) w p = inl p.0
      lem crash w p = inl p.0

  onboard-IsGuarded :
      Triple (IsDisabledWith false false) (onboard env actor) (λ _. IsGuarded) IsGuarded
  unfolding onboard
  onboard-IsGuarded =
      Triple->>= (λ _. IsDisabledWith false false)
        (weaken (
          kept env actor false false
            (prepare-Keeps env actor _ (IsDisabledWith-stable env actor false false))))
        (λ found.
          Triple->>= (λ _. IsDisabledWith true true) (weaken (provision-confirms env actor))
            (λ _.
              Triple->>= (λ _. IsDisabledWith true true)
                (weaken (
                  kept env actor true true
                    (register-Keeps env actor _ (IsDisabledWith-stable env actor true true) _)))
                (λ _. finalise-IsGuarded _)))

  fail-IsGuarded :
      (b : Bool) (code : String) (w : World) → IsGuarded w → IsGuarded (fail env code actor b w)
  unfolding fail commit
  fail-IsGuarded b code w p = ground arith

  handle-IsGuarded :
      (r : Outcome ⊤) (w : World)
      → Ends (λ _. IsGuarded) IsGuarded (r, w)
      → IsGuarded (handle env actor r w)
  unfolding handle
  handle-IsGuarded (ok _) w p = p
  handle-IsGuarded (error c) w p = fail-IsGuarded w.installed c w p
  handle-IsGuarded crash w p = fail-IsGuarded w.installed "internal_error" w p

  IsGuarded-use : (w : World) → IsGuarded w → w.stored_server.enabled ≡ true → IsVerified w
  IsGuarded-use w (inl d) h = cc (d.0)
  IsGuarded-use w (inr v) h = v

  -- If a job that started with a disabled server ends with the server enabled in the database, the
  -- exchanges with the host then hold a successful configuration of the firewall and a successful
  -- check of the exporter.
  pub run_enables-IsVerified :
      (found : Bool) (w : World)
      → IsDisabled w
      → (run env actor found w).stored_server.enabled ≡ true
      → IsVerified (run env actor found w)
  unfolding run close
  run_enables-IsVerified true w d =
      IsGuarded-use (handle env actor (onboard env actor w).0 (onboard env actor w).1) (
        handle-IsGuarded (onboard env actor w).0 (onboard env actor w).1
          (Triple-use onboard-IsGuarded w (d, λ h. cc, λ h. cc)))
  run_enables-IsVerified false w d =
      IsGuarded-use (fail env "internal_error" actor false w)
        (fail-IsGuarded false "internal_error" w (inl d))
