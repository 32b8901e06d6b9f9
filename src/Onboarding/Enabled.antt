-- ===== src/Onboarding/Enabled.antt =====
-- Up to the end of the provisioning a job leaves its server disabled, and it goes on only where the
-- host has confirmed the firewall and the exporter.
use superflash_ia.Prelude.{
  suc, String, Bool, true, false, ◌≡◌, refl, ◌&&◌, ◌||◌, inl, inr, List, [], ◌∷◌, arith, truthy,
  not, Bool-cases, ◌==◌, string_eq,
}
use superflash_ia.Ssh.Catalogue.{check_exporter, SshOperation}
use superflash_ia.Ssh.Catalogue
use superflash_ia.Ssh.Inventory.{RemoteInventory}
use superflash_ia.Onboarding.Types.{Step}
use superflash_ia.Onboarding.Job.{
  Surroundings, Command, operation, script, removal, Reply, answered, raised, crashed, Exchange,
  World, Job, others_act, refresh, answer, send, commit, raise_unless,
}
use superflash_ia.Onboarding.Steps.{take_step, transition}
use superflash_ia.Onboarding.Precheck.{register_inventory, store_inventory, has_interface}
use superflash_ia.Onboarding.Run.{firewall_script, install, provision}
use superflash_ia.Onboarding.Postconditions.{
  Keeps, keeps, Keeps->>=, Keeps-raise_unless, Ends, Triple, triple, Triple->>=, Triple-Keeps,
}
use superflash_ia.Onboarding.Stable.{
  IsStable, ensure_exporter-Keeps, transition-Keeps, check_cancel-Keeps,
}

abbrev is_exporter_check : SshOperation → Bool
is_exporter_check check_exporter = true
is_exporter_check _ = false

abbrev pub sets_firewall : Command → Bool
sets_firewall (script name) = name == firewall_script
sets_firewall (operation _ _) = false
sets_firewall (removal _) = false

abbrev pub checks_exporter : Command → Bool
checks_exporter (operation op _) = is_exporter_check op
checks_exporter (script _) = false
checks_exporter (removal _) = false

abbrev confirmed_by : (Command → Bool) → Exchange → Bool
confirmed_by p (c, answered r) = p c && Catalogue.ok r
confirmed_by p (c, raised _) = false
confirmed_by p (c, crashed) = false

-- The host has answered such a command with success.
abbrev pub has_confirmed : (Command → Bool) → List Exchange → Bool
has_confirmed p [] = false
has_confirmed p (e ∷ es) = confirmed_by p e || has_confirmed p es

abbrev pub IsDisabled : World → Type 0
IsDisabled w = (w.stored_server.enabled ≡ false) × (w.server.enabled ≡ false)

-- The host has confirmed the firewall and an exporter that answers.
abbrev pub IsVerified : World → Type 0
IsVerified w =
    (has_confirmed sets_firewall w.exchanges ≡ true)
    × (has_confirmed checks_exporter w.exchanges ≡ true)

-- Disabled, and confirmed as far as the two answers `f` and `v` say.
abbrev pub IsDisabledWith : Bool → Bool → World → Type 0
IsDisabledWith f v w =
    IsDisabled w
    × (f ≡ true → has_confirmed sets_firewall w.exchanges ≡ true)
    × (v ≡ true → has_confirmed checks_exporter w.exchanges ≡ true)

pub more_confirmed :
    (p : Command → Bool) (e : Exchange) (es : List Exchange)
    → has_confirmed p es ≡ true
    → has_confirmed p (e ∷ es) ≡ true
more_confirmed p e es h = ground arith

module _ (env : Surroundings) (actor : String) where
  module _ (f v : Bool) where
    send-IsDisabledWith : (c : Command) → Keeps (IsDisabledWith f v) (send env c)
    unfolding send others_act
    send-IsDisabledWith c = keeps (λ w p. lem (env.reply w.exchanges c) w p)
      where
        lem :
            (r : Reply) (w : World)
            → IsDisabledWith f v w
            → IsDisabledWith f v
                (answer env c r (record w {
                  stored = (others_act env w).stored;
                  turns = suc w.turns;
                  exchanges = (c, r) ∷ w.exchanges;
                })).1
        lem (answered x) w p = (
          p.0,
          λ h. more_confirmed sets_firewall (c, answered x) w.exchanges (p.1 h),
          λ h. more_confirmed checks_exporter (c, answered x) w.exchanges (p.2 h),
        )
        lem (raised x) w p = p
        lem crashed w p = p

    install-IsDisabledWith : Keeps (IsDisabledWith f v) (install env actor)
    unfolding install
    install-IsDisabledWith =
        Keeps->>= _ (send-IsDisabledWith _)
          (λ r. Keeps->>= _ (Keeps-raise_unless _ _ _) (λ _. keeps (λ w p. p)))

    register-IsDisabledWith :
        (i : RemoteInventory) → Keeps (IsDisabledWith f v) (register_inventory env actor i)
    unfolding register_inventory store_inventory
    register-IsDisabledWith i = keeps (λ w p.
        elim (Bool-cases (
          truthy w.server.network_interface
          && not (has_interface w.server.network_interface i.interfaces))) [
            | inl e ↦ rw e p
            | inr e ↦ rw e p
          ])

    pub IsDisabledWith-stable : IsStable env actor (IsDisabledWith f v)
    unfolding refresh others_act take_step commit register_inventory store_inventory
    IsDisabledWith-stable = record {
      on_refresh = λ w p. p;
      on_send = λ c _. send-IsDisabledWith c;
      on_step = λ s b w p. ((p.0.1, p.0.1), p.1, p.2);
      on_install = install-IsDisabledWith;
      on_register = register-IsDisabledWith;
    }

  -- Nothing is asked where the answer was no.
  raise_unless-first :
      (f v : Bool) (code : String)
      → Triple
          (IsDisabledWith f v)
          (raise_unless f code)
          (λ _. IsDisabledWith true v)
          (IsDisabledWith false false)
  raise_unless-first true v code = triple (λ w p. p)
  raise_unless-first false v code = triple (λ w p. (p.0, λ h. cc, λ h. cc))

  raise_unless-second :
      (f v : Bool) (code : String)
      → Triple
          (IsDisabledWith f v)
          (raise_unless v code)
          (λ _. IsDisabledWith f true)
          (IsDisabledWith false false)
  raise_unless-second f true code = triple (λ w p. p)
  raise_unless-second f false code = triple (λ w p. (p.0, λ h. cc, λ h. cc))

  forget : (f v : Bool) (w : World) → IsDisabledWith f v w → IsDisabledWith false false w
  forget f v w p = (p.0, λ h. cc, λ h. cc)

  pub kept :
      (f v : Bool) {A : Type 0} {m : Job A}
      → Keeps (IsDisabledWith f v) m
      → Triple (IsDisabledWith f v) m (λ _. IsDisabledWith f v) (IsDisabledWith false false)
  kept f v k = Triple-Keeps (forget f v) k

  answer-first :
      (v : Bool) (c : Command) (r : Reply) (w : World)
      → sets_firewall c ≡ true
      → IsDisabledWith false v w
      → Ends
          (λ a. IsDisabledWith (Catalogue.ok a) v)
          (IsDisabledWith false false)
          (answer env c r (record w { exchanges = (c, r) ∷ w.exchanges }))
  answer-first v c (answered x) w h p = (
    p.0,
    λ k. rw (h, k) refl,
    λ k. more_confirmed checks_exporter (c, answered x) w.exchanges (p.2 k),
  )
  answer-first v c (raised x) w h p = (p.0, λ k. cc, λ k. cc)
  answer-first v c crashed w h p = (p.0, λ k. cc, λ k. cc)

  answer-second :
      (f : Bool) (c : Command) (r : Reply) (w : World)
      → checks_exporter c ≡ true
      → IsDisabledWith f false w
      → Ends
          (λ a. IsDisabledWith f (Catalogue.ok a))
          (IsDisabledWith false false)
          (answer env c r (record w { exchanges = (c, r) ∷ w.exchanges }))
  answer-second f c (answered x) w h p = (
    p.0,
    λ k. more_confirmed sets_firewall (c, answered x) w.exchanges (p.1 k),
    λ k. rw (h, k) refl,
  )
  answer-second f c (raised x) w h p = (p.0, λ k. cc, λ k. cc)
  answer-second f c crashed w h p = (p.0, λ k. cc, λ k. cc)

  send-first :
      (v : Bool) (c : Command)
      → sets_firewall c ≡ true
      → Triple
          (IsDisabledWith false v)
          (send env c)
          (λ a. IsDisabledWith (Catalogue.ok a) v)
          (IsDisabledWith false false)
  unfolding send others_act
  send-first v c h =
      triple (λ w p. answer-first v c (env.reply w.exchanges c) (others_act env w) h p)

  send-second :
      (f : Bool) (c : Command)
      → checks_exporter c ≡ true
      → Triple
          (IsDisabledWith f false)
          (send env c)
          (λ a. IsDisabledWith f (Catalogue.ok a))
          (IsDisabledWith false false)
  unfolding send others_act
  send-second f c h =
      triple (λ w p. answer-second f c (env.reply w.exchanges c) (others_act env w) h p)

  step-kept :
      (f v : Bool) (s : Step) (b : Bool)
      → Triple
          (IsDisabledWith f v)
          (transition env s actor b)
          (λ _. IsDisabledWith f v)
          (IsDisabledWith false false)
  step-kept f v s b =
      kept f v (transition-Keeps env actor (IsDisabledWith f v) (IsDisabledWith-stable f v) s b)

  pub provision-confirms :
      Triple
        (IsDisabledWith false false)
        (provision env actor)
        (λ _. IsDisabledWith true true)
        (IsDisabledWith false false)
  unfolding provision
  provision-confirms =
      let st : IsStable env actor (IsDisabledWith false false) =
        IsDisabledWith-stable false false in
      Triple->>= (λ _. IsDisabledWith false false)
        (kept false false (send-IsDisabledWith false false _))
        (λ e.
          Triple->>= (λ _. IsDisabledWith false false) (step-kept false false _ _)
            (λ _.
              Triple->>= (λ _. IsDisabledWith false false)
                (kept false false (ensure_exporter-Keeps env actor _ st _))
                (λ _.
                  Triple->>= (λ _. IsDisabledWith false false)
                    (kept false false (check_cancel-Keeps env actor _ st))
                    (λ _.
                      Triple->>= (λ r. IsDisabledWith (Catalogue.ok r) false)
                        (send-first false _ refl)
                        (λ r.
                          Triple->>= (λ _. IsDisabledWith (Catalogue.ok r) false)
                            (step-kept (Catalogue.ok r) false _ _)
                            (λ _.
                              Triple->>= (λ _. IsDisabledWith true false)
                                (raise_unless-first (Catalogue.ok r) false _)
                                (λ _.
                                  Triple->>= (λ x. IsDisabledWith true (Catalogue.ok x))
                                    (send-second true _ refl)
                                    (λ x.
                                      Triple->>= (λ _. IsDisabledWith true (Catalogue.ok x))
                                        (step-kept true (Catalogue.ok x) _ _)
                                        (λ _. raise_unless-second true (Catalogue.ok x) _)))))))))
