-- ===== src/Onboarding/Removed.antt =====
-- How a rollback ends.
use superflash_ia.Prelude.{
  String, ⊤, Bool, false, ◌≡◌, refl, sym, ap, subst, ◌∙◌, ◌⊎◌, inl, inr, ◌&&◌, arith, List, [], ◌∷◌,
  ◌++◌,
}
use superflash_ia.Onboarding.Types.{Status, Ledger}
use superflash_ia.Onboarding.Api.{Action, act}
use superflash_ia.Onboarding.Job.{
  Surroundings, World, Outcome, ok, error, crash, commit, close, Job, after, ◌>>=◌, act_all,
  Command, script, removal, Reply, answered, raised, crashed, answer, send, others_act, Connection,
  opened, refused, broken,
}
use superflash_ia.Ssh.Catalogue
use superflash_ia.Onboarding.Postconditions.{IfOk, Yields, yields, Yields->>=, Yields-use}
use superflash_ia.Onboarding.Run.{connect, remove_script, firewall_script}
use superflash_ia.Onboarding.Rollback.{
  remove_components, finish_rollback, handle_rollback, rollback,
}

-- The other sessions acted, and nothing else was stored.
abbrev IsQuiet : World → World → Type 0
IsQuiet w w' =
    (w'.stored_server ≡ w.stored_server)
    × ((acts : List Action) × (w'.stored ≡ act_all acts w.stored))

act_all-++ : (xs ys : List Action) (l : Ledger) → act_all (xs ++ ys) l ≡ act_all ys (act_all xs l)
act_all-++ [] ys l = refl
act_all-++ (x ∷ xs) ys l = act_all-++ xs ys (act x l)

IsQuiet-trans : (w1 w2 w3 : World) → IsQuiet w1 w2 → IsQuiet w2 w3 → IsQuiet w1 w3
IsQuiet-trans w1 w2 w3 (s, (xs, h)) (t, (ys, k)) =
    (t ∙ s, (xs ++ ys, k ∙ ap (act_all ys) h ∙ sym (act_all-++ xs ys w1.stored)))

unfoldable IfCrash : {A : Type 0} → World → Outcome A × World → Type 0
IfCrash w (ok a, w') = Unit
IfCrash w (error code, w') = Unit
IfCrash w (crash, w') = IsQuiet w w'

bind-IfCrash :
    {A B : Type 0} (w : World) (r : Outcome A × World) (f : A → Job B)
    → IsQuiet w r.1
    → ((a : A) (w' : World) → IfCrash w' (f a w'))
    → IfCrash w (after r.0 f r.1)
unfolding IfCrash
bind-IfCrash {A} {B} w (ok a, w') f q k = go (f a w') (k a w')
  where
    go : (o : Outcome B × World) → IfCrash w' o → IfCrash w o
    go (ok b, x) h = tt
    go (error code, x) h = tt
    go (crash, x) h = IsQuiet-trans w w' x q h
bind-IfCrash w (error code, w') f q k = tt
bind-IfCrash w (crash, w') f q k = q

module _ (env : Surroundings) (actor : String) where
  connect-IsQuiet : (c : Connection) (w : World) → IsQuiet w (connect env actor c w).1
  connect-IsQuiet (opened fingerprint) w = (refl, ([], refl))
  connect-IsQuiet (refused code) w = (refl, ([], refl))
  connect-IsQuiet broken w = (refl, ([], refl))

  answer-IsQuiet :
      (c : Command) (r : Reply) (w w' : World) → IsQuiet w w' → IsQuiet w (answer env c r w').1
  answer-IsQuiet c (answered r) w w' q = q
  answer-IsQuiet c (raised code) w w' q = q
  answer-IsQuiet c crashed w w' q = q

  send-IsQuiet : (c : Command) (w : World) → IsQuiet w (send env c w).1
  unfolding send others_act
  send-IsQuiet c w =
      let w' = others_act env w in
      let r = env.reply w'.exchanges c in
      answer-IsQuiet c r w (record w' { exchanges = (c, r) ∷ w'.exchanges })
        (refl, (env.others w.turns, refl))

  remove_components-IsQuiet : (w : World) → IfCrash w (remove_components env actor w)
  unfolding remove_components ◌>>=◌ IfCrash
  remove_components-IsQuiet w =
      bind-IfCrash w (connect env actor env.connection w) _ (connect-IsQuiet env.connection w)
        (λ _ w1. bind-IfCrash w1 (send env (script remove_script) w1) _ (send-IsQuiet _ w1) (λ a w2.
          bind-IfCrash w2 (send env (removal firewall_script) w2) _ (send-IsQuiet _ w2)
            (λ b w3. tt)))

  -- Where both scripts have ended, the server is disabled, and the onboarding is failed or waits for
  -- another rollback.
  abbrev IsRemoved : World → Type 0
  IsRemoved w =
      (w.stored_server.enabled ≡ false)
      × ((w.stored.row.status ≡ Status.failed) ⊎ (w.stored.row.status ≡ Status.rollback_required))

  finish_rollback-IsRemoved :
      (removed : Bool) (w : World) → IsRemoved (finish_rollback env actor removed w)
  unfolding finish_rollback commit
  finish_rollback-IsRemoved removed w = ground arith

  remove_components-IsRemoved : Yields IsRemoved (remove_components env actor)
  unfolding remove_components
  remove_components-IsRemoved = Yields->>= IsRemoved _ _ (λ _. Yields->>= IsRemoved _ _ (λ a.
      Yields->>= IsRemoved _ _
        (λ b. yields (λ w. finish_rollback-IsRemoved (Catalogue.ok a && Catalogue.ok b) w))))

  -- A rollback in which both scripts end disables the server and leaves the onboarding failed or
  -- waiting for another rollback; one that an error of the connection or of a script ends leaves it
  -- waiting for a rollback; one that another exception ends leaves the server as it was, and the
  -- onboarding as the other sessions made it that acted meanwhile.
  pub rollback_lem :
      (w : World)
      → let outcome = (remove_components env actor w).0 in
        let f = rollback env actor w in
        ((outcome ≡ ok tt)
          × (f.stored_server.enabled ≡ false)
          × ((f.stored.row.status ≡ Status.failed)
              ⊎ (f.stored.row.status ≡ Status.rollback_required)))
        ⊎ ((code : String) × (outcome ≡ error code)
            × (f.stored.row.status ≡ Status.rollback_required))
        ⊎ ((outcome ≡ crash)
            × (f.stored_server ≡ w.stored_server)
            × ((acts : List Action) × (f.stored ≡ act_all acts w.stored)))
  unfolding rollback close handle_rollback commit IfCrash
  rollback_lem w = go (remove_components env actor w) refl
    where
      go :
          (r : Outcome ⊤ × World)
          → remove_components env actor w ≡ r
          → let f = close (handle_rollback env actor r.0 r.1) in
            ((r.0 ≡ ok tt)
              × (f.stored_server.enabled ≡ false)
              × ((f.stored.row.status ≡ Status.failed)
                  ⊎ (f.stored.row.status ≡ Status.rollback_required)))
            ⊎ ((code : String) × (r.0 ≡ error code)
                × (f.stored.row.status ≡ Status.rollback_required))
            ⊎ ((r.0 ≡ crash)
                × (f.stored_server ≡ w.stored_server)
                × ((acts : List Action) × (f.stored ≡ act_all acts w.stored)))
      go (ok tt, w') e =
          let r = subst (IfOk IsRemoved) e (Yields-use IsRemoved remove_components-IsRemoved w) in
          inl (refl, r.0, r.1)
      go (error code, w') e = inr (inl (code, refl, refl))
      go (crash, w') e =
          let r = subst (IfCrash w) e (remove_components-IsQuiet w) in inr (inr (refl, r.0, r.1))
