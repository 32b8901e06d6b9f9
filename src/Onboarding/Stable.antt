-- ===== src/Onboarding/Stable.antt =====
-- What every primitive step of a job keeps, the whole job keeps.
use superflash_ia.Prelude.{String, Bool, false, ◌≡◌, refl, Option, none, some, arith}
use superflash_ia.Ssh.Inventory.{RemoteInventory}
use superflash_ia.Ssh.Catalogue.{SshCommandResult}
use superflash_ia.Onboarding.Types.{Step, Server}
use superflash_ia.Onboarding.Job.{
  Surroundings, Command, Connection, opened, refused, broken, ManagementKey, absent, unreadable,
  invalid, present, World, current, refresh, send, now, tick,
}
use superflash_ia.Onboarding.Steps.{take_step, transition, check_cancel}
use superflash_ia.Onboarding.Precheck.{
  check_port, check_privilege, discover_and_precheck, fails_with, register_inventory,
  prometheus_target_status, probed, probe_prometheus,
}
use superflash_ia.Onboarding.Run.{
  prepare, keyed, enabled_with, running_with, installs, install, update, ensure_exporter, provision,
  register, connect, edit_server, store_management_key, complete, finalise, onboard,
}
use superflash_ia.Onboarding.Postconditions.{
  Keeps-use, Keeps, keeps, Keeps->>=, Keeps-pure, Keeps-raise, Keeps-raise_unless, Keeps-if,
}

module _ (env : Surroundings) (actor : String) (P : World → Type 0) where
  -- Up to the end of the registration.
  pub record IsStable : Type 0 where
    pub on_refresh : (w : World) → P w → P (refresh env w)
    pub on_send : (c : Command) → installs c ≡ false → Keeps P (send env c)
    pub on_step : (s : Step) (b : Bool) (w : World) → P w → P (take_step env s actor b w)
    pub on_install : Keeps P (install env actor)
    pub on_register : (i : RemoteInventory) → Keeps P (register_inventory env actor i)

  -- From there to the end.
  pub record IsStableAtEnd : Type 0 where
    pub on_edit : (f : Server → Server) (w : World) → P w → P (edit_server f w)
    pub on_tick : (w : World) → P w → P (tick env w)
    pub on_complete : (w : World) → P w → P (complete env actor w)

module _ (env : Surroundings) (actor : String) (P : World → Type 0)
    (st : IsStable env actor P) where
  pub transition-Keeps : (s : Step) (b : Bool) → Keeps P (transition env s actor b)
  unfolding transition
  transition-Keeps s b = keeps (λ w p.
      let q : P (refresh env w) = st.on_refresh w p in
      let t : P (take_step env s actor b (refresh env w)) = st.on_step s b (refresh env w) q in
      ground arith)

  pub check_cancel-Keeps : Keeps P (check_cancel env)
  unfolding check_cancel
  check_cancel-Keeps = keeps (λ w p. let q : P (refresh env w) = st.on_refresh w p in ground arith)

  fails_with-Keeps : (c : Option String) → Keeps P (fails_with c)
  fails_with-Keeps none = Keeps-pure P tt
  fails_with-Keeps (some c) = Keeps-raise P c

  connect-Keeps : (c : Connection) → Keeps P (connect env actor c)
  connect-Keeps (opened f) = keeps (λ w p. p)
  connect-Keeps (refused c) = keeps (λ w p. p)
  connect-Keeps broken = keeps (λ w p. p)

  current-Keeps : Keeps P current
  current-Keeps = keeps (λ w p. p)

  check_port-Keeps : (r : SshCommandResult) → Keeps P (check_port env r)
  unfolding check_port
  check_port-Keeps r =
      Keeps-if P _ (Keeps->>= P (st.on_send _ refl) (λ e. Keeps-raise_unless P _ _))
        (Keeps-pure P tt)

  check_privilege-Keeps : Keeps P (check_privilege env)
  unfolding check_privilege
  check_privilege-Keeps = Keeps->>= P (st.on_send _ refl) (λ sudo.
      Keeps-if P _ (Keeps-pure P tt)
        (Keeps->>= P (st.on_send _ refl) (λ elevated. Keeps-raise_unless P _ _)))

  precheck-Keeps : Keeps P (discover_and_precheck env)
  unfolding discover_and_precheck
  precheck-Keeps = Keeps->>= P (st.on_send _ refl) (λ r.
      Keeps->>= P (Keeps-raise_unless P _ _) (λ _. Keeps->>= P (check_port-Keeps r) (λ _.
        Keeps->>= P check_privilege-Keeps (λ _. Keeps->>= P (st.on_send _ refl) (λ raw.
          Keeps->>= P (Keeps-raise_unless P _ _) (λ _.
            Keeps->>= P current-Keeps
              (λ w. Keeps->>= P (fails_with-Keeps _) (λ _. Keeps-pure P _))))))))

  pub prepare-Keeps : Keeps P (prepare env actor)
  unfolding prepare
  prepare-Keeps = Keeps->>= P (transition-Keeps _ _) (λ _. Keeps->>= P (connect-Keeps _) (λ f.
      Keeps->>= P (transition-Keeps _ _) (λ _. Keeps->>= P check_cancel-Keeps (λ _.
        Keeps->>= P precheck-Keeps
          (λ i. Keeps->>= P (transition-Keeps _ _) (λ _. Keeps-pure P _))))))

  update-Keeps : (wanted : String) → Keeps P (update env actor wanted)
  unfolding update
  update-Keeps wanted = Keeps->>= P (st.on_send _ refl) (λ v.
      Keeps-if P _ (Keeps-pure P tt)
        (Keeps->>= P (st.on_send _ refl) (λ u. Keeps-raise_unless P _ _)))

  pub ensure_exporter-Keeps : (b : Bool) → Keeps P (ensure_exporter env actor b)
  unfolding ensure_exporter
  ensure_exporter-Keeps b =
      Keeps-if P _ st.on_install (Keeps-if P _ (update-Keeps _) (Keeps-pure P tt))

  pub provision-Keeps : Keeps P (provision env actor)
  unfolding provision
  provision-Keeps = Keeps->>= P (st.on_send _ refl) (λ e. Keeps->>= P (transition-Keeps _ _) (λ _.
      Keeps->>= P (ensure_exporter-Keeps _) (λ _. Keeps->>= P check_cancel-Keeps (λ _.
        Keeps->>= P (st.on_send _ refl) (λ f. Keeps->>= P (transition-Keeps _ _) (λ _.
          Keeps->>= P (Keeps-raise_unless P _ _) (λ _.
            Keeps->>= P (st.on_send _ refl)
              (λ v. Keeps->>= P (transition-Keeps _ _) (λ _. Keeps-raise_unless P _ _)))))))))

  probed-Keeps : (status : Option String) → Keeps P (probed env status)
  probed-Keeps none = keeps (λ w p. p)
  probed-Keeps (some status) = keeps (λ w p. p)

  probe-Keeps : Keeps P (probe_prometheus env)
  probe-Keeps =
      keeps (λ w p. Keeps-use P (probed-Keeps (prometheus_target_status env w.server)) w p)

  pub register-Keeps : (i : RemoteInventory) → Keeps P (register env actor i)
  unfolding register
  register-Keeps i = Keeps->>= P check_cancel-Keeps (λ _. Keeps->>= P (st.on_register i) (λ _.
      Keeps->>= P (transition-Keeps _ _) (λ _. Keeps->>= P current-Keeps (λ w.
        Keeps->>= P (Keeps-raise_unless P _ _) (λ _. Keeps->>= P (transition-Keeps _ _) (λ _.
          Keeps->>= P probe-Keeps (λ is_up.
            Keeps->>= P (Keeps-raise_unless P _ _)
              (λ _. Keeps->>= P check_cancel-Keeps (λ _. transition-Keeps _ _)))))))))

  module _ (stf : IsStableAtEnd env actor P) where
    key-Keeps : (k : ManagementKey) → Keeps P (store_management_key env actor k)
    key-Keeps absent = keeps (λ w p. p)
    key-Keeps unreadable = keeps (λ w p. p)
    key-Keeps invalid = keeps (λ w p. p)
    key-Keeps (present f m) =
        keeps (λ w p. stf.on_edit (keyed f m (now env w)) (tick env w) (stf.on_tick w p))

    pub finalise-Keeps : (f : Option String) → Keeps P (finalise env actor f)
    unfolding finalise
    finalise-Keeps f = Keeps->>= P (keeps (λ w p. stf.on_edit (enabled_with f) w p)) (λ _.
        Keeps->>= P (key-Keeps _) (λ _.
          Keeps->>= P
            (keeps (λ w p. stf.on_edit (λ s. record s { node_exporter_status = "running" }) w p))
            (λ _. Keeps->>= P (st.on_send _ refl) (λ v.
              Keeps->>= P
                (keeps (λ w p.
                  stf.on_edit (running_with (env.version_of v.stdout) (now env w)) (tick env w)
                    (stf.on_tick w p)))
                (λ _. Keeps->>= P check_cancel-Keeps (λ _. keeps (λ w p. stf.on_complete w p)))))))

    pub onboard-Keeps : Keeps P (onboard env actor)
    unfolding onboard
    onboard-Keeps = Keeps->>= P prepare-Keeps (λ found.
        Keeps->>= P provision-Keeps (λ _. Keeps->>= P (register-Keeps _) (λ _. finalise-Keeps _)))
