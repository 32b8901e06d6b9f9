-- ===== src/Onboarding/Looks.antt =====
-- What `test_ssh` and `discover` of app/services/onboarding_service.py send.
use superflash_ia.Prelude.{String, Bool, true, false, ◌≡◌, refl, Option, [], All, if◌then◌else◌}
use superflash_ia.Ssh.Catalogue.{
  SshOperation, check_sudo, check_temp_write, check_requirements, check_exporter,
  check_exporter_version, detect_inventory, firewall_status, SshCommandResult, SshServiceError,
  detect_firewall,
}
use superflash_ia.Ssh.Catalogue
use superflash_ia.Ssh.HostKey.{HostKeyStatus}
use superflash_ia.Onboarding.Job.{operation, script, removal, Exchange}
use superflash_ia.Onboarding.Visit.{
  Greeting, welcomed, turned_away, broken, Host, Visit, VisitOutcome, ok, error, crash, Talk, pure,
  after, ◌>>=◌, ◌>>◌, write, answers_root, run, connect, has_privilege,
}
use superflash_ia.Onboarding.Preflight.{
  TestReport, greeted, with_temp_write, usable_inventory, with_inventory, with_verdict, preflight,
  start_test, test_ssh,
}
use superflash_ia.Onboarding.Discovery.{
  DiscoveryReport, PortStatus, with_greeting, with_requirements, port_of, check_port_owner,
  is_occupied, with_privilege, with_found_inventory, look, discovery_report, discover,
}

-- A command of the catalogue that reads: not one of the scripts that install, change or remove.
abbrev pub is_look : Exchange → Bool
is_look (operation op root, reply) = true
is_look (script name, reply) = false
is_look (removal name, reply) = false

module _ {R : Type 0} where
  -- A talk that sends such commands only.
  Looks : {A : Type 0} → Talk R A → Type 0
  Looks m =
      (v : Visit R)
      → All (λ e. is_look e ≡ true) v.exchanges
      → All (λ e. is_look e ≡ true) (m v).1.exchanges

  bind-Looks :
      {A B : Type 0} (m : Talk R A) (f : A → Talk R B)
      → Looks m
      → ((a : A) → Looks (f a))
      → Looks (m >>= f)
  unfolding Looks ◌>>=◌
  bind-Looks {A} {B} m f h k v e = go (m v).0 (h v e)
    where
      go :
          (o : VisitOutcome A)
          → All (λ e. is_look e ≡ true) (m v).1.exchanges
          → All (λ e. is_look e ≡ true) (after o f (m v).1).1.exchanges
      go (ok a) l = k a (m v).1 l
      go (error x) l = l
      go crash l = l

  write-Looks : (f : R → R) → Looks (write f)
  unfolding Looks
  write-Looks f v e = e

  if-Looks :
      {A : Type 0} (b : Bool) (m n : Talk R A) → Looks m → Looks n → Looks (if b then m else n)
  if-Looks true m n h k = h
  if-Looks false m n h k = k

module _ (R : Type 0) where
  pure-Looks : {A : Type 0} (a : A) → Looks {R = R} (pure a)
  unfolding Looks
  pure-Looks a v e = e

  run-Looks : (host : Host) (op : SshOperation) (root : Bool) → Looks {R = R} (run host op root)
  unfolding Looks
  run-Looks host op root v e = (refl, e)

  run_then-Looks :
      {B : Type 0} (host : Host) (op : SshOperation) (root : Bool) (f : SshCommandResult → Talk R B)
      → ((r : SshCommandResult) → Looks (f r))
      → Looks (run host op root >>= f)
  run_then-Looks host op root f h = bind-Looks (run host op root) f (run-Looks host op root) h

  write_then-Looks : {B : Type 0} (f : R → R) (m : Talk R B) → Looks m → Looks (write f >> m)
  write_then-Looks f m h = bind-Looks (write f) (λ _. m) (write-Looks f) (λ _. h)

  connect-Looks : (host : Host) → Looks {R = R} (connect host)
  unfolding Looks
  connect-Looks host v e = go host.greeting
    where
      go :
          (g : Greeting)
          → All
              (λ e. is_look e ≡ true)
              (elim g as (λ _. VisitOutcome (Option String × HostKeyStatus) × Visit R) [
                | welcomed fingerprint status ↦ (ok (fingerprint, status), v)
                | turned_away x ↦ (error x, v)
                | broken ↦ (crash, v)
              ]).1.exchanges
      go (welcomed fingerprint status) = e
      go (turned_away x) = e
      go broken = e

  has_privilege-Looks : (host : Host) → Looks {R = R} (has_privilege host)
  has_privilege-Looks host = run_then-Looks host check_sudo false _ (λ r.
      if-Looks (answers_root r) (pure true) _ (pure-Looks true)
        (run_then-Looks host check_sudo true _ (λ r'. pure-Looks (answers_root r'))))

preflight-Looks : (host : Host) → Looks (preflight host)
unfolding preflight
preflight-Looks host =
    let R = TestReport in
    bind-Looks (connect host) _ (connect-Looks R host) (λ key. write_then-Looks R (greeted key) _ (
      bind-Looks (has_privilege host) _ (has_privilege-Looks R host) (λ p.
        write_then-Looks R (λ r. record r { privilege_ok = p }) _
          (run_then-Looks R host check_temp_write false _ (λ t.
            write_then-Looks R (with_temp_write (Catalogue.ok t)) _ (
              run_then-Looks R host detect_inventory false _ (λ raw.
                write_then-Looks R (with_inventory (usable_inventory host raw)) _
                  (write-Looks with_verdict))))))))

look-Looks : (host : Host) → Looks (look host)
unfolding look
look-Looks host =
    let R = DiscoveryReport in
    bind-Looks (connect host) _ (connect-Looks R host) (λ key.
      write_then-Looks R (with_greeting key) _ (
        run_then-Looks R host check_requirements false _ (λ q.
          write_then-Looks R (with_requirements q) _ (
            bind-Looks (check_port_owner host (port_of q.stdout)) _ (owner (port_of q.stdout)) (λ _.
              bind-Looks (has_privilege host) _ (has_privilege-Looks R host) (λ p.
                write_then-Looks R (with_privilege p) _ (
                  run_then-Looks R host detect_inventory false _ (λ raw.
                    write_then-Looks R (with_found_inventory (usable_inventory host raw)) _ (
                      run_then-Looks R host check_exporter false _ (λ x.
                        run_then-Looks R host check_exporter_version false _ (λ y.
                          write_then-Looks R _ _ (
                            run_then-Looks R host firewall_status true _
                              (λ z. write-Looks _)))))))))))))
  where
    owner : (port : PortStatus) → Looks (check_port_owner host port)
    owner port =
        if-Looks (is_occupied port) _ _
          (run_then-Looks DiscoveryReport host check_exporter false _ (λ x. write-Looks _))
          (pure-Looks DiscoveryReport tt)

-- A preflight sends the commands of the catalogue that read, and none of the scripts that install,
-- change or remove, whatever the host answers.
pub test_ssh_looks :
    (host : Host) (fingerprint : Option String)
    → All (λ e. is_look e ≡ true) (test_ssh host fingerprint).1
unfolding test_ssh Looks
test_ssh_looks host fingerprint = preflight-Looks host (start_test fingerprint) tt

-- A discovery sends the commands of the catalogue that read, and none of the scripts, whatever the host
-- answers.
pub discover_looks :
    (host : Host) (fingerprint : Option String)
    → All (λ e. is_look e ≡ true) (discover host fingerprint).1
unfolding discover Looks
discover_looks host fingerprint =
    look-Looks host (record { report = discovery_report fingerprint; exchanges = [] }) tt
