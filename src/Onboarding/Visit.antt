-- ===== src/Onboarding/Visit.antt =====
-- A visit to a host that writes no database: a session, the commands that it sends, and the report
-- that is filled in meanwhile and is answered even if an `SSHServiceError` ends the visit.
use superflash_ia.Prelude.{String, ⊤, Bool, true, false, ◌&&◌, List, ◌∷◌, Option, if◌then◌else◌}
use superflash_ia.Ssh.Catalogue.{SshOperation, check_sudo, SshCommandResult, SshServiceError, coded}
use superflash_ia.Ssh.Catalogue
use superflash_ia.Ssh.HostKey.{HostKeyStatus}
use superflash_ia.Ssh.Inventory.{Python}
use superflash_ia.Onboarding.Precheck.{is_root}
use superflash_ia.Onboarding.Job.{Command, operation, Reply, answered, raised, crashed, Exchange}

-- `SSHConnectionService.connect`
pub data Greeting : Type 0 where
  welcomed : Option String → HostKeyStatus → Greeting
  turned_away : SshServiceError → Greeting
  broken : Greeting

-- What a visit meets: the connection, and the replies, which may depend on all that was sent before.
pub record Host : Type 0 where
  pub greeting : Greeting
  pub reply : List Exchange → Command → Reply
  pub monitor_ip : String
  pub lower : String → String
  pub version_of : String → Option String
  pub python : Python

-- The report of a visit, and what was sent, the newest first.
pub record Visit (R : Type 0) : Type 0 where
  pub report : R
  pub exchanges : List Exchange

pub data VisitOutcome (A : Type 0) : Type 0 where
  ok : A → VisitOutcome A
  error : SshServiceError → VisitOutcome A
  crash : VisitOutcome A

abbrev pub Talk : Type 0 → Type 0 → Type 0
Talk R A = Visit R → VisitOutcome A × Visit R

abbrev pub outcome_of : Reply → VisitOutcome SshCommandResult
outcome_of (answered r) = ok r
outcome_of (raised code) = error (coded code)
outcome_of crashed = crash

abbrev pub answers_root : SshCommandResult → Bool
answers_root r = Catalogue.ok r && is_root r

module _ {R : Type 0} where
  abbrev pub pure : {A : Type 0} → A → Talk R A
  pure a v = (ok a, v)

  abbrev pub after : {A B : Type 0} → VisitOutcome A → (A → Talk R B) → Talk R B
  after (ok a) f v = f a v
  after (error e) f v = (error e, v)
  after crash f v = (crash, v)

  infixl 5 ◌>>=◌ ◌>>◌
  unfoldable pub ◌>>=◌ : {A B : Type 0} → Talk R A → (A → Talk R B) → Talk R B
  ◌>>=◌ m f v = after (m v).0 f (m v).1

  abbrev pub ◌>>◌ : {A B : Type 0} → Talk R A → Talk R B → Talk R B
  m >> k = m >>= λ _. k

  -- `result[...] = ...`
  abbrev pub write : (R → R) → Talk R ⊤
  write f v = (ok tt, record v { report = f v.report })

  abbrev pub send : Host → Command → Talk R SshCommandResult
  send host c v =
      let reply = host.reply v.exchanges c in
      (outcome_of reply, record v { exchanges = (c, reply) ∷ v.exchanges })

  -- `ssh.run(operation, as_root=...)`
  abbrev pub run : Host → SshOperation → Bool → Talk R SshCommandResult
  run host op root = send host (operation op root)

  -- The session, as far as it is used: the fingerprint and the status of its host key.
  abbrev pub connect : Host → Talk R (Option String × HostKeyStatus)
  connect host v = elim host.greeting [
    | welcomed fingerprint status ↦ (ok (fingerprint, status), v)
    | turned_away e ↦ (error e, v)
    | broken ↦ (crash, v)
  ]

  -- The user is root, or is by `sudo`.
  abbrev pub has_privilege : Host → Talk R Bool
  has_privilege host = run host check_sudo false >>= λ r.
      if answers_root r
      then pure true
      else (run host check_sudo true >>= λ r'. pure (answers_root r'))
