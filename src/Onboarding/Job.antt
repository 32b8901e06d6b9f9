-- ===== src/Onboarding/Job.antt =====
-- A background job: its database session, the remote host and the other sessions that cancel, expire
-- or remove while it runs; they write the onboarding and its events, not the server. The session's own
-- flushes and commits do not fail. The session does not expire its rows on commit (app/database/session.py), so a row is
-- as this session last read or wrote it until `refresh` reads it again.
use superflash_ia.Prelude.{ℕ, suc, String, ⊤, Bool, true, false, Option, List, [], ◌∷◌, ◌++◌}
use superflash_ia.Onboarding.Types.{Onboarding, AuditEvent, Ledger, Server, InventorySnapshot}
use superflash_ia.Onboarding.Api.{Action, act}
use superflash_ia.Ssh.Catalogue.{SshOperation, SshCommandResult}
use superflash_ia.Ssh.Inventory.{RemoteInventory, Python}

-- `ssh.run(operation, as_root=...)`, `ssh.run_script(name)`, and the script that removes the
-- firewall's rules, `FIREWALL_ACTION=remove`.
pub data Command : Type 0 where
  operation : SshOperation → Bool → Command
  script : String → Command
  removal : String → Command

-- A result, an `SSHServiceError` by its code, or another exception.
pub data Reply : Type 0 where
  answered : SshCommandResult → Reply
  raised : String → Reply
  crashed : Reply

abbrev pub Exchange : Type 0
Exchange = Command × Reply

-- `SSHConnectionService.connect`: a session with the fingerprint of its host key, or an error.
pub data Connection : Type 0 where
  opened : Option String → Connection
  refused : String → Connection
  broken : Connection

-- What asking Prometheus for the server comes to: the inventory of the one server is not valid, as its
-- host name or its interface has a character that the patterns refuse; or the answer of
-- `PrometheusInfrastructureAdapter.probe`: it raised, it has no probe or an unreachable one, or it has a value of `up`, of which the code asks whether it is positive.
pub data Probe : Type 0 where
  not_valid probe_raised unreachable : Probe
  reachable : Option Bool → Probe

-- The file of the management key: not configured or absent, not readable, not a private key, or a
-- key with its fingerprint and its modification time.
pub data ManagementKey : Type 0 where
  absent unreadable invalid : ManagementKey
  present : String → ℕ → ManagementKey

-- What a job meets and does not decide: the clock at each reading, what other sessions commit
-- before each of its turns, the connection, the replies of the host, which may depend on all that
-- was sent before, Prometheus, the settings, and the functions of Python's library.
pub record Surroundings : Type 0 where
  pub clock : ℕ → ℕ
  pub others : ℕ → List Action
  pub connection : Connection
  pub reply : List Exchange → Command → Reply
  pub probe : Server → Probe
  pub monitor_ip : String
  pub wanted_exporter_version : Option String
  pub management_key : ManagementKey
  pub version_of : String → Option String
  pub digest : RemoteInventory → String
  pub python : Python

pub record World : Type 0 where
  -- the database
  pub stored : Ledger
  pub stored_server : Server
  pub stored_snapshots : List InventorySnapshot
  -- this session's copies, and what it has not committed
  pub row : Onboarding
  pub unsaved : Onboarding → Onboarding
  pub new_audits : List AuditEvent
  pub server : Server
  pub snapshots : List InventorySnapshot
  -- what was sent to the host, the newest first, and the local variable `installed`
  pub exchanges : List Exchange
  pub installed : Bool
  -- how often the clock was read, and how often the others had their turn
  pub readings : ℕ
  pub turns : ℕ

pub data Outcome (A : Type 0) : Type 0 where
  ok : A → Outcome A
  error : String → Outcome A
  crash : Outcome A

abbrev pub Job : Type 0 → Type 0
Job A = World → Outcome A × World

abbrev pub pure : {A : Type 0} → A → Job A
pure a w = (ok a, w)

abbrev pub raise : {A : Type 0} → String → Job A
raise code w = (error code, w)

-- The rest of a job, after a step that ended so.
abbrev pub after : {A B : Type 0} → Outcome A → (A → Job B) → Job B
after (ok a) f w = f a w
after (error code) f w = (error code, w)
after crash f w = (crash, w)

infixl 5 ◌>>=◌ ◌>>◌
unfoldable pub ◌>>=◌ : {A B : Type 0} → Job A → (A → Job B) → Job B
◌>>=◌ m f w = after (m w).0 f (m w).1

abbrev pub ◌>>◌ : {A B : Type 0} → Job A → Job B → Job B
m >> k = m >>= λ _. k

abbrev pub raise_unless : Bool → String → Job ⊤
raise_unless true code = pure tt
raise_unless false code = raise code

abbrev pub current : Job World
current w = (ok w, w)

abbrev pub act_all : List Action → Ledger → Ledger
act_all [] l = l
act_all (a ∷ as') l = act_all as' (act a l)

-- An assignment to columns of the onboarding.
abbrev pub assign : (Onboarding → Onboarding) → World → World
assign f w = record w { row = f w.row; unsaved = λ r. f (w.unsaved r) }

-- `add_audit`: flushed, not committed.
abbrev pub add_audit : AuditEvent → World → World
add_audit e w = record w { new_audits = e ∷ w.new_audits }

-- `session.commit`: the assigned columns reach the row that the database holds now.
unfoldable pub commit : World → World
commit w = record w {
  stored = record { row = w.unsaved w.stored.row; audits = w.new_audits ++ w.stored.audits };
  stored_server = w.server;
  stored_snapshots = w.snapshots;
  unsaved = λ r. r;
  new_audits = [];
}

-- `session.close` after the job: what was not committed is lost.
unfoldable pub close : World → World
close w = record w {
  row = w.stored.row;
  unsaved = λ r. r;
  new_audits = [];
  server = w.stored_server;
  snapshots = w.stored_snapshots;
}

module _ (env : Surroundings) where
  -- Other sessions commit.
  unfoldable pub others_act : World → World
  others_act w = record w { stored = act_all (env.others w.turns) w.stored; turns = suc w.turns }

  -- `session.refresh(onboarding)`
  unfoldable pub refresh : World → World
  refresh w = let w' = others_act w in record w' { row = w'.stored.row; unsaved = λ r. r }

  -- `datetime.now(UTC)`
  abbrev pub now : World → ℕ
  now w = env.clock w.readings

  abbrev pub tick : World → World
  tick w = record w { readings = suc w.readings }

  abbrev pub answer : Command → Reply → World → Outcome SshCommandResult × World
  answer c (answered r) w = (ok r, w)
  answer c (raised code) w = (error code, w)
  answer c crashed w = (crash, w)

  unfoldable pub send : Command → Job SshCommandResult
  send c w =
      let w' = others_act w in
      let r = env.reply w'.exchanges c in
      answer c r (record w' { exchanges = (c, r) ∷ w'.exchanges })
