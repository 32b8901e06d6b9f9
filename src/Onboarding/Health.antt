-- ===== src/Onboarding/Health.antt =====
-- `health` of app/services/onboarding_service.py, for an onboarding and a server that are stored, and
-- what it calls healthy.
use superflash_ia.Prelude.{
  Option-cases, inl, inr, ◌⊎◌, ℤ, pos, negsuc, ℕ, ◌+◌, ◌-◌, ◌*◌, ◌/◌, ◌≡◌, refl, ◌∙◌, arith, String,
  Bool, true, false, not, ◌&&◌, ◌||◌, Option, none, some, List, [], ◌∷◌, Bool-cases, if◌then◌else◌,
  ltb, leb, ◌==◌, nat_eq, string_eq, truthy, is_some,
}
use superflash_ia.Onboarding.Types.{Status, is_terminal, Onboarding, Server, InventorySnapshot}
use superflash_ia.Onboarding.Job.{Surroundings}
use superflash_ia.Onboarding.Precheck.{prometheus_target_status}
use superflash_ia.History.Samples.{Sample}

-- What `health` answers; `latency_ms` is always `None`.
pub record Health : Type 0 where
  pub onboarding_status : Status
  pub ssh : String
  pub privilege : String
  pub node_exporter : String
  pub exporter_version : Option String
  pub firewall : String
  pub prometheus : String
  pub prometheus_target_status : String
  pub inventory : String
  pub network_interface : Option String
  pub metrics_available : Bool
  pub last_scrape : Option ℕ
  pub scrape_age_seconds : Option ℤ
  pub freshness : String
  pub overall_status : String

abbrev pub is_completed : Status → Bool
is_completed Status.completed = true
is_completed _ = false

abbrev pub is_failed : Status → Bool
is_failed Status.failed = true
is_failed _ = false

abbrev pub later : ℕ → Option ℕ → ℕ
later at none = at
later at (some other) = if ltb at other then other else at

-- The instant of the newest sample of a server.
unfoldable pub last_scrape_of : {Measures : Type 0} → ℕ → List (Sample Measures) → Option ℕ
last_scrape_of key [] = none
last_scrape_of key (s ∷ rest) =
    let newest = last_scrape_of key rest in
    if s.owner_id == key then some (later s.collected_at newest) else newest

unfoldable pub has_snapshot : ℕ → List InventorySnapshot → Bool
has_snapshot key [] = false
has_snapshot key (s ∷ rest) = (s.server_id == key) || has_snapshot key rest

-- `int((now - last_scrape).total_seconds())`, which drops the fraction of a negative number too.
abbrev pub age_seconds : ℕ → ℕ → ℤ
age_seconds now last =
    if leb last now
    then pos ((now - last) / 1000000)
    else if ltb (last - now) 1000000
    then pos 0
    else negsuc ((last - now) / 1000000 - 1)

abbrev pub scrape_age : ℕ → Option ℕ → Option ℤ
scrape_age now none = none
scrape_age now (some last) = some (age_seconds now last)

abbrev pub at_most : ℤ → ℕ → Bool
at_most (pos n) limit = leb n limit
at_most (negsuc n) limit = true

abbrev pub is_fresh : ℕ → ℕ → Option ℕ → Bool
is_fresh interval now none = false
is_fresh interval now (some last) = at_most (age_seconds now last) (interval * 2)

abbrev pub overall_status_of : Status → Bool → String
overall_status_of status is_current =
    if is_completed status
    then (if is_current then "healthy" else "degraded")
    else if not (is_terminal status)
    then "provisioning"
    else if is_failed status
    then "failed"
    else "unknown"

-- The answer, by the status of the target; `interval` is the `heartbeat_interval_seconds` of the server,
-- `lower` the method of `str`.
abbrev pub answer_health :
    {Measures : Type 0}
    → (String → String)
    → ℕ
    → ℕ
    → List InventorySnapshot
    → List (Sample Measures)
    → Onboarding
    → Server
    → String
    → Health
answer_health lower interval now snapshots samples onboarding server target =
    let last = last_scrape_of server.server_id samples in
    let completed = is_completed onboarding.status in
    record {
      onboarding_status = onboarding.status;
      ssh = if truthy server.ssh_host_key_fingerprint then "configured" else "unknown";
      privilege = if completed then "configured" else "unknown";
      node_exporter =
          if server.node_exporter_status == "" then "unknown" else server.node_exporter_status;
      exporter_version = server.node_exporter_version;
      firewall = if completed then "configured" else "unknown";
      prometheus = if target == "UP" then "configured" else lower target;
      prometheus_target_status = target;
      inventory = if has_snapshot server.server_id snapshots then "available" else "missing";
      network_interface = server.network_interface;
      metrics_available = is_some last;
      last_scrape = last;
      scrape_age_seconds = scrape_age now last;
      freshness = if is_fresh interval now last then "fresh" else "stale";
      overall_status =
          overall_status_of onboarding.status (is_some last && is_fresh interval now last);
    }

-- `health`, or none where the status of the target raises.
unfoldable pub health :
    {Measures : Type 0}
    → Surroundings
    → (String → String)
    → ℕ
    → ℕ
    → List InventorySnapshot
    → List (Sample Measures)
    → Onboarding
    → Server
    → Option Health
health env lower interval now snapshots samples onboarding server =
    elim (prometheus_target_status env server) [
      | none ↦ none
      | some target ↦
          some (answer_health lower interval now snapshots samples onboarding server target)
    ]

-- A sample of the server that is no older than twice the interval, in microseconds.
abbrev is_recent : {Measures : Type 0} → ℕ → ℕ → ℕ → Sample Measures → Bool
is_recent key interval now s =
    (s.owner_id == key) && ltb now (s.collected_at + (interval * 2 + 1) * 1000000)

unfoldable pub has_recent : {Measures : Type 0} → ℕ → ℕ → ℕ → List (Sample Measures) → Bool
has_recent key interval now [] = false
has_recent key interval now (s ∷ rest) =
    is_recent key interval now s || has_recent key interval now rest

fresh_iff :
    (interval now last : ℕ)
    → is_fresh interval now (some last) ≡ ltb now (last + (interval * 2 + 1) * 1000000)
fresh_iff interval now last = ground arith

later_within :
    (k now at other : ℕ)
    → ltb now (later at (some other) + k) ≡ (ltb now (at + k) || ltb now (other + k))
later_within k now at other = ground arith

later_iff :
    (interval now at : ℕ) (o : Option ℕ)
    → is_fresh interval now (some (later at o))
      ≡ (ltb now (at + (interval * 2 + 1) * 1000000) || is_fresh interval now o)
later_iff interval now at none = let e = fresh_iff interval now at in ground (arith, e)
later_iff interval now at (some other) =
    fresh_iff interval now (later at (some other))
    ∙ later_within ((interval * 2 + 1) * 1000000) now at other
    ∙ rw (fresh_iff interval now other) refl

has_recent_lem :
    {Measures : Type 0} (key interval now : ℕ) (samples : List (Sample Measures))
    → is_fresh interval now (last_scrape_of key samples) ≡ has_recent key interval now samples
unfolding last_scrape_of has_recent
has_recent_lem key interval now [] = refl
has_recent_lem key interval now (s ∷ rest) =
    let ih = has_recent_lem key interval now rest in
    elim (Bool-cases (s.owner_id == key)) [
      | inl own ↦ rw (own, later_iff interval now s.collected_at (last_scrape_of key rest), ih) refl
      | inr other ↦ rw (other, ih) refl
    ]

healthy_within :
    (status : Status) (b : Bool)
    → (overall_status_of status b == "healthy") ≡ (is_completed status && b)
unfolding is_terminal
healthy_within Status.pending b = refl
healthy_within Status.connecting b = refl
healthy_within Status.authenticating b = refl
healthy_within Status.discovering b = refl
healthy_within Status.installing_exporter b = refl
healthy_within Status.configuring_firewall b = refl
healthy_within Status.verifying_exporter b = refl
healthy_within Status.registering_inventory b = refl
healthy_within Status.configuring_monitoring b = refl
healthy_within Status.validating b = refl
healthy_within Status.completed true = refl
healthy_within Status.completed false = refl
healthy_within Status.failed b = refl
healthy_within Status.cancelled b = refl
healthy_within Status.rollback_required b = refl

measured :
    (interval now : ℕ) (o : Option ℕ)
    → (is_some o && is_fresh interval now o) ≡ is_fresh interval now o
measured interval now none = refl
measured interval now (some last) = refl

-- Either asking Prometheus for the server raises, and there is no answer; or there is one, and it says
-- healthy exactly where the onboarding is completed and one of the stored samples, in whatever order
-- they are, is of its server and, to the microsecond, less than twice the heartbeat interval and one
-- second old; a sample from the future counts too.
pub healthy_iff :
    {Measures : Type 0} (env : Surroundings) (lower : String → String) (interval now : ℕ)
    (snapshots : List InventorySnapshot) (samples : List (Sample Measures))
    (onboarding : Onboarding) (server : Server)
    → let answer = health env lower interval now snapshots samples onboarding server in
      ((prometheus_target_status env server ≡ none) × (answer ≡ none))
      ⊎ ((h : Health) × (answer ≡ some h)
          × ((h.overall_status == "healthy") ≡ (
              is_completed onboarding.status && has_recent server.server_id interval now samples)))
unfolding health
healthy_iff env lower interval now snapshots samples onboarding server =
    elim (Option-cases (prometheus_target_status env server)) [
      | inl raises ↦ inl (raises, rw (health, raises) refl)
      | inr (target, asked) ↦ inr (
        answer_health lower interval now snapshots samples onboarding server target,
        rw (health, asked) refl,
        rw (healthy_within, measured, has_recent_lem) refl,
      )
    ]
