-- ===== src/Sources/Infrastructure.antt =====
-- `PrometheusInfrastructureAdapter` of app/adapters/prometheus.py. An instant is a number of
-- microseconds.
use Prim.Native.String.{◌++◌ as ◌<>◌}
use superflash_ia.Prelude.{
  ℕ, ◌-◌, ◌%◌, String, Bool, true, false, not, ◌&&◌, Option, none, some, List, [], ◌∷◌,
  if◌then◌else◌, select,
}
use superflash_ia.Text.{rstrip_char}
use superflash_ia.Sources.Json.{Floats}
use superflash_ia.Sources.Fetch.{
  Request, Exchange, Failure, source_error, http_error, Outcome, ok, raised, Fetch, pure, raise,
  ◌>>=◌, Client, client_of,
}
use superflash_ia.Sources.Host.{InventoryServer, InfrastructureSample, collect_host}

-- What the adapter is made with: its address, its token and its inventory.
pub record Provider : Type 0 where
  pub base_url : String
  pub bearer_token : Option String
  pub servers : List InventoryServer

-- The exceptions that a pass notes and goes on after, with the class that it notes.
abbrev pub noted_class : Failure → Option String
noted_class (source_error text) = some "PrometheusSourceError"
noted_class (http_error name) = some name
noted_class _ = none

-- `.replace(second=0, microsecond=0)`
abbrev pub at_minute : ℕ → ℕ
at_minute now = now - now % 60000000

abbrev pub is_empty_list {ℓ} : {A : Type ℓ} → List A → Bool
is_empty_list [] = true
is_empty_list (x ∷ xs) = false

-- The samples and the failures of a pass.
pub record Pass (F : Floats) : Type 0 where
  pub samples : List (InfrastructureSample F)
  pub failures : List String

module _ {F : Floats} where
  abbrev pub with_sample : Option (InfrastructureSample F) → Pass F → Pass F
  with_sample none p = p
  with_sample (some s) p = record p { samples = s ∷ p.samples }

  abbrev pub with_failure : InventoryServer → String → Pass F → Pass F
  with_failure server name p = record p {
    failures = (server.external_id <> (": " <> name)) ∷ p.failures;
  }

  -- The last test of a pass.
  abbrev pub check_pass : List InventoryServer → Pass F → Fetch (List (InfrastructureSample F))
  check_pass servers p =
      if not (is_empty_list servers) && is_empty_list p.samples && not (is_empty_list p.failures)
      then raise (source_error "ningún host respondió")
      else pure p.samples

  module _ (network : List Request → Request → Exchange F) where
    -- The rest of the hosts, after one that ended so.
    abbrev pub note_host :
        InventoryServer
        → Outcome (Option (InfrastructureSample F))
        → Fetch (Pass F)
        → Fetch (Pass F)
    note_host server (ok s) rest = rest >>= λ p. pure (with_sample s p)
    note_host server (raised e) rest = elim (noted_class e) [
      | none ↦ raise e
      | some name ↦ rest >>= λ p. pure (with_failure server name p)
    ]

    -- The loop over the hosts.
    unfoldable pub collect_each : Client → ℕ → List InventoryServer → Fetch (Pass F)
    collect_each client collected_at [] sent = pure (record { samples = []; failures = [] }) sent
    collect_each client collected_at (server ∷ servers) sent =
        let host = collect_host network client server collected_at sent in
        note_host server host.0 (collect_each client collected_at servers) host.1

    unfoldable pub get_infrastructure_metrics : Provider → ℕ → Fetch (List (InfrastructureSample F))
    get_infrastructure_metrics provider now =
        let enabled = select (λ s. s.enabled) provider.servers in
        let client = client_of (rstrip_char b'/' provider.base_url) provider.bearer_token in
        collect_each client (at_minute now) enabled >>= check_pass enabled
