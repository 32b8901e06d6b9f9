-- ===== src/Sources/Probe.antt =====
-- `probe` of app/adapters/prometheus.py: what each query of each host of the inventory gives.
use superflash_ia.Prelude.{
  String, Bool, true, false, Option, none, some, List, [], ◌∷◌, ◌==◌, nat_eq, if◌then◌else◌, ℕ,
}
use superflash_ia.Text.{rstrip_char}
use superflash_ia.Collection.Channels.{Table}
use superflash_ia.Sources.Json.{Floats}
use superflash_ia.Sources.Fetch.{
  Request, Exchange, Failure, auth_error, Outcome, ok, raised, Fetch, pure, raise, ◌>>=◌, Client,
  client_of, query_value,
}
use superflash_ia.Sources.Queries.{up_query, metric_queries}
use superflash_ia.Sources.Host.{InventoryServer}
use superflash_ia.Sources.Infrastructure.{Provider, noted_class}

-- `HostProbe`
pub record HostProbe (F : Floats) : Type 0 where
  pub external_id : String
  pub instance_name : String
  pub reachable : Bool
  pub up_value : Option F.Number
  pub metrics : Table (Option F.Number)
  pub error : Option String

abbrev pub auth_text : ℕ → String
auth_text status =
    if status == 401
    then "Prometheus rechazó las credenciales (HTTP 401)"
    else "Prometheus rechazó las credenciales (HTTP 403)"

-- The text of an exception that ends the queries of a host, if it is handled.
abbrev pub probe_error : Failure → Option String
probe_error (auth_error status) = some (auth_text status)
probe_error e = noted_class e

module _ {F : Floats} where
  abbrev pub empty_probe : InventoryServer → HostProbe F
  empty_probe server = record {
    external_id = server.external_id;
    instance_name = server.node_exporter_instance;
    reachable = true;
    up_value = none;
    metrics = [];
    error = none;
  }

  abbrev pub with_measure : String → Option F.Number → HostProbe F → HostProbe F
  with_measure name value p = record p { metrics = (name, value) ∷ p.metrics }

  abbrev pub failed_probe : String → HostProbe F → HostProbe F
  failed_probe text p = record p { reachable = false; error = some text }

  module _ (network : List Request → Request → Exchange F) where
    -- A handled exception ends the host's queries, and the probe keeps what it has.
    abbrev pub probe_value :
        HostProbe F
        → Outcome (Option F.Number)
        → (Option F.Number → Fetch (HostProbe F))
        → Fetch (HostProbe F)
    probe_value p (ok value) rest = rest value
    probe_value p (raised e) rest = elim (probe_error e) [
      | none ↦ raise e
      | some text ↦ pure (failed_probe text p)
    ]

    -- The measures of a host after `up`, put before the probe of the ones that follow.
    unfoldable pub probe_metrics :
        Client → List (String × String) → HostProbe F → Fetch (HostProbe F)
    probe_metrics client [] p sent = pure p sent
    probe_metrics client ((name, promql) ∷ queries) p sent =
        let q = query_value network client promql sent in
        probe_value p q.0
          (λ value. probe_metrics client queries p >>= λ r. pure (with_measure name value r)) q.1

    unfoldable pub probe_host : Client → InventoryServer → Fetch (HostProbe F)
    probe_host client server sent =
        let q = query_value network client (up_query server.node_exporter_instance) sent in
        probe_value (empty_probe server) q.0
          (λ value.
            probe_metrics client
              (metric_queries server.node_exporter_instance server.network_interface)
              (record (empty_probe server) { up_value = value }))
          q.1

    unfoldable pub probe_each : Client → List InventoryServer → Fetch (List (HostProbe F))
    probe_each client [] = pure []
    probe_each client (server ∷ servers) = do
      p ← probe_host client server
      rest ← probe_each client servers
      pure (p ∷ rest)

    unfoldable pub probe : Provider → Fetch (List (HostProbe F))
    probe provider =
        probe_each (client_of (rstrip_char b'/' provider.base_url) provider.bearer_token)
          provider.servers
