-- ===== src/Sources/Host.antt =====
-- `_collect_host` of app/adapters/prometheus.py: the sample of one host.
use superflash_ia.Prelude.{
  ℕ, String, Bool, false, Option, none, some, List, [], ◌∷◌, is_some, if◌then◌else◌,
}
use superflash_ia.Collection.Channels.{Table, find}
use superflash_ia.Sources.Json.{Floats}
use superflash_ia.Sources.Fetch.{Request, Exchange, Fetch, pure, ◌>>=◌, Client, query_value}
use superflash_ia.Sources.Queries.{up_query, metric_queries}

-- `InventoryServer`, without the columns that the adapter only passes on.
pub record InventoryServer : Type 0 where
  pub external_id : String
  pub network_interface : Option String
  pub node_exporter_instance : String
  pub enabled : Bool

module _ (F : Floats) where
  -- `InfrastructureMetricSnapshot`; its status is online, or else unknown.
  pub record InfrastructureSample : Type 0 where
    pub server_external_id : String
    pub collected_at : ℕ
    pub cpu_percent : F.Number
    pub memory_percent : F.Number
    pub disk_percent : Option F.Number
    pub filesystem_percent : Option F.Number
    pub swap_percent : Option F.Number
    pub input_mbps : F.Number
    pub output_mbps : F.Number
    pub io_read_mbps : Option F.Number
    pub io_write_mbps : Option F.Number
    pub load_average_1m : Option F.Number
    pub load_average_5m : Option F.Number
    pub load_average_15m : Option F.Number
    pub uptime_seconds : Option F.Number
    pub is_online : Bool

  -- `_clamp_percent`
  abbrev pub clamp_percent : F.Number → F.Number
  clamp_percent value = F.round_two (F.at_most_hundred (F.at_least_zero value))

  abbrev pub at_least_zero_rounded : F.Number → F.Number
  at_least_zero_rounded value = F.round_two (F.at_least_zero value)

  abbrev pub map_value : (F.Number → F.Number) → Option F.Number → Option F.Number
  map_value f none = none
  map_value f (some v) = some (f v)

  -- `int(uptime) if uptime is not None and uptime >= 0 else None`
  abbrev pub uptime_of : Option F.Number → Option F.Number
  uptime_of none = none
  uptime_of (some v) = if F.is_negative v then none else some (F.truncated v)

  -- `values[name]`
  abbrev pub measure : String → Table (Option F.Number) → Option F.Number
  measure name values = elim (find name values) [ none ↦ none | some v ↦ v ]

  -- The sample, or none if an essential measure is missing.
  unfoldable pub sample_of :
      InventoryServer → ℕ → Option F.Number → Table (Option F.Number) → Option InfrastructureSample
  sample_of server collected_at up values =
      let value = λ (name : String). measure name values in
      let optional = λ (name : String). map_value at_least_zero_rounded (measure name values) in
      elim (value "cpu_percent") [
        | none ↦ none
        | some cpu ↦ elim (value "memory_percent") [
          | none ↦ none
          | some memory ↦ elim (value "input_mbps") [
            | none ↦ none
            | some input ↦ elim (value "output_mbps") [
              | none ↦ none
              | some output ↦ some (record {
                server_external_id = server.external_id;
                collected_at = collected_at;
                cpu_percent = clamp_percent cpu;
                memory_percent = clamp_percent memory;
                disk_percent = map_value clamp_percent (value "disk_percent");
                filesystem_percent = map_value clamp_percent (value "filesystem_percent");
                swap_percent = map_value clamp_percent (value "swap_percent");
                input_mbps = at_least_zero_rounded input;
                output_mbps = at_least_zero_rounded output;
                io_read_mbps = optional "io_read_mbps";
                io_write_mbps = optional "io_write_mbps";
                load_average_1m = optional "load_average_1m";
                load_average_5m = optional "load_average_5m";
                load_average_15m = optional "load_average_15m";
                uptime_seconds = uptime_of (value "uptime_seconds");
                is_online = is_some up;
              })
            ]
          ]
        ]
      ]

  -- `up_value is not None and up_value < 1`
  abbrev pub is_down : Option F.Number → Bool
  is_down none = false
  is_down (some v) = F.is_below_one v

module _ {F : Floats} (network : List Request → Request → Exchange F) where
  -- The dictionary of the values, one query after another.
  unfoldable pub query_all : Client → List (String × String) → Fetch (Table (Option F.Number))
  query_all client [] = pure []
  query_all client ((name, promql) ∷ queries) = do
    value ← query_value network client promql
    rest ← query_all client queries
    pure ((name, value) ∷ rest)

  -- What follows the query of `up`.
  abbrev pub collect_up :
      Client → InventoryServer → ℕ → Option F.Number → Fetch (Option (InfrastructureSample F))
  collect_up client server collected_at up =
      if is_down F up
      then pure none
      else query_all client (metric_queries server.node_exporter_instance server.network_interface)
        >>= λ values. pure (sample_of F server collected_at up values)

  unfoldable pub collect_host :
      Client → InventoryServer → ℕ → Fetch (Option (InfrastructureSample F))
  collect_host client server collected_at =
      query_value network client (up_query server.node_exporter_instance) >>= λ up.
      collect_up client server collected_at up
