-- ===== src/Collection/Samples.antt =====
-- `CollectionService._store_server_metrics`: one sample of a server at one instant. The measured
-- columns are of a type that the model takes as a parameter; which savepoints raise is one too.
use Prim.Native.String.{◌++◌ as ◌<>◌}
use superflash_ia.Prelude.{
  ℕ, ◌+◌, String, Bool, true, false, ◌&&◌, Option, none, some, List, [], ◌∷◌, ◌++◌, if◌then◌else◌,
  ◌==◌, nat_eq, is_some, first, update,
}
use superflash_ia.Onboarding.Types.{ServerStatus, maintenance, online}
use superflash_ia.Collection.Runs.{CollectionResult}
use superflash_ia.Collection.Channels.{Table, find, count_with, record_error}

module _ (Measures : Type 0) where
  -- `ServerMetricSnapshot`
  pub record MetricSnapshot : Type 0 where
    pub server_external_id : String
    pub collected_at : ℕ
    pub measures : Measures

  -- `ServerMetric`
  pub record ServerMetric : Type 0 where
    pub server_id : ℕ
    pub collected_at : ℕ
    pub measures : Measures
    pub source : String

-- The columns of a server that a sample assigns.
pub record LiveServer : Type 0 where
  pub server_id : ℕ
  pub last_heartbeat_at : Option ℕ
  pub status : ServerStatus

abbrev pub is_server : ℕ → LiveServer → Bool
is_server key s = s.server_id == key

abbrev pub is_in_maintenance : ServerStatus → Bool
is_in_maintenance maintenance = true
is_in_maintenance _ = false

abbrev pub beat : ℕ → LiveServer → LiveServer
beat at s = record s {
  last_heartbeat_at = some at;
  status = if is_in_maintenance s.status then s.status else online;
}

module _ {Measures : Type 0} where
  abbrev pub is_sample : ℕ → ℕ → ServerMetric Measures → Bool
  is_sample key at m = m.server_id == key && m.collected_at == at

  -- `metric_exists`
  abbrev pub metric_exists : ℕ → ℕ → List (ServerMetric Measures) → Bool
  metric_exists key at samples = is_some (first (is_sample key at) samples)

module _ (Measures : Type 0) where
  pub record Store : Type 0 where
    pub samples : List (ServerMetric Measures)
    pub servers : List LiveServer
    pub result : CollectionResult

module _ {Measures : Type 0} (source_name : String) (server_ids : Table ℕ)
    (add_raises : MetricSnapshot Measures → Option String) where
  abbrev pub sample_of : ℕ → MetricSnapshot Measures → ServerMetric Measures
  sample_of key m = record {
    server_id = key;
    collected_at = m.collected_at;
    measures = m.measures;
    source = source_name;
  }

  -- The body of the loop, for a server that is known.
  unfoldable pub store_known : ℕ → MetricSnapshot Measures → Store Measures → Store Measures
  store_known key m st =
      if metric_exists key m.collected_at st.samples
      then record st {
        result =
            count_with (λ c. record c { server_metrics_skipped = c.server_metrics_skipped + 1 })
              st.result;
      }
      else elim (add_raises m) [
        | none ↦ record {
          samples = st.samples ++ sample_of key m ∷ [];
          servers = update (is_server key) (beat m.collected_at) st.servers;
          result =
              count_with (λ c. record c { server_metrics_inserted = c.server_metrics_inserted + 1 })
                st.result;
        }
        | some name ↦ record st {
          result =
              record_error ("fallo guardando métrica de servidor " <> m.server_external_id) name
                st.result;
        }
      ]

  abbrev pub discard : MetricSnapshot Measures → CollectionResult → CollectionResult
  discard m r = record r {
    errors = r.errors ++ ("métrica de servidor desconocido: " <> m.server_external_id) ∷ [];
  }

  unfoldable pub store_server_metric : MetricSnapshot Measures → Store Measures → Store Measures
  store_server_metric m st = elim (find m.server_external_id server_ids) [
    | none ↦ record st { result = discard m st.result }
    | some key ↦ store_known key m st
  ]

  -- `_store_server_metrics`
  unfoldable pub store_server_metrics :
      List (MetricSnapshot Measures) → Store Measures → Store Measures
  store_server_metrics [] st = st
  store_server_metrics (m ∷ ms) st = store_server_metrics ms (store_server_metric m st)
