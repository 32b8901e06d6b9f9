-- ===== src/Collection/Sampled.antt =====
-- What the samples of a pass leave.
use superflash_ia.Prelude.{
  ℕ, ◌+◌, ◌≤◌, String, false, ◌≡◌, subst, ◌&&◌, inl, inr, Option, Option-cases, Bool-cases, List,
  [], ◌∷◌, ◌++◌, arith, count, length, length-append, ◌==◌, nat_eq,
}
use superflash_ia.Channels.Rows.{count-add, count-none}
use superflash_ia.Collection.Runs.{CollectionResult}
use superflash_ia.Collection.Channels.{Table, find}
use superflash_ia.Collection.Samples.{
  MetricSnapshot, ServerMetric, is_sample, metric_exists, Store, sample_of, store_known,
  store_server_metric, store_server_metrics,
}

-- A server has one sample at most of an instant.
pub record IsSampledOnce {Measures : Type 0} (samples : List (ServerMetric Measures)) : Type 0 where
  pub once : (key at : ℕ) → count (is_sample key at) samples ≤ 1

-- How many samples a pass has dealt with: the inserted, the skipped and the errors.
abbrev pub dealt : CollectionResult → ℕ
dealt r = r.counters.server_metrics_inserted + (r.counters.server_metrics_skipped + length r.errors)

module _ {Measures : Type 0} (source_name : String) (server_ids : Table ℕ)
    (add_raises : MetricSnapshot Measures → Option String) where
  added_once :
      (key : ℕ) (m : MetricSnapshot Measures) (samples : List (ServerMetric Measures))
      → metric_exists key m.collected_at samples ≡ false
      → IsSampledOnce samples
      → IsSampledOnce (samples ++ sample_of source_name server_ids add_raises key m ∷ [])
  added_once key m samples new u = record { once = λ k at. lem k at }
    where
      lem :
          (k at : ℕ)
          → count
              (is_sample k at)
              (samples ++ sample_of source_name server_ids add_raises key m ∷ [])
            ≤ 1
      lem k at =
          let r =
            count-add (is_sample k at) samples
              (sample_of source_name server_ids add_raises key m) in
          let o = u.once k at in
          let z = count-none (is_sample key m.collected_at) samples (ground arith) in
          elim (Bool-cases (key == k && m.collected_at == at)) [
            | inl same ↦
                let a : key ≡ k = ground arith in
                let b : m.collected_at ≡ at = ground arith in
                let z' : count (is_sample k at) samples ≡ 0 =
                  subst (λ k. count (is_sample k at) samples ≡ 0) a
                    (subst (λ at. count (is_sample key at) samples ≡ 0) b z) in
                ground arith
            | inr other ↦ ground arith
          ]

  store_known-IsSampledOnce :
      (key : ℕ) (m : MetricSnapshot Measures) (st : Store Measures)
      → IsSampledOnce st.samples
      → IsSampledOnce (store_known source_name server_ids add_raises key m st).samples
  unfolding store_known
  store_known-IsSampledOnce key m st u =
      elim (Bool-cases (metric_exists key m.collected_at st.samples)) [
        | inl exists ↦ rw (store_known, exists) u
        | inr new ↦ elim (Option-cases (add_raises m)) [
          | inl passes ↦ rw (store_known, new, passes) (added_once key m st.samples new u)
          | inr (name, raises) ↦ rw (store_known, new, raises) u
        ]
      ]

  dealt-store_known :
      (key : ℕ) (m : MetricSnapshot Measures) (st : Store Measures)
      → dealt (store_known source_name server_ids add_raises key m st).result ≡ dealt st.result + 1
  unfolding store_known
  dealt-store_known key m st =
      let r = λ (x : String). length-append st.result.errors (x ∷ []) in
      elim (Bool-cases (metric_exists key m.collected_at st.samples)) [
        | inl exists ↦ rw (store_known, exists) (omega arith)
        | inr new ↦ elim (Option-cases (add_raises m)) [
          | inl passes ↦ rw (store_known, new, passes) (omega arith)
          | inr (name, raises) ↦ rw (store_known, new, raises) (omega (arith, r _))
        ]
      ]

  store_server_metric-IsSampledOnce :
      (m : MetricSnapshot Measures) (st : Store Measures)
      → IsSampledOnce st.samples
      → IsSampledOnce (store_server_metric source_name server_ids add_raises m st).samples
  unfolding store_server_metric
  store_server_metric-IsSampledOnce m st u =
      elim (Option-cases (find m.server_external_id server_ids)) [
        | inl no_server ↦ rw (store_server_metric, no_server) u
        | inr (key, known) ↦ rw (store_server_metric, known) (store_known-IsSampledOnce key m st u)
      ]

  dealt-store_server_metric :
      (m : MetricSnapshot Measures) (st : Store Measures)
      → dealt (store_server_metric source_name server_ids add_raises m st).result
        ≡ dealt st.result + 1
  unfolding store_server_metric
  dealt-store_server_metric m st =
      let r = λ (x : String). length-append st.result.errors (x ∷ []) in
      elim (Option-cases (find m.server_external_id server_ids)) [
        | inl no_server ↦ rw (store_server_metric, no_server) (omega (arith, r _))
        | inr (key, known) ↦ rw (store_server_metric, known) (dealt-store_known key m st)
      ]

  -- If every server has one sample at most of an instant, it is so after a pass over any samples,
  -- whichever servers are known and whichever savepoints raise.
  pub store_server_metrics-IsSampledOnce :
      (ms : List (MetricSnapshot Measures)) (st : Store Measures)
      → IsSampledOnce st.samples
      → IsSampledOnce (store_server_metrics source_name server_ids add_raises ms st).samples
  unfolding store_server_metrics
  store_server_metrics-IsSampledOnce [] st u = u
  store_server_metrics-IsSampledOnce (m ∷ ms) st u =
      store_server_metrics-IsSampledOnce ms
        (store_server_metric source_name server_ids add_raises m st)
        (store_server_metric-IsSampledOnce m st u)

  -- Every sample of the source is dealt with once: it is inserted, it is skipped, or it is an error.
  pub dealt-store_server_metrics :
      (ms : List (MetricSnapshot Measures)) (st : Store Measures)
      → dealt (store_server_metrics source_name server_ids add_raises ms st).result
        ≡ dealt st.result + length ms
  unfolding store_server_metrics
  dealt-store_server_metrics [] st = omega arith
  dealt-store_server_metrics (m ∷ ms) st = omega (
    arith,
    dealt-store_server_metric m st,
    dealt-store_server_metrics ms (store_server_metric source_name server_ids add_raises m st),
  )
