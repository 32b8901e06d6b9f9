-- ===== src/Sources/Sent.antt =====
-- What every request of a pass over Prometheus carries.
use superflash_ia.Prelude.{
  ℕ, String, Bool, true, false, inl, inr, Option-cases, Option, none, List, [], ◌∷◌, All,
  All-append, if◌then◌else◌, select,
}
use superflash_ia.Text.{rstrip_char}
use superflash_ia.Sources.Json.{Floats}
use superflash_ia.Sources.Fetch.{
  Request, Exchange, Failure, source_error, Outcome, ok, raised, Fetch, pure, raise, after, ◌>>=◌,
  Client, client_of, request_of, query_value,
}
use superflash_ia.Sources.Queries.{up_query, metric_queries}
use superflash_ia.Sources.Host.{
  InventoryServer, InfrastructureSample, is_down, sample_of, query_all, collect_up, collect_host,
}
use superflash_ia.Sources.Infrastructure.{
  Provider, Pass, noted_class, at_minute, with_sample, with_failure, check_pass, note_host,
  collect_each, get_infrastructure_metrics,
}

-- The requests that a computation adds pass a test.
unfoldable pub Keeps : {A : Type 0} → (Request → Type 0) → Fetch A → Type 0
Keeps P m = (sent : List Request) → All P sent → All P (m sent).1

module _ (P : Request → Type 0) where
  pub pure-Keeps : {A : Type 0} (a : A) → Keeps P (pure a)
  unfolding Keeps
  pure-Keeps a sent h = h

  pub raise-Keeps : (A : Type 0) (e : Failure) → Keeps P (raise {A = A} e)
  unfolding Keeps
  raise-Keeps A e sent h = h

  pub if-Keeps :
      {A : Type 0} (b : Bool) (m n : Fetch A) → Keeps P m → Keeps P n → Keeps P (if b then m else n)
  if-Keeps true m n h k = h
  if-Keeps false m n h k = k

  pub bind-Keeps :
      {A B : Type 0} (m : Fetch A) (f : A → Fetch B)
      → Keeps P m
      → ((a : A) → Keeps P (f a))
      → Keeps P (m >>= f)
  unfolding Keeps ◌>>=◌
  bind-Keeps {A} {B} m f km kf sent h = go (m sent).0 (km sent h)
    where
      go : (o : Outcome A) → All P (m sent).1 → All P (after o f (m sent).1).1
      go (ok a) k = kf a (m sent).1 k
      go (raised e) k = k

  module _ {F : Floats} (network : List Request → Request → Exchange F) (client : Client)
      (p : (promql : String) → P (request_of client promql)) where
    query_value-Keeps : (promql : String) → Keeps P (query_value network client promql)
    unfolding Keeps query_value
    query_value-Keeps promql sent h =
        All-append P sent (request_of client promql ∷ []) h (p promql, tt)

    query_all-Keeps :
        (queries : List (String × String)) → Keeps P (query_all network client queries)
    unfolding query_all
    query_all-Keeps [] = pure-Keeps []
    query_all-Keeps ((name, promql) ∷ queries) =
        bind-Keeps (query_value network client promql) _ (query_value-Keeps promql) (λ value.
          bind-Keeps (query_all network client queries) _ (query_all-Keeps queries)
            (λ rest. pure-Keeps ((name, value) ∷ rest)))

    collect_host-Keeps :
        (server : InventoryServer) (at : ℕ) → Keeps P (collect_host network client server at)
    unfolding collect_host
    collect_host-Keeps server at =
        bind-Keeps (query_value network client (up_query server.node_exporter_instance)) _
          (query_value-Keeps (up_query server.node_exporter_instance)) (λ up. collect_up-Keeps up)
      where
        collect_up-Keeps : (up : Option F.Number) → Keeps P (collect_up network client server at up)
        collect_up-Keeps up =
            let queries = metric_queries server.node_exporter_instance server.network_interface in
            if-Keeps (is_down F up) (pure none) _ (pure-Keeps none) (
              bind-Keeps (query_all network client queries) _ (query_all-Keeps queries)
                (λ values. pure-Keeps (sample_of F server at up values)))

    note_host-Keeps :
        (server : InventoryServer) (o : Outcome (Option (InfrastructureSample F)))
        (rest : Fetch (Pass F))
        → Keeps P rest
        → Keeps P (note_host network server o rest)
    note_host-Keeps server (ok s) rest k = bind-Keeps rest _ k (λ p. pure-Keeps (with_sample s p))
    note_host-Keeps server (raised e) rest k = elim (Option-cases (noted_class e)) [
      | inl fatal ↦ rw (note_host, fatal) (raise-Keeps (Pass F) e)
      | inr (name, noted) ↦
          rw (note_host, noted) (bind-Keeps rest _ k (λ p. pure-Keeps (with_failure server name p)))
    ]

    pub collect_each-Keeps :
        (at : ℕ) (servers : List InventoryServer) → Keeps P (collect_each network client at servers)
    unfolding collect_each Keeps
    collect_each-Keeps at [] sent h = h
    collect_each-Keeps at (server ∷ servers) sent h =
        note_host-Keeps server (collect_host network client server at sent).0
          (collect_each network client at servers) (collect_each-Keeps at servers)
          (collect_host network client server at sent).1 (collect_host-Keeps server at sent h)

  -- A pass over the hosts sends the address and the token of its adapter only.
  pub get_infrastructure_metrics-Keeps :
      {F : Floats} (network : List Request → Request → Exchange F) (provider : Provider) (now : ℕ)
      → ((promql : String)
          → P (
              request_of
                (client_of (rstrip_char b'/' provider.base_url) provider.bearer_token)
                promql))
      → Keeps P (get_infrastructure_metrics network provider now)
  unfolding get_infrastructure_metrics
  get_infrastructure_metrics-Keeps {F} network provider now p =
      let enabled = select (λ s. s.enabled) provider.servers in
      let client = client_of (rstrip_char b'/' provider.base_url) provider.bearer_token in
      bind-Keeps (collect_each network client (at_minute now) enabled) (check_pass enabled)
        (collect_each-Keeps network client p (at_minute now) enabled) check
    where
      check : (ps : Pass F) → Keeps P (check_pass (select (λ s. s.enabled) provider.servers) ps)
      check ps =
          if-Keeps _ (raise (source_error "ningún host respondió")) (pure ps.samples)
            (raise-Keeps (List (InfrastructureSample F)) (source_error "ningún host respondió"))
            (pure-Keeps ps.samples)
