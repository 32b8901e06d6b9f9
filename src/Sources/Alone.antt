-- ===== src/Sources/Alone.antt =====
-- A pass over the hosts compared with the hosts asked one by one.
use superflash_ia.Prelude.{
  ℕ, String, Bool, true, false, not, ◌&&◌, ◌≡◌, refl, sym, ap, ◌∙◌, inl, inr, Bool-cases,
  Option-cases, Option, none, some, List, [], ◌∷◌, arith, if◌then◌else◌, select, is_some,
}
use superflash_ia.Text.{rstrip_char}
use superflash_ia.Sources.Json.{Floats}
use superflash_ia.Sources.Fetch.{
  Request, Exchange, Failure, source_error, Outcome, ok, raised, Fetch, pure, raise, after, ◌>>=◌,
  Client, client_of, query_value,
}
use superflash_ia.Sources.Queries.{up_query, metric_queries}
use superflash_ia.Sources.Host.{
  InventoryServer, InfrastructureSample, is_down, sample_of, query_all, collect_up, collect_host,
}
use superflash_ia.Sources.Infrastructure.{
  Provider, Pass, noted_class, at_minute, with_sample, with_failure, check_pass, note_host,
  collect_each, get_infrastructure_metrics, is_empty_list,
}

-- A computation ends in the same way after any requests.
IsSteady : {A : Type 0} → Fetch A → Type 0
IsSteady m = (sent : List Request) → (m sent).0 ≡ (m []).0

pure-IsSteady : {A : Type 0} (a : A) → IsSteady (pure a)
unfolding IsSteady
pure-IsSteady a sent = refl

raise-IsSteady : (A : Type 0) (e : Failure) → IsSteady (raise {A = A} e)
unfolding IsSteady
raise-IsSteady A e sent = refl

if-IsSteady :
    {A : Type 0} (b : Bool) (m n : Fetch A)
    → IsSteady m
    → IsSteady n
    → IsSteady (if b then m else n)
if-IsSteady true m n h k = h
if-IsSteady false m n h k = k

bind-IsSteady :
    {A B : Type 0} (m : Fetch A) (f : A → Fetch B)
    → IsSteady m
    → ((a : A) → IsSteady (f a))
    → IsSteady (m >>= f)
unfolding IsSteady ◌>>=◌
bind-IsSteady {A} {B} m f h k sent = ap (λ o. (after o f (m sent).1).0) (h sent) ∙ go (m []).0
  where
    go : (o : Outcome A) → (after o f (m sent).1).0 ≡ (after o f (m []).1).0
    go (ok a) = k a (m sent).1 ∙ sym (k a (m []).1)
    go (raised e) = refl

module _ {F : Floats} (answer : Request → Exchange F) where
  -- A network whose answer depends on the request only.
  abbrev pub by_request : List Request → Request → Exchange F
  by_request sent r = answer r

  module _ (client : Client) (at : ℕ) where
    query_value-IsSteady : (promql : String) → IsSteady (query_value by_request client promql)
    unfolding query_value IsSteady
    query_value-IsSteady promql sent = refl

    query_all-IsSteady :
        (queries : List (String × String)) → IsSteady (query_all by_request client queries)
    unfolding query_all
    query_all-IsSteady [] = pure-IsSteady []
    query_all-IsSteady ((name, promql) ∷ queries) =
        bind-IsSteady (query_value by_request client promql) _ (query_value-IsSteady promql)
          (λ value.
            bind-IsSteady (query_all by_request client queries) _ (query_all-IsSteady queries)
              (λ rest. pure-IsSteady ((name, value) ∷ rest)))

    collect_up-IsSteady :
        (server : InventoryServer) (up : Option F.Number)
        → IsSteady (collect_up by_request client server at up)
    collect_up-IsSteady server up =
        let queries = metric_queries server.node_exporter_instance server.network_interface in
        if-IsSteady (is_down F up) (pure none) _ (pure-IsSteady none) (
          bind-IsSteady (query_all by_request client queries) _ (query_all-IsSteady queries)
            (λ values. pure-IsSteady (sample_of F server at up values)))

    collect_host-IsSteady :
        (server : InventoryServer) → IsSteady (collect_host by_request client server at)
    unfolding collect_host
    collect_host-IsSteady server =
        bind-IsSteady (query_value by_request client (up_query server.node_exporter_instance)) _
          (query_value-IsSteady (up_query server.node_exporter_instance))
          (collect_up-IsSteady server)

    -- How the queries of a host end that is asked alone.
    abbrev pub alone : InventoryServer → Outcome (Option (InfrastructureSample F))
    alone server = (collect_host by_request client server at []).0

    -- The first exception that ends a pass.
    pub fatal_in : List InventoryServer → Option Failure
    fatal_in [] = none
    fatal_in (server ∷ servers) = elim (alone server) [
      | ok s ↦ fatal_in servers
      | raised e ↦ if is_some (noted_class e) then fatal_in servers else some e
    ]

    -- The samples of the hosts that give one.
    pub samples_in : List InventoryServer → List (InfrastructureSample F)
    samples_in [] = []
    samples_in (server ∷ servers) = elim (alone server) [
      | ok none ↦ samples_in servers
      | ok (some s) ↦ s ∷ samples_in servers
      | raised e ↦ samples_in servers
    ]

    -- Whether the queries of a host fail with an exception that is noted.
    pub some_failed : List InventoryServer → Bool
    some_failed [] = false
    some_failed (server ∷ servers) = elim (alone server) [
      | ok s ↦ some_failed servers
      | raised e ↦ if is_some (noted_class e) then true else some_failed servers
    ]

    -- How a pass ends: with an exception that is not noted, or with the samples of the hosts.
    IsEnd : List InventoryServer → Outcome (Pass F) → Type 0
    IsEnd servers (raised e) = fatal_in servers ≡ some e
    IsEnd servers (ok p) =
        (fatal_in servers ≡ none)
        × (p.samples ≡ samples_in servers)
        × (not (is_empty_list p.failures) ≡ some_failed servers)

    IsEnd-sample :
        (server : InventoryServer) (servers : List InventoryServer)
        (s : Option (InfrastructureSample F)) (sent : List Request)
        → alone server ≡ ok s
        → (r : Outcome (Pass F)) → IsEnd servers r
        → IsEnd (server ∷ servers) (after r (λ p. pure (with_sample s p)) sent).0
    unfolding IsEnd fatal_in samples_in some_failed
    IsEnd-sample server servers s sent e (raised x) h = rw (fatal_in, e) h
    IsEnd-sample server servers none sent e (ok p) h = rw (fatal_in, samples_in, some_failed, e) h
    IsEnd-sample server servers (some s) sent e (ok p) h =
        rw (fatal_in, samples_in, some_failed, e) (h.0, ap (λ ss. s ∷ ss) h.1, h.2)

    IsEnd-failure :
        (server : InventoryServer) (servers : List InventoryServer) (e : Failure) (name : String)
        (sent : List Request)
        → alone server ≡ raised e
        → noted_class e ≡ some name
        → (r : Outcome (Pass F)) → IsEnd servers r
        → IsEnd (server ∷ servers) (after r (λ p. pure (with_failure server name p)) sent).0
    unfolding IsEnd fatal_in samples_in some_failed
    IsEnd-failure server servers e name sent a n (raised x) h = rw (fatal_in, a, n) h
    IsEnd-failure server servers e name sent a n (ok p) h =
        rw (fatal_in, samples_in, some_failed, a, n) (h.0, h.1, refl)

    IsEnd-fatal :
        (server : InventoryServer) (servers : List InventoryServer) (x : Failure)
        → alone server ≡ raised x
        → noted_class x ≡ none
        → IsEnd (server ∷ servers) (raised x)
    unfolding IsEnd fatal_in
    IsEnd-fatal server servers x e fatal = rw (fatal_in, e, fatal) refl

    note_host-IsEnd :
        (server : InventoryServer) (servers : List InventoryServer)
        (o : Outcome (Option (InfrastructureSample F))) (rest : Fetch (Pass F))
        (sent : List Request)
        → alone server ≡ o
        → IsEnd servers (rest sent).0
        → IsEnd (server ∷ servers) (note_host by_request server o rest sent).0
    unfolding ◌>>=◌
    note_host-IsEnd server servers (ok s) rest sent e h =
        IsEnd-sample server servers s (rest sent).1 e (rest sent).0 h
    note_host-IsEnd server servers (raised x) rest sent e h = elim (Option-cases (noted_class x)) [
      | inl fatal ↦ rw (note_host, fatal) (IsEnd-fatal server servers x e fatal)
      | inr (name, noted) ↦
          rw (note_host, noted)
            (IsEnd-failure server servers x name (rest sent).1 e noted (rest sent).0 h)
    ]

    empty-IsEnd : IsEnd [] (ok (record { samples = []; failures = [] }))
    unfolding IsEnd fatal_in samples_in some_failed
    empty-IsEnd = (refl, refl, refl)

    steady :
        (server : InventoryServer) (sent : List Request)
        → (collect_host by_request client server at sent).0 ≡ alone server
    unfolding IsSteady
    steady server = collect_host-IsSteady server

    collect_each-IsEnd :
        (servers : List InventoryServer) (sent : List Request)
        → IsEnd servers (collect_each by_request client at servers sent).0
    unfolding collect_each
    collect_each-IsEnd [] sent = empty-IsEnd
    collect_each-IsEnd (server ∷ servers) sent =
        let host = collect_host by_request client server at sent in
        note_host-IsEnd server servers host.0 (collect_each by_request client at servers) host.1
          (sym (steady server sent)) (collect_each-IsEnd servers host.1)

    -- What a pass over hosts gives, by what each of them gives alone.
    abbrev pub harvest_of : List InventoryServer → Outcome (List (InfrastructureSample F))
    harvest_of servers = elim (fatal_in servers) [
      | some e ↦ raised e
      | none ↦
          if is_empty_list (samples_in servers) && some_failed servers
          then raised (source_error "ningún host respondió")
          else ok (samples_in servers)
    ]

    some_failed_lem :
        (servers : List InventoryServer)
        → (not (is_empty_list servers) && some_failed servers) ≡ some_failed servers
    unfolding some_failed
    some_failed_lem [] = refl
    some_failed_lem (server ∷ servers) = refl

    check_pass_lem :
        (servers : List InventoryServer) (sent : List Request) (o : Outcome (Pass F))
        → IsEnd servers o
        → (after o (check_pass servers) sent).0 ≡ harvest_of servers
    unfolding IsEnd
    check_pass_lem servers sent (raised e) h = rw (harvest_of, h) refl
    check_pass_lem servers sent (ok p) h =
        let same : is_empty_list p.samples ≡ is_empty_list (samples_in servers) =
          ap is_empty_list h.1 in
        let test : (not (is_empty_list servers)
              && is_empty_list p.samples
              && not (is_empty_list p.failures))
            ≡ (is_empty_list (samples_in servers) && some_failed servers) =
          let f = some_failed_lem servers in let g = h.2 in ground arith in
        elim (Bool-cases (is_empty_list (samples_in servers) && some_failed servers)) [
          | inl all_failed ↦ rw (harvest_of, check_pass, h.0, test, all_failed) refl
          | inr some_ok ↦ rw (harvest_of, check_pass, h.0, test, some_ok) (ap ok h.1)
        ]

  -- If the answer to a request does not depend on the requests before it: a pass ends as the enabled
  -- hosts do that are asked one by one. It gives the samples of the hosts that have one, in the order
  -- of the inventory, whatever the others do; it fails with a source error where no host has one
  -- and the queries of some host failed; and a rejection of the credentials, or an answer that is no
  -- dictionary, ends it with that exception.
  pub get_infrastructure_metrics_lem :
      (provider : Provider) (now : ℕ) (sent : List Request)
      → (get_infrastructure_metrics by_request provider now sent).0
        ≡ harvest_of
            (client_of (rstrip_char b'/' provider.base_url) provider.bearer_token)
            (at_minute now)
            (select (λ s. s.enabled) provider.servers)
  unfolding get_infrastructure_metrics ◌>>=◌
  get_infrastructure_metrics_lem provider now sent =
      let enabled = select (λ s. s.enabled) provider.servers in
      let client = client_of (rstrip_char b'/' provider.base_url) provider.bearer_token in
      let pass = collect_each by_request client (at_minute now) enabled sent in
      check_pass_lem client (at_minute now) enabled pass.1 pass.0
        (collect_each-IsEnd client (at_minute now) enabled sent)
