-- ===== src/Sources/Tests.antt =====
-- The theorems of the sources at two servers of one Prometheus and one of another, with natural
-- numbers for the measured values.
use superflash_ia.Prelude.{
  ℕ, ◌*◌, String, true, false, ◌≡◌, refl, none, some, List, [], ◌∷◌, All, ltb, min, ◌==◌, string_eq,
  map, if◌then◌else◌, select,
}
use superflash_ia.Text.{rstrip_char, in_text, starts_with}
use superflash_ia.Sources.Json.{Floats, Json, text, array, number, object, nil, cons, end, field}
use superflash_ia.Sources.Fetch.{Request, Exchange, response, transport_error, client_of}
use superflash_ia.Sources.Infrastructure.{Provider, at_minute, get_infrastructure_metrics}
use superflash_ia.Sources.Groups.{ManagedServer, add_to_group, group_servers}
use superflash_ia.Sources.Database.{collect_managed}
use superflash_ia.Sources.Own.{IsOwn, collect_managed-IsOwn}
use superflash_ia.Sources.Alone.{by_request, harvest_of, get_infrastructure_metrics_lem}
use superflash_ia.Sources.Refused.{is_ok, all_groups_valid, is_ok-collect_managed}
use superflash_ia.Sources.Composite.{
  StreamingSample, online, Cycle, Composite, begin_collection_cycle, get_servers,
  get_server_metrics, no_answer, answer_from, call_all,
}
use superflash_ia.Sources.Cycles.{call_all_lem}

abbrev floats : Floats
floats = record {
  Number = ℕ;
  is_finite = λ n. true;
  is_zero = λ n. ltb n 1;
  is_below_one = λ n. ltb n 1;
  is_negative = λ n. false;
  at_least_zero = λ n. n;
  at_most_hundred = λ n. min n 100;
  round_two = λ n. n;
  truncated = λ n. n;
  of_bool = λ b. if b then 1 else 0;
  of_text = λ s. some 3;
}

-- A series with one value.
abbrev body : Json floats
body = object (
    field "status" (text "success") (
      field "data"
        (object (
          field "result"
            (array (
              cons (object (field "value" (array (cons (number 1) (cons (text "3") nil))) end))
                nil))
            end))
        end))

abbrev answer : Request → Exchange floats
answer r =
    if r.base_url == "http://one" then response 200 (some body) else transport_error "ConnectError"

abbrev managed : String → String → String → ManagedServer
managed external host url = record {
  external_id = external;
  hostname = some host;
  network_interface = some "eth0";
  prometheus_url = some url;
  prometheus_token = some "t";
  enabled = true;
}

abbrev servers : List ManagedServer
servers = managed "a" "a.example" "http://one/" ∷ managed "b" "b.example" "http://two" ∷ []

collect_managed-IsOwn_example :
    All (IsOwn servers) (collect_managed (by_request answer) 60000001 servers []).1
collect_managed-IsOwn_example = collect_managed-IsOwn servers (by_request answer) 60000001

abbrev provider : Provider
provider = record {
  base_url = "http://one/";
  bearer_token = some "t";
  servers =
      record {
        external_id = "a";
        network_interface = none;
        node_exporter_instance = "a:9100";
        enabled = true;
      }
      ∷ [];
}

get_infrastructure_metrics_example :
    (get_infrastructure_metrics (by_request answer) provider 60000001 []).0
    ≡ harvest_of answer
        (client_of (rstrip_char b'/' "http://one/") (some "t"))
        (at_minute 60000001)
        (select (λ s. s.enabled) provider.servers)
get_infrastructure_metrics_example = get_infrastructure_metrics_lem answer provider 60000001 []

abbrev misspelt : List ManagedServer
misspelt = managed "a" "a example" "http://one" ∷ managed "b" "b.example" "http://two" ∷ []

misspelt_invalid : all_groups_valid (group_servers [] misspelt) ≡ false
unfolding group_servers add_to_group in_text starts_with
misspelt_invalid = refl

is_ok-collect_managed_example :
    is_ok (collect_managed (by_request answer) 60000001 misspelt []).0 ≡ false
is_ok-collect_managed_example =
    is_ok-collect_managed (by_request answer) 60000001 misspelt [] misspelt_invalid

abbrev viewer : String → ℕ → StreamingSample ℕ
viewer channel n = record {
  channel_external_id = channel;
  source_id = none;
  server_external_id = some "a";
  event_external_id = none;
  technical_stream_external_id = none;
  collected_at = 1;
  viewers = n;
  bitrate_mbps = none;
  status = online;
}

abbrev cycle : Cycle ℕ ℕ ℕ ℕ
cycle = record {
  servers = 1;
  channels = 2;
  infrastructure_metrics = [];
  streaming_metrics = viewer "x" 3 ∷ [];
}

abbrev composite : Composite ℕ ℕ ℕ ℕ
composite = record { cycle = none; readings = 4 }

call_all_example :
    call_all
      (λ n b. n * b)
      (λ n. some cycle)
      (begin_collection_cycle ∷ get_servers ∷ get_server_metrics ∷ [])
      composite
    ≡ (
      some no_answer
          ∷ map
              (λ q. some (answer_from (λ n b. n * b) q cycle))
              (get_servers ∷ get_server_metrics ∷ []),
      record { cycle = some cycle; readings = 5 },
    )
call_all_example =
    call_all_lem (λ n b. n * b) (λ n. some cycle) get_servers (get_server_metrics ∷ []) composite
      cycle (refl, (refl, tt)) refl
