-- ===== src/Sources/Composite.antt =====
-- `CompositeMonitoringAdapter` of app/adapters/composite.py: one measurement of the cycle, kept until
-- the next one begins. What the two sources give at a reading is a parameter, by the number of the
-- reading. The columns of a sample that are passed on are of a type that the model takes too.
use superflash_ia.Prelude.{
  ℕ, suc, ◌+◌, String, Bool, true, false, Option, none, some, List, [], ◌∷◌, map, if◌then◌else◌,
  ◌==◌, string_eq,
}
use superflash_ia.Collection.Channels.{Table}

-- `ChannelStatus`
pub data ChannelStatus : Type 0 where
  online offline degraded unknown : ChannelStatus

-- `StreamingChannelMetricSnapshot`
pub record StreamingSample (Bitrate : Type 0) : Type 0 where
  pub channel_external_id : String
  pub source_id : Option String
  pub server_external_id : Option String
  pub event_external_id : Option String
  pub technical_stream_external_id : Option String
  pub collected_at : ℕ
  pub viewers : ℕ
  pub bitrate_mbps : Option Bitrate
  pub status : ChannelStatus

-- `InfrastructureMetricSnapshot`
pub record MachineSample (Measures : Type 0) : Type 0 where
  pub server_external_id : String
  pub collected_at : ℕ
  pub measures : Measures

-- `ServerMetricSnapshot`
pub record ServerSample (Measures : Type 0) : Type 0 where
  pub server_external_id : String
  pub collected_at : ℕ
  pub measures : Measures
  pub active_connections : ℕ
  pub active_streams : ℕ

-- `ChannelMetricSnapshot`
pub record ChannelSample (Bitrate : Type 0) : Type 0 where
  pub streaming : StreamingSample Bitrate
  pub estimated_output_mbps : Option Bitrate

abbrev pub is_offline : ChannelStatus → Bool
is_offline offline = true
is_offline _ = false

-- `d[key] = d.get(key, 0) + n`
unfoldable pub add_number : String → ℕ → Table ℕ → Table ℕ
add_number key n [] = (key, n) ∷ []
add_number key n ((k, m) ∷ d) =
    let rest = add_number key n d in if k == key then (k, m + n) ∷ d else (k, m) ∷ rest

-- `d.get(key, 0)`
abbrev pub number_at : String → Table ℕ → ℕ
number_at key [] = 0
number_at key ((k, n) ∷ d) = if k == key then n else number_at key d

-- The loop over the channels, with the viewers and the streams of the servers so far.
unfoldable pub tally :
    {Bitrate : Type 0} → List (StreamingSample Bitrate) → Table ℕ × Table ℕ → Table ℕ × Table ℕ
tally [] d = d
tally (m ∷ ms) d = elim m.server_external_id [
  | none ↦ tally ms d
  | some key ↦
      tally ms
        (add_number key m.viewers d.0, if is_offline m.status then d.1 else add_number key 1 d.1)
]

abbrev pub with_audience :
    {Measures : Type 0} → Table ℕ × Table ℕ → MachineSample Measures → ServerSample Measures
with_audience d m = record {
  server_external_id = m.server_external_id;
  collected_at = m.collected_at;
  measures = m.measures;
  active_connections = number_at m.server_external_id d.0;
  active_streams = number_at m.server_external_id d.1;
}

-- `round(viewers * bitrate, 2)` is a parameter.
abbrev pub with_output :
    {Bitrate : Type 0} → (ℕ → Bitrate → Bitrate) → StreamingSample Bitrate → ChannelSample Bitrate
with_output output m = record {
  streaming = m;
  estimated_output_mbps = elim m.bitrate_mbps [ none ↦ none | some b ↦ some (output m.viewers b) ];
}

-- `CompositeCycleSnapshot`; the servers and the channels are passed on.
pub record Cycle (Measures Bitrate Servers Channels : Type 0) : Type 0 where
  pub servers : Servers
  pub channels : Channels
  pub infrastructure_metrics : List (MachineSample Measures)
  pub streaming_metrics : List (StreamingSample Bitrate)

-- The adapter: its measurement of the cycle, and how often it has read the sources.
pub record Composite (Measures Bitrate Servers Channels : Type 0) : Type 0 where
  pub cycle : Option (Cycle Measures Bitrate Servers Channels)
  pub readings : ℕ

-- The calls of a collection.
pub data Call : Type 0 where
  begin_collection_cycle get_servers get_channels get_server_metrics get_channel_metrics : Call

pub data Answer (Measures Bitrate Servers Channels : Type 0) : Type 0 where
  no_answer : Answer Measures Bitrate Servers Channels
  some_servers : Servers → Answer Measures Bitrate Servers Channels
  some_channels : Channels → Answer Measures Bitrate Servers Channels
  server_samples : List (ServerSample Measures) → Answer Measures Bitrate Servers Channels
  channel_samples : List (ChannelSample Bitrate) → Answer Measures Bitrate Servers Channels

module _ {Measures Bitrate Servers Channels : Type 0} (output : ℕ → Bitrate → Bitrate) where
  -- What a call gives of a measurement.
  unfoldable pub answer_from :
      Call → Cycle Measures Bitrate Servers Channels → Answer Measures Bitrate Servers Channels
  answer_from begin_collection_cycle c = no_answer
  answer_from get_servers c = some_servers c.servers
  answer_from get_channels c = some_channels c.channels
  answer_from get_server_metrics c =
      server_samples
        (map (with_audience (tally c.streaming_metrics ([], []))) c.infrastructure_metrics)
  answer_from get_channel_metrics c = channel_samples (map (with_output output) c.streaming_metrics)

  module _ (sources : ℕ → Option (Cycle Measures Bitrate Servers Channels)) where
    -- `_snapshot`: none is an exception of a source, after which there is no measurement.
    unfoldable pub snapshot :
        Composite Measures Bitrate Servers Channels
        → Option (Cycle Measures Bitrate Servers Channels)
          × Composite Measures Bitrate Servers Channels
    snapshot a = elim a.cycle [
      | some c ↦ (some c, a)
      | none ↦
          (sources a.readings, record { cycle = sources a.readings; readings = suc a.readings })
    ]

    -- A call, with its answer unless a source raises.
    unfoldable pub call :
        Call
        → Composite Measures Bitrate Servers Channels
        → Option (Answer Measures Bitrate Servers Channels)
          × Composite Measures Bitrate Servers Channels
    call begin_collection_cycle a = (some no_answer, record a { cycle = none })
    call q a =
        let s = snapshot a in (elim s.0 [ none ↦ none | some c ↦ some (answer_from q c) ], s.1)

    -- The calls of a pass, with their answers.
    unfoldable pub call_all :
        List Call
        → Composite Measures Bitrate Servers Channels
        → List (Option (Answer Measures Bitrate Servers Channels))
          × Composite Measures Bitrate Servers Channels
    call_all [] a = ([], a)
    call_all (q ∷ qs) a = let r = call q a in let rest = call_all qs r.1 in (r.0 ∷ rest.0, rest.1)
