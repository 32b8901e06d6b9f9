-- ===== src/Channels/Parts.antt =====
-- The events, the technical streams and the category intervals of a channel, as `upsert_from_snapshot`
-- synchronises them: `_upsert_event`, `_upsert_stream` and `_record_category_change`.
use superflash_ia.Prelude.{
  ℕ, suc, String, Bool, true, not, ◌&&◌, ◌||◌, Option, none, some, List, [], ◌∷◌, ◌++◌,
  if◌then◌else◌, ltb, ◌==◌, nat_eq, string_eq, option_beq, or_else, truthy, first, select,
}
use superflash_ia.Channels.Types.{
  ChannelEvent, TechnicalStream, Channel, CategoryInterval, ChannelSnapshot, Tables,
}
use superflash_ia.Channels.Rows.{update_first}

abbrev pub text_beq : Option String → Option String → Bool
text_beq = option_beq (λ (a : String) b. a == b)

abbrev pub instant_beq : Option ℕ → Option ℕ → Bool
instant_beq = option_beq (λ (a : ℕ) b. a == b)

abbrev pub bool_beq : Bool → Bool → Bool
bool_beq a b = if a then b else not b

-- `x or y`, with a text for `y`.
abbrev pub text_or : Option String → String → String
text_or s d = if truthy s then or_else s d else d

abbrev pub has_identity : String → String → Channel → Bool
has_identity source external c = c.source_id == source && c.external_id == external

abbrev pub event_identity : String → String → ChannelEvent → Bool
event_identity source external e = e.source_id == source && e.external_id == external

abbrev pub stream_identity : String → String → TechnicalStream → Bool
stream_identity source external s = s.source_id == source && s.external_id == external

-- The columns of an event that the snapshot assigns.
abbrev pub observe_event : ChannelSnapshot → ℕ → ChannelEvent → ChannelEvent
observe_event s seen_at e = record e {
  name = text_or s.event_name s.name;
  category_id = s.category_id;
  category_name = s.category;
  event_start_at = s.event_start_at;
  event_end_at = s.event_end_at;
  last_seen_at = seen_at;
  active = true;
  archived_at = none;
}

abbrev pub new_event : ChannelSnapshot → String → String → ℕ → ℕ → ChannelEvent
new_event s source external seen_at key = record {
  event_id = key;
  source_id = source;
  external_id = external;
  name = text_or s.event_name s.name;
  category_id = none;
  category_name = none;
  event_start_at = none;
  event_end_at = none;
  first_seen_at = seen_at;
  last_seen_at = seen_at;
  active = true;
  archived_at = none;
}

-- `_upsert_event`: the tables and the key of the event.
unfoldable pub upsert_event : ChannelSnapshot → String → ℕ → Tables → Tables × Option ℕ
upsert_event s source seen_at t = elim s.event_external_id [
  | none ↦ (t, none)
  | some external ↦ elim (first (event_identity source external) t.events) [
    | none ↦ (
      record t {
        events =
            t.events
            ++ observe_event s seen_at (new_event s source external seen_at t.next_event) ∷ [];
        next_event = suc t.next_event;
      },
      some t.next_event,
    )
    | some e ↦ (
      record t {
        events = update_first (event_identity source external) (observe_event s seen_at) t.events;
      },
      some e.event_id,
    )
  ]
]

abbrev pub observe_stream : ChannelSnapshot → ℕ → TechnicalStream → TechnicalStream
observe_stream s seen_at x = record x {
  name = s.technical_stream_name;
  last_seen_at = seen_at;
  active = true;
}

abbrev pub new_stream : String → String → ℕ → ℕ → TechnicalStream
new_stream source external seen_at key = record {
  stream_id = key;
  source_id = source;
  external_id = external;
  name = none;
  first_seen_at = seen_at;
  last_seen_at = seen_at;
  active = true;
}

-- `_upsert_stream`: the tables and the key of the stream.
unfoldable pub upsert_stream : ChannelSnapshot → String → ℕ → Tables → Tables × Option ℕ
upsert_stream s source seen_at t = elim s.technical_stream_external_id [
  | none ↦ (t, none)
  | some external ↦ elim (first (stream_identity source external) t.streams) [
    | none ↦ (
      record t {
        streams =
            t.streams
            ++ observe_stream s seen_at (new_stream source external seen_at t.next_stream) ∷ [];
        next_stream = suc t.next_stream;
      },
      some t.next_stream,
    )
    | some x ↦ (
      record t {
        streams =
            update_first (stream_identity source external) (observe_stream s seen_at) t.streams;
      },
      some x.stream_id,
    )
  ]
]

abbrev pub is_later : CategoryInterval → CategoryInterval → Bool
is_later a b =
    ltb b.valid_from a.valid_from
    || (a.valid_from == b.valid_from && ltb b.interval_id a.interval_id)

-- The first row of the order by `valid_from` and key, both descending.
abbrev pub latest_interval : List CategoryInterval → Option CategoryInterval
latest_interval [] = none
latest_interval (x ∷ xs) = elim (latest_interval xs) [
  | none ↦ some x
  | some y ↦ some (if is_later y x then y else x)
]

abbrev pub of_channel : ℕ → CategoryInterval → Bool
of_channel key i = i.channel_id == key

abbrev pub has_key : ℕ → CategoryInterval → Bool
has_key key i = i.interval_id == key

abbrev pub same_category : Channel → CategoryInterval → Bool
same_category c i = text_beq i.category_id c.category_id && text_beq i.category_name c.category

-- The interval before the new one, `valid_to` if it is open.
abbrev pub close_interval : ℕ → CategoryInterval → CategoryInterval
close_interval seen_at i = record i { valid_to = some (or_else i.valid_to seen_at) }

abbrev pub open_interval : Channel → String → ℕ → ℕ → CategoryInterval
open_interval c source seen_at key = record {
  interval_id = key;
  channel_id = c.channel_id;
  source_id = source;
  category_id = c.category_id;
  category_name = c.category;
  valid_from = seen_at;
  valid_to = none;
}

-- `_record_category_change`
unfoldable pub record_category_change : Channel → String → ℕ → Tables → Tables
record_category_change c source seen_at t =
    let added = open_interval c source seen_at t.next_interval in
    elim (latest_interval (select (of_channel c.channel_id) t.intervals)) [
      | none ↦ record t {
        intervals = t.intervals ++ added ∷ [];
        next_interval = suc t.next_interval;
      }
      | some i ↦
          if same_category c i
          then record t {
            intervals =
                update_first (has_key i.interval_id) (λ x. record x { valid_to = none })
                  t.intervals;
          }
          else record t {
            intervals =
                update_first (has_key i.interval_id) (close_interval seen_at) t.intervals
                ++ added ∷ [];
            next_interval = suc t.next_interval;
          }
    ]
