-- ===== src/Channels/Types.antt =====
-- The rows of app/models/channel.py and the snapshot of app/adapters/base.py. An instant is a number
-- of microseconds; a nullable column is an `Option`.
use superflash_ia.Prelude.{ℕ, String, Bool, true, false, Option, List}

-- `ChannelType`
pub data ChannelType : Type 0 where
  permanent event temporary scheduled archived : ChannelType

abbrev pub type_beq : ChannelType → ChannelType → Bool
type_beq permanent permanent = true
type_beq event event = true
type_beq temporary temporary = true
type_beq scheduled scheduled = true
type_beq archived archived = true
type_beq _ _ = false

-- `ChannelEvent`
pub record ChannelEvent : Type 0 where
  pub event_id : ℕ
  pub source_id : String
  pub external_id : String
  pub name : String
  pub category_id : Option String
  pub category_name : Option String
  pub event_start_at : Option ℕ
  pub event_end_at : Option ℕ
  pub first_seen_at : ℕ
  pub last_seen_at : ℕ
  pub active : Bool
  pub archived_at : Option ℕ

-- `TechnicalStream`
pub record TechnicalStream : Type 0 where
  pub stream_id : ℕ
  pub source_id : String
  pub external_id : String
  pub name : Option String
  pub first_seen_at : ℕ
  pub last_seen_at : ℕ
  pub active : Bool

-- `Channel`
pub record Channel : Type 0 where
  pub channel_id : ℕ
  pub source_id : String
  pub external_id : String
  pub name : String
  pub category : Option String
  pub category_id : Option String
  pub channel_type : ChannelType
  pub event_start_at : Option ℕ
  pub event_end_at : Option ℕ
  pub first_seen_at : ℕ
  pub last_seen_at : ℕ
  pub active : Bool
  pub inactive_since_at : Option ℕ
  pub archived_at : Option ℕ
  pub source_updated_at : Option ℕ
  pub current_server_id : Option ℕ
  pub event_id : Option ℕ
  pub technical_stream_id : Option ℕ
  pub enabled : Bool

-- `ChannelCategoryHistory`
pub record CategoryInterval : Type 0 where
  pub interval_id : ℕ
  pub channel_id : ℕ
  pub source_id : String
  pub category_id : Option String
  pub category_name : Option String
  pub valid_from : ℕ
  pub valid_to : Option ℕ

-- `ChannelSnapshot`
pub record ChannelSnapshot : Type 0 where
  pub external_id : String
  pub name : String
  pub source_id : Option String
  pub category : Option String
  pub category_id : Option String
  pub server_external_id : Option String
  pub channel_type : ChannelType
  pub event_external_id : Option String
  pub event_name : Option String
  pub event_start_at : Option ℕ
  pub event_end_at : Option ℕ
  pub technical_stream_external_id : Option String
  pub technical_stream_name : Option String
  pub source_updated_at : Option ℕ
  pub enabled : Bool

-- The tables, with the keys that the database gives out next.
pub record Tables : Type 0 where
  pub channels : List Channel
  pub events : List ChannelEvent
  pub streams : List TechnicalStream
  pub intervals : List CategoryInterval
  pub next_channel : ℕ
  pub next_event : ℕ
  pub next_stream : ℕ
  pub next_interval : ℕ
