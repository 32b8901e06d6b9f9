-- ===== src/Channels/Sync.antt =====
-- `ChannelRepository.upsert_from_snapshot` and the methods that it calls. The session does not flush
-- by itself; each method flushes what it adds before another query reads it.
use superflash_ia.Prelude.{
  ℕ, suc, String, Bool, true, not, ◌&&◌, Option, none, some, List, [], ◌∷◌, ◌++◌, if◌then◌else◌,
  ◌==◌, nat_eq, string_eq, first,
}
use superflash_ia.Channels.Types.{ChannelType, type_beq, Channel, ChannelSnapshot, Tables}
use superflash_ia.Channels.Parts.{
  text_beq, instant_beq, bool_beq, text_or, has_identity, upsert_event, upsert_stream,
  record_category_change,
}
use superflash_ia.Channels.Rows.{update_first}

pub data SyncAction : Type 0 where
  created reactivated updated unchanged : SyncAction

-- `get_by_identity`
abbrev pub get_by_identity : String → String → List Channel → Option Channel
get_by_identity source external channels = first (has_identity source external) channels

-- The comparison of two results of `_channel_values`.
abbrev pub same_values : Channel → Channel → Bool
same_values a b =
    a.source_id == b.source_id
    && a.name == b.name
    && text_beq a.category b.category
    && text_beq a.category_id b.category_id
    && type_beq a.channel_type b.channel_type
    && instant_beq a.event_start_at b.event_start_at
    && instant_beq a.event_end_at b.event_end_at
    && instant_beq a.current_server_id b.current_server_id
    && instant_beq a.event_id b.event_id
    && instant_beq a.technical_stream_id b.technical_stream_id
    && bool_beq a.enabled b.enabled
    && bool_beq a.active b.active
    && instant_beq a.archived_at b.archived_at
    && instant_beq a.source_updated_at b.source_updated_at

-- The columns that a snapshot assigns to its channel, the keys of its event and stream included.
abbrev pub observe :
    ChannelSnapshot → Option ℕ → String → ℕ → Option ℕ → Option ℕ → Channel → Channel
observe s server source seen_at event stream c = record c {
  source_id = source;
  name = s.name;
  category = s.category;
  category_id = s.category_id;
  channel_type = s.channel_type;
  event_start_at = s.event_start_at;
  event_end_at = s.event_end_at;
  current_server_id = server;
  enabled = s.enabled;
  active = true;
  inactive_since_at = none;
  archived_at = none;
  last_seen_at = seen_at;
  source_updated_at = s.source_updated_at;
  event_id = event;
  technical_stream_id = stream;
}

abbrev pub new_channel : ChannelSnapshot → String → ℕ → ℕ → Channel
new_channel s source seen_at key = record {
  channel_id = key;
  source_id = source;
  external_id = s.external_id;
  name = s.name;
  category = none;
  category_id = none;
  channel_type = ChannelType.permanent;
  event_start_at = none;
  event_end_at = none;
  first_seen_at = seen_at;
  last_seen_at = seen_at;
  active = true;
  inactive_since_at = none;
  archived_at = none;
  source_updated_at = none;
  current_server_id = none;
  event_id = none;
  technical_stream_id = none;
  enabled = true;
}

-- `identity_source`
abbrev pub identity_source : ChannelSnapshot → String → String
identity_source s source = text_or s.source_id source

-- Where the channel of a snapshot comes from: its identity, the legacy row that it adopts, or
-- nowhere.
pub data Origin : Type 0 where
  known : Channel → Origin
  legacy : Channel → Origin
  unseen : Origin

abbrev pub find_channel : String → String → List Channel → Origin
find_channel source external channels = elim (get_by_identity source external channels) [
  | some c ↦ known c
  | none ↦ elim (get_by_identity "legacy" external channels) [ some c ↦ legacy c | none ↦ unseen ]
]

-- The outcome of the last tests.
abbrev pub classify : Origin → Channel → SyncAction
classify unseen after = created
classify (known c) after =
    if not c.active then reactivated else if same_values c after then unchanged else updated
classify (legacy c) after = if not c.active then reactivated else updated

-- The channel as the snapshot leaves it.
abbrev pub synced : Origin → Channel → Channel
synced unseen fresh = fresh
synced (known c) fresh = c
synced (legacy c) fresh = c

-- The table with it.
abbrev pub place :
    Origin → String → String → (Channel → Channel) → Channel → List Channel → List Channel
place unseen source external f fresh channels = channels ++ f fresh ∷ []
place (known _) source external f fresh channels =
    update_first (has_identity source external) f channels
place (legacy _) source external f fresh channels =
    update_first (has_identity "legacy" external) f channels

-- `upsert_from_snapshot`
unfoldable pub upsert_from_snapshot :
    ChannelSnapshot → Option ℕ → String → ℕ → Tables → Tables × Channel × SyncAction
upsert_from_snapshot s server source_id seen_at t =
    let source = identity_source s source_id in
    let origin = find_channel source s.external_id t.channels in
    let fresh = new_channel s source seen_at t.next_channel in
    let (t1, event) = upsert_event s source seen_at t in
    let (t2, stream) = upsert_stream s source seen_at t1 in
    let f = observe s server source seen_at event stream in
    let t3 = record t2 {
      channels = place origin source s.external_id f fresh t2.channels;
      next_channel = elim origin [ unseen ↦ suc t2.next_channel | _ ↦ t2.next_channel ];
    } in
    let channel = f (synced origin fresh) in
    (record_category_change channel source seen_at t3, channel, classify origin channel)
