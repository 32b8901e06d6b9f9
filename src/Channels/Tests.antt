-- ===== src/Channels/Tests.antt =====
-- The theorems of the channels at a table with one legacy channel.
use superflash_ia.Prelude.{true, false, ◌≡◌, ◌≢◌, refl, none, some, [], ◌∷◌, arith, string_eq}
use superflash_ia.Channels.Types.{permanent, Channel, ChannelSnapshot, Tables}
use superflash_ia.Channels.Sync.{
  get_by_identity, identity_source, upsert_from_snapshot, updated, unchanged,
}
use superflash_ia.Channels.Reconcile.{Absence, reconcile_missing}
use superflash_ia.Channels.Identity.{IsUnique, upsert-IsUnique}
use superflash_ia.Channels.Stored.{upsert_stored, upsert_again}
use superflash_ia.Channels.Missing.{after_both, reconcile_again}

abbrev channel : Channel
channel = record {
  channel_id = 1;
  source_id = "legacy";
  external_id = "ch-1";
  name = "Uno";
  category = none;
  category_id = none;
  channel_type = permanent;
  event_start_at = none;
  event_end_at = none;
  first_seen_at = 1;
  last_seen_at = 1;
  active = true;
  inactive_since_at = none;
  archived_at = none;
  source_updated_at = none;
  current_server_id = none;
  event_id = none;
  technical_stream_id = none;
  enabled = true;
}

abbrev tables : Tables
tables = record {
  channels = channel ∷ [];
  events = [];
  streams = [];
  intervals = [];
  next_channel = 2;
  next_event = 1;
  next_stream = 1;
  next_interval = 1;
}

abbrev snapshot : ChannelSnapshot
snapshot = record {
  external_id = "ch-1";
  name = "Uno";
  source_id = none;
  category = some "Deportes";
  category_id = some "7";
  server_external_id = none;
  channel_type = permanent;
  event_external_id = some "final";
  event_name = some "Final";
  event_start_at = none;
  event_end_at = none;
  technical_stream_external_id = none;
  technical_stream_name = none;
  source_updated_at = none;
  enabled = true;
}

abbrev absence : Absence
absence = record {
  source_id = "legacy";
  seen_external_ids = [];
  observed_at = 90000000000;
  event_inactive_grace_hours = 6;
  event_archive_days = 7;
  permanent_archive_days = 30;
}

tables-IsUnique : IsUnique (tables.channels)
tables-IsUnique = record { at_most_one = λ source external. ground arith }

upsert-IsUnique_example :
    IsUnique (upsert_from_snapshot snapshot (some 7) "panel" 5 tables).0.channels
upsert-IsUnique_example = upsert-IsUnique snapshot (some 7) "panel" 5 tables tables-IsUnique

upsert_stored_example :
    let (t', c, action) = upsert_from_snapshot snapshot (some 7) "panel" 5 tables in
    (get_by_identity (identity_source snapshot "panel") "ch-1" t'.channels ≡ some c)
    × (c.active ≡ true)
    × (c.archived_at ≡ none)
    × (c.inactive_since_at ≡ none)
    × (c.last_seen_at ≡ 5)
    × (c.name ≡ "Uno")
    × (c.channel_type ≡ permanent)
    × (c.category ≡ some "Deportes")
    × (c.category_id ≡ some "7")
    × (c.current_server_id ≡ some 7)
    × (c.enabled ≡ true)
    × (c.event_start_at ≡ snapshot.event_start_at)
    × (c.event_end_at ≡ snapshot.event_end_at)
    × (c.source_updated_at ≡ snapshot.source_updated_at)
upsert_stored_example = upsert_stored snapshot (some 7) "panel" 5 tables

upsert_again_example :
    let t' = (upsert_from_snapshot snapshot (some 7) "panel" 5 tables).0 in
    (upsert_from_snapshot snapshot (some 7) "panel" 8 t').2 ≡ unchanged
upsert_again_example = upsert_again snapshot (some 7) "panel" 5 8 tables

reconcile_again_example :
    let rows = (reconcile_missing absence tables.channels).0 in
    reconcile_missing absence rows ≡ (rows, record { deactivated = 0; archived = 0 })
reconcile_again_example = reconcile_again absence (tables.channels)

-- Forty days later, of a channel that has been inactive since.
abbrev later : Absence
later = record absence { observed_at = 3456000000000 }

abbrev inactive : Channel
inactive = record channel { active = false; inactive_since_at = some 90000000000 }

inactive_archived : (after_both later inactive).archived_at ≢ none
inactive_archived h = ground arith

-- The legacy row is adopted.
adopted : (upsert_from_snapshot snapshot (some 7) "panel" 5 tables).2 ≡ updated
unfolding upsert_from_snapshot
adopted = refl
