-- ===== src/Collection/Channels.antt =====
-- `CollectionService._sync_channels`: the channels of one pass over a source, and the absences of
-- every source that was seen. A statement of the database that raises undoes its savepoint; which do
-- is a parameter, as the name of the exception's class.
use Prim.Native.String.{◌++◌ as ◌<>◌}
use superflash_ia.Prelude.{
  ℕ, ◌+◌, String, Option, none, some, List, [], ◌∷◌, ◌++◌, if◌then◌else◌, ◌==◌, string_eq, truthy,
  or_else, contains,
}
use superflash_ia.Channels.Types.{ChannelSnapshot, Tables}
use superflash_ia.Channels.Sync.{
  SyncAction, created, reactivated, updated, unchanged, identity_source, upsert_from_snapshot,
}
use superflash_ia.Channels.Reconcile.{Absence, reconcile_missing}
use superflash_ia.Collection.Runs.{Counters, CollectionResult}

-- A dictionary in the order of its insertions.
abbrev pub Table : Type 0 → Type 0
Table V = List (String × V)

abbrev pub find : {V : Type 0} → String → Table V → Option V
find k [] = none
find k ((j, v) ∷ d) = if j == k then some v else find k d

-- `seen_by_source[source_id].add(external_id)`
unfoldable pub add_seen : String → String → Table (List String) → Table (List String)
add_seen source external [] = (source, external ∷ []) ∷ []
add_seen source external ((j, xs) ∷ d) =
    let rest = add_seen source external d in
    if j == source
    then (j, if contains xs external then xs else xs ++ external ∷ []) ∷ d
    else (j, xs) ∷ rest

-- What the pass changes.
pub record Pass : Type 0 where
  pub tables : Tables
  pub result : CollectionResult

abbrev pub count_with : (Counters → Counters) → CollectionResult → CollectionResult
count_with f r = record r { counters = f r.counters }

-- `_record_error`
abbrev pub record_error : String → String → CollectionResult → CollectionResult
record_error message name r = record r { errors = r.errors ++ (message <> (": " <> name)) ∷ [] }

-- The counter `channels_{action}`.
abbrev pub count_action : SyncAction → Counters → Counters
count_action created c = record c { channels_created = c.channels_created + 1 }
count_action reactivated c = record c { channels_reactivated = c.channels_reactivated + 1 }
count_action updated c = record c { channels_updated = c.channels_updated + 1 }
count_action unchanged c = record c { channels_unchanged = c.channels_unchanged + 1 }

-- The settings of the pass: the name of the adapter, the identifiers of the servers, the three
-- retentions, and which savepoints raise.
pub record Source : Type 0 where
  pub source_name : String
  pub server_ids : Table ℕ
  pub event_inactive_grace_hours : ℕ
  pub event_archive_days : ℕ
  pub permanent_archive_days : ℕ
  pub upsert_raises : ChannelSnapshot → Option String
  pub reconcile_raises : String → Option String

module _ (src : Source) where
  abbrev pub current_server : ChannelSnapshot → Option ℕ
  current_server s =
      if truthy s.server_external_id
      then find (or_else s.server_external_id "") src.server_ids
      else none

  -- The body of the first loop.
  unfoldable pub sync_channel : ChannelSnapshot → Pass → Pass
  sync_channel s p =
      let source = identity_source s src.source_name in
      elim (src.upsert_raises s) [
        | none ↦
            let (tables, channel, action) =
              upsert_from_snapshot s (current_server s) source p.result.collected_at p.tables in
            record {
              tables = tables;
              result =
                  count_with
                    (λ c.
                      count_action action (record c { channels_synced = c.channels_synced + 1 }))
                    p.result;
            }
        | some name ↦ record p {
          result =
              record_error ("fallo sincronizando canal " <> s.external_id) name
                (count_with (λ c. record c { channels_failed = c.channels_failed + 1 }) p.result);
        }
      ]

  unfoldable pub sync_each : List ChannelSnapshot → Pass → Pass
  sync_each [] p = p
  sync_each (s ∷ ss) p = sync_each ss (sync_channel s p)

  -- `seen_by_source`, which starts with the source of the adapter.
  unfoldable pub seen_by_source : List ChannelSnapshot → Table (List String) → Table (List String)
  seen_by_source [] seen = seen
  seen_by_source (s ∷ ss) seen =
      seen_by_source ss (add_seen (identity_source s src.source_name) s.external_id seen)

  abbrev pub absence_of : String → List String → ℕ → Absence
  absence_of source seen at = record {
    source_id = source;
    seen_external_ids = seen;
    observed_at = at;
    event_inactive_grace_hours = src.event_inactive_grace_hours;
    event_archive_days = src.event_archive_days;
    permanent_archive_days = src.permanent_archive_days;
  }

  -- The body of the second loop.
  unfoldable pub reconcile_source : String → List String → Pass → Pass
  reconcile_source source seen p = elim (src.reconcile_raises source) [
    | none ↦
        let (rows, found) =
          reconcile_missing (absence_of source seen p.result.collected_at) p.tables.channels in
        record {
          tables = record (p.tables) { channels = rows };
          result =
              count_with
                (λ c. record c {
                  channels_deactivated = c.channels_deactivated + found.deactivated;
                  channels_archived = c.channels_archived + found.archived;
                })
                p.result;
        }
    | some name ↦ record p {
      result =
          record_error ("fallo reconciliando fuente " <> source) name
            (count_with (λ c. record c { channels_failed = c.channels_failed + 1 }) p.result);
    }
  ]

  unfoldable pub reconcile_each : Table (List String) → Pass → Pass
  reconcile_each [] p = p
  reconcile_each ((source, seen) ∷ d) p = reconcile_each d (reconcile_source source seen p)

  -- `_sync_channels`
  unfoldable pub sync_channels : List ChannelSnapshot → Pass → Pass
  sync_channels snapshots p =
      reconcile_each (seen_by_source snapshots ((src.source_name, []) ∷ [])) (sync_each snapshots p)
