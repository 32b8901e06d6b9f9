-- ===== src/Channels/Reconcile.antt =====
-- `ChannelRepository.reconcile_missing`: a channel that its source no longer lists is deactivated and
-- archived later. A difference of instants is a sum on the other side.
use superflash_ia.Prelude.{
  ℕ, ◌+◌, ◌*◌, String, Bool, false, not, ◌&&◌, ◌||◌, none, some, List, if◌then◌else◌, leb, ◌==◌,
  string_eq, or_else, is_some, count, update, contains,
}
use superflash_ia.Channels.Types.{ChannelType, type_beq, Channel}

abbrev pub hours : ℕ → ℕ
hours n = n * 3600000000

abbrev pub days : ℕ → ℕ
days n = n * 86400000000

-- The arguments of the call.
pub record Absence : Type 0 where
  pub source_id : String
  pub seen_external_ids : List String
  pub observed_at : ℕ
  pub event_inactive_grace_hours : ℕ
  pub event_archive_days : ℕ
  pub permanent_archive_days : ℕ

abbrev pub of_source : Absence → Channel → Bool
of_source a c = c.source_id == a.source_id

-- The test of the first loop.
abbrev pub is_missing : Absence → Channel → Bool
is_missing a c = not (contains a.seen_external_ids c.external_id) && c.active

abbrev pub deactivate : Absence → Channel → Channel
deactivate a c = record c {
  active = false;
  enabled = false;
  current_server_id = none;
  inactive_since_at = some a.observed_at;
}

abbrev pub retention_days : Absence → Channel → ℕ
retention_days a c =
    if type_beq c.channel_type ChannelType.permanent
    then a.permanent_archive_days
    else a.event_archive_days

-- The tests of the second loop.
abbrev pub is_archivable : Absence → Channel → Bool
is_archivable a c =
    not (c.active || is_some c.archived_at)
    && leb (or_else c.inactive_since_at c.last_seen_at + hours a.event_inactive_grace_hours)
        a.observed_at
    && leb (c.last_seen_at + days (retention_days a c)) a.observed_at

abbrev pub archive : Absence → Channel → Channel
archive a c = record c { channel_type = ChannelType.archived; archived_at = some a.observed_at }

-- The first loop, over the rows of the source, with `deactivated`.
unfoldable pub deactivate_missing : Absence → List Channel → List Channel × ℕ
deactivate_missing a channels = (
  update (λ c. of_source a c && is_missing a c) (deactivate a) channels,
  count (λ c. of_source a c && is_missing a c) channels,
)

-- The second loop, over the same rows, with `archived`.
unfoldable pub archive_inactive : Absence → List Channel → List Channel × ℕ
archive_inactive a channels = (
  update (λ c. of_source a c && is_archivable a c) (archive a) channels,
  count (λ c. of_source a c && is_archivable a c) channels,
)

pub record Reconciliation : Type 0 where
  pub deactivated : ℕ
  pub archived : ℕ

-- `reconcile_missing`
unfoldable pub reconcile_missing : Absence → List Channel → List Channel × Reconciliation
unfolding deactivate_missing archive_inactive
reconcile_missing a channels =
    let (rows, deactivated) = deactivate_missing a channels in
    let (rows', archived) = archive_inactive a rows in
    (rows', record { deactivated = deactivated; archived = archived })
