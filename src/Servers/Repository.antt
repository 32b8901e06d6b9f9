-- ===== src/Servers/Repository.antt =====
-- The operations of app/repositories/server_repository.py that write the inventory.
use superflash_ia.Prelude.{
  ℕ, suc, String, Bool, true, false, not, ◌&&◌, Option, none, some, [], ◌∷◌, ◌++◌, map, ◌==◌,
  nat_eq, string_eq, select, first, update, length,
}
use superflash_ia.Onboarding.Types.{Status, is_active, Onboarding, AuditEvent}
use superflash_ia.Channels.Types.{Channel}
use superflash_ia.Channels.Rows.{update_first}
use superflash_ia.Onboarding.Api.{cancelled_text}
use superflash_ia.Servers.Types.{active, archived, ChannelRow, ServerRow, Inventory, ServerSnapshot}
use superflash_ia.Servers.Relations.{
  owns_row, owns_snapshot, owns_job, owns_event, is_assigned, measured_at,
}

abbrev pub is_active_job : ℕ → Onboarding → Bool
is_active_job key o = owns_job key o && is_active o.status

abbrev pub cancel_job : ℕ → Onboarding → Onboarding
cancel_job now o = record o {
  status = Status.cancelled;
  cancel_requested = true;
  last_error_code = some "cancelled";
  last_error_message_sanitized = some cancelled_text;
  updated_at = some now;
}

abbrev pub removal_event : ℕ → String → ℕ → Onboarding → AuditEvent
removal_event key actor now o = record {
  onboarding_id = o.onboarding_id;
  server_id = key;
  actor = actor;
  event = "cancelled_for_server_removal";
  step = o.current_step;
  success = false;
  detail_sanitized = "Job de onboarding cancelado antes de retirar el servidor.";
  created_at = now;
}

-- What a foreign key with `ondelete="SET NULL"` does.
abbrev pub unassign : Channel → Channel
unassign c = record c { current_server_id = none }

abbrev pub forget_server : ChannelRow → ChannelRow
forget_server r = record r { server_id = none }

module _ {Details Number : Type 0} where
  abbrev pub has_id : ℕ → ServerRow Details Number → Bool
  has_id key s = s.server_id == key

  abbrev pub has_external_id : String → ServerRow Details Number → Bool
  has_external_id external s = s.external_id == external

  -- `get`
  abbrev pub get : ℕ → Inventory Details Number → Option (ServerRow Details Number)
  get key inv = first (has_id key) inv.servers

  abbrev pub get_by_external_id :
      String → Inventory Details Number → Option (ServerRow Details Number)
  get_by_external_id external inv = first (has_external_id external) inv.servers

  unfoldable pub cancel_active_onboardings :
      ℕ → String → ℕ → Inventory Details Number → Inventory Details Number × ℕ
  cancel_active_onboardings key actor now inv =
      let jobs = select (is_active_job key) inv.onboardings in
      (
        record inv {
          onboardings = update (is_active_job key) (cancel_job now) inv.onboardings;
          audits = inv.audits ++ map (removal_event key actor now) jobs;
        },
        length jobs,
      )

  abbrev pub archive_row : ℕ → ServerRow Details Number → ServerRow Details Number
  archive_row now s = record s {
    lifecycle_state = archived;
    archived_at = some now;
    enabled = false;
  }

  -- `archive`
  unfoldable pub archive : ℕ → ℕ → Inventory Details Number → Inventory Details Number
  archive key now inv = record inv {
    servers = update_first (has_id key) (archive_row now) inv.servers;
  }

  -- `create`, for a row without its key.
  unfoldable pub create :
      ServerRow Details Number → Inventory Details Number → Inventory Details Number
  create row inv = record inv {
    servers = inv.servers ++ record row { server_id = inv.next_server } ∷ [];
    next_server = suc inv.next_server;
  }

  -- `delete`, with what the foreign keys of the other tables do.
  unfoldable pub delete : ℕ → Inventory Details Number → Inventory Details Number
  delete key inv = record inv {
    servers = select (λ s. not (has_id key s)) inv.servers;
    metrics = select (λ r. not (owns_row key r)) inv.metrics;
    alerts = select (λ r. not (owns_row key r)) inv.alerts;
    snapshots = select (λ s. not (owns_snapshot key s)) inv.snapshots;
    onboardings = select (λ o. not (owns_job key o)) inv.onboardings;
    audits = select (λ a. not (owns_event key a)) inv.audits;
    channels = update (is_assigned key) unassign inv.channels;
    channel_metrics = update (measured_at key) forget_server inv.channel_metrics;
  }

  abbrev pub write_snapshot :
      ServerSnapshot Details → ServerRow Details Number → ServerRow Details Number
  write_snapshot sn s = record s {
    name = sn.name;
    hostname = sn.hostname;
    enabled = sn.enabled;
    details = sn.details s.details;
  }

  -- The row of an external id that is new: `defaults` has the columns that only a client reads.
  abbrev pub new_row : Details → ServerSnapshot Details → ℕ → ServerRow Details Number
  new_row defaults sn key = record {
    server_id = key;
    external_id = sn.external_id;
    name = sn.name;
    hostname = none;
    monthly_cost = none;
    lifecycle_state = active;
    archived_at = none;
    enabled = true;
    details = defaults;
  }

  unfoldable pub upsert_from_snapshot :
      Details → ServerSnapshot Details → Inventory Details Number → Inventory Details Number
  unfolding create
  upsert_from_snapshot defaults sn inv = elim (get_by_external_id sn.external_id inv) [
    | none ↦ create (write_snapshot sn (new_row defaults sn inv.next_server)) inv
    | some s ↦ record inv {
      servers = update_first (has_external_id sn.external_id) (write_snapshot sn) inv.servers;
    }
  ]
