-- ===== src/Servers/Relations.antt =====
-- `relation_summary` and `can_hard_delete` of app/repositories/server_repository.py.
use superflash_ia.Prelude.{
  ℕ, Bool, true, false, not, ◌&&◌, Option, none, some, List, ◌==◌, nat_eq, is_some, if◌then◌else◌,
  count, first,
}
use superflash_ia.Onboarding.Types.{Status, Onboarding, AuditEvent, InventorySnapshot}
use superflash_ia.Channels.Types.{Channel, CategoryInterval}
use superflash_ia.Servers.Types.{OwnedRow, ChannelRow, ServerRow, Inventory}

-- `ServerRelationSummary`
pub record Relations : Type 0 where
  pub metrics : ℕ
  pub alerts : ℕ
  pub inventory_snapshots : ℕ
  pub onboarding_jobs : ℕ
  pub non_cancelled_onboarding_jobs : ℕ
  pub onboarding_audit_events : ℕ
  pub assigned_channels : ℕ
  pub channel_metrics : ℕ
  pub category_history : ℕ
  pub cost_records : ℕ
  pub simulation_records : ℕ

abbrev pub is_cancelled : Status → Bool
is_cancelled Status.cancelled = true
is_cancelled _ = false

-- A nullable reference to a server.
abbrev pub refers : ℕ → Option ℕ → Bool
refers key none = false
refers key (some k) = k == key

module _ (key : ℕ) where
  abbrev pub owns_row : OwnedRow → Bool
  owns_row r = r.server_id == key

  abbrev pub owns_snapshot : InventorySnapshot → Bool
  owns_snapshot s = s.server_id == key

  abbrev pub owns_job : Onboarding → Bool
  owns_job o = o.server_id == key

  abbrev pub owns_event : AuditEvent → Bool
  owns_event a = a.server_id == key

  abbrev pub is_assigned : Channel → Bool
  is_assigned c = refers key c.current_server_id

  abbrev pub measured_at : ChannelRow → Bool
  measured_at r = refers key r.server_id

  abbrev pub is_not_cancelled_job : Onboarding → Bool
  is_not_cancelled_job o = owns_job o && not (is_cancelled o.status)

  -- The `join` with the channels: an interval counts if its channel is assigned.
  abbrev pub is_in_channel : List Channel → CategoryInterval → Bool
  is_in_channel channels i =
      is_some (first (λ c. c.channel_id == i.channel_id && is_assigned c) channels)

module _ {Details Number : Type 0} where
  unfoldable pub relation_summary : ServerRow Details Number → Inventory Details Number → Relations
  relation_summary server inv =
      let key = server.server_id in
      record {
        metrics = count (owns_row key) inv.metrics;
        alerts = count (owns_row key) inv.alerts;
        inventory_snapshots = count (owns_snapshot key) inv.snapshots;
        onboarding_jobs = count (owns_job key) inv.onboardings;
        non_cancelled_onboarding_jobs = count (is_not_cancelled_job key) inv.onboardings;
        onboarding_audit_events = count (owns_event key) inv.audits;
        assigned_channels = count (is_assigned key) inv.channels;
        channel_metrics = count (measured_at key) inv.channel_metrics;
        category_history = count (is_in_channel key inv.channels) inv.intervals;
        cost_records = if is_some server.monthly_cost then 1 else 0;
        simulation_records = 0;
      }

-- `all(relations[name] == 0 for name in protected)`
abbrev pub can_hard_delete : Relations → Bool
can_hard_delete r =
    r.metrics == 0
    && r.alerts == 0
    && r.inventory_snapshots == 0
    && r.non_cancelled_onboarding_jobs == 0
    && r.assigned_channels == 0
    && r.channel_metrics == 0
    && r.category_history == 0
    && r.cost_records == 0
    && r.simulation_records == 0
