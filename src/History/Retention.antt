-- ===== src/History/Retention.antt =====
-- The removal of old rows: `prune_history` of app/services/retention_service.py and `main` of
-- app/tasks/prune_metrics.py. An instant is the number of microseconds from the first that a
-- `datetime` has, so that an earlier one is Python's `OverflowError`.
use superflash_ia.Prelude.{
  ℕ, ℤ, pos, negsuc, ◌-◌, ◌*◌, suc, Bool, true, false, Option, none, some, List, [], ◌∷◌,
  if◌then◌else◌, ltb, count,
}
use superflash_ia.Collection.Runs.{CollectionRun}
use superflash_ia.History.Samples.{Sample}

pub record RetentionResult : Type 0 where
  pub cutoff : ℕ
  pub dry_run : Bool
  pub server_metrics_deleted : ℕ
  pub channel_metrics_deleted : ℕ
  pub collection_runs_deleted : ℕ

pub data PruneError : Type 0 where
  value_error overflow_error : PruneError

abbrev pub microseconds_per_day : ℕ
microseconds_per_day = 86400000000

abbrev pub is_old_run : ℕ → CollectionRun → Bool
is_old_run cutoff r = ltb r.started_at cutoff

-- `_delete`: the rows that a `delete` leaves, and its row count.
unfoldable pub delete_where {ℓ} : {A : Type ℓ} → (A → Bool) → List A → List A × ℕ
delete_where p [] = ([], 0)
delete_where p (r ∷ rs) =
    let rest = delete_where p rs in if p r then (rest.0, suc rest.1) else (r ∷ rest.0, rest.1)

-- The tables that the retention works on.
pub record Stored (ServerMeasures ChannelMeasures : Type 0) : Type 0 where
  pub server_samples : List (Sample ServerMeasures)
  pub channel_samples : List (Sample ChannelMeasures)
  pub runs : List CollectionRun

pub data Pruned (ServerMeasures ChannelMeasures : Type 0) : Type 0 where
  pruned :
      RetentionResult
      → Stored ServerMeasures ChannelMeasures
      → Pruned ServerMeasures ChannelMeasures
  refused : PruneError → Pruned ServerMeasures ChannelMeasures

-- How `main` ends: its exit code and the tables then, or the exception.
pub data Exit (ServerMeasures ChannelMeasures : Type 0) : Type 0 where
  exit_code : ℕ → Stored ServerMeasures ChannelMeasures → Exit ServerMeasures ChannelMeasures
  raised : PruneError → Exit ServerMeasures ChannelMeasures

abbrev pub is_old : {Measures : Type 0} → ℕ → Sample Measures → Bool
is_old cutoff s = ltb s.collected_at cutoff

module _ {ServerMeasures ChannelMeasures : Type 0} where
  -- The branch of a simulation.
  abbrev pub simulate :
      ℕ → Stored ServerMeasures ChannelMeasures → Pruned ServerMeasures ChannelMeasures
  simulate cutoff st =
      pruned
        (record {
          cutoff = cutoff;
          dry_run = true;
          server_metrics_deleted = count (is_old cutoff) st.server_samples;
          channel_metrics_deleted = count (is_old cutoff) st.channel_samples;
          collection_runs_deleted = count (is_old_run cutoff) st.runs;
        })
        st

  unfoldable pub remove :
      ℕ → Stored ServerMeasures ChannelMeasures → Pruned ServerMeasures ChannelMeasures
  remove cutoff st =
      let servers = delete_where (is_old cutoff) st.server_samples in
      let channels = delete_where (is_old cutoff) st.channel_samples in
      let runs = delete_where (is_old_run cutoff) st.runs in
      pruned
        (record {
          cutoff = cutoff;
          dry_run = false;
          server_metrics_deleted = servers.1;
          channel_metrics_deleted = channels.1;
          collection_runs_deleted = runs.1;
        })
        (record { server_samples = servers.0; channel_samples = channels.0; runs = runs.0 })

  unfoldable pub prune_history :
      ℕ → ℤ → Bool → Stored ServerMeasures ChannelMeasures → Pruned ServerMeasures ChannelMeasures
  prune_history now (negsuc n) dry_run st = refused value_error
  prune_history now (pos days) dry_run st =
      let span = days * microseconds_per_day in
      if ltb days 1
      then refused value_error
      else if ltb now span
      then refused overflow_error
      else if dry_run
      then simulate (now - span) st
      else remove (now - span) st

  abbrev pub exit_of : Pruned ServerMeasures ChannelMeasures → Exit ServerMeasures ChannelMeasures
  exit_of (pruned result st) = exit_code 0 st
  exit_of (refused e) = raised e

  -- `main`, with the setting `metrics_retention_days` and the option `--dry-run`.
  unfoldable pub prune_main :
      ℕ
      → Option ℤ
      → Bool
      → Stored ServerMeasures ChannelMeasures
      → Exit ServerMeasures ChannelMeasures
  prune_main now none dry_run st = exit_code 2 st
  prune_main now (some days) dry_run st = exit_of (prune_history now days dry_run st)
