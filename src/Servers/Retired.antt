-- ===== src/Servers/Retired.antt =====
-- What every removal of a server keeps.
use superflash_ia.Prelude.{
  ℕ, String, Bool, true, ◌&&◌, ◌≡◌, refl, ◌∙◌, inl, inr, Bool-cases, Option-cases, Option, arith,
  ◌==◌, nat_eq, string_eq,
}
use superflash_ia.Servers.Types.{ServerRow, Inventory, DeletionRequest}
use superflash_ia.Servers.Relations.{
  relation_summary, can_hard_delete, owns_row, owns_snapshot, is_assigned, measured_at,
}
use superflash_ia.Servers.Repository.{
  get, cancel_active_onboardings, archive, delete, unassign, forget_server,
}
use superflash_ia.Servers.Endpoints.{
  is_archived, is_wrong_hostname, operator_actor, cancel_jobs, retire, delete_server,
}
use superflash_ia.Servers.Rows.{select-none, update-none}

-- The tables that the history of the production is in.
pub record IsKept {Details Number : Type 0} (inv inv' : Inventory Details Number) : Type 0 where
  pub metrics : inv'.metrics ≡ inv.metrics
  pub alerts : inv'.alerts ≡ inv.alerts
  pub snapshots : inv'.snapshots ≡ inv.snapshots
  pub channels : inv'.channels ≡ inv.channels
  pub channel_metrics : inv'.channel_metrics ≡ inv.channel_metrics
  pub intervals : inv'.intervals ≡ inv.intervals

module _ {Details Number : Type 0} where
  IsKept-refl : (inv : Inventory Details Number) → IsKept inv inv
  IsKept-refl inv = record {
    metrics = refl;
    alerts = refl;
    snapshots = refl;
    channels = refl;
    channel_metrics = refl;
    intervals = refl;
  }

  delete-IsKept :
      (s : ServerRow Details Number) (inv : Inventory Details Number)
      → can_hard_delete (relation_summary s inv) ≡ true
      → IsKept inv (delete s.server_id inv)
  unfolding relation_summary delete
  delete-IsKept s inv h = record {
    metrics = select-none (owns_row s.server_id) inv.metrics (ground arith);
    alerts = select-none (owns_row s.server_id) inv.alerts (ground arith);
    snapshots = select-none (owns_snapshot s.server_id) inv.snapshots (ground arith);
    channels = update-none (is_assigned s.server_id) unassign inv.channels (ground arith);
    channel_metrics =
        update-none (measured_at s.server_id) forget_server inv.channel_metrics (ground arith);
    intervals = refl;
  }

  cancel_jobs-IsKept :
      (actor : String) (now : ℕ) (s : ServerRow Details Number) (inv : Inventory Details Number)
      → IsKept inv (cancel_jobs actor now s inv).0
  unfolding cancel_active_onboardings
  cancel_jobs-IsKept actor now s inv = elim (Bool-cases (is_archived s.lifecycle_state)) [
    | inl before ↦ rw before (IsKept-refl inv)
    | inr not_before ↦ rw not_before (record {
      metrics = refl;
      alerts = refl;
      snapshots = refl;
      channels = refl;
      channel_metrics = refl;
      intervals = refl;
    })
  ]

  IsKept-trans : (a b c : Inventory Details Number) → IsKept a b → IsKept b c → IsKept a c
  IsKept-trans a b c h k = record {
    metrics = k.metrics ∙ h.metrics;
    alerts = k.alerts ∙ h.alerts;
    snapshots = k.snapshots ∙ h.snapshots;
    channels = k.channels ∙ h.channels;
    channel_metrics = k.channel_metrics ∙ h.channel_metrics;
    intervals = k.intervals ∙ h.intervals;
  }

  archive-IsKept : (key at : ℕ) (inv : Inventory Details Number) → IsKept inv (archive key at inv)
  unfolding archive
  archive-IsKept key at inv = record {
    metrics = refl;
    alerts = refl;
    snapshots = refl;
    channels = refl;
    channel_metrics = refl;
    intervals = refl;
  }

  retire-IsKept :
      (actor : String) (now archived_at : ℕ) (s : ServerRow Details Number)
      (inv : Inventory Details Number)
      → IsKept inv (retire actor now archived_at s inv).0
  unfolding retire
  retire-IsKept actor now archived_at s inv =
      let c = cancel_jobs actor now s inv in
      let k = cancel_jobs-IsKept actor now s inv in
      elim (Bool-cases (c.1 == 0 && can_hard_delete (relation_summary s c.0))) [
        | inl removes ↦ rw removes (
            IsKept-trans inv c.0 (delete s.server_id c.0) k
              (delete-IsKept s c.0 (ground (arith, removes))))
        | inr keeps ↦ rw keeps (
            IsKept-trans inv c.0 (archive s.server_id archived_at c.0) k
              (archive-IsKept s.server_id archived_at c.0))
      ]

  -- Whatever is asked, whether the server is deleted, archived or the request is refused: the
  -- samples, the alerts, the inventory snapshots, the channels with their samples and their category
  -- intervals are what they were.
  pub delete_server-IsKept :
      (is_alnum : ℕ → Bool) (key : ℕ) (req : DeletionRequest) (operator_id : Option String)
      (now archived_at : ℕ) (inv : Inventory Details Number)
      → IsKept inv (delete_server is_alnum key req operator_id now archived_at inv).0
  unfolding delete_server
  delete_server-IsKept is_alnum key req operator_id now archived_at inv =
      elim (Option-cases (get key inv)) [
        | inl absent ↦ rw (delete_server, absent) (IsKept-refl inv)
        | inr (s, found) ↦
            let actor = operator_actor is_alnum operator_id in
            elim (Bool-cases (req.confirmation == s.name)) [
              | inr other ↦ rw (delete_server, found, other) (IsKept-refl inv)
              | inl named ↦ elim (Bool-cases (is_wrong_hostname req s)) [
                | inl wrong ↦ rw (delete_server, found, named, wrong) (IsKept-refl inv)
                | inr right ↦
                    rw (delete_server, found, named, right)
                      (retire-IsKept actor now archived_at s inv)
              ]
            ]
      ]
