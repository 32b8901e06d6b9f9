-- ===== src/Servers/Removal.antt =====
-- Which servers a removal deletes, and the jobs that it ends.
use superflash_ia.Prelude.{
  ℕ, String, Bool, true, false, not, ◌&&◌, ◌≡◌, refl, sym, subst, ◌∙◌, inl, inr, Bool-cases, Option,
  none, some, is_some, arith, if◌then◌else◌, count, update, ◌==◌, nat_eq, string_eq, nat_beq_iff,
}
use superflash_ia.Onboarding.Types.{is_active, Onboarding, InventorySnapshot}
use superflash_ia.Channels.Types.{Channel}
use superflash_ia.Channels.Rows.{first-update_first}
use superflash_ia.Servers.Types.{
  archived, OwnedRow, ChannelRow, ServerRow, Inventory, DeletionRequest,
}
use superflash_ia.Servers.Relations.{
  is_cancelled, refers, is_in_channel, relation_summary, can_hard_delete, owns_job,
}
use superflash_ia.Servers.Repository.{
  has_id, get, is_active_job, cancel_job, cancel_active_onboardings, archive, archive_row, delete,
}
use superflash_ia.Servers.Endpoints.{
  is_archived, is_wrong_hostname, operator_actor, cancel_jobs, retire, delete_server,
}
use superflash_ia.Servers.Rows.{
  update-none, first-passes, first-select, length-select, count-update_none, count-select_none,
  active_is_not_cancelled,
}

module _ {Details Number : Type 0} where
  -- Whether a job of the server is active or anything protected refers to it.
  abbrev pub is_removable : ServerRow Details Number → Inventory Details Number → Bool
  is_removable s inv =
      count (is_active_job s.server_id) inv.onboardings == 0
      && can_hard_delete (relation_summary s inv)

  retire_removes :
      (actor : String) (now : ℕ) (s : ServerRow Details Number) (inv : Inventory Details Number)
      → ((cancel_jobs actor now s inv).1 == 0
          && can_hard_delete (relation_summary s (cancel_jobs actor now s inv).0))
        ≡ is_removable s inv
  unfolding cancel_active_onboardings relation_summary
  retire_removes actor now s inv =
      let l = length-select (is_active_job s.server_id) inv.onboardings in
      let n = active_is_not_cancelled s.server_id inv.onboardings in
      elim (Bool-cases (is_archived s.lifecycle_state)) [
        | inl before ↦ rw before (ground arith)
        | inr not_before ↦
            rw (not_before, l)
              (elim (Bool-cases (count (is_active_job s.server_id) inv.onboardings == 0)) [
                | inl no_job ↦
                    rw
                      (update-none (is_active_job s.server_id) (cancel_job now) inv.onboardings
                        (ground arith))
                      refl
                | inr some_job ↦ rw some_job refl
              ])
      ]

  get-cancel_jobs :
      (actor : String) (now key : ℕ) (s : ServerRow Details Number) (inv : Inventory Details Number)
      → get key (cancel_jobs actor now s inv).0 ≡ get key inv
  unfolding cancel_active_onboardings
  get-cancel_jobs actor now key s inv = elim (Bool-cases (is_archived s.lifecycle_state)) [
    | inl before ↦ rw before refl
    | inr not_before ↦ rw not_before refl
  ]

  get-delete : (key : ℕ) (inv : Inventory Details Number) → get key (delete key inv) ≡ none
  unfolding delete
  get-delete key inv = first-select (has_id key) inv.servers

  get-archive :
      (key at : ℕ) (s : ServerRow Details Number) (inv : Inventory Details Number)
      → get key inv ≡ some s
      → get key (archive key at inv) ≡ some (archive_row at s)
  unfolding archive
  get-archive key at s inv found =
      first-update_first (has_id key) (archive_row at) (λ x h. h) inv.servers s found

  -- Nothing protected refers to the server: no sample, alert, snapshot, job that is not cancelled,
  -- channel or sample of a channel, and it has no cost.
  abbrev pub is_unreferenced : ServerRow Details Number → Inventory Details Number → Bool
  is_unreferenced s inv =
      count (λ (r : OwnedRow). r.server_id == s.server_id) inv.metrics == 0
      && count (λ (r : OwnedRow). r.server_id == s.server_id) inv.alerts == 0
      && count (λ (x : InventorySnapshot). x.server_id == s.server_id) inv.snapshots == 0
      && count (λ (o : Onboarding). o.server_id == s.server_id && not (is_cancelled o.status))
          inv.onboardings
        == 0
      && count (λ (c : Channel). refers s.server_id c.current_server_id) inv.channels == 0
      && count (λ (r : ChannelRow). refers s.server_id r.server_id) inv.channel_metrics == 0
      && count (is_in_channel s.server_id inv.channels) inv.intervals == 0
      && not (is_some s.monthly_cost)

  can_hard_delete-relation_summary :
      (s : ServerRow Details Number) (inv : Inventory Details Number)
      → can_hard_delete (relation_summary s inv) ≡ is_unreferenced s inv
  unfolding relation_summary
  can_hard_delete-relation_summary s inv = elim (Bool-cases (is_some s.monthly_cost)) [
    | inl cost ↦ rw cost (ground arith)
    | inr no_cost ↦ rw no_cost (ground arith)
  ]

  -- What is found of a server after its removal is confirmed.
  abbrev pub left_of :
      ℕ → ServerRow Details Number → Inventory Details Number → Option (ServerRow Details Number)
  left_of at s inv =
      if count (is_active_job s.server_id) inv.onboardings == 0 && is_unreferenced s inv
      then none
      else some (record s { lifecycle_state = archived; archived_at = some at; enabled = false })

  get-retire :
      (actor : String) (now at key : ℕ) (s : ServerRow Details Number)
      (inv : Inventory Details Number)
      → get key inv ≡ some s
      → s.server_id ≡ key
      → get key (retire actor now at s inv).0 ≡ left_of at s inv
  unfolding retire
  get-retire actor now at key s inv found same =
      let c = cancel_jobs actor now s inv in
      let r = retire_removes actor now s inv in
      elim (Bool-cases (is_removable s inv)) [
        | inl removes ↦
            rw (retire, r ∙ removes, sym (can_hard_delete-relation_summary s inv), removes)
              (subst (λ k. get key (delete k c.0) ≡ none) (sym same) (get-delete key c.0))
        | inr keeps ↦
            rw (retire, r ∙ keeps, sym (can_hard_delete-relation_summary s inv), keeps)
              (subst (λ k. get key (archive k at c.0) ≡ some (archive_row at s)) (sym same)
                (get-archive key at s c.0 (get-cancel_jobs actor now key s inv ∙ found)))
      ]

  -- A request names the server, and its host if it has one.
  abbrev pub is_confirmed : DeletionRequest → ServerRow Details Number → Bool
  is_confirmed req s = req.confirmation == s.name && not (is_wrong_hostname req s)

  -- For a server that is stored: a request that does not name it, or its host, leaves it as it is;
  -- one that does deletes it if no job of it is active and nothing protected refers to it (samples,
  -- alerts, snapshots, jobs that are not cancelled, channels, their samples and intervals, costs), and
  -- otherwise archives and disables it.
  pub get-delete_server :
      (is_alnum : ℕ → Bool) (key : ℕ) (req : DeletionRequest) (operator_id : Option String)
      (now at : ℕ) (s : ServerRow Details Number) (inv : Inventory Details Number)
      → get key inv ≡ some s
      → get key (delete_server is_alnum key req operator_id now at inv).0
        ≡ (if is_confirmed req s then left_of at s inv else some s)
  unfolding delete_server
  get-delete_server is_alnum key req operator_id now at s inv found =
      let same : s.server_id ≡ key =
        (nat_beq_iff s.server_id key).0 (first-passes (has_id key) inv.servers s found) in
      let actor = operator_actor is_alnum operator_id in
      elim (Bool-cases (req.confirmation == s.name)) [
        | inr other ↦ rw (delete_server, found, other) found
        | inl named ↦ elim (Bool-cases (is_wrong_hostname req s)) [
          | inl wrong ↦ rw (delete_server, found, named, wrong) found
          | inr right ↦
              rw (delete_server, found, named, right) (get-retire actor now at key s inv found same)
        ]
      ]

  count_active-retire :
      (actor : String) (now at : ℕ) (s : ServerRow Details Number) (inv : Inventory Details Number)
      → is_archived s.lifecycle_state ≡ false
      → count (is_active_job s.server_id) (retire actor now at s inv).0.onboardings ≡ 0
  unfolding retire delete archive cancel_active_onboardings is_active
  count_active-retire actor now at s inv not_before =
      let p = is_active_job s.server_id in
      let none_active =
        count-update_none p p (cancel_job now) (λ o h. h) (λ o h. ground arith) inv.onboardings in
      elim (Bool-cases (is_removable s inv)) [
        | inl removes ↦
            rw (retire, retire_removes actor now s inv ∙ removes, not_before)
              (count-select_none p (λ o. not (owns_job s.server_id o))
                (update p (cancel_job now) inv.onboardings) none_active)
        | inr keeps ↦ rw (retire, retire_removes actor now s inv ∙ keeps, not_before) none_active
      ]

  -- After a confirmed removal of a server that is not archived, no job of it is active.
  pub count_active-delete_server :
      (is_alnum : ℕ → Bool) (key : ℕ) (req : DeletionRequest) (operator_id : Option String)
      (now at : ℕ) (s : ServerRow Details Number) (inv : Inventory Details Number)
      → get key inv ≡ some s
      → is_confirmed req s ≡ true
      → is_archived s.lifecycle_state ≡ false
      → count
          (is_active_job key)
          (delete_server is_alnum key req operator_id now at inv).0.onboardings
        ≡ 0
  unfolding delete_server
  count_active-delete_server is_alnum key req operator_id now at s inv found confirmed not_before =
      let same : s.server_id ≡ key =
        (nat_beq_iff s.server_id key).0 (first-passes (has_id key) inv.servers s found) in
      let actor = operator_actor is_alnum operator_id in
      let named : req.confirmation == s.name ≡ true = ground (arith, confirmed) in
      let right : is_wrong_hostname req s ≡ false = ground (arith, confirmed) in
      subst
        (λ k.
          count (is_active_job k)
            (delete_server is_alnum key req operator_id now at inv).0.onboardings
          ≡ 0)
        same
        (rw (delete_server, found, named, right)
          (count_active-retire actor now at s inv not_before))
