-- ===== src/History/Pruned.antt =====
-- What the retention keeps, counts and refuses.
use superflash_ia.Prelude.{
  ℕ, ℤ, pos, negsuc, ◌+◌, ◌-◌, ◌*◌, ◌≤◌, Bool, true, false, not, ◌≡◌, refl, ap, inl, inr,
  Bool-cases, Option, some, List, [], ◌∷◌, arith, ltb, nat_eq, select, count, length,
}
use superflash_ia.Collection.Runs.{CollectionRun}
use superflash_ia.History.Samples.{Sample, is_in_range, newest_first}
use superflash_ia.History.Retention.{
  RetentionResult, microseconds_per_day, is_old, is_old_run, delete_where, Stored, Pruned, pruned,
  refused, remove, prune_history,
}
use superflash_ia.History.Parts.{select-select}
use superflash_ia.History.Follow.{history}

delete_where_lem {ℓ} :
    {A : Type ℓ} (p : A → Bool) (rs : List A)
    → delete_where p rs ≡ (select (λ r. not (p r)) rs, count p rs)
unfolding delete_where
delete_where_lem p [] = refl
delete_where_lem p (r ∷ rs) = elim (Bool-cases (p r)) [
  | inl old ↦ rw (delete_where_lem p rs, old) refl
  | inr recent ↦ rw (delete_where_lem p rs, recent) refl
]

count-select {ℓ} :
    {A : Type ℓ} (p : A → Bool) (rs : List A)
    → count p rs + length (select (λ r. not (p r)) rs) ≡ length rs
count-select p [] = refl
count-select p (r ∷ rs) = let h = count-select p rs in ground arith

count-remaining {ℓ} :
    {A : Type ℓ} (p : A → Bool) (rs : List A) → count p (select (λ r. not (p r)) rs) ≡ 0
count-remaining p [] = refl
count-remaining p (r ∷ rs) = let h = count-remaining p rs in ground arith

-- The samples of a range that begins at the cutoff or later are not removed.
history-remaining :
    {Measures : Type 0} (table : List (Sample Measures)) (owner cutoff start : ℕ) (end : Option ℕ)
    → cutoff ≤ start
    → history (select (λ s. not (is_old cutoff s)) table) owner (some start) end
      ≡ history table owner (some start) end
history-remaining table owner cutoff start end h = ap newest_first (
    select-select (λ s. not (is_old cutoff s)) (is_in_range owner (some start) end)
      (λ s e. ground arith) table)

module _ {ServerMeasures ChannelMeasures : Type 0} where
  -- The answer of a pass, told of a simulation that changes nothing.
  abbrev pub as_simulation :
      Stored ServerMeasures ChannelMeasures
      → Pruned ServerMeasures ChannelMeasures
      → Pruned ServerMeasures ChannelMeasures
  as_simulation st (pruned result _) = pruned (record result { dry_run = true }) st
  as_simulation st (refused e) = refused e

  -- A simulation answers what the pass itself would, the same numbers or the same refusal, and
  -- leaves the tables as they are.
  pub prune_history-simulation :
      (now : ℕ) (days : ℤ) (st : Stored ServerMeasures ChannelMeasures)
      → prune_history now days true st ≡ as_simulation st (prune_history now days false st)
  unfolding prune_history remove
  prune_history-simulation now (negsuc n) st = refl
  prune_history-simulation now (pos days) st =
      let cutoff = now - days * microseconds_per_day in
      rw
        (
          delete_where_lem (is_old cutoff) st.server_samples,
          delete_where_lem (is_old cutoff) st.channel_samples,
          delete_where_lem (is_old_run cutoff) st.runs,
        )
        (elim (Bool-cases (ltb days 1)) [
          | inl none_left ↦ rw none_left refl
          | inr some_left ↦ elim (Bool-cases (ltb now (days * microseconds_per_day))) [
            | inl early ↦ rw (some_left, early) refl
            | inr late ↦ rw (some_left, late) refl
          ]
        ])

  -- With at least one day to keep, and no more days than the calendar has before now, a pass removes
  -- every sample and run that is older, and none that is read of a range that begins at the cutoff or
  -- later: each history is then what it was. The runs left, in their order, are those that started at
  -- the cutoff or later. With the removed ones that it counts, the rows left are as many as there were.
  pub prune_history_lem :
      (now days start : ℕ) (end : Option ℕ) (owner : ℕ) (st : Stored ServerMeasures ChannelMeasures)
      → 1 ≤ days
      → days * microseconds_per_day ≤ now
      → now - days * microseconds_per_day ≤ start
      → (r : RetentionResult) × (st' : Stored ServerMeasures ChannelMeasures) × (prune_history now
            (pos days)
            false
            st
          ≡ pruned r st')
        × (r.cutoff + days * microseconds_per_day ≡ now)
        × (history st'.server_samples owner (some start) end
            ≡ history st.server_samples owner (some start) end)
        × (history st'.channel_samples owner (some start) end
            ≡ history st.channel_samples owner (some start) end)
        × (count (is_old r.cutoff) st'.server_samples ≡ 0)
        × (count (is_old r.cutoff) st'.channel_samples ≡ 0)
        × (count (is_old_run r.cutoff) st'.runs ≡ 0)
        × (st'.runs ≡ select (λ (x : CollectionRun). not (ltb x.started_at r.cutoff)) st.runs)
        × (r.server_metrics_deleted + length st'.server_samples ≡ length st.server_samples)
        × (r.channel_metrics_deleted + length st'.channel_samples ≡ length st.channel_samples)
        × (r.collection_runs_deleted + length st'.runs ≡ length st.runs)
  unfolding prune_history remove
  prune_history_lem now days start end owner st some_days no_overflow from =
      let span = days * microseconds_per_day in
      let cutoff = now - span in
      let servers = select (λ s. not (is_old cutoff s)) st.server_samples in
      let channels = select (λ s. not (is_old cutoff s)) st.channel_samples in
      let runs = select (λ r. not (is_old_run cutoff r)) st.runs in
      let valid : ltb days 1 ≡ false = ground arith in
      let fits : ltb now span ≡ false = ground arith in
      (
        record {
          cutoff = cutoff;
          dry_run = false;
          server_metrics_deleted = count (is_old cutoff) st.server_samples;
          channel_metrics_deleted = count (is_old cutoff) st.channel_samples;
          collection_runs_deleted = count (is_old_run cutoff) st.runs;
        },
        record { server_samples = servers; channel_samples = channels; runs = runs },
        rw
            (
              valid,
              fits,
              delete_where_lem (is_old cutoff) st.server_samples,
              delete_where_lem (is_old cutoff) st.channel_samples,
              delete_where_lem (is_old_run cutoff) st.runs,
            )
            refl,
        omega arith,
        history-remaining st.server_samples owner cutoff start end from,
        history-remaining st.channel_samples owner cutoff start end from,
        count-remaining (is_old cutoff) st.server_samples,
        count-remaining (is_old cutoff) st.channel_samples,
        count-remaining (is_old_run cutoff) st.runs,
        refl,
        count-select (is_old cutoff) st.server_samples,
        count-select (is_old cutoff) st.channel_samples,
        count-select (is_old_run cutoff) st.runs,
      )
