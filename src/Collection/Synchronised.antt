-- ===== src/Collection/Synchronised.antt =====
-- What a pass over the channels of a source leaves.
use superflash_ia.Prelude.{
  suc, Bool, true, false, none, some, ℕ, ◌+◌, ◌≤◌, String, ◌≡◌, refl, sym, subst, inl, inr,
  Option-cases, List, [], ◌∷◌, arith, map, count, length, string_eq,
}
use superflash_ia.Channels.Types.{Channel, ChannelSnapshot}
use superflash_ia.Channels.Parts.{has_identity}
use superflash_ia.Channels.Sync.{
  identity_source, upsert_from_snapshot, SyncAction, created, reactivated, updated, unchanged,
}
use superflash_ia.Channels.Reconcile.{Absence, reconcile_missing}
use superflash_ia.Channels.Identity.{IsUnique, upsert-IsUnique}
use superflash_ia.Channels.Missing.{after_both, reconcile_map}
use superflash_ia.Collection.Runs.{Counters}
use superflash_ia.Collection.Channels.{
  Table, Pass, Source, count_action, sync_channel, sync_each, current_server, absence_of,
  reconcile_source, reconcile_each, sync_channels,
}

-- A reconciliation edits no identity.
identity-after_both :
    (a : Absence) (source external : String) (c : Channel)
    → has_identity source external (after_both a c) ≡ has_identity source external c
identity-after_both a source external c = ground arith

count-map :
    (a : Absence) (source external : String) (cs : List Channel)
    → count (has_identity source external) (map (after_both a) cs)
      ≡ count (has_identity source external) cs
count-map a source external [] = refl
count-map a source external (c ∷ cs) =
    let r = count-map a source external cs in rw (identity-after_both a source external c, r) refl

reconcile-IsUnique :
    (a : Absence) (cs : List Channel) → IsUnique cs → IsUnique (reconcile_missing a cs).0
reconcile-IsUnique a cs u = record {
  at_most_one = λ s e.
      subst (λ rows. count (has_identity s e) rows ≤ 1) (sym (reconcile_map a cs))
        (rw (count-map a s e cs) (u.at_most_one s e));
}

-- How often an action was taken.
abbrev is_created : SyncAction → Bool
is_created created = true
is_created _ = false

abbrev is_reactivated : SyncAction → Bool
is_reactivated reactivated = true
is_reactivated _ = false

abbrev is_updated : SyncAction → Bool
is_updated updated = true
is_updated _ = false

abbrev is_unchanged : SyncAction → Bool
is_unchanged unchanged = true
is_unchanged _ = false

-- The counters after a loop over `n` snapshots that took the actions `xs`.
abbrev pub Counts : Counters → ℕ → List SyncAction → Counters → Type 0
Counts a n xs b =
    (b.channels_created ≡ a.channels_created + count is_created xs)
    × (b.channels_reactivated ≡ a.channels_reactivated + count is_reactivated xs)
    × (b.channels_updated ≡ a.channels_updated + count is_updated xs)
    × (b.channels_unchanged ≡ a.channels_unchanged + count is_unchanged xs)
    × (b.channels_synced ≡ a.channels_synced + length xs)
    × (b.channels_failed + length xs ≡ a.channels_failed + n)

Counts-action :
    (x : SyncAction) (a b : Counters) (n : ℕ) (xs : List SyncAction)
    → Counts (count_action x (record a { channels_synced = a.channels_synced + 1 })) n xs b
    → Counts a (suc n) (x ∷ xs) b
Counts-action created a b n xs (h0, h1, h2, h3, h4, h5) = (
  omega (arith, h0),
  omega (arith, h1),
  omega (arith, h2),
  omega (arith, h3),
  omega (arith, h4),
  omega (arith, h5),
)
Counts-action reactivated a b n xs (h0, h1, h2, h3, h4, h5) = (
  omega (arith, h0),
  omega (arith, h1),
  omega (arith, h2),
  omega (arith, h3),
  omega (arith, h4),
  omega (arith, h5),
)
Counts-action updated a b n xs (h0, h1, h2, h3, h4, h5) = (
  omega (arith, h0),
  omega (arith, h1),
  omega (arith, h2),
  omega (arith, h3),
  omega (arith, h4),
  omega (arith, h5),
)
Counts-action unchanged a b n xs (h0, h1, h2, h3, h4, h5) = (
  omega (arith, h0),
  omega (arith, h1),
  omega (arith, h2),
  omega (arith, h3),
  omega (arith, h4),
  omega (arith, h5),
)

Counts-failure :
    (a b : Counters) (n : ℕ) (xs : List SyncAction)
    → Counts (record a { channels_failed = a.channels_failed + 1 }) n xs b
    → Counts a (suc n) xs b
Counts-failure a b n xs (h0, h1, h2, h3, h4, h5) = (
  omega (arith, h0),
  omega (arith, h1),
  omega (arith, h2),
  omega (arith, h3),
  omega (arith, h4),
  omega (arith, h5),
)

module _ (src : Source) where
  sync_channel-IsUnique :
      (s : ChannelSnapshot) (p : Pass)
      → IsUnique p.tables.channels
      → IsUnique (sync_channel src s p).tables.channels
  unfolding sync_channel
  sync_channel-IsUnique s p u = elim (Option-cases (src.upsert_raises s)) [
    | inl passes ↦
        rw (sync_channel, passes)
          (upsert-IsUnique s (current_server src s) (identity_source s src.source_name)
            p.result.collected_at p.tables u)
    | inr (name, raises) ↦ rw (sync_channel, raises) u
  ]

  sync_each-IsUnique :
      (ss : List ChannelSnapshot) (p : Pass)
      → IsUnique p.tables.channels
      → IsUnique (sync_each src ss p).tables.channels
  unfolding sync_each
  sync_each-IsUnique [] p u = u
  sync_each-IsUnique (s ∷ ss) p u =
      sync_each-IsUnique ss (sync_channel src s p) (sync_channel-IsUnique s p u)

  reconcile_source-IsUnique :
      (source : String) (seen : List String) (p : Pass)
      → IsUnique p.tables.channels
      → IsUnique (reconcile_source src source seen p).tables.channels
  unfolding reconcile_source
  reconcile_source-IsUnique source seen p u = elim (Option-cases (src.reconcile_raises source)) [
    | inl passes ↦
        rw (reconcile_source, passes)
          (reconcile-IsUnique (absence_of src source seen p.result.collected_at) p.tables.channels
            u)
    | inr (name, raises) ↦ rw (reconcile_source, raises) u
  ]

  reconcile_each-IsUnique :
      (d : Table (List String)) (p : Pass)
      → IsUnique p.tables.channels
      → IsUnique (reconcile_each src d p).tables.channels
  unfolding reconcile_each
  reconcile_each-IsUnique [] p u = u
  reconcile_each-IsUnique ((source, seen) ∷ d) p u =
      reconcile_each-IsUnique d (reconcile_source src source seen p)
        (reconcile_source-IsUnique source seen p u)

  -- If every identity has one channel at most, it is so after a pass over any snapshots, whichever of
  -- its savepoints raise.
  pub sync_channels-IsUnique :
      (ss : List ChannelSnapshot) (p : Pass)
      → IsUnique p.tables.channels
      → IsUnique (sync_channels src ss p).tables.channels
  unfolding sync_channels
  sync_channels-IsUnique ss p u =
      reconcile_each-IsUnique _ (sync_each src ss p) (sync_each-IsUnique ss p u)

  -- What `upsert_from_snapshot` reports on the tables that it meets.
  abbrev pub action_of : ChannelSnapshot → Pass → SyncAction
  action_of s p =
      (upsert_from_snapshot s (current_server src s) (identity_source s src.source_name)
        p.result.collected_at p.tables).2

  -- What it reports for each snapshot whose savepoint does not raise.
  unfoldable pub actions_of : List ChannelSnapshot → Pass → List SyncAction
  actions_of [] p = []
  actions_of (s ∷ ss) p =
      let rest = actions_of ss (sync_channel src s p) in
      elim (src.upsert_raises s) [ none ↦ action_of s p ∷ rest | some name ↦ rest ]

  counters_passed :
      (s : ChannelSnapshot) (p : Pass)
      → src.upsert_raises s ≡ none
      → let a = p.result.counters in
        (sync_channel src s p).result.counters
        ≡ count_action (action_of s p) (record a { channels_synced = a.channels_synced + 1 })
  unfolding sync_channel
  counters_passed s p passes = rw (sync_channel, passes) refl

  counters_failed :
      (s : ChannelSnapshot) (p : Pass) (name : String)
      → src.upsert_raises s ≡ some name
      → let a = p.result.counters in
        (sync_channel src s p).result.counters
        ≡ record a { channels_failed = a.channels_failed + 1 }
  unfolding sync_channel
  counters_failed s p name raises = rw (sync_channel, raises) refl

  -- Of the snapshots of the first loop, those whose savepoint raises are counted as failed, every other
  -- one as synchronised, and that one also by the action that its synchronisation reports: created,
  -- reactivated, updated or unchanged.
  pub sync_each-Counts :
      (ss : List ChannelSnapshot) (p : Pass)
      → Counts p.result.counters (length ss) (actions_of ss p) (sync_each src ss p).result.counters
  unfolding sync_each actions_of
  sync_each-Counts [] p =
      (omega arith, omega arith, omega arith, omega arith, omega arith, omega arith)
  sync_each-Counts (s ∷ ss) p =
      let ih = sync_each-Counts ss (sync_channel src s p) in
      let a = p.result.counters in
      let b = (sync_each src ss (sync_channel src s p)).result.counters in
      let rest = actions_of ss (sync_channel src s p) in
      elim (Option-cases (src.upsert_raises s)) [
        | inl passes ↦
            rw (actions_of, passes)
              (Counts-action (action_of s p) a b (length ss) rest
                (subst (λ c. Counts c (length ss) rest b) (counters_passed s p passes) ih))
        | inr (name, raises) ↦
            rw (actions_of, raises)
              (Counts-failure a b (length ss) rest
                (subst (λ c. Counts c (length ss) rest b) (counters_failed s p name raises) ih))
      ]
