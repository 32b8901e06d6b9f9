-- ===== src/Channels/Missing.antt =====
-- The two loops of `reconcile_missing` as one function of a row, and what they do to it.
use superflash_ia.Prelude.{
  ◌+◌, ◌≤◌, true, false, ◌≡◌, ◌≢◌, ◌⊎◌, refl, ◌&&◌, none, List, [], ◌∷◌, arith, if◌then◌else◌,
  string_eq, or_else, is_some, map, count, update, contains, All, ap, sym, subst,
}
use superflash_ia.Channels.Types.{Channel}
use superflash_ia.Channels.Reconcile.{
  hours, days, Absence, of_source, is_missing, deactivate, retention_days, is_archivable, archive,
  deactivate_missing, archive_inactive, reconcile_missing,
}

-- What becomes of one row.
abbrev pub after_first : Absence → Channel → Channel
after_first a c = if of_source a c && is_missing a c then deactivate a c else c

abbrev pub after_both : Absence → Channel → Channel
after_both a c =
    let c' = after_first a c in if of_source a c' && is_archivable a c' then archive a c' else c'

-- The two loops do to every row what `after_both` does to one.
pub reconcile_map :
    (a : Absence) (channels : List Channel)
    → (reconcile_missing a channels).0 ≡ map (after_both a) channels
unfolding reconcile_missing deactivate_missing archive_inactive
reconcile_map a [] = refl
reconcile_map a (c ∷ channels) = ap (λ cs. after_both a c ∷ cs) (reconcile_map a channels)

-- The number that the result reports is the number of channels that stopped being active.
pub reconcile_counts :
    (a : Absence) (channels : List Channel)
    → let (rows, result) = reconcile_missing a channels in
      (count (λ (c : Channel). c.active) channels
        ≡ count (λ (c : Channel). c.active) rows + result.deactivated)
      × (count (λ (c : Channel). is_some c.archived_at) rows
          ≡ count (λ (c : Channel). is_some c.archived_at) channels + result.archived)
unfolding reconcile_missing deactivate_missing archive_inactive
reconcile_counts a [] = (refl, refl)
reconcile_counts a (c ∷ channels) =
    let (r, t) = reconcile_counts a channels in (ground arith, ground arith)

-- A row of the source that was active and that the source did not list is no longer active, enabled or
-- on a server; every other row keeps the three columns.
pub after_both-missing :
    (a : Absence) (c : Channel)
    → let c' = after_both a c in
      ((of_source a c ≡ true)
        × (c.active ≡ true)
        × (contains a.seen_external_ids c.external_id ≡ false)
        × (c'.active ≡ false)
        × (c'.enabled ≡ false)
        × (c'.current_server_id ≡ none))
      ⊎ (((of_source a c ≡ false)
            ⊎ (c.active ≡ false)
            ⊎ (contains a.seen_external_ids c.external_id ≡ true))
          × (c'.active ≡ c.active)
          × (c'.enabled ≡ c.enabled)
          × (c'.current_server_id ≡ c.current_server_id))
after_both-missing a c = ground arith

-- A row that a pass archives is of the source and inactive, has been inactive for the grace and was
-- last seen before the retention of its type.
after_both-archived :
    (a : Absence) (c : Channel)
    → c.archived_at ≡ none
    → (after_both a c).archived_at ≢ none
    → let c' = after_both a c in
      (of_source a c ≡ true)
      × (c'.active ≡ false)
      × (or_else c'.inactive_since_at c'.last_seen_at + hours a.event_inactive_grace_hours
          ≤ a.observed_at)
      × (c'.last_seen_at + days (retention_days a c) ≤ a.observed_at)
after_both-archived a c h k = ground arith

-- Neither loop has work at the row.
abbrev IsSettled : Absence → Channel → Type 0
IsSettled a c =
    ((of_source a c && is_missing a c) ≡ false) × ((of_source a c && is_archivable a c) ≡ false)

after_both-IsSettled : (a : Absence) (c : Channel) → IsSettled a (after_both a c)
after_both-IsSettled a c = (ground arith, ground arith)

map-IsSettled : (a : Absence) (cs : List Channel) → All (IsSettled a) (map (after_both a) cs)
map-IsSettled a [] = tt
map-IsSettled a (c ∷ cs) = (after_both-IsSettled a c, map-IsSettled a cs)

settled_again :
    (a : Absence) (cs : List Channel)
    → All (IsSettled a) cs
    → (update (λ c. of_source a c && is_missing a c) (deactivate a) cs ≡ cs)
      × (update (λ c. of_source a c && is_archivable a c) (archive a) cs ≡ cs)
      × (count (λ c. of_source a c && is_missing a c) cs ≡ 0)
      × (count (λ c. of_source a c && is_archivable a c) cs ≡ 0)
settled_again a [] h = (refl, refl, refl, refl)
settled_again a (c ∷ cs) ((m, v), h) =
    let (r1, r2, r3, r4) = settled_again a cs h in
    (rw (m, r1) refl, rw (v, r2) refl, rw (m, r3) refl, rw (v, r4) refl)

settled_reconcile :
    (a : Absence) (cs : List Channel)
    → All (IsSettled a) cs
    → reconcile_missing a cs ≡ (cs, record { deactivated = 0; archived = 0 })
unfolding reconcile_missing deactivate_missing archive_inactive
settled_reconcile a cs h = let (r1, r2, r3, r4) = settled_again a cs h in rw (r3, r1, r2, r4) refl

-- A second pass of the same source with the same identifiers seen, at the same instant and with the
-- same retentions, over the rows that a first one left, deactivates none, archives none and changes
-- none.
pub reconcile_again :
    (a : Absence) (channels : List Channel)
    → let rows = (reconcile_missing a channels).0 in
      reconcile_missing a rows ≡ (rows, record { deactivated = 0; archived = 0 })
reconcile_again a channels =
    settled_reconcile a _
      (subst (All (IsSettled a)) (sym (reconcile_map a channels)) (map-IsSettled a channels))
