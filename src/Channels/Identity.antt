-- ===== src/Channels/Identity.antt =====
-- The unique constraint `uq_channels_source_external` is never met: no synchronisation makes two
-- channels with one identity.
use superflash_ia.Prelude.{
  ℕ, ◌≤◌, String, Bool, true, false, ◌≡◌, refl, sym, subst, ◌∙◌, ◌&&◌, inl, inr, Option, none, List,
  [], ◌∷◌, ◌++◌, arith, count, ◌==◌, string_eq, Bool-cases, eq_iff,
}
use superflash_ia.Channels.Types.{Channel, ChannelSnapshot, Tables}
use superflash_ia.Channels.Rows.{
  update_first, count-update_first, count-update_first_le, count-add, count-none,
}
use superflash_ia.Channels.Parts.{has_identity, upsert_event, upsert_stream, record_category_change}
use superflash_ia.Channels.Sync.{
  get_by_identity, identity_source, Origin, known, legacy, unseen, find_channel, place, observe,
  new_channel, upsert_from_snapshot,
}

-- Every identity has one row at most.
pub record IsUnique (channels : List Channel) : Type 0 where
  pub at_most_one : (source external : String) → count (has_identity source external) channels ≤ 1

-- Synchronising an event, a stream or the intervals leaves the channels alone.
pub channels-upsert_event :
    (s : ChannelSnapshot) (source : String) (at : ℕ) (t : Tables)
    → (upsert_event s source at t).0.channels ≡ t.channels
unfolding upsert_event
channels-upsert_event s source at t = ground arith

pub channels-upsert_stream :
    (s : ChannelSnapshot) (source : String) (at : ℕ) (t : Tables)
    → (upsert_stream s source at t).0.channels ≡ t.channels
unfolding upsert_stream
channels-upsert_stream s source at t = ground arith

pub channels-record_category_change :
    (c : Channel) (source : String) (at : ℕ) (t : Tables)
    → (record_category_change c source at t).channels ≡ t.channels
unfolding record_category_change
channels-record_category_change c source at t = ground arith

-- What the edit of a channel does to its identity.
pub record Identifies (f : Channel → Channel) (source : String) : Type 0 where
  pub takes_source : (c : Channel) → (f c).source_id ≡ source
  pub keeps_external : (c : Channel) → (f c).external_id ≡ c.external_id

module _ (source external : String) (f : Channel → Channel) (i : Identifies f source)
    (channels : List Channel) where
  count-known :
      (s e : String)
      → count (has_identity s e) (update_first (has_identity source external) f channels)
        ≤ count (has_identity s e) channels
  count-known s e = count-update_first_le _ _ f lem channels
    where
      lem :
          (x : Channel)
          → has_identity source external x ≡ true
          → has_identity s e (f x) ≡ true
          → has_identity s e x ≡ true
      lem x h k =
          let a = i.takes_source x in
          let b = i.keeps_external x in let same = eq_iff x.source_id source in ground arith

  -- A row that another identity has takes this one, which no row had.
  count-taken :
      (p : Channel → Bool)
      → ((x : Channel) → p x ≡ true → x.external_id ≡ external)
      → get_by_identity source external channels ≡ none
      → (s e : String) → count (has_identity s e) channels ≤ 1
      → count (has_identity s e) (update_first p f channels) ≤ 1
  count-taken p ext none_yet s e u = elim (Bool-cases (source == s && external == e)) [
    | inl same ↦
        let a : source ≡ s = (eq_iff source s).0 (ground arith) in
        let b : external ≡ e = (eq_iff external e).0 (ground arith) in
        let z : count (has_identity source external) channels ≡ 0 =
          count-none (has_identity source external) channels none_yet in
        let z' : count (has_identity s e) channels ≡ 0 =
          subst (λ s. count (has_identity s e) channels ≡ 0) a
            (subst (λ e. count (has_identity source e) channels ≡ 0) b z) in
        let r = count-update_first p (has_identity s e) f channels in omega arith
    | inr other ↦
        let r = count-update_first_le p (has_identity s e) f (lem other) channels in omega arith
  ]
    where
      lem :
          (source == s && external == e) ≡ false
          → (x : Channel) → p x ≡ true
          → has_identity s e (f x) ≡ true
          → has_identity s e x ≡ true
      lem other x h k =
          let a = i.takes_source x in let b = i.keeps_external x in let c = ext x h in ground arith

  count-added :
      (c : Channel)
      → c.external_id ≡ external
      → get_by_identity source external channels ≡ none
      → (s e : String) → count (has_identity s e) channels ≤ 1
      → count (has_identity s e) (channels ++ f c ∷ []) ≤ 1
  count-added c ext none_yet s e u =
      let a = i.takes_source c in
      let b = i.keeps_external c in
      let r = count-add (has_identity s e) channels (f c) in
      elim (Bool-cases (source == s && external == e)) [
        | inl same ↦
            let k : source ≡ s = (eq_iff source s).0 (ground arith) in
            let l : external ≡ e = (eq_iff external e).0 (ground arith) in
            let z : count (has_identity source external) channels ≡ 0 =
              count-none (has_identity source external) channels none_yet in
            let z' : count (has_identity s e) channels ≡ 0 =
              subst (λ s. count (has_identity s e) channels ≡ 0) k
                (subst (λ e. count (has_identity source e) channels ≡ 0) l z) in
            ground arith
        | inr other ↦ ground arith
      ]

  placed-IsUnique :
      (o : Origin) (c : Channel)
      → find_channel source external channels ≡ o
      → c.external_id ≡ external
      → IsUnique channels
      → IsUnique (place o source external f c channels)
  placed-IsUnique (known k) c o ext u = record {
    at_most_one = λ s e. let r = count-known s e in let m = u.at_most_one s e in omega arith;
  }
  placed-IsUnique (legacy l) c o ext u = record {
    at_most_one = λ s e.
        count-taken (has_identity "legacy" external) external_of (ground arith) s e
          (u.at_most_one s e);
  }
    where
      external_of :
          (x : Channel) → has_identity "legacy" external x ≡ true → x.external_id ≡ external
      external_of x h = (eq_iff x.external_id external).0 (ground arith)
  placed-IsUnique unseen c o ext u = record {
    at_most_one = λ s e. count-added c ext (ground arith) s e (u.at_most_one s e);
  }

observe-Identifies :
    (s : ChannelSnapshot) (server : Option ℕ) (source : String) (at : ℕ) (event stream : Option ℕ)
    → Identifies (observe s server source at event stream) source
observe-Identifies s server source at event stream = record {
  takes_source = λ c. refl;
  keeps_external = λ c. refl;
}

-- If every identity has one channel at most, it is so after a synchronisation, whether that creates a
-- channel, edits it or adopts a legacy row.
pub upsert-IsUnique :
    (s : ChannelSnapshot) (server : Option ℕ) (source : String) (at : ℕ) (t : Tables)
    → IsUnique t.channels
    → IsUnique (upsert_from_snapshot s server source at t).0.channels
unfolding upsert_from_snapshot
upsert-IsUnique s server source at t u =
    let id : String = identity_source s source in
    let e : Tables × Option ℕ = upsert_event s id at t in
    let x : Tables × Option ℕ = upsert_stream s id at e.0 in
    let same : x.0.channels ≡ t.channels =
      channels-upsert_stream s id at e.0 ∙ channels-upsert_event s id at t in
    let f : Channel → Channel = observe s server id at e.1 x.1 in
    subst IsUnique (sym (channels-record_category_change _ id at _)) (
      subst
        (λ cs. IsUnique (
          place (find_channel id s.external_id t.channels) id s.external_id f
            (new_channel s id at t.next_channel) cs))
        (sym same)
        (placed-IsUnique id s.external_id f (observe-Identifies s server id at e.1 x.1) t.channels
          (find_channel id s.external_id t.channels) (new_channel s id at t.next_channel) refl refl
          u))
