-- ===== src/Channels/Stored.antt =====
-- What a synchronisation stores is found again, and a second one with the same data is no change.
use superflash_ia.Prelude.{
  ℕ, String, Bool, true, ◌≡◌, refl, sym, subst, ◌∙◌, inl, inr, Option, none, some, List, arith,
  first, ◌==◌, nat_eq, string_eq, Option-cases, eq_refl, nat_beq_iff,
}
use superflash_ia.Channels.Types.{
  Channel, ChannelType, type_beq, ChannelSnapshot, Tables, ChannelEvent, TechnicalStream,
}
use superflash_ia.Channels.Rows.{first-update_first, first-update_first_new, first-add}
use superflash_ia.Channels.Parts.{
  text_beq, instant_beq, bool_beq, has_identity, event_identity, stream_identity, observe_event,
  observe_stream, new_event, new_stream, upsert_event, upsert_stream, record_category_change,
}
use superflash_ia.Channels.Sync.{
  get_by_identity, identity_source, Origin, known, legacy, unseen, find_channel, place, synced,
  same_values, observe, new_channel, upsert_from_snapshot, SyncAction, unchanged,
}
use superflash_ia.Channels.Identity.{
  channels-upsert_event, channels-upsert_stream, channels-record_category_change,
}

module _ (source external : String) (f : Channel → Channel)
    (takes_source : (c : Channel) → (f c).source_id ≡ source)
    (keeps_external : (c : Channel) → (f c).external_id ≡ c.external_id)
    (channels : List Channel) where
  identified :
      (x : Channel) → (x.external_id == external) ≡ true → has_identity source external (f x) ≡ true
  identified x h =
      let a = takes_source x in let b = keeps_external x in let r = eq_refl source in ground arith

  -- The channel that was placed has the identity.
  first-place :
      (o : Origin) (c : Channel)
      → find_channel source external channels ≡ o
      → c.external_id ≡ external
      → first (has_identity source external) (place o source external f c channels)
        ≡ some (f (synced o c))
  first-place (known k) c o ext =
      first-update_first (has_identity source external) f (λ x h. identified x (ground arith))
        channels k (ground arith)
  first-place (legacy l) c o ext =
      first-update_first_new (has_identity "legacy" external) (has_identity source external) f
        (λ x h. identified x (ground arith)) channels l (ground arith) (ground arith)
  first-place unseen c o ext =
      first-add (has_identity source external) channels (f c) (ground arith)
        (identified c (rw ext (eq_refl external)))

-- The channel of a synchronisation is what its identity then finds: active, not archived, seen at the
-- instant of the pass, and with the name, the type, the category, the server, the enabling, the start
-- and end of the event and the time of the update of the snapshot.
pub upsert_stored :
    (s : ChannelSnapshot) (server : Option ℕ) (source : String) (at : ℕ) (t : Tables)
    → let (t', c, action) = upsert_from_snapshot s server source at t in
      (get_by_identity (identity_source s source) s.external_id t'.channels ≡ some c)
      × (c.active ≡ true)
      × (c.archived_at ≡ none)
      × (c.inactive_since_at ≡ none)
      × (c.last_seen_at ≡ at)
      × (c.name ≡ s.name)
      × (c.channel_type ≡ s.channel_type)
      × (c.category ≡ s.category)
      × (c.category_id ≡ s.category_id)
      × (c.current_server_id ≡ server)
      × (c.enabled ≡ s.enabled)
      × (c.event_start_at ≡ s.event_start_at)
      × (c.event_end_at ≡ s.event_end_at)
      × (c.source_updated_at ≡ s.source_updated_at)
unfolding upsert_from_snapshot
upsert_stored s server source at t = (
  (let id : String = identity_source s source in
      let e : Tables × Option ℕ = upsert_event s id at t in
      let x : Tables × Option ℕ = upsert_stream s id at e.0 in
      let same : x.0.channels ≡ t.channels =
        channels-upsert_stream s id at e.0 ∙ channels-upsert_event s id at t in
      let f : Channel → Channel = observe s server id at e.1 x.1 in
      let o : Origin = find_channel id s.external_id t.channels in
      let fresh : Channel = new_channel s id at t.next_channel in
      subst (λ cs. get_by_identity id s.external_id cs ≡ some (f (synced o fresh)))
        (sym (channels-record_category_change _ id at _))
        (subst
          (λ cs.
            get_by_identity id s.external_id (place o id s.external_id f fresh cs)
            ≡ some (f (synced o fresh)))
          (sym same)
          (first-place id s.external_id f (λ c. refl) (λ c. refl) t.channels o fresh refl refl))),
  refl,
  refl,
  refl,
  refl,
  refl,
  refl,
  refl,
  refl,
  refl,
  refl,
  refl,
  refl,
  refl,
)

events-upsert_stream :
    (s : ChannelSnapshot) (source : String) (at : ℕ) (t : Tables)
    → (upsert_stream s source at t).0.events ≡ t.events
unfolding upsert_stream
events-upsert_stream s source at t = ground arith

events-record_category_change :
    (c : Channel) (source : String) (at : ℕ) (t : Tables)
    → (record_category_change c source at t).events ≡ t.events
unfolding record_category_change
events-record_category_change c source at t = ground arith

streams-record_category_change :
    (c : Channel) (source : String) (at : ℕ) (t : Tables)
    → (record_category_change c source at t).streams ≡ t.streams
unfolding record_category_change
streams-record_category_change c source at t = ground arith

streams-upsert_event :
    (s : ChannelSnapshot) (source : String) (at : ℕ) (t : Tables)
    → (upsert_event s source at t).0.streams ≡ t.streams
unfolding upsert_event
streams-upsert_event s source at t = ground arith

-- The event of a snapshot keeps its key.
event_again :
    (s : ChannelSnapshot) (source : String) (at at' : ℕ) (t t' : Tables)
    → t'.events ≡ (upsert_event s source at t).0.events
    → (upsert_event s source at' t').1 ≡ (upsert_event s source at t).1
unfolding upsert_event
event_again s source at at' t t' h = elim (Option-cases s.event_external_id) [
  | inl no_event ↦ ground arith
  | inr (x, has_event) ↦
      let p : ChannelEvent → Bool = event_identity source x in
      elim (Option-cases (first p t.events)) [
        | inl new ↦
            let e : ChannelEvent = observe_event s at (new_event s source x at t.next_event) in
            let k : p e ≡ true = rw (eq_refl source, eq_refl x) refl in
            let r = first-add p t.events e new k in ground arith
        | inr (e, old) ↦
            let r = first-update_first p (observe_event s at) (λ y h. h) t.events e old in
            ground arith
      ]
]

stream_again :
    (s : ChannelSnapshot) (source : String) (at at' : ℕ) (t t' : Tables)
    → t'.streams ≡ (upsert_stream s source at t).0.streams
    → (upsert_stream s source at' t').1 ≡ (upsert_stream s source at t).1
unfolding upsert_stream
stream_again s source at at' t t' h = elim (Option-cases s.technical_stream_external_id) [
  | inl no_stream ↦ ground arith
  | inr (x, has_stream) ↦
      let p : TechnicalStream → Bool = stream_identity source x in
      elim (Option-cases (first p t.streams)) [
        | inl new ↦
            let e : TechnicalStream = observe_stream s at (new_stream source x at t.next_stream) in
            let k : p e ≡ true = rw (eq_refl source, eq_refl x) refl in
            let r = first-add p t.streams e new k in ground arith
        | inr (e, old) ↦
            let r = first-update_first p (observe_stream s at) (λ y h. h) t.streams e old in
            ground arith
      ]
]

text_beq_refl : (a : Option String) → text_beq a a ≡ true
text_beq_refl none = refl
text_beq_refl (some a) = eq_refl a

instant_beq_refl : (a : Option ℕ) → instant_beq a a ≡ true
instant_beq_refl none = refl
instant_beq_refl (some a) = (nat_beq_iff a a).1 refl

type_beq_refl : (a : ChannelType) → type_beq a a ≡ true
type_beq_refl a = ground arith

-- A second observation changes none of the values that are compared.
same_values-observe :
    (s : ChannelSnapshot) (server : Option ℕ) (source : String) (at at' : ℕ)
    (event stream : Option ℕ) (c : Channel)
    → let seen = observe s server source at event stream c in
      same_values seen (observe s server source at' event stream seen) ≡ true
same_values-observe s server source at at' event stream c =
    let r1 = eq_refl source in
    let r2 = eq_refl s.name in
    let r3 = text_beq_refl s.category in
    let r4 = text_beq_refl s.category_id in
    let r5 = type_beq_refl s.channel_type in
    let r6 = instant_beq_refl s.event_start_at in
    let r7 = instant_beq_refl s.event_end_at in
    let r8 = instant_beq_refl server in
    let r9 = instant_beq_refl event in
    let r10 = instant_beq_refl stream in
    let r11 = instant_beq_refl s.source_updated_at in
    let b : bool_beq s.enabled s.enabled ≡ true = ground arith in
    rw (r1, r2, r3, r4, r5, r6, r7, r8, r9, r10, r11, b) refl

-- Synchronising the same snapshot again, to the same server, reports no change.
pub upsert_again :
    (s : ChannelSnapshot) (server : Option ℕ) (source : String) (at at' : ℕ) (t : Tables)
    → let t' = (upsert_from_snapshot s server source at t).0 in
      (upsert_from_snapshot s server source at' t').2 ≡ unchanged
unfolding upsert_from_snapshot
upsert_again s server source at at' t =
    let id : String = identity_source s source in
    let e : Tables × Option ℕ = upsert_event s id at t in
    let x : Tables × Option ℕ = upsert_stream s id at e.0 in
    let u : Tables × Channel × SyncAction = upsert_from_snapshot s server source at t in
    let e' : Tables × Option ℕ = upsert_event s id at' u.0 in
    let x' : Tables × Option ℕ = upsert_stream s id at' e'.0 in
    let found = (upsert_stored s server source at t).0 in
    let o : find_channel id s.external_id u.0.channels ≡ known u.1 = ground arith in
    let same_event : e'.1 ≡ e.1 =
      event_again s id at at' t u.0
        (events-record_category_change _ id at _ ∙ events-upsert_stream s id at e.0) in
    let same_stream : x'.1 ≡ x.1 =
      stream_again s id at at' e.0 e'.0
        (streams-upsert_event s id at' u.0 ∙ streams-record_category_change _ id at _) in
    let old : Channel =
      synced (find_channel id s.external_id t.channels) (new_channel s id at t.next_channel) in
    let r = same_values-observe s server id at at' e.1 x.1 old in
    rw (o, same_event, same_stream, r) refl
