-- ===== src/Sources/Cycles.antt =====
-- One measurement answers a whole pass, and its numbers of a server are those of its channels.
use superflash_ia.Prelude.{
  ℕ, suc, ◌+◌, String, Bool, true, false, not, ◌&&◌, ◌≡◌, refl, ap, sym, ◌∙◌, inl, inr, Bool-cases,
  Option-cases, Option, none, some, List, [], ◌∷◌, map, if◌then◌else◌, ◌==◌, string_eq, eq_iff,
  arith, All, count,
}
use superflash_ia.Collection.Channels.{Table}
use superflash_ia.Sources.Composite.{
  StreamingSample, is_offline, add_number, number_at, tally, Cycle, Composite, Call,
  begin_collection_cycle, get_servers, get_channels, get_server_metrics, get_channel_metrics,
  Answer, answer_from, snapshot, call, call_all,
}

abbrev pub is_hosted_at : {Bitrate : Type 0} → String → StreamingSample Bitrate → Bool
is_hosted_at key m = elim m.server_external_id [ none ↦ false | some k ↦ k == key ]

-- The viewers of the channels of a server.
abbrev pub viewers_at : {Bitrate : Type 0} → String → List (StreamingSample Bitrate) → ℕ
viewers_at key [] = 0
viewers_at key (m ∷ ms) =
    let rest = viewers_at key ms in if is_hosted_at key m then m.viewers + rest else rest

number_at-add_number :
    (key k : String) (n : ℕ) (d : Table ℕ)
    → number_at key (add_number k n d) ≡ (if k == key then n else 0) + number_at key d
unfolding add_number
number_at-add_number key k n [] = ground arith
number_at-add_number key k n ((j, m) ∷ d) =
    let r = number_at-add_number key k n d in
    elim (Bool-cases (j == k)) [
      | inl same ↦
          let e : (j == key) ≡ (k == key) = ap (λ z. z == key) ((eq_iff j k).0 same) in
          rw (same, e) (ground arith)
      | inr other ↦ elim (Bool-cases (k == key)) [
        | inl here ↦
            let e : (j == k) ≡ (j == key) = ap (λ z. j == z) ((eq_iff k key).0 here) in
            let f = sym e ∙ other in rw (other, here, f) (ground (arith, r, here))
        | inr there ↦ elim (Bool-cases (j == key)) [
          | inl found ↦ rw (other, there, found) (omega arith)
          | inr not_found ↦ rw (other, there, not_found) (ground (arith, r, there))
        ]
      ]
    ]

number_at-streams :
    (key k : String) (is_off : Bool) (d : Table ℕ)
    → number_at key (if is_off then d else add_number k 1 d)
      ≡ (if k == key && not is_off then 1 else 0) + number_at key d
number_at-streams key k true d = ground arith
number_at-streams key k false d = let a = number_at-add_number key k 1 d in ground (arith, a)

module _ {Bitrate : Type 0} (key : String) where
  number_at-tally :
      (ms : List (StreamingSample Bitrate)) (d : Table ℕ × Table ℕ)
      → (number_at key (tally ms d).0 ≡ number_at key d.0 + viewers_at key ms)
        × (number_at key (tally ms d).1
            ≡ number_at key d.1 + count (λ m. is_hosted_at key m && not (is_offline m.status)) ms)
  unfolding tally
  number_at-tally [] d = (omega arith, omega arith)
  number_at-tally (m ∷ ms) d = elim (Option-cases m.server_external_id) [
    | inl no_server ↦ rw no_server (number_at-tally ms d)
    | inr (k, hosted) ↦
        let a = number_at-add_number key k m.viewers d.0 in
        let r =
          number_at-tally ms
            (add_number k m.viewers d.0, if is_offline m.status then d.1 else add_number k 1 d.1) in
        let c = number_at-streams key k (is_offline m.status) d.1 in
        rw hosted (ground (arith, a, r.0), ground (arith, c, r.1))
  ]

  -- The connections of a server in its sample are the viewers of the channels that it hosts, added
  -- up, and its streams are those of them that are not offline.
  tally_lem :
      (ms : List (StreamingSample Bitrate))
      → (number_at key (tally ms ([], [])).0 ≡ viewers_at key ms)
        × (number_at key (tally ms ([], [])).1
            ≡ count (λ m. is_hosted_at key m && not (is_offline m.status)) ms)
  tally_lem ms = let r = number_at-tally ms ([], []) in (ground (arith, r.0), ground (arith, r.1))

abbrev pub is_reading : Call → Bool
is_reading begin_collection_cycle = false
is_reading _ = true

module _ {Measures Bitrate Servers Channels : Type 0} (output : ℕ → Bitrate → Bitrate)
    (sources : ℕ → Option (Cycle Measures Bitrate Servers Channels)) where
  call-kept :
      (q : Call) (c : Cycle Measures Bitrate Servers Channels) (n : ℕ)
      → is_reading q ≡ true
      → call output sources q (record { cycle = some c; readings = n })
        ≡ (some (answer_from output q c), record { cycle = some c; readings = n })
  unfolding call snapshot
  call-kept begin_collection_cycle c n h = absurd (ground (arith, h))
  call-kept get_servers c n h = refl
  call-kept get_channels c n h = refl
  call-kept get_server_metrics c n h = refl
  call-kept get_channel_metrics c n h = refl

  call-first :
      (q : Call) (c : Cycle Measures Bitrate Servers Channels) (n : ℕ)
      → is_reading q ≡ true
      → sources n ≡ some c
      → call output sources q (record { cycle = none; readings = n })
        ≡ (some (answer_from output q c), record { cycle = some c; readings = suc n })
  unfolding call snapshot
  call-first begin_collection_cycle c n h e = absurd (ground (arith, h))
  call-first get_servers c n h e = rw e refl
  call-first get_channels c n h e = rw e refl
  call-first get_server_metrics c n h e = rw e refl
  call-first get_channel_metrics c n h e = rw e refl

  call_all-kept :
      (qs : List Call) (c : Cycle Measures Bitrate Servers Channels) (n : ℕ)
      → All (λ q. is_reading q ≡ true) qs
      → call_all output sources qs (record { cycle = some c; readings = n })
        ≡ (map (λ q. some (answer_from output q c)) qs, record { cycle = some c; readings = n })
  unfolding call_all
  call_all-kept [] c n h = refl
  call_all-kept (q ∷ qs) c n h = rw (call-kept q c n h.0, call_all-kept qs c n h.1) refl

  -- If the sources can be read, a pass that begins a cycle and then asks for anything, in any order
  -- and any number of times, reads them once: all its answers are of this one measurement, however
  -- old the one before it is.
  pub call_all_lem :
      (q : Call) (qs : List Call) (a : Composite Measures Bitrate Servers Channels)
      (c : Cycle Measures Bitrate Servers Channels)
      → All (λ q. is_reading q ≡ true) (q ∷ qs)
      → sources a.readings ≡ some c
      → call_all output sources (begin_collection_cycle ∷ q ∷ qs) a ≡ (
        some Answer.no_answer ∷ map (λ q. some (answer_from output q c)) (q ∷ qs),
        record { cycle = some c; readings = suc a.readings },
      )
  unfolding call_all call
  call_all_lem q qs a c h e =
      rw (call-first q c a.readings h.0 e, call_all-kept qs c (suc a.readings) h.1) refl
