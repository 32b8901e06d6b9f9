-- ===== src/Sources/Own.antt =====
-- The credentials of the managed servers are not mixed.
use Prim.Native.String.{◌++◌ as ◌<>◌}
use superflash_ia.Prelude.{
  truthy, or_else, if◌then◌else◌, ℕ, suc, String, Bool, true, ◌&&◌, ◌≡◌, refl, inl, inr, Bool-cases,
  Option, none, some, List, [], ◌∷◌, ◌++◌, arith, All, All-map, first, is_some, ◌==◌, string_eq,
  option_beq, map, eq_iff,
}
use superflash_ia.Text.{rstrip_char}
use superflash_ia.Sources.Json.{Floats}
use superflash_ia.Sources.Fetch.{
  Request, Exchange, source_error, Outcome, ok, raised, Fetch, pure, raise, client_of, request_of,
}
use superflash_ia.Sources.Host.{InfrastructureSample}
use superflash_ia.Sources.Groups.{
  ManagedServer, GroupKey, Groups, text_beq, key_of, is_target, group_servers,
}
use superflash_ia.Sources.Inventory.{inventory_server, is_valid_inventory}
use superflash_ia.Sources.Database.{
  Harvest, is_source_error, provider_of, check_harvest, note_group, collect_group, collect_groups,
  collect_managed,
}
use superflash_ia.Sources.Sent.{
  Keeps, pure-Keeps, raise-Keeps, if-Keeps, bind-Keeps, get_infrastructure_metrics-Keeps,
}
use superflash_ia.Sources.Grouped.{group_servers-All}

-- The header that a token asks for.
abbrev pub bearer : Option String → Option String
bearer token = if truthy token then some ("Bearer " <> or_else token "") else none

-- A request with an address, without the strokes at its end, and the header of a token.
abbrev pub is_sent_to : Option String → Option String → Request → Bool
is_sent_to url token r =
    r.base_url == rstrip_char b'/' (or_else url "")
    && option_beq text_beq r.authorization (bearer token)

-- Whether one of the targets has the address and the token of a request.
abbrev pub has_sender : List ManagedServer → Request → Bool
has_sender servers r =
    is_some (first (λ s. is_target s && is_sent_to s.prometheus_url s.prometheus_token r) servers)

pub IsOwn : List ManagedServer → Request → Type 0
IsOwn servers r = has_sender servers r ≡ true

option_beq_refl : (o : Option String) → option_beq text_beq o o ≡ true
option_beq_refl none = refl
option_beq_refl (some s) = (eq_iff s s).1 refl

is_sent_to_own :
    (key : GroupKey) (promql : String)
    → is_sent_to (some key.0) key.1 (request_of (client_of (rstrip_char b'/' key.0) key.1) promql)
      ≡ true
is_sent_to_own key promql =
    rw
      (
        (eq_iff (rstrip_char b'/' key.0) (rstrip_char b'/' key.0)).1 refl,
        option_beq_refl (bearer key.1),
      )
      refl

-- Every row that passes finds itself.
found-All {ℓ κ} :
    {A : Type ℓ} {C : Type κ} (t : A → Bool) (p : A → C → A → Bool)
    → ((x : A) (c : C) → t x ≡ true → p x c x ≡ true)
    → (xs : List A) → All (λ x. t x ≡ true → (c : C) → is_some (first (p x c) xs) ≡ true) xs
found-All t p h [] = tt
found-All {C = C} t p h (x ∷ xs) = (
  λ e c. rw (h x c e) refl,
  All-map (λ y. t y ≡ true → (c : C) → is_some (first (p y c) xs) ≡ true)
      (λ y. t y ≡ true → (c : C) → is_some (first (p y c) (x ∷ xs)) ≡ true)
      (λ y f e c. let r = f e c in ground arith) xs (found-All t p h xs),
)

module _ (servers : List ManagedServer) where
  -- Every request with the address and the header of a key has a sender.
  HasSender : GroupKey → Type 0
  HasSender key =
      (promql : String)
      → IsOwn servers (request_of (client_of (rstrip_char b'/' key.0) key.1) promql)

  targets_send : All (λ s. is_target s ≡ true → HasSender (key_of s)) servers
  unfolding HasSender IsOwn
  targets_send =
      found-All is_target
        (λ s promql t.
          is_target t
          && is_sent_to t.prometheus_url t.prometheus_token
              (request_of (client_of (rstrip_char b'/' (key_of s).0) (key_of s).1) promql))
        (λ s promql e. rw (e, is_sent_to_own (key_of s) promql) refl) servers

  module _ {F : Floats} (network : List Request → Request → Exchange F) (now : ℕ) where
    note_group-Keeps :
        (o : Outcome (List (InfrastructureSample F))) (rest : Fetch (Harvest F))
        → Keeps (IsOwn servers) rest
        → Keeps (IsOwn servers) (note_group o rest)
    note_group-Keeps (ok samples) rest k =
        bind-Keeps (IsOwn servers) rest _ k (λ h. pure-Keeps (IsOwn servers) (samples ++ h.0, h.1))
    note_group-Keeps (raised e) rest k =
        if-Keeps (IsOwn servers) (is_source_error e) _ (raise e)
          (bind-Keeps (IsOwn servers) rest _ k (λ h. pure-Keeps (IsOwn servers) (h.0, suc h.1)))
          (raise-Keeps (IsOwn servers) (Harvest F) e)

    collect_groups-Keeps :
        (groups : Groups)
        → All (λ g. HasSender g.0) groups
        → Keeps (IsOwn servers) (collect_groups network now groups)
    unfolding collect_groups Keeps collect_group HasSender
    collect_groups-Keeps [] hs sent k = k
    collect_groups-Keeps ((key, members) ∷ groups) hs sent k =
        elim (Bool-cases (is_valid_inventory (map inventory_server members))) [
          | inr refused ↦ rw refused k
          | inl valid ↦
              let g = collect_group network now key members sent in
              rw valid (
                note_group-Keeps g.0 (collect_groups network now groups)
                  (collect_groups-Keeps groups hs.1) g.1
                  (get_infrastructure_metrics-Keeps (IsOwn servers) network
                    (provider_of key (map inventory_server members)) now hs.0 sent k))
        ]

    collect_managed-Keeps : Keeps (IsOwn servers) (collect_managed network now servers)
    unfolding collect_managed
    collect_managed-Keeps =
        let groups = group_servers [] servers in
        bind-Keeps (IsOwn servers) (collect_groups network now groups) (check_harvest groups)
          (collect_groups-Keeps groups (group_servers-All HasSender [] servers targets_send tt))
          (λ h.
            if-Keeps (IsOwn servers) _ _ (pure h.0)
              (raise-Keeps (IsOwn servers) (List (InfrastructureSample F))
                (source_error "ningún target administrado respondió"))
              (pure-Keeps (IsOwn servers) h.0))

    -- Whatever Prometheus answers, and however the pass ends: every request of a pass has the
    -- address and the token of one of the enabled servers with an address and a host name. So the
    -- token of a server goes to no address but that of a server with this token.
    pub collect_managed-IsOwn : All (IsOwn servers) (collect_managed network now servers []).1
    unfolding Keeps
    collect_managed-IsOwn = collect_managed-Keeps [] tt
