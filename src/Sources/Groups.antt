-- ===== src/Sources/Groups.antt =====
-- The groups of `DatabasePrometheusInfrastructureAdapter`, app/adapters/prometheus.py: the targets
-- by their address and token.
use superflash_ia.Prelude.{
  String, Bool, ◌&&◌, Option, List, [], ◌∷◌, ◌++◌, ◌==◌, nat_eq, string_eq, option_beq, truthy,
  or_else, if◌then◌else◌,
}

-- The columns of a `Server` that the adapter reads.
pub record ManagedServer : Type 0 where
  pub external_id : String
  pub hostname : Option String
  pub network_interface : Option String
  pub prometheus_url : Option String
  pub prometheus_token : Option String
  pub enabled : Bool

-- The key of a group: the address and the token.
abbrev pub GroupKey : Type 0
GroupKey = String × Option String

abbrev pub Groups : Type 0
Groups = List (GroupKey × List ManagedServer)

abbrev pub text_beq : String → String → Bool
text_beq a b = a == b

abbrev pub key_beq : GroupKey → GroupKey → Bool
key_beq a b = a.0 == b.0 && option_beq text_beq a.1 b.1

abbrev pub key_of : ManagedServer → GroupKey
key_of s = (or_else s.prometheus_url "", s.prometheus_token)

-- `server.prometheus_url and server.hostname`, of a server that is enabled.
abbrev pub is_target : ManagedServer → Bool
is_target s = s.enabled && truthy s.prometheus_url && truthy s.hostname

-- `groups.setdefault(key, []).append(server)`
unfoldable pub add_to_group : ManagedServer → Groups → Groups
add_to_group s [] = (key_of s, s ∷ []) ∷ []
add_to_group s ((key, members) ∷ groups) =
    let rest = add_to_group s groups in
    if key_beq key (key_of s) then (key, members ++ s ∷ []) ∷ groups else (key, members) ∷ rest

-- The loop over the servers, with the groups so far.
unfoldable pub group_servers : Groups → List ManagedServer → Groups
group_servers groups [] = groups
group_servers groups (s ∷ ss) =
    group_servers (if is_target s then add_to_group s groups else groups) ss
