-- ===== src/Onboarding/Precheck.antt =====
-- `_discover_and_precheck`, `_register_inventory` and `_prometheus_target_status` of
-- app/services/onboarding_service.py.
use superflash_ia.Prelude.{
  ℕ, String, ⊤, Bool, true, false, not, ◌&&◌, ◌||◌, Option, none, some, List, [], ◌∷◌, ◌==◌,
  string_eq, nat_eq, contains, first, is_some, truthy, map, if◌then◌else◌,
}
use superflash_ia.Text.{in_text, strip}
use superflash_ia.Ssh.Catalogue.{
  check_requirements, check_exporter, check_sudo, detect_inventory, SshCommandResult,
}
use superflash_ia.Ssh.Catalogue
use superflash_ia.Ssh.Inventory.{Interface, RemoteInventory, parse_inventory_output}
use superflash_ia.Onboarding.Types.{Server, InventorySnapshot}
use superflash_ia.Onboarding.Api.{event_for}
use superflash_ia.Onboarding.Job.{
  Surroundings, operation, World, Job, ok, error, pure, raise, ◌>>=◌, ◌>>◌, raise_unless, current,
  add_audit, send, now, tick, crash, not_valid, probe_raised, unreachable, reachable,
}

-- The marks `tool=missing` of the tools that the catalogue asks for.
abbrev pub missing_marks : List String
missing_marks =
    "systemctl=missing" ∷ "curl=missing" ∷ "tar=missing" ∷ "sha256sum=missing" ∷ "ss=missing"
    ∷ "ip=missing" ∷ []

abbrev pub any_in : List String → String → Bool
unfolding in_text
any_in [] text = false
any_in (mark ∷ marks) text = in_text mark text || any_in marks text

-- Whether the host has every tool that the scripts need.
unfoldable pub meets_requirements : SshCommandResult → Bool
unfolding any_in in_text
meets_requirements r =
    Catalogue.ok r && in_text "systemctl=ok" r.stdout && not (any_in missing_marks r.stdout)

-- The user is root.
unfoldable pub is_root : SshCommandResult → Bool
unfolding strip
is_root r = strip r.stdout == "0"

abbrev known_architectures : List String
known_architectures = "x86_64" ∷ "aarch64" ∷ "armv7l" ∷ "armv7" ∷ []

unfoldable pub has_interface : Option String → List Interface → Bool
has_interface none interfaces = false
has_interface (some name) interfaces = contains (map (λ (i : Interface). i.name) interfaces) name

abbrev pub has_no_interface : List Interface → Bool
has_no_interface [] = true
has_no_interface (_ ∷ _) = false

-- The tests of `_discover_and_precheck` on the parsed inventory: the code of the first that fails.
unfoldable pub inventory_error : Server → RemoteInventory → Option String
unfolding has_interface
inventory_error server i =
    if not (contains known_architectures i.arch)
    then some "requirements_missing"
    else if i.arch == "unknown" || i.hostname == "unknown" || has_no_interface i.interfaces
    then some "inventory_failed"
    else if truthy server.network_interface
        && not (has_interface server.network_interface i.interfaces)
    then some "network_interface_missing"
    else none

abbrev pub fails_with : Option String → Job ⊤
fails_with none = pure tt
fails_with (some code) = raise code

module _ (env : Surroundings) where
  -- The port 9100 may be taken only by an exporter that answers.
  unfoldable pub check_port : SshCommandResult → Job ⊤
  check_port r =
      if in_text "port_9100=occupied" r.stdout
      then (do
        exporter ← send env (operation check_exporter false)
        raise_unless (Catalogue.ok exporter) "port_9100_occupied")
      else pure tt

  -- The user is root, or becomes root by sudo.
  unfoldable pub check_privilege : Job ⊤
  check_privilege = do
    sudo ← send env (operation check_sudo false)
    if is_root sudo then pure tt else (do
      elevated ← send env (operation check_sudo true)
      raise_unless (Catalogue.ok elevated && is_root elevated) "requirements_missing")

  -- `_discover_and_precheck`
  unfoldable pub discover_and_precheck : Job RemoteInventory
  discover_and_precheck = do
    requirements ← send env (operation check_requirements false)
    raise_unless (meets_requirements requirements) "requirements_missing"
    check_port requirements
    check_privilege
    raw ← send env (operation detect_inventory false)
    raise_unless (Catalogue.ok raw) "inventory_failed"
    let inventory = parse_inventory_output env.python raw.stdout
    w ← current
    fails_with (inventory_error w.server inventory)
    pure inventory

  abbrev same_snapshot : ℕ → String → InventorySnapshot → Bool
  same_snapshot server_id fingerprint s = s.server_id == server_id && s.fingerprint == fingerprint

  -- `add_inventory_snapshot_if_changed`
  unfoldable pub add_inventory_snapshot_if_changed :
      ℕ → ℕ → String → List InventorySnapshot → List InventorySnapshot
  add_inventory_snapshot_if_changed server_id captured_at fingerprint snapshots =
      if is_some (first (same_snapshot server_id fingerprint) snapshots)
      then snapshots
      else record { server_id = server_id; captured_at = captured_at; fingerprint = fingerprint }
        ∷ snapshots

  -- The interface that the server keeps: its own, or the primary one of the inventory.
  abbrev chosen_interface : Server → RemoteInventory → Option String
  chosen_interface server i =
      if truthy server.network_interface
      then server.network_interface
      else if truthy i.primary_interface
      then i.primary_interface
      else server.network_interface

  -- What `_register_inventory` stores.
  unfoldable pub store_inventory : String → RemoteInventory → World → World
  unfolding add_inventory_snapshot_if_changed
  store_inventory actor i w =
      let w' = record (tick env w) {
        server = record w.server { network_interface = chosen_interface w.server i };
        snapshots =
            add_inventory_snapshot_if_changed w.server.server_id (now env w) (env.digest i)
              w.snapshots;
      } in
      let event =
        event_for w'.row actor "inventory_snapshot" true
          "Inventario técnico capturado sin credenciales." (now env w') in
      add_audit (record event { step = "registering_inventory" }) (tick env w')

  -- `_register_inventory`
  unfoldable pub register_inventory : String → RemoteInventory → Job ⊤
  register_inventory actor i w =
      if truthy w.server.network_interface
        && not (has_interface w.server.network_interface i.interfaces)
      then (error "network_interface_missing", w)
      else (ok tt, store_inventory actor i w)

  -- `_prometheus_target_status`, or none for the `ValidationError` of `Inventory`, which no `try`
  -- catches there.
  unfoldable pub prometheus_target_status : Server → Option String
  prometheus_target_status server =
      if not (truthy server.prometheus_url) || not (truthy server.hostname)
      then some "CONNECTION_FAILED"
      else elim (env.probe server) [
        | not_valid ↦ none
        | probe_raised ↦ some "CONNECTION_FAILED"
        | unreachable ↦ some "CONNECTION_FAILED"
        | reachable none ↦ some "PENDING_SCRAPE"
        | reachable (some positive) ↦ some (if positive then "UP" else "CONNECTION_FAILED")
      ]

  -- The end of `_probe_prometheus`, by the status or its exception.
  abbrev pub probed : Option String → Job Bool
  probed none w = (crash, w)
  probed (some status) w = (ok (status == "UP"), w)

  -- `_probe_prometheus`
  abbrev pub probe_prometheus : Job Bool
  probe_prometheus w = probed (prometheus_target_status w.server) w
