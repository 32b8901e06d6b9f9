-- ===== src/Sources/Database.antt =====
-- `DatabasePrometheusInfrastructureAdapter.get_infrastructure_metrics` of app/adapters/prometheus.py.
use superflash_ia.Prelude.{
  ℕ, suc, Bool, true, false, not, ◌&&◌, List, [], ◌∷◌, ◌++◌, map, ◌==◌, nat_eq, string_eq,
  if◌then◌else◌,
}
use superflash_ia.Sources.Json.{Floats}
use superflash_ia.Sources.Fetch.{
  Request, Exchange, Failure, auth_error, source_error, validation_error, Outcome, ok, raised,
  Fetch, pure, raise, ◌>>=◌,
}
use superflash_ia.Sources.Host.{InventoryServer, InfrastructureSample}
use superflash_ia.Sources.Infrastructure.{Provider, is_empty_list, get_infrastructure_metrics}
use superflash_ia.Sources.Groups.{GroupKey, Groups, ManagedServer, group_servers}
use superflash_ia.Sources.Inventory.{inventory_server, is_valid_inventory}

-- The exceptions that the loop over the groups handles: `PrometheusSourceError` with its subclass.
abbrev pub is_source_error : Failure → Bool
is_source_error (auth_error status) = true
is_source_error (source_error text) = true
is_source_error _ = false

abbrev pub provider_of : GroupKey → List InventoryServer → Provider
provider_of key servers = record { base_url = key.0; bearer_token = key.1; servers = servers }

module _ (F : Floats) where
  -- The samples of the groups, and how many groups failed.
  abbrev pub Harvest : Type 0
  Harvest = List (InfrastructureSample F) × ℕ

module _ {F : Floats} where
  -- The last test: an exception if nothing was sampled and a group failed.
  abbrev pub check_harvest : Groups → Harvest F → Fetch (List (InfrastructureSample F))
  check_harvest groups h =
      if not (is_empty_list groups) && is_empty_list h.0 && not (h.1 == 0)
      then raise (source_error "ningún target administrado respondió")
      else pure h.0

  -- The rest of the groups, after one that ended so.
  abbrev pub note_group :
      Outcome (List (InfrastructureSample F)) → Fetch (Harvest F) → Fetch (Harvest F)
  note_group (ok samples) rest = rest >>= λ h. pure (samples ++ h.0, h.1)
  note_group (raised e) rest =
      if is_source_error e then (rest >>= λ h. pure (h.0, suc h.1)) else raise e

  module _ (network : List Request → Request → Exchange F) (now : ℕ) where
    -- The inventory is made, and validated, before the `try`.
    unfoldable pub collect_group :
        GroupKey → List ManagedServer → Fetch (List (InfrastructureSample F))
    collect_group key members =
        get_infrastructure_metrics network (provider_of key (map inventory_server members)) now

    unfoldable pub collect_groups : Groups → Fetch (Harvest F)
    collect_groups [] sent = pure ([], 0) sent
    collect_groups ((key, members) ∷ groups) sent =
        let g = collect_group key members sent in
        let rest = note_group g.0 (collect_groups groups) g.1 in
        if is_valid_inventory (map inventory_server members)
        then rest
        else raise validation_error sent

    unfoldable pub collect_managed : List ManagedServer → Fetch (List (InfrastructureSample F))
    collect_managed servers =
        collect_groups (group_servers [] servers) >>= check_harvest (group_servers [] servers)
