-- ===== src/Servers/Changes.antt =====
-- Every change of the inventory keeps its keys.
use superflash_ia.Prelude.{
  ℕ, String, Bool, ◌&&◌, refl, inl, inr, Bool-cases, Option-cases, Option, List, [], ◌∷◌, ◌==◌,
  nat_eq, string_eq,
}
use superflash_ia.Servers.Types.{
  ServerRow, Inventory, ServerSnapshot, ServerUpdate, DeletionRequest,
}
use superflash_ia.Servers.Repository.{
  has_id, has_external_id, get, get_by_external_id, cancel_active_onboardings, archive, archive_row,
  create, new_row, write_snapshot, upsert_from_snapshot,
}
use superflash_ia.Servers.Relations.{relation_summary, can_hard_delete}
use superflash_ia.Servers.Endpoints.{
  is_archived, is_wrong_hostname, create_server, update_server, cancel_jobs, retire, delete_server,
  operator_actor,
}
use superflash_ia.Servers.Unique.{
  IsUnique, update_first-HasKeys, create-IsUnique, delete-IsUnique, update_server-IsUnique,
}

module _ {Details Number : Type 0} where
  create_server-IsUnique :
      (row : ServerRow Details Number) (inv : Inventory Details Number)
      → IsUnique inv
      → IsUnique (create_server row inv).0
  unfolding create_server create
  create_server-IsUnique row inv i = elim (Option-cases (get_by_external_id row.external_id inv)) [
    | inl new ↦ rw (create_server, new) (create-IsUnique row inv new i)
    | inr (s, taken) ↦ rw (create_server, taken) i
  ]

  upsert_from_snapshot-IsUnique :
      (defaults : Details) (sn : ServerSnapshot Details) (inv : Inventory Details Number)
      → IsUnique inv
      → IsUnique (upsert_from_snapshot defaults sn inv)
  unfolding upsert_from_snapshot create
  upsert_from_snapshot-IsUnique defaults sn inv i =
      elim (Option-cases (get_by_external_id sn.external_id inv)) [
        | inl new ↦
            rw (upsert_from_snapshot, new)
              (create-IsUnique (write_snapshot sn (new_row defaults sn inv.next_server)) inv new i)
        | inr (s, stored) ↦
            rw (upsert_from_snapshot, stored)
              (update_first-HasKeys (has_external_id sn.external_id) (write_snapshot sn) (λ s. refl)
                (λ s. refl) inv.servers inv.next_server i)
      ]

  cancel_jobs-IsUnique :
      (actor : String) (now : ℕ) (s : ServerRow Details Number) (inv : Inventory Details Number)
      → IsUnique inv
      → IsUnique (cancel_jobs actor now s inv).0
  unfolding cancel_active_onboardings
  cancel_jobs-IsUnique actor now s inv i = elim (Bool-cases (is_archived s.lifecycle_state)) [
    | inl before ↦ rw before i
    | inr not_before ↦ rw not_before i
  ]

  archive-IsUnique :
      (key at : ℕ) (inv : Inventory Details Number) → IsUnique inv → IsUnique (archive key at inv)
  unfolding archive
  archive-IsUnique key at inv i =
      update_first-HasKeys (has_id key) (archive_row at) (λ s. refl) (λ s. refl) inv.servers
        inv.next_server i

  retire-IsUnique :
      (actor : String) (now at : ℕ) (s : ServerRow Details Number) (inv : Inventory Details Number)
      → IsUnique inv
      → IsUnique (retire actor now at s inv).0
  unfolding retire
  retire-IsUnique actor now at s inv i =
      let c = cancel_jobs actor now s inv in
      let j = cancel_jobs-IsUnique actor now s inv i in
      elim (Bool-cases (c.1 == 0 && can_hard_delete (relation_summary s c.0))) [
        | inl removes ↦ rw (retire, removes) (delete-IsUnique s.server_id c.0 j)
        | inr keeps ↦ rw (retire, keeps) (archive-IsUnique s.server_id at c.0 j)
      ]

  delete_server-IsUnique :
      (is_alnum : ℕ → Bool) (key : ℕ) (req : DeletionRequest) (operator_id : Option String)
      (now at : ℕ) (inv : Inventory Details Number)
      → IsUnique inv
      → IsUnique (delete_server is_alnum key req operator_id now at inv).0
  unfolding delete_server
  delete_server-IsUnique is_alnum key req operator_id now at inv i =
      elim (Option-cases (get key inv)) [
        | inl absent ↦ rw (delete_server, absent) i
        | inr (s, found) ↦ elim (Bool-cases (req.confirmation == s.name)) [
          | inr other ↦ rw (delete_server, found, other) i
          | inl named ↦ elim (Bool-cases (is_wrong_hostname req s)) [
            | inl wrong ↦ rw (delete_server, found, named, wrong) i
            | inr right ↦
                rw (delete_server, found, named, right)
                  (retire-IsUnique (operator_actor is_alnum operator_id) now at s inv i)
          ]
        ]
      ]

-- A change of the inventory: a request of a client, or a server of a collection.
pub data Change (Details Number : Type 0) : Type 0 where
  created : ServerRow Details Number → Change Details Number
  updated : ℕ → ServerUpdate Details Number → Change Details Number
  removed : ℕ → DeletionRequest → Option String → ℕ → ℕ → Change Details Number
  collected : Details → ServerSnapshot Details → Change Details Number

module _ {Details Number : Type 0} (is_alnum : ℕ → Bool) where
  abbrev pub change : Change Details Number → Inventory Details Number → Inventory Details Number
  change (created row) inv = (create_server row inv).0
  change (updated key u) inv = (update_server key u inv).0
  change (removed key req operator_id now at) inv =
      (delete_server is_alnum key req operator_id now at inv).0
  change (collected defaults sn) inv = upsert_from_snapshot defaults sn inv

  pub change_all :
      List (Change Details Number) → Inventory Details Number → Inventory Details Number
  change_all [] inv = inv
  change_all (c ∷ cs) inv = change_all cs (change c inv)

  change-IsUnique :
      (c : Change Details Number) (inv : Inventory Details Number)
      → IsUnique inv
      → IsUnique (change c inv)
  change-IsUnique (created row) inv i = create_server-IsUnique row inv i
  change-IsUnique (updated key u) inv i = update_server-IsUnique key u inv i
  change-IsUnique (removed key req operator_id now at) inv i =
      delete_server-IsUnique is_alnum key req operator_id now at inv i
  change-IsUnique (collected defaults sn) inv i = upsert_from_snapshot-IsUnique defaults sn inv i

  -- If one server at most has an id, one at most an external id, and the next key is higher than
  -- every id, it is so after any requests to create, update and remove servers and any servers that
  -- collections write, in any order.
  pub change_all-IsUnique :
      (cs : List (Change Details Number)) (inv : Inventory Details Number)
      → IsUnique inv
      → IsUnique (change_all cs inv)
  unfolding change_all
  change_all-IsUnique [] inv i = i
  change_all-IsUnique (c ∷ cs) inv i =
      change_all-IsUnique cs (change c inv) (change-IsUnique c inv i)
