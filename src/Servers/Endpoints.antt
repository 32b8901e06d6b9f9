-- ===== src/Servers/Endpoints.antt =====
-- The endpoints of app/api/v1/servers.py that write. Each gives its answer and the tables that the
-- session then has committed.
use Prim.Native.Char.{code}
use superflash_ia.Prelude.{
  ℕ, String, Bool, true, false, not, ◌&&◌, ◌||◌, Option, none, some, ◌>>=◌, ◌==◌, nat_eq, string_eq,
  option_beq, or_else, if◌then◌else◌, is_some,
}
use superflash_ia.Text.{is_empty, take}
use superflash_ia.Channels.Rows.{update_first}
use superflash_ia.Servers.Types.{
  Lifecycle, archived, ServerRow, Inventory, ServerUpdate, DeletionRequest,
}
use superflash_ia.Servers.Relations.{Relations, relation_summary, can_hard_delete}
use superflash_ia.Servers.Repository.{
  has_id, get, get_by_external_id, cancel_active_onboardings, archive, create, delete,
}

abbrev pub is_archived : Lifecycle → Bool
is_archived archived = true
is_archived _ = false

-- The characters of a text that pass.
abbrev pub keep : (ℕ → Bool) → String → String
keep p String.[] = String.[]
keep p (String.◌∷◌ c s) = if p (code c) then String.◌∷◌ c (keep p s) else keep p s

module _ (is_alnum : ℕ → Bool) where
  -- A character of a name of an operator: `character in "._@-"` tells four of them.
  abbrev pub is_name_character : ℕ → Bool
  is_name_character c = is_alnum c || c == b'.' || c == b'_' || c == b'@' || c == b'-'

  -- `value or "api-key-operator"`
  abbrev pub given_or_default : Option String → String
  given_or_default none = "api-key-operator"
  given_or_default (some s) = if is_empty s then "api-key-operator" else s

  unfoldable pub operator_actor : Option String → String
  operator_actor value =
      let clean = take 120 (keep is_name_character (given_or_default value)) in
      if is_empty clean then "api-key-operator" else clean

-- The `action` of a `ServerDeletionResponse`.
pub data Action : Type 0 where
  was_deleted was_archived : Action

-- The `HTTPException`s: 404, 409, and the two 400 of a deletion.
pub data ServerError : Type 0 where
  not_found external_id_taken wrong_name wrong_hostname : ServerError

-- What `setattr` leaves in a nullable column, whether or not the client sent it.
abbrev pub sent_value {ℓ} : {A : Type ℓ} → Option A → A → A
sent_value none old = old
sent_value (some new) old = new

-- The same for a column that is not nullable: none is the `IntegrityError`.
abbrev pub required_value {ℓ} : {A : Type ℓ} → Option (Option A) → A → Option A
required_value none old = some old
required_value (some none) old = none
required_value (some (some new)) old = some new

module _ {Details Number : Type 0} where
  unfoldable pub apply_update :
      ServerUpdate Details Number → ServerRow Details Number → Option (ServerRow Details Number)
  apply_update u s = do
    external_id ← required_value u.external_id s.external_id
    name ← required_value u.name s.name
    enabled ← required_value u.enabled s.enabled
    details ← u.details s.details
    some (record s {
      external_id = external_id;
      name = name;
      hostname = sent_value u.hostname s.hostname;
      monthly_cost = sent_value u.monthly_cost s.monthly_cost;
      enabled = enabled;
      details = details;
    })

module _ (Details Number : Type 0) where
  -- What an endpoint answers; `retired` has the relations, the action and the cancelled jobs.
  pub data ServerAnswer : Type 0 where
    served : ServerRow Details Number → ServerAnswer
    retired : Relations → Action → ℕ → ServerAnswer
    refused : ServerError → ServerAnswer

module _ {Details Number : Type 0} where
  unfoldable pub create_server :
      ServerRow Details Number
      → Inventory Details Number
      → Inventory Details Number × ServerAnswer Details Number
  unfolding create
  create_server row inv =
      if is_some (get_by_external_id row.external_id inv)
      then (inv, refused external_id_taken)
      else (create row inv, served (record row { server_id = inv.next_server }))

  -- `"external_id" in payload.model_fields_set` and a duplicate that is another server.
  abbrev pub is_taken : Option (Option String) → ℕ → Inventory Details Number → Bool
  is_taken none key inv = false
  is_taken (some external) key inv = elim (get_by_external_id (or_else external "") inv) [
    | none ↦ false
    | some duplicate ↦ not (duplicate.server_id == key)
  ]

  -- `repository.update` and the commit, or the rollback.
  unfoldable pub store_update :
      ℕ
      → ServerUpdate Details Number
      → ServerRow Details Number
      → Inventory Details Number
      → Inventory Details Number × ServerAnswer Details Number
  store_update key u s inv = elim (apply_update u s) [
    | none ↦ (inv, refused external_id_taken)
    | some s' ↦
        (record inv { servers = update_first (has_id key) (λ _. s') inv.servers }, served s')
  ]

  unfoldable pub update_server :
      ℕ
      → ServerUpdate Details Number
      → Inventory Details Number
      → Inventory Details Number × ServerAnswer Details Number
  update_server key u inv = elim (get key inv) [
    | none ↦ (inv, refused not_found)
    | some s ↦
        if is_taken u.external_id key inv
        then (inv, refused external_id_taken)
        else store_update key u s inv
  ]

  -- `server.hostname is not None and payload.hostname != server.hostname`
  abbrev pub is_wrong_hostname : DeletionRequest → ServerRow Details Number → Bool
  is_wrong_hostname req s =
      is_some s.hostname && not (option_beq (λ a b. a == b) req.hostname s.hostname)

  -- The jobs of a server that is not archived yet are cancelled.
  abbrev pub cancel_jobs :
      String
      → ℕ
      → ServerRow Details Number
      → Inventory Details Number
      → Inventory Details Number × ℕ
  cancel_jobs actor now s inv =
      if is_archived s.lifecycle_state
      then (inv, 0)
      else cancel_active_onboardings s.server_id actor now inv

  -- `delete_server`, for a request that is confirmed.
  unfoldable pub retire :
      String
      → ℕ
      → ℕ
      → ServerRow Details Number
      → Inventory Details Number
      → Inventory Details Number × ServerAnswer Details Number
  retire actor now archived_at s inv =
      let c = cancel_jobs actor now s inv in
      let relations = relation_summary s c.0 in
      if c.1 == 0 && can_hard_delete relations
      then (delete s.server_id c.0, retired relations was_deleted c.1)
      else (archive s.server_id archived_at c.0, retired relations was_archived c.1)

  unfoldable pub delete_server :
      (ℕ → Bool)
      → ℕ
      → DeletionRequest
      → Option String
      → ℕ
      → ℕ
      → Inventory Details Number
      → Inventory Details Number × ServerAnswer Details Number
  delete_server is_alnum key req operator_id now archived_at inv = elim (get key inv) [
    | none ↦ (inv, refused not_found)
    | some s ↦
        if not (req.confirmation == s.name)
        then (inv, refused wrong_name)
        else if is_wrong_hostname req s
        then (inv, refused wrong_hostname)
        else retire (operator_actor is_alnum operator_id) now archived_at s inv
  ]
