-- ===== src/Servers/Tests.antt =====
-- The theorems of the inventory at two servers: one has samples, the other only a finished job.
use superflash_ia.Prelude.{
  Bool-cases, inl, inr, subst, eq_iff, ℕ, ◌≤◌, Bool, String, true, false, ◌≡◌, refl, none, some,
  List, [], ◌∷◌, arith, count, if◌then◌else◌, string_eq, ◌==◌, leb, ◌&&◌,
}
use superflash_ia.Onboarding.Types.{Status, Onboarding}
use superflash_ia.Servers.Types.{active, ServerRow, Inventory, DeletionRequest}
use superflash_ia.Servers.Repository.{has_external_id, get, is_active_job}
use superflash_ia.Servers.Endpoints.{delete_server}
use superflash_ia.Servers.Retired.{IsKept, delete_server-IsKept}
use superflash_ia.Servers.Removal.{
  is_confirmed, left_of, get-delete_server, count_active-delete_server,
}
use superflash_ia.Servers.Unique.{IsUnique}
use superflash_ia.Servers.Changes.{
  Change, created, updated, removed, collected, change_all, change_all-IsUnique,
}

abbrev server : ℕ → String → ServerRow ℕ ℕ
server key external = record {
  server_id = key;
  external_id = external;
  name = "node";
  hostname = some "node.example";
  monthly_cost = none;
  lifecycle_state = active;
  archived_at = none;
  enabled = true;
  details = 0;
}

abbrev job : ℕ → Status → Onboarding
job key status = record {
  onboarding_id = 1;
  server_id = key;
  status = status;
  current_step = "connecting";
  progress_percent = 5;
  started_at = none;
  completed_at = none;
  failed_at = none;
  last_error_code = none;
  last_error_message_sanitized = none;
  retry_count = 0;
  last_successful_step = none;
  created_by = "operator";
  auth_method = "password";
  ssh_port = 22;
  ssh_username = "root";
  cancel_requested = false;
  created_at = 1;
  updated_at = none;
}

abbrev inventory : Inventory ℕ ℕ
inventory = record {
  servers = server 1 "a" ∷ server 2 "b" ∷ [];
  metrics = record { row_id = 1; server_id = 1 } ∷ [];
  alerts = [];
  snapshots = [];
  onboardings = job 1 Status.connecting ∷ job 2 Status.cancelled ∷ [];
  audits = [];
  channels = [];
  channel_metrics = [];
  intervals = [];
  next_server = 3;
}

abbrev request : DeletionRequest
request = record { confirmation = "node"; hostname = some "node.example" }

abbrev is_letter : ℕ → Bool
is_letter c = leb b'a' c && leb c b'z'

delete_server-IsKept_example :
    IsKept inventory (delete_server is_letter 1 request none 8 9 inventory).0
delete_server-IsKept_example = delete_server-IsKept is_letter 1 request none 8 9 inventory

get-delete_server_example : get 2 (delete_server is_letter 2 request none 8 9 inventory).0 ≡ (
    if is_confirmed request (server 2 "b")
    then left_of 9 (server 2 "b") inventory
    else some (server 2 "b"))
get-delete_server_example =
    get-delete_server is_letter 2 request none 8 9 (server 2 "b") inventory refl

count_active-delete_server_example :
    count (is_active_job 1) (delete_server is_letter 1 request none 8 9 inventory).0.onboardings ≡ 0
count_active-delete_server_example =
    count_active-delete_server is_letter 1 request none 8 9 (server 1 "a") inventory refl refl refl

inventory-IsUnique : IsUnique inventory
inventory-IsUnique = record {
  one_id = λ key. ground arith;
  one_external_id = λ external. one external;
  next_is_free = λ key h. ground arith;
}
  where
    one : (external : String) → count (has_external_id external) inventory.servers ≤ 1
    one external = elim (Bool-cases ("a" == external)) [
      | inl same ↦
          subst (λ e. count (has_external_id e) inventory.servers ≤ 1)
            ((eq_iff "a" external).0 same) (omega arith)
      | inr other ↦ ground (arith, other)
    ]

abbrev changes : List (Change ℕ ℕ)
changes =
    created (server 0 "c")
    ∷ updated 3 (record {
      external_id = some (some "a");
      name = none;
      hostname = none;
      monthly_cost = none;
      enabled = none;
      details = λ d. some d;
    })
    ∷ removed 2 request none 8 9
    ∷ collected 0 (record {
      external_id = "b";
      name = "node";
      hostname = none;
      enabled = true;
      details = λ d. d;
    })
    ∷ []

change_all-IsUnique_example : IsUnique (change_all is_letter changes inventory)
change_all-IsUnique_example = change_all-IsUnique is_letter changes inventory inventory-IsUnique
