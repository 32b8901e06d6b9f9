-- ===== src/Sources/Inventory.antt =====
-- The inventory that is made of a group: `_node_exporter_instance` of app/adapters/prometheus.py and
-- the validation of app/adapters/inventory.py. The columns that are validated where they are stored
-- are not validated again here.
use Prim.Native.Char.{code}
use Prim.Native.String.{◌++◌ as ◌<>◌}
use superflash_ia.Prelude.{
  ℕ, suc, String, Bool, true, not, ◌&&◌, ◌||◌, List, [], ◌∷◌, ◌==◌, nat_eq, string_eq, or_else,
  if◌then◌else◌, leb, contains,
}
use superflash_ia.Text.{is_empty, in_text, starts_with}
use superflash_ia.Sources.Host.{InventoryServer}
use superflash_ia.Sources.Infrastructure.{is_empty_list}
use superflash_ia.Sources.Groups.{ManagedServer}

-- `_node_exporter_instance`
abbrev pub instance_of : String → String
instance_of hostname =
    if in_text ":" hostname || starts_with hostname "[" then hostname else hostname <> ":9100"

abbrev pub inventory_server : ManagedServer → InventoryServer
inventory_server s = record {
  external_id = s.external_id;
  network_interface = s.network_interface;
  node_exporter_instance = instance_of (or_else s.hostname "");
  enabled = s.enabled;
}

-- A character that the pattern of `node_exporter_instance` has.
abbrev pub is_instance_character : ℕ → Bool
is_instance_character c =
    (leb b'A' c && leb c b'Z')
    || (leb b'a' c && leb c b'z')
    || (leb b'0' c && leb c b'9')
    || c == b'.'
    || c == b'_'
    || c == b'-'
    || c == b'['
    || c == b']'
    || c == b':'

abbrev pub all_characters : (ℕ → Bool) → String → Bool
all_characters p String.[] = true
all_characters p (String.◌∷◌ c s) = p (code c) && all_characters p s

abbrev pub characters : String → ℕ
characters String.[] = 0
characters (String.◌∷◌ c s) = suc (characters s)

abbrev pub is_valid_instance : String → Bool
is_valid_instance s =
    not (is_empty s) && all_characters is_instance_character s && leb (characters s) 253

-- `Inventory._unique_identifiers`
abbrev pub has_unique_identifiers : List String → List String → List InventoryServer → Bool
has_unique_identifiers ids instances [] = true
has_unique_identifiers ids instances (s ∷ ss) =
    not (contains ids s.external_id)
    && not (contains instances s.node_exporter_instance)
    && has_unique_identifiers (s.external_id ∷ ids) (s.node_exporter_instance ∷ instances) ss

abbrev pub all_valid : List InventoryServer → Bool
all_valid [] = true
all_valid (s ∷ ss) = is_valid_instance s.node_exporter_instance && all_valid ss

abbrev pub is_valid_inventory : List InventoryServer → Bool
is_valid_inventory servers =
    not (is_empty_list servers) && all_valid servers && has_unique_identifiers [] [] servers
