-- ===== src/Ssh/Inventory.antt =====
-- The inventory that a remote host reports: `RemoteInventory` and `parse_inventory_output` of
-- app/services/ssh_service.py. Python's `int` and `ipaddress` are parameters.
use superflash_ia.Prelude.{
  ℕ, String, Bool, not, ◌||◌, Option, none, some, List, [], ◌∷◌, ◌==◌, string_eq, ℤ, non_negative,
  first, truthy, if◌then◌else◌,
}
use superflash_ia.Text.{is_empty, strip, take, partition, split, splitlines, words}

pub record Interface : Type 0 where
  pub name : String
  pub addresses : String
  pub speed_mbps : Option ℕ

pub record Disk : Type 0 where
  pub name : String
  pub size_bytes : Option ℤ
  pub kind : String
  pub model : Option String

pub record RemoteInventory : Type 0 where
  pub hostname : String
  pub os : String
  pub os_version : String
  pub arch : String
  pub kernel : String
  pub ip_addresses : List String
  pub public_ip : Option String
  pub cpu_model : Option String
  pub sockets : Option ℕ
  pub cores : Option ℕ
  pub threads : Option ℕ
  pub memory_bytes : Option ℕ
  pub swap_bytes : Option ℕ
  pub interfaces : List Interface
  pub disks : List Disk
  pub primary_interface : Option String
  pub virtualization : Option String
  pub uptime_seconds : Option ℕ
  pub last_reboot : Option String

-- A dictionary with the newest entry first: an assignment to a key hides the older ones.
abbrev pub Values : Type 0 → Type 0
Values V = List (String × V)

unfoldable pub get : {V : Type 0} → String → Values V → Option V
get k [] = none
get k ((j, v) ∷ d) = if j == k then some v else get k d

-- The entry that a line `key=value` makes; a line with no `=` makes none.
unfoldable pub read_lines : List String → Values String → Values String
unfolding partition strip take
read_lines [] values = values
read_lines (line ∷ lines) values =
    let p = partition b'=' line in
    read_lines lines (if p.1 then (strip p.0, take 2000 (strip p.2)) ∷ values else values)

-- `values.get(name, "unknown") or "unknown"`
unfoldable pub text_or_unknown : String → Values String → String
unfolding get
text_or_unknown k values = elim (get k values) [
  | none ↦ "unknown"
  | some v ↦ if is_empty v then "unknown" else v
]

-- `values.get(name) or None`
unfoldable pub text_or_none : String → Values String → Option String
unfolding get
text_or_none k values = if truthy (get k values) then get k values else none

-- `values.get(name, "")`
unfoldable pub text_or_empty : String → Values String → String
unfolding get
text_or_empty k values = elim (get k values) [ none ↦ "" | some v ↦ v ]

non_empty : List String → List String
non_empty [] = []
non_empty (s ∷ ss) = if is_empty s then non_empty ss else s ∷ non_empty ss

-- What Python's `int` and `ipaddress.ip_address(value).is_global` answer; `none` and `false` are
-- for the `ValueError`.
pub record Python : Type 0 where
  pub int_of : String → Option ℤ
  pub is_global : String → Bool

module _ (py : Python) where
  open py use {int_of, is_global}

  -- the first loop of `_parse_interfaces`
  unfoldable pub read_speeds : List String → Values (Option ℕ) → Values (Option ℕ)
  unfolding partition
  read_speeds [] speeds = speeds
  read_speeds (item ∷ items) speeds =
      let p = partition b'|' item in
      read_speeds items
        (if not p.1 || is_empty p.0 then speeds else (p.0, non_negative (int_of p.2)) ∷ speeds)

  -- `speeds.get(name)`
  abbrev speed_of : String → Values (Option ℕ) → Option ℕ
  speed_of name speeds = elim (get name speeds) [ none ↦ none | some speed ↦ speed ]

  -- the second loop of `_parse_interfaces`
  unfoldable pub read_interfaces : Values (Option ℕ) → List String → List Interface
  unfolding partition get
  read_interfaces speeds [] = []
  read_interfaces speeds (item ∷ items) =
      let p = partition b'|' item in
      let rest = read_interfaces speeds items in
      if not p.1 || is_empty p.0
      then rest
      else record { name = p.0; addresses = p.2; speed_mbps = speed_of p.0 speeds } ∷ rest

  unfoldable pub parse_interfaces : String → String → List Interface
  unfolding read_speeds read_interfaces split
  parse_interfaces raw_interfaces raw_speeds =
      read_interfaces (read_speeds (split b';' raw_speeds) []) (split b';' raw_interfaces)

  -- One item of `_parse_disks`, from its words.
  disk_of : List String → Option Disk
  disk_of (name ∷ size ∷ kind ∷ []) =
      some (record { name = name; size_bytes = int_of size; kind = kind; model = none })
  disk_of (name ∷ size ∷ kind ∷ model ∷ _) = some (record {
    name = name;
    size_bytes = int_of size;
    kind = kind;
    model = if is_empty model then none else some model;
  })
  disk_of _ = none

  read_disks : List String → List Disk
  unfolding disk_of words
  read_disks [] = []
  read_disks (item ∷ items) =
      let rest = read_disks items in
      elim (disk_of (words 3 item)) [ none ↦ rest | some disk ↦ disk ∷ rest ]

  unfoldable pub parse_disks : String → List Disk
  unfolding read_disks split
  parse_disks raw_disks = read_disks (split b';' raw_disks)

  -- the inner function `integer`
  integer : String → Values String → Option ℕ
  unfolding text_or_empty
  integer k values = non_negative (int_of (text_or_empty k values))

  unfoldable pub parse_inventory_output : String → RemoteInventory
  unfolding read_lines text_or_unknown text_or_none text_or_empty non_empty integer splitlines
      parse_interfaces parse_disks split
  parse_inventory_output output =
      let values = read_lines (splitlines output) [] in
      let addresses = non_empty (split b',' (text_or_empty "ip_addresses" values)) in
      record {
        hostname = text_or_unknown "hostname" values;
        os = text_or_unknown "os" values;
        os_version = text_or_unknown "os_version" values;
        arch = text_or_unknown "arch" values;
        kernel = text_or_unknown "kernel" values;
        ip_addresses = addresses;
        public_ip = first is_global addresses;
        cpu_model = text_or_none "cpu_model" values;
        sockets = integer "sockets" values;
        cores = integer "cores" values;
        threads = integer "threads" values;
        memory_bytes = integer "memory_bytes" values;
        swap_bytes = integer "swap_bytes" values;
        interfaces =
            parse_interfaces (text_or_empty "interfaces" values)
              (text_or_empty "interface_speeds" values);
        disks = parse_disks (text_or_empty "disks" values);
        primary_interface = text_or_none "primary_interface" values;
        virtualization = text_or_none "virtualization" values;
        uptime_seconds = integer "uptime_seconds" values;
        last_reboot = text_or_none "last_reboot" values;
      }
