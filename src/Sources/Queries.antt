-- ===== src/Sources/Queries.antt =====
-- `build_queries` of app/adapters/prometheus.py: the PromQL of each measure of a host.
use Prim.Native.String.{◌++◌ as ◌<>◌}
use superflash_ia.Prelude.{String, Option, none, some, List, [], ◌∷◌}

infixr 5 ◌&◌
abbrev ◌&◌ : String → String → String
s & t = s <> t

abbrev fs_filter : String
fs_filter = "fstype!~\"tmpfs|overlay|squashfs|ramfs\""

abbrev disk_filter : String
disk_filter = "device!~\"loop.*|ram.*\""

abbrev nic_filter : String
nic_filter = "device!~\"lo|veth.*|docker.*|br-.*\""

abbrev nic_of : Option String → String
nic_of none = nic_filter
nic_of (some network_interface) = "device=\"" & network_interface & "\""

abbrev used_share : String → String → String → String
used_share free total labels =
    "100 * (1 - (" & free & "{" & labels & "} / " & total & "{" & labels & "}))"

-- The greatest used share of the file systems.
abbrev fullest : String → String
fullest i =
    "max(100 * (1 - node_filesystem_avail_bytes{" & i & "," & fs_filter
    & "} / node_filesystem_size_bytes{" & i & "," & fs_filter & "}))"

-- A rate of bytes, in megabits.
abbrev megabits : String → String → String → String
megabits counter i filter = "sum(rate(" & counter & "{" & i & "," & filter & "}[5m])) * 8 / 1000000"

abbrev of_instance : String → String → String
of_instance metric i = metric & "{" & i & "}"

-- The query of `up`, which the collection takes out of the dictionary first.
unfoldable pub up_query : String → String
up_query instance_name = "max(" & of_instance "up" ("instance=\"" & instance_name & "\"") & ")"

-- The other queries, in the order of the dictionary.
unfoldable pub metric_queries : String → Option String → List (String × String)
metric_queries instance_name network_interface =
    let i = "instance=\"" & instance_name & "\"" in
    let nic = nic_of network_interface in
    ("cpu_percent", "100 * (1 - avg(rate(node_cpu_seconds_total{mode=\"idle\"," & i & "}[5m])))")
    ∷ ("memory_percent", used_share "node_memory_MemAvailable_bytes" "node_memory_MemTotal_bytes" i)
    ∷ ("disk_percent", fullest i)
    ∷ ("filesystem_percent", fullest i)
    ∷ ("swap_percent", used_share "node_memory_SwapFree_bytes" "node_memory_SwapTotal_bytes" i)
    ∷ ("input_mbps", megabits "node_network_receive_bytes_total" i nic)
    ∷ ("output_mbps", megabits "node_network_transmit_bytes_total" i nic)
    ∷ ("io_read_mbps", megabits "node_disk_read_bytes_total" i disk_filter)
    ∷ ("io_write_mbps", megabits "node_disk_written_bytes_total" i disk_filter)
    ∷ ("load_average_1m", of_instance "node_load1" i)
    ∷ ("load_average_5m", of_instance "node_load5" i)
    ∷ ("load_average_15m", of_instance "node_load15" i)
    ∷ ("uptime_seconds", "time() - " & of_instance "node_boot_time_seconds" i)
    ∷ []
