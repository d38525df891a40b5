-- ===== src/Exporter/Declared.antt =====
-- The metrics of k8s-yaml/fake-node-exporter/fake-node-exporter.py: their declarations, and what the
-- Prometheus client takes for them.
use dev_llmops.Prelude.{String, Bool, true, false, ◌&&◌, ◌||◌, List, [], ◌∷◌, map, length, ◌==◌}
use dev_llmops.Prelude.Dict.{Dict, str_eq}

-- Each metric, by the name of its variable.
pub data Metric : Type 0 where
  node_cpu_seconds_total node_cpu_core_throttles node_memory_memtotal node_memory_memavailable
        node_memory_swaptotal node_memory_swapfree node_memory_buffers node_memory_cached
        node_memory_memfree node_disk_read_bytes node_disk_written_bytes node_disk_io_now
        node_disk_reads_completed node_disk_writes_completed node_disk_io_time node_filesystem_size
        node_filesystem_free node_filesystem_avail node_filesystem_files node_filesystem_files_free
        node_network_receive_bytes node_network_transmit_bytes node_network_receive_packets
        node_network_transmit_packets node_network_receive_errs node_network_transmit_errs
        node_load1 node_load5 node_load15 node_boot_time node_context_switches node_intr
        node_procs_running node_procs_blocked node_filefd_allocated node_filefd_max
        node_netstat_tcp_currestab node_nf_conntrack_entries node_nf_conntrack_limit node_time
        node_timex_offset node_timex_estimated_error node_timex_maxerror node_uname_info :
      Metric

pub data Kind : Type 0 where
  counter gauge : Kind

-- What a metric is registered with: its kind, its name, and the labels beside `nodename`.
pub record Declared : Type 0 where
  pub kind : Kind
  pub name : String
  pub labels : List String

unfoldable pub declared : Metric → Declared
declared node_cpu_seconds_total = record {
  kind = counter;
  name = "node_cpu_seconds_total";
  labels = "cpu" ∷ "mode" ∷ [];
}
declared node_cpu_core_throttles = record {
  kind = counter;
  name = "node_cpu_core_throttles_total";
  labels = [];
}
declared node_memory_memtotal = record {
  kind = gauge;
  name = "node_memory_MemTotal_bytes";
  labels = [];
}
declared node_memory_memavailable = record {
  kind = gauge;
  name = "node_memory_MemAvailable_bytes";
  labels = [];
}
declared node_memory_swaptotal = record {
  kind = gauge;
  name = "node_memory_SwapTotal_bytes";
  labels = [];
}
declared node_memory_swapfree = record {
  kind = gauge;
  name = "node_memory_SwapFree_bytes";
  labels = [];
}
declared node_memory_buffers = record {
  kind = gauge;
  name = "node_memory_Buffers_bytes";
  labels = [];
}
declared node_memory_cached = record {
  kind = gauge;
  name = "node_memory_Cached_bytes";
  labels = [];
}
declared node_memory_memfree = record {
  kind = gauge;
  name = "node_memory_MemFree_bytes";
  labels = [];
}
declared node_disk_read_bytes = record {
  kind = counter;
  name = "node_disk_read_bytes_total";
  labels = "device" ∷ [];
}
declared node_disk_written_bytes = record {
  kind = counter;
  name = "node_disk_written_bytes_total";
  labels = "device" ∷ [];
}
declared node_disk_io_now = record {
  kind = gauge;
  name = "node_disk_io_now";
  labels = "device" ∷ [];
}
declared node_disk_reads_completed = record {
  kind = counter;
  name = "node_disk_reads_completed_total";
  labels = "device" ∷ [];
}
declared node_disk_writes_completed = record {
  kind = counter;
  name = "node_disk_writes_completed_total";
  labels = "device" ∷ [];
}
declared node_disk_io_time = record {
  kind = counter;
  name = "node_disk_io_time_seconds_total";
  labels = "device" ∷ [];
}
declared node_filesystem_size = record {
  kind = gauge;
  name = "node_filesystem_size_bytes";
  labels = "device" ∷ "mountpoint" ∷ "fstype" ∷ [];
}
declared node_filesystem_free = record {
  kind = gauge;
  name = "node_filesystem_free_bytes";
  labels = "device" ∷ "mountpoint" ∷ "fstype" ∷ [];
}
declared node_filesystem_avail = record {
  kind = gauge;
  name = "node_filesystem_avail_bytes";
  labels = "device" ∷ "mountpoint" ∷ "fstype" ∷ [];
}
declared node_filesystem_files = record {
  kind = gauge;
  name = "node_filesystem_files";
  labels = "device" ∷ "mountpoint" ∷ "fstype" ∷ [];
}
declared node_filesystem_files_free = record {
  kind = gauge;
  name = "node_filesystem_files_free";
  labels = "device" ∷ "mountpoint" ∷ "fstype" ∷ [];
}
declared node_network_receive_bytes = record {
  kind = counter;
  name = "node_network_receive_bytes_total";
  labels = "device" ∷ [];
}
declared node_network_transmit_bytes = record {
  kind = counter;
  name = "node_network_transmit_bytes_total";
  labels = "device" ∷ [];
}
declared node_network_receive_packets = record {
  kind = counter;
  name = "node_network_receive_packets_total";
  labels = "device" ∷ [];
}
declared node_network_transmit_packets = record {
  kind = counter;
  name = "node_network_transmit_packets_total";
  labels = "device" ∷ [];
}
declared node_network_receive_errs = record {
  kind = counter;
  name = "node_network_receive_errs_total";
  labels = "device" ∷ [];
}
declared node_network_transmit_errs = record {
  kind = counter;
  name = "node_network_transmit_errs_total";
  labels = "device" ∷ [];
}
declared node_load1 = record { kind = gauge; name = "node_load1"; labels = [] }
declared node_load5 = record { kind = gauge; name = "node_load5"; labels = [] }
declared node_load15 = record { kind = gauge; name = "node_load15"; labels = [] }
declared node_boot_time = record { kind = gauge; name = "node_boot_time_seconds"; labels = [] }
declared node_context_switches = record {
  kind = counter;
  name = "node_context_switches_total";
  labels = [];
}
declared node_intr = record { kind = counter; name = "node_intr_total"; labels = [] }
declared node_procs_running = record { kind = gauge; name = "node_procs_running"; labels = [] }
declared node_procs_blocked = record { kind = gauge; name = "node_procs_blocked"; labels = [] }
declared node_filefd_allocated = record {
  kind = gauge;
  name = "node_filefd_allocated";
  labels = [];
}
declared node_filefd_max = record { kind = gauge; name = "node_filefd_maximum"; labels = [] }
declared node_netstat_tcp_currestab = record {
  kind = gauge;
  name = "node_netstat_Tcp_CurrEstab";
  labels = [];
}
declared node_nf_conntrack_entries = record {
  kind = gauge;
  name = "node_nf_conntrack_entries";
  labels = [];
}
declared node_nf_conntrack_limit = record {
  kind = gauge;
  name = "node_nf_conntrack_entries_limit";
  labels = [];
}
declared node_time = record { kind = gauge; name = "node_time_seconds"; labels = [] }
declared node_timex_offset = record {
  kind = gauge;
  name = "node_timex_offset_seconds";
  labels = [];
}
declared node_timex_estimated_error = record {
  kind = gauge;
  name = "node_timex_estimated_error_seconds";
  labels = [];
}
declared node_timex_maxerror = record {
  kind = gauge;
  name = "node_timex_maxerror_seconds";
  labels = [];
}
declared node_uname_info = record {
  kind = gauge;
  name = "node_uname_info";
  labels =
      "domainname" ∷ "kernel_release" ∷ "kernel_version" ∷ "machine" ∷ "os" ∷ "raw_uname"
      ∷ "sysname" ∷ [];
}

-- A call `set(v)` or `inc(v)`.
pub data Change (F : Type 0) : Type 0 where
  set inc : F → Change F

-- A call on `METRIC.labels(...)`.
pub record Sample (F : Type 0) : Type 0 where
  pub metric : Metric
  pub labels : Dict String
  pub change : Change F

unfoldable pub is_label : String → List String → Bool
is_label k [] = false
is_label k (l ∷ ls) = str_eq l k || is_label k ls

unfoldable pub all_labels : List String → List String → Bool
unfolding is_label
all_labels [] ls = true
all_labels (k ∷ ks) ls = is_label k ls && all_labels ks ls

-- The keywords are the declared labels, in any order.
unfoldable pub labels_match : List String → Dict String → Bool
unfolding all_labels
labels_match ls given =
    length ls == length given && all_labels (map (λ (p : String × String). p.0) given) ls
