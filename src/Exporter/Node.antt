-- ===== src/Exporter/Node.antt =====
-- The metrics that a simulated node sets at each update: `update_dynamic_metrics` of
-- k8s-yaml/fake-node-exporter/fake-node-exporter.py.
pub mod Samples
pub mod Accepted
use dev_llmops.Prelude.{
  ℕ, zero, suc, ◌+◌, ◌-◌, ◌*◌, min, String, Bool, true, false, List, [], ◌∷◌, ◌++◌, if◌then◌else◌,
  concat_map,
}
use dev_llmops.Prelude.Text.{text, show}
use dev_llmops.Prelude.Dict.{Dict}
use dev_llmops.Exporter.Nodes.{range}
use dev_llmops.Exporter.Arith.{Floats, Draws, max_of}
use dev_llmops.Exporter.Declared.{
  Metric, Change, set, inc, Sample, node_cpu_seconds_total, node_cpu_core_throttles,
  node_memory_memtotal, node_memory_memavailable, node_memory_swaptotal, node_memory_swapfree,
  node_memory_buffers, node_memory_cached, node_memory_memfree, node_disk_read_bytes,
  node_disk_written_bytes, node_disk_io_now, node_disk_reads_completed, node_disk_writes_completed,
  node_disk_io_time, node_filesystem_size, node_filesystem_free, node_filesystem_avail,
  node_filesystem_files, node_filesystem_files_free, node_network_receive_bytes,
  node_network_transmit_bytes, node_network_receive_packets, node_network_transmit_packets,
  node_network_receive_errs, node_network_transmit_errs, node_load1, node_load5, node_load15,
  node_boot_time, node_context_switches, node_intr, node_procs_running, node_procs_blocked,
  node_filefd_allocated, node_filefd_max, node_netstat_tcp_currestab, node_nf_conntrack_entries,
  node_nf_conntrack_limit, node_time, node_timex_offset, node_timex_estimated_error,
  node_timex_maxerror, node_uname_info,
}
use dev_llmops.Exporter.Smooth.{SmoothValue, new_smooth, next}
use dev_llmops.Exporter.State.{
  NodeState, sets, incs, vda, eth0, root_fs, Mode, new_node, static_samples, update_static_metrics,
}

module _ {F S : Type 0} (fl : Floats F) (draws : Draws F S) where
  open fl use {add, sub, mul, div, neg, abs, trunc, lt, lit}
  open draws use {gauss, random, randint, time}

  -- The five modes of one value of the label `cpu`.
  unfoldable pub cpu_samples : String → String → F → F → F → F → F → List (Sample F)
  unfolding incs
  cpu_samples name cpu user system idle iowait steal =
      incs name node_cpu_seconds_total (("cpu", cpu) ∷ ("mode", "user") ∷ []) user
      ∷ incs name node_cpu_seconds_total (("cpu", cpu) ∷ ("mode", "system") ∷ []) system
      ∷ incs name node_cpu_seconds_total (("cpu", cpu) ∷ ("mode", "idle") ∷ []) idle
      ∷ incs name node_cpu_seconds_total (("cpu", cpu) ∷ ("mode", "iowait") ∷ []) iowait
      ∷ incs name node_cpu_seconds_total (("cpu", cpu) ∷ ("mode", "steal") ∷ []) steal
      ∷ []

  -- One value of the label, or the first few cores.
  unfoldable pub cpu_report : Mode F → NodeState F → F → F → F → F → F → List (Sample F)
  unfolding cpu_samples show range
  cpu_report mode n user system idle iowait steal =
      let cores = lit n.cpu_cores 0 in
      if mode.aggregate
      then cpu_samples n.name "total" (mul user cores) (mul system cores) (mul idle cores)
          (mul iowait cores) (mul steal cores)
      else concat_map (λ c. cpu_samples n.name (show c) user system idle iowait steal)
          (range 0 mode.cpu_sample_count)

  unfoldable pub cpu_metrics : Mode F → NodeState F → F → F → List (Sample F)
  unfolding cpu_report max_of
  cpu_metrics mode n dt cpu_pct =
      let user = mul (mul dt cpu_pct) (lit 6 1) in
      let system = mul (mul dt cpu_pct) (lit 3 1) in
      let iowait = mul (mul dt cpu_pct) (lit 8 2) in
      let steal = mul dt (lit 2 3) in
      let idle = max_of fl (lit 0 0) (sub (sub (sub (sub dt user) system) iowait) steal) in
      cpu_report mode n user system idle iowait steal

  unfoldable pub memory_metrics : NodeState F → F → List (Sample F)
  unfolding sets
  memory_metrics n mem_pct =
      let total = lit n.memory_total 0 in
      let used = mul total mem_pct in
      let avail = sub total used in
      let swap_total = mul total (lit 1 1) in
      let swap_used = mul (mul swap_total mem_pct) (lit 1 1) in
      sets n.name node_memory_memtotal [] total
      ∷ sets n.name node_memory_memavailable [] avail
      ∷ sets n.name node_memory_memfree [] (mul avail (lit 15 2))
      ∷ sets n.name node_memory_cached [] (mul avail (lit 55 2))
      ∷ sets n.name node_memory_buffers [] (mul avail (lit 10 2))
      ∷ sets n.name node_memory_swaptotal [] swap_total
      ∷ sets n.name node_memory_swapfree [] (sub swap_total swap_used)
      ∷ []

  unfoldable pub disk_metrics : Mode F → NodeState F → F → F → List (Sample F)
  unfolding sets incs
  disk_metrics mode n dt io_factor =
      let rate = mul (lit (100 * 1024) 0) (add (lit 1 0) (mul io_factor (lit 10 0))) in
      let ops = div rate (lit 40960 1) in
      let free = mul (lit n.fs_size 0) (sub (lit 1 0) mode.disk_usage_pct) in
      let files = div (div (lit n.fs_size 0) (lit 4096 0)) (lit 10 0) in
      incs n.name node_disk_read_bytes vda (mul rate dt)
      ∷ incs n.name node_disk_written_bytes vda (mul (mul rate dt) (lit 7 1))
      ∷ sets n.name node_disk_io_now vda (trunc (mul io_factor (lit 15 0)))
      ∷ incs n.name node_disk_reads_completed vda (mul ops dt)
      ∷ incs n.name node_disk_writes_completed vda (mul (mul ops dt) (lit 7 1))
      ∷ incs n.name node_disk_io_time vda (mul (mul ops dt) (lit 3 4))
      ∷ sets n.name node_filesystem_free root_fs free
      ∷ sets n.name node_filesystem_avail root_fs (mul free (lit 95 2))
      ∷ sets n.name node_filesystem_files_free root_fs
          (mul files (sub (lit 1 0) mode.disk_usage_pct))
      ∷ []

  unfoldable pub network_metrics : NodeState F → F → F → List (Sample F)
  unfolding incs
  network_metrics n dt net_factor =
      let rx = mul (lit (500 * 1024) 0) (add (lit 1 0) (mul net_factor (lit 5 0))) in
      let tx = mul rx (lit 6 1) in
      incs n.name node_network_receive_bytes eth0 (mul rx dt)
      ∷ incs n.name node_network_transmit_bytes eth0 (mul tx dt)
      ∷ incs n.name node_network_receive_packets eth0 (div (mul rx dt) (lit 1500 0))
      ∷ incs n.name node_network_transmit_packets eth0 (div (mul tx dt) (lit 1500 0))
      ∷ []

  -- The counters that grow by one on a rare draw.
  unfoldable pub throttle_metrics : NodeState F → F → S → List (Sample F) × S
  unfolding incs
  throttle_metrics n dt w =
      let (u, w') = random w in
      (
        if lt u (mul (lit 1 4) dt)
            then incs n.name node_cpu_core_throttles [] (lit 1 0) ∷ []
            else [],
        w',
      )

  unfoldable pub error_metrics : NodeState F → F → S → List (Sample F) × S
  unfolding incs
  error_metrics n dt w =
      let (u, w') = random w in
      (
        if lt u (mul (lit 5 5) dt)
            then incs n.name node_network_receive_errs eth0 (lit 1 0)
              ∷ incs n.name node_network_transmit_errs eth0 (lit 1 0)
              ∷ []
            else [],
        w',
      )

  unfoldable pub load_metrics : NodeState F → F → S → List (Sample F) × S
  unfolding sets
  load_metrics n load_pct w =
      let base = mul (lit n.cpu_cores 0) load_pct in
      let (a, w1) = gauss (lit 0 0) (lit 5 2) w in
      let (b, w2) = gauss (lit 0 0) (lit 3 2) w1 in
      let (c, w3) = gauss (lit 0 0) (lit 1 2) w2 in
      (
        sets n.name node_load1 [] (mul base (add (lit 1 0) a))
            ∷ sets n.name node_load5 [] (mul base (add (lit 1 0) b))
            ∷ sets n.name node_load15 [] (mul base (add (lit 1 0) c))
            ∷ [],
        w3,
      )

  unfoldable pub system_metrics : NodeState F → F → F → List (Sample F)
  unfolding incs
  system_metrics n dt cpu_pct =
      incs n.name node_context_switches [] (mul (mul (lit 500 0) dt) (add (lit 1 0) cpu_pct))
      ∷ incs n.name node_intr [] (mul (mul (lit 300 0) dt) (add (lit 1 0) (mul cpu_pct (lit 5 1))))
      ∷ []

  -- random.randint(0, 2) if io_factor > 0.5 else 0
  unfoldable pub blocked : F → S → F × S
  blocked io_factor w =
      if lt (lit 5 1) io_factor then randint (lit 0 0) (lit 2 0) w else (lit 0 0, w)

  unfoldable pub process_metrics : NodeState F → F → F → F → S → List (Sample F) × S
  unfolding sets blocked
  process_metrics n load_pct io_factor conn_pct w =
      let procs = add (lit 5 0) (trunc (mul load_pct (lit 20 0))) in
      let fds = add (lit 15000 0) (trunc (mul conn_pct (lit 30000 0))) in
      let conns = add (lit 50 0) (trunc (mul conn_pct (lit 200 0))) in
      let (a, w1) = randint (neg (lit 2 0)) (lit 3 0) w in
      let (b, w2) = blocked io_factor w1 in
      let (c, w3) = randint (neg (lit 500 0)) (lit 500 0) w2 in
      let (d, w4) = randint (neg (lit 10 0)) (lit 10 0) w3 in
      let (e, w5) = randint (neg (lit 1000 0)) (lit 1000 0) w4 in
      (
        sets n.name node_procs_running [] (add procs a)
            ∷ sets n.name node_procs_blocked [] b
            ∷ sets n.name node_filefd_allocated [] (add fds c)
            ∷ sets n.name node_netstat_tcp_currestab [] (add conns d)
            ∷ sets n.name node_nf_conntrack_entries [] (add (trunc (mul conn_pct (lit 50000 0))) e)
            ∷ [],
        w5,
      )

  unfoldable pub time_metrics : NodeState F → F → S → List (Sample F) × S
  unfolding sets
  time_metrics n now w =
      let (a, w1) = gauss (lit 0 0) (lit 2 4) w in
      let (b, w2) = gauss (lit 0 0) (lit 5 5) w1 in
      let (c, w3) = gauss (lit 1 4) (lit 1 4) w2 in
      (
        sets n.name node_time [] now
            ∷ sets n.name node_timex_offset [] a
            ∷ sets n.name node_timex_estimated_error [] (abs b)
            ∷ sets n.name node_timex_maxerror [] (abs c)
            ∷ [],
        w3,
      )

  -- The samples of an update in the order of the calls, from its groups.
  unfoldable pub together :
      (cpu throttles memory disk network errors loads system processes times : List (Sample F))
      → List (Sample F)
  together cpu throttles memory disk network errors loads system processes times =
      cpu ++ throttles ++ memory ++ disk ++ network ++ errors ++ loads ++ system ++ processes
      ++ times

  unfoldable pub update_dynamic_metrics :
      Mode F → NodeState F → F → S → NodeState F × (List (Sample F) × S)
  unfolding together next cpu_metrics memory_metrics disk_metrics network_metrics throttle_metrics
      error_metrics load_metrics system_metrics process_metrics time_metrics
  update_dynamic_metrics mode n dt w =
      let (now, w0) = time w in
      let (cpu_pct, (cpu, w1)) = next fl draws n.cpu_usage dt w0 in
      let (mem_pct, (mem, w2)) = next fl draws n.mem_usage dt w1 in
      let (io_factor, (io, w3)) = next fl draws n.io_rate dt w2 in
      let (net_factor, (net, w4)) = next fl draws n.net_rate dt w3 in
      let (load_pct, (load, w5)) = next fl draws n.load_factor dt w4 in
      let (conn_pct, (conn, w6)) = next fl draws n.conntrack dt w5 in
      let (throttles, w7) = throttle_metrics n dt w6 in
      let (errors, w8) = error_metrics n dt w7 in
      let (loads, w9) = load_metrics n load_pct w8 in
      let (processes, w10) = process_metrics n load_pct io_factor conn_pct w9 in
      let (times, w11) = time_metrics n now w10 in
      (
        record n {
          cpu_usage = cpu;
          mem_usage = mem;
          io_rate = io;
          net_rate = net;
          load_factor = load;
          conntrack = conn;
        },
        (
          together (cpu_metrics mode n dt cpu_pct) throttles (memory_metrics n mem_pct)
              (disk_metrics mode n dt io_factor) (network_metrics n dt net_factor) errors loads
              (system_metrics n dt cpu_pct) processes times,
          w11,
        ),
      )
