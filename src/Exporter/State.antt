-- ===== src/Exporter/State.antt =====
-- The state of a simulated node, and the metrics that are set once: `NodeState` and
-- `update_static_metrics` of k8s-yaml/fake-node-exporter/fake-node-exporter.py.
use dev_llmops.Prelude.{ℕ, String, Bool, true, false, List, [], ◌∷◌}
use dev_llmops.Prelude.Text.{text}
use dev_llmops.Prelude.Dict.{Dict}
use dev_llmops.Exporter.Arith.{Floats, Draws}
use dev_llmops.Exporter.Declared.{
  Metric, set, inc, Sample, node_filesystem_size, node_filesystem_files, node_boot_time,
  node_filefd_max, node_nf_conntrack_limit, node_uname_info,
}
use dev_llmops.Exporter.Smooth.{SmoothValue, new_smooth}

pub record NodeState (F : Type 0) : Type 0 where
  pub name : String
  pub cpu_cores : ℕ
  pub memory_total : ℕ
  pub fs_size : ℕ
  pub boot_time : F
  pub last_update : F
  pub static_set : Bool
  pub cpu_usage : SmoothValue F
  pub mem_usage : SmoothValue F
  pub io_rate : SmoothValue F
  pub net_rate : SmoothValue F
  pub load_factor : SmoothValue F
  pub conntrack : SmoothValue F

-- METRIC.labels(nodename=name).set(v), and the like with `inc` and with more labels
unfoldable pub sets : {F : Type 0} → String → Metric → Dict String → F → Sample F
sets name m more v = record { metric = m; labels = ("nodename", name) ∷ more; change = set v }

unfoldable pub incs : {F : Type 0} → String → Metric → Dict String → F → Sample F
incs name m more v = record { metric = m; labels = ("nodename", name) ∷ more; change = inc v }

abbrev pub vda : Dict String
vda = ("device", "vda") ∷ []

abbrev pub eth0 : Dict String
eth0 = ("device", "eth0") ∷ []

abbrev pub root_fs : Dict String
root_fs = ("device", "vda") ∷ ("mountpoint", "/") ∷ ("fstype", "ext4") ∷ []

-- The configuration that the updates read: `cpu_mode == 'aggregate'`, `cpu_sample_count` and
-- `disk_usage_pct`.
pub record Mode (F : Type 0) : Type 0 where
  pub aggregate : Bool
  pub cpu_sample_count : ℕ
  pub disk_usage_pct : F

module _ {F S : Type 0} (fl : Floats F) (draws : Draws F S) where
  open fl use {add, sub, mul, div, neg, abs, trunc, lt, lit}
  open draws use {gauss, random, randint, time}

  -- NodeState(name, ...); `hash_seed` is `hash(name) % 1000 / 1000.0`
  unfoldable pub new_node : (String → F) → String → ℕ → ℕ → ℕ → F → F → S → NodeState F × S
  unfolding new_smooth
  new_node hash_seed name cpu_cores memory_total fs_size base_cpu base_mem w =
      let seed = hash_seed name in
      let (started, w1) = time w in
      let (age, w2) = randint (lit 86400 0) (lit 864000 0) w1 in
      let (now, w3) = time w2 in
      let (cpu, w4) =
        new_smooth fl draws (add base_cpu (mul seed (lit 1 1))) (lit 8 2) (lit 1 2) (lit 5 4)
          (lit 25 2) w3 in
      let (mem, w5) =
        new_smooth fl draws (add base_mem (mul seed (lit 15 2))) (lit 5 2) (lit 5 3) (lit 1 4)
          (lit 1 1) w4 in
      let (io, w6) =
        new_smooth fl draws (add (lit 3 1) (mul seed (lit 2 1))) (lit 15 2) (lit 5 2) (lit 2 3)
          (lit 5 1) w5 in
      let (net, w7) =
        new_smooth fl draws (add (lit 2 1) (mul seed (lit 3 1))) (lit 1 1) (lit 3 2) (lit 1 3)
          (lit 4 1) w6 in
      let (load, w8) =
        new_smooth fl draws (add (lit 2 1) (mul seed (lit 1 1))) (lit 1 1) (lit 2 2) (lit 1 3)
          (lit 3 1) w7 in
      let (conn, w9) =
        new_smooth fl draws (add (lit 15 2) (mul seed (lit 1 1))) (lit 5 2) (lit 1 2) (lit 1 3)
          (lit 3 1) w8 in
      (
        record {
          name = name;
          cpu_cores = cpu_cores;
          memory_total = memory_total;
          fs_size = fs_size;
          boot_time = sub started age;
          last_update = now;
          static_set = false;
          cpu_usage = cpu;
          mem_usage = mem;
          io_rate = io;
          net_rate = net;
          load_factor = load;
          conntrack = conn;
        },
        w9,
      )

  unfoldable pub static_samples : NodeState F → List (Sample F)
  unfolding sets text
  static_samples n =
      let files = div (div (lit n.fs_size 0) (lit 4096 0)) (lit 10 0) in
      sets n.name node_boot_time [] n.boot_time
      ∷ sets n.name node_filefd_max [] (lit 1048576 0)
      ∷ sets n.name node_nf_conntrack_limit [] (lit 262144 0)
      ∷ sets n.name node_filesystem_size root_fs (lit n.fs_size 0)
      ∷ sets n.name node_filesystem_files root_fs files
      ∷ sets n.name node_uname_info
          (("domainname", "(none)")
            ∷ ("kernel_release", "5.15.0-122-generic")
            ∷ ("kernel_version", "#132-Ubuntu SMP")
            ∷ ("machine", "x86_64")
            ∷ ("os", "Linux")
            ∷ ("raw_uname", text ("Linux " ∷ n.name ∷ " 5.15.0" ∷ []))
            ∷ ("sysname", "Linux")
            ∷ [])
          (lit 1 0)
      ∷ []

  unfoldable pub update_static_metrics : NodeState F → NodeState F × List (Sample F)
  unfolding static_samples
  update_static_metrics n = (record n { static_set = true }, static_samples n)
