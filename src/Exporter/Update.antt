-- ===== src/Exporter/Update.antt =====
-- `MockNodeExporter` of k8s-yaml/fake-node-exporter/fake-node-exporter.py: the set-up from the
-- configuration, the update of a batch, and a round of `update_metrics_loop`, whose batches run in
-- parallel.

pub mod Rounds
pub mod Completes
use dev_llmops.Prelude.{
  ℕ, zero, suc, ◌-◌, ◌*◌, ◌^◌, min, String, Bool, true, false, not, Option, none, some, List, [],
  ◌∷◌, ◌++◌, if◌then◌else◌, length, map, set, get_elem?,
}
use dev_llmops.Prelude.Chunks.{chunks}
use dev_llmops.Prelude.Dict.{Dict, keys, get, put, str_eq}
use dev_llmops.Exporter.Nodes.{generate_nodes_from_config}
use dev_llmops.Exporter.Arith.{Floats, Draws, max_of}
use dev_llmops.Exporter.Declared.{Sample}
use dev_llmops.Exporter.State.{NodeState, Mode, new_node, update_static_metrics}
use dev_llmops.Exporter.Node.{update_dynamic_metrics}

-- The configuration, by its entries; none where an entry is missing. `metrics` and `usage_profile` are
-- dicts of numbers.
pub record Config (F : Type 0) : Type 0 where
  pub nodes : List String
  pub cpu_cores : Option ℕ
  pub memory_bytes : Option ℕ
  pub disk_bytes : Option ℕ
  pub metrics : Option (Dict F)
  pub usage_profile : Option (Dict F)
  pub workers : Option ℕ
  pub batch_size : Option ℕ
  pub interval_seconds : Option F
  pub cpu_mode : Option String

-- d.get(k, default)
unfoldable pub or_else : {A : Type 0} → Option A → A → A
or_else none d = d
or_else (some a) d = a

pub record Exporter (F : Type 0) : Type 0 where
  pub nodes : Dict (NodeState F)
  pub mode : Mode F
  pub num_workers : ℕ
  pub batch_size : ℕ
  pub update_interval : F

-- A batch that a worker has taken or not yet, with the names that are left, and the time at which it
-- was started.
pub data Worker (F : Type 0) : Type 0 where
  waiting : List String → Worker F
  running : F → List String → Worker F

module _ {F S : Type 0} (fl : Floats F) (draws : Draws F S) where
  open fl use {add, sub, div, le, lt, lit}
  open draws use {time}

  -- metrics.get(name, metrics.get(name + "_percent", default)) / 100.0
  unfoldable pub percentage : Dict F → String → String → ℕ → F
  unfolding get or_else
  percentage metrics key old_key default =
      div (or_else (get key metrics) (or_else (get old_key metrics) (lit default 0))) (lit 1000 1)

  -- The loop that fills `self.nodes`: a name that comes again gets a new state.
  unfoldable pub add_nodes :
      (String → S → NodeState F × S) → List String → Dict (NodeState F) → S → Dict (NodeState F) × S
  unfolding put
  add_nodes new [] nodes w = (nodes, w)
  add_nodes new (name ∷ names) nodes w =
      let (n, w') = new name w in add_nodes new names (put name n nodes) w'

  -- `__init__`, after the file is read; `cpu_count` is that of the machine.
  unfoldable pub init : (ℕ → Option ℕ) → (String → F) → ℕ → Config F → S → Exporter F × S
  unfolding or_else percentage add_nodes new_node generate_nodes_from_config
  init digit_value hash_seed cpu_count config w =
      let cores = or_else config.cpu_cores 64 in
      let memory = or_else config.memory_bytes (512 * 1024 ^ 3) in
      let disk = or_else config.disk_bytes (2000 * 1024 ^ 3) in
      let metrics = or_else config.metrics (or_else config.usage_profile []) in
      let base_cpu = percentage metrics "cpu" "cpu_percent" 15 in
      let base_mem = percentage metrics "memory" "memory_percent" 40 in
      let (nodes, w') =
        add_nodes (λ name v. new_node fl draws hash_seed name cores memory disk base_cpu base_mem v)
          (generate_nodes_from_config digit_value config.nodes) [] w in
      (
        record {
          nodes = nodes;
          mode = record {
            aggregate = str_eq (or_else config.cpu_mode "aggregate") "aggregate";
            cpu_sample_count = min 4 cores;
            disk_usage_pct = percentage metrics "disk" "disk_percent" 35;
          };
          num_workers = or_else config.workers (min 8 cpu_count);
          batch_size = or_else config.batch_size 150;
          update_interval = or_else config.interval_seconds (lit 15 0);
        },
        w',
      )

  -- The static metrics, where they are not set yet, and then the dynamic ones.
  unfoldable pub update_node : Mode F → NodeState F → F → S → NodeState F × (List (Sample F) × S)
  unfolding update_static_metrics update_dynamic_metrics
  update_node mode n dt w =
      let (n1, first) = if n.static_set then (n, []) else update_static_metrics fl draws n in
      let (n2, (more, w')) = update_dynamic_metrics fl draws mode n1 dt w in
      (n2, (first ++ more, w'))

  -- The body of the loop of `update_node_batch`, at its `now`: the nodes, the metrics set so far, and
  -- the draws.
  unfoldable pub visit :
      Mode F
      → F
      → String
      → Dict (NodeState F) × (List (Sample F) × S)
      → Dict (NodeState F) × (List (Sample F) × S)
  unfolding get put update_node
  visit mode now name (nodes, (samples, w)) = elim (get name nodes) [
    | none ↦ (nodes, (samples, w))
    | some n ↦
        let dt = sub now n.last_update in
        let (n', (more, w')) = update_node mode (record n { last_update = now }) dt w in
        if le dt (lit 0 0)
        then (nodes, (samples, w))
        else (put name n' nodes, (samples ++ more, w'))
  ]

  unfoldable pub visit_all :
      Mode F
      → F
      → List String
      → Dict (NodeState F) × (List (Sample F) × S)
      → Dict (NodeState F) × (List (Sample F) × S)
  unfolding visit
  visit_all mode now [] s = s
  visit_all mode now (name ∷ names) s = visit_all mode now names (visit mode now name s)

  -- `update_node_batch`, alone.
  unfoldable pub update_node_batch :
      Mode F
      → List String
      → Dict (NodeState F) × (List (Sample F) × S)
      → Dict (NodeState F) × (List (Sample F) × S)
  unfolding visit_all
  update_node_batch mode names (nodes, (samples, w)) =
      let (now, w') = time w in visit_all mode now names (nodes, (samples, w'))

  -- The batches of a round: `node_names` cut into slices.
  unfoldable pub batches : Exporter F → List (List String)
  unfolding chunks keys
  batches e = let node_names = keys e.nodes in chunks (length node_names) e.batch_size node_names

  -- One step of one worker, beside the others: it takes its batch, or visits its next node.
  unfoldable pub turn :
      Mode F
      → ℕ
      → List (Worker F) × (Dict (NodeState F) × (List (Sample F) × S))
      → List (Worker F) × (Dict (NodeState F) × (List (Sample F) × S))
  unfolding visit
  turn mode i (workers, (nodes, (samples, w))) = elim (get_elem? workers i) [
    | none ↦ (workers, (nodes, (samples, w)))
    | some (waiting names) ↦
        let (now, w') = time w in (set workers i (running now names), (nodes, (samples, w')))
    | some (running now []) ↦ (workers, (nodes, (samples, w)))
    | some (running now (name ∷ names)) ↦
        (set workers i (running now names), visit mode now name (nodes, (samples, w)))
  ]

  -- The steps of the workers in a given order.
  unfoldable pub turns :
      Mode F
      → List ℕ
      → List (Worker F) × (Dict (NodeState F) × (List (Sample F) × S))
      → List (Worker F) × (Dict (NodeState F) × (List (Sample F) × S))
  unfolding turn
  turns mode [] s = s
  turns mode (i ∷ schedule) s = turns mode schedule (turn mode i s)

  -- A round whose workers take the given steps.
  unfoldable pub round :
      Exporter F → List ℕ → S → List (Worker F) × (Dict (NodeState F) × (List (Sample F) × S))
  unfolding turns batches
  round e schedule w = turns e.mode schedule (map waiting (batches e), (e.nodes, ([], w)))

  -- max(0.1, self.update_interval - elapsed)
  unfoldable pub sleep_time : Exporter F → F → F
  unfolding max_of
  sleep_time e elapsed = max_of fl (lit 1 1) (sub e.update_interval elapsed)
