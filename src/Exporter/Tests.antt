-- ===== src/Exporter/Tests.antt =====
-- Small inputs of fake-node-exporter.py, on whole numbers: runs, and the theorems at them.
use mathlib.Core.List.{flatten}
use dev_llmops.Prelude.{
  String, ℕ, suc, ◌+◌, ◌-◌, ◌*◌, ◌/◌, ◌^◌, ◌≡◌, refl, ◌⊎◌, true, false, Option, none, some, List,
  [], ◌∷◌, All, arith, ltb, leb, if◌then◌else◌, length, ◌&&◌,
}
use dev_llmops.Prelude.Chunks.{Fits}
use dev_llmops.Prelude.Dict.{keys}
use dev_llmops.Exporter.Arith.{Floats, Draws}
use dev_llmops.Exporter.Nodes.{expand_node_range, generate_nodes_from_config}
use dev_llmops.Exporter.Nodes.Expansion.{HasNoRange, IsExpanded, expand_node_range-ends}
use dev_llmops.Exporter.Smooth.{SmoothValue, next, next-bounds}
use dev_llmops.Exporter.State.{NodeState, Mode, update_static_metrics}
use dev_llmops.Exporter.Node.{update_dynamic_metrics}
use dev_llmops.Exporter.Node.Samples.{Laws, IsAccepted}
use dev_llmops.Exporter.Node.Accepted.{update_metrics-IsAccepted}
use dev_llmops.Exporter.Update.{Config, Exporter, init, batches, round}
use dev_llmops.Exporter.Update.Rounds.{round-IsAccepted}

abbrev ascii_digit : ℕ → Option ℕ
ascii_digit c = if leb 48 c && leb c 57 then some (c - 48) else none

expand_three : expand_node_range ascii_digit "gpu[08..10]" ≡ "gpu08" ∷ "gpu09" ∷ "gpu10" ∷ []
unfolding expand_node_range
expand_three = refl

generate_fallback :
    generate_nodes_from_config ascii_digit ("n[1..2]" ∷ "m" ∷ []) ≡ "n1" ∷ "n2" ∷ "m" ∷ []
unfolding generate_nodes_from_config
generate_fallback = refl

expand_node_range-ends_example :
    let names : List String = expand_node_range ascii_digit "r[1..2]n[1..2]" in
    IsExpanded ascii_digit "r[1..2]n[1..2]" names × All (HasNoRange ascii_digit) names
expand_node_range-ends_example = expand_node_range-ends ascii_digit refl refl "r[1..2]n[1..2]"

-- Whole numbers for floats.
abbrev whole : Floats ℕ
whole = record {
  add = λ x y. x + y;
  sub = λ x y. x - y;
  mul = λ x y. x * y;
  div = λ x y. x / y;
  neg = λ x. 0;
  abs = λ x. x;
  sin = λ x. 0;
  trunc = λ x. x;
  pi = 3;
  lt = ltb;
  le = leb;
  lit = λ n d. n / 10 ^ d;
}

-- A clock that moves at each look, and draws that return their first bound.
abbrev steady : Draws ℕ ℕ
steady = record {
  uniform = λ a b w. (a, w);
  gauss = λ mu sigma w. (mu, w);
  random = λ w. (0, w);
  randint = λ a b w. (a, w);
  time = λ w. (w, suc w);
}

never_below : (x : ℕ) → ltb x 0 ≡ false
never_below x = ground arith

whole-Laws : Laws whole
whole-Laws = record {
  lit_nonneg = λ n d. never_below _;
  pos_nonneg = λ d x h. never_below _;
  add_nonneg = λ x y h g. never_below _;
  mul_nonneg = λ x y h g. never_below _;
  div_nonneg = λ x y h g. never_below _;
}

abbrev config : Config ℕ
config = record {
  nodes = "n[1..3]" ∷ [];
  cpu_cores = some 2;
  memory_bytes = none;
  disk_bytes = none;
  metrics = some (("cpu", 20) ∷ []);
  usage_profile = none;
  workers = none;
  batch_size = some 2;
  interval_seconds = none;
  cpu_mode = none;
}

abbrev exporter : Exporter ℕ
exporter = (init whole steady ascii_digit (λ s. 0) 4 config 1000).0

exporter-batches : batches whole steady exporter ≡ ("n1" ∷ "n2" ∷ []) ∷ ("n3" ∷ []) ∷ []
unfolding batches init
exporter-batches = refl

abbrev smooth : SmoothValue ℕ
smooth = record {
  current = 3;
  target = 3;
  base = 3;
  amplitude = 1;
  phase_offset = 0;
  noise_scale = 0;
  spike_prob = 0;
  spike_magnitude = 2;
}

next_runs : (next whole steady smooth 15 1000).0 ≡ 1
unfolding next
next_runs = refl

next-bounds_example :
    let r : ℕ = (next whole steady smooth 15 1000).0 in
    ((r ≡ 0) ⊎ (ltb 0 r ≡ true)) × ((r ≡ 0) ⊎ ((r ≡ 1) ⊎ (ltb r 1 ≡ true)))
next-bounds_example = next-bounds whole steady smooth 15 1000

abbrev node : NodeState ℕ
node = record {
  name = "n1";
  cpu_cores = 2;
  memory_total = 1024;
  fs_size = 4096;
  boot_time = 0;
  last_update = 990;
  static_set = false;
  cpu_usage = smooth;
  mem_usage = smooth;
  io_rate = smooth;
  net_rate = smooth;
  load_factor = smooth;
  conntrack = smooth;
}

abbrev mode : Mode ℕ
mode = record { aggregate = false; cpu_sample_count = 2; disk_usage_pct = 0 }

samples_set : length (update_dynamic_metrics whole steady mode node 15 1000).1.0 ≡ 44
unfolding update_dynamic_metrics
samples_set = refl

update_metrics-IsAccepted_example :
    All (IsAccepted whole) (update_static_metrics whole steady node).1
    × All (IsAccepted whole) (update_dynamic_metrics whole steady mode node 15 1000).1.0
update_metrics-IsAccepted_example =
    update_metrics-IsAccepted whole steady whole-Laws mode node 15 1000 (never_below 15)

abbrev schedule : List ℕ
schedule = 0 ∷ 1 ∷ 1 ∷ 0 ∷ 0 ∷ []

round-IsAccepted_example :
    All (IsAccepted whole) (round whole steady exporter schedule 2000).1.1.0
    × (keys (round whole steady exporter schedule 2000).1.0 ≡ keys exporter.nodes)
    × (flatten (batches whole steady exporter) ≡ keys exporter.nodes)
    × All (Fits exporter.batch_size) (batches whole steady exporter)
unfolding init
round-IsAccepted_example =
    round-IsAccepted whole steady whole-Laws (λ x h. never_below x) exporter schedule 2000
      (omega arith)
