-- ===== src/PerfEval/Mode2Tests.antt =====
-- Small runs of mode 2 of llm-perf-eval.py with two engines.
use dev_llmops.Prelude.{
  ℕ, ◌*◌, ◌≡◌, refl, true, false, not, arith, Option, none, some, List, [], ◌∷◌, leb,
}
use dev_llmops.Prelude.Dict.{str_eq}
use dev_llmops.PerfEval.Search.{stop_N}
use dev_llmops.PerfEval.Args.Total.{IsTotal}
use dev_llmops.PerfEval.Events.{Item, Service, Settings}
use dev_llmops.PerfEval.Mode2.{or_maybe}
use dev_llmops.PerfEval.Mode2.Engines.{EngineCommands, run_mode2}
use dev_llmops.PerfEval.Mode2.Rows.{IsBounded, all_rows}
use dev_llmops.PerfEval.Workbook.{Metrics}
use dev_llmops.PerfEval.Book.{Setup}
use dev_llmops.PerfEval.Book.Complete.{IsSummarized, run_mode2-IsSummarized}

-- A service that starts all but one command, and meets the SLO up to 3 requests at a time.
abbrev service : Service (Metrics ℕ)
service = record {
  shlex_split = λ s. some (s ∷ []);
  starts = λ h cmd. not (str_eq cmd "serve big");
  is_healthy = λ h. true;
  result_of = λ h context (c, n).
      some (record { ttft = c; tpot = 1; throughput = c; itl = 1; duration = n; comment = "" });
  passes = λ r. elim r [ none ↦ false | some m ↦ leb m.ttft 3 ];
  request_count = λ c. c * 2;
  fuel = 8;
}

abbrev settings : Settings
settings = record {
  engine_name = "";
  model_cmd = "";
  param_index = 0;
  bench_only = false;
  bench_only_healthcheck = true;
  default_init = 2;
  default_max = some 6;
  warmup_enabled = true;
  search_method = stop_N;
  stop_n = 2;
}

abbrev item : ℕ → Option ℕ → Item
item tokens max_concurrent = record {
  context = (tokens, 512);
  init_concurrent = none;
  max_concurrent = max_concurrent;
  override_args = [];
  engine_override_args = [];
}

abbrev engines : List EngineCommands
engines =
    record { name = "vllm"; commands = "serve" ∷ "serve big" ∷ [] }
    ∷ record { name = "sglang"; commands = "launch" ∷ [] }
    ∷ []

service-IsTotal : IsTotal (service.shlex_split)
service-IsTotal s = (s ∷ [], refl)

item-IsBounded : IsBounded service settings (item 1024 none)
unfolding or_maybe
item-IsBounded = (6, refl, omega arith)

limited-IsBounded : IsBounded service settings (item 4096 (some 2))
unfolding or_maybe
limited-IsBounded = (2, refl, omega arith)

rows_run :
    all_rows (item 1024 none ∷ item 4096 (some 2) ∷ []) engines
    ≡ ("vllm", (1, (1024, 512)))
      ∷ ("vllm", (1, (4096, 512)))
      ∷ ("vllm", (2, (1024, 512)))
      ∷ ("vllm", (2, (4096, 512)))
      ∷ ("sglang", (1, (1024, 512)))
      ∷ ("sglang", (1, (4096, 512)))
      ∷ []
rows_run = refl

abbrev setup : Setup ℕ
setup = record {
  shlex_split = λ s. some (s ∷ []);
  unique_title = λ titles title. title;
  model_name = "m";
  image_name = λ engine. engine;
  exclude_params = λ engine. [];
  full_cmd = λ engine cmd. cmd;
  logs_of = λ h. none;
}

setup-IsTotal : IsTotal (setup.shlex_split)
setup-IsTotal s = (s ∷ [], refl)

run_mode2-IsSummarized_example :
    IsSummarized setup false
      (all_rows (item 1024 none ∷ item 4096 (some 2) ∷ []) engines)
      (run_mode2 service settings (item 1024 none ∷ item 4096 (some 2) ∷ []) engines)
run_mode2-IsSummarized_example =
    run_mode2-IsSummarized setup setup-IsTotal service service-IsTotal settings (item 1024 none)
      (item 4096 (some 2) ∷ []) engines refl (item-IsBounded, (limited-IsBounded, tt))
