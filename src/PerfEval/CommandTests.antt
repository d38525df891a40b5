-- ===== src/PerfEval/CommandTests.antt =====
-- Small commands, configurations and contexts of llm-perf-eval.py: runs, and the theorems at them.
use dev_llmops.Prelude.{
  ℕ, ◌*◌, String, ◌≡◌, refl, ◌↔◌, Bool, true, false, Option, none, some, List, [], ◌∷◌, ltb, leb,
  All, if◌then◌else◌,
}
use dev_llmops.Prelude.Dict.{Dict, get, str_eq}
use dev_llmops.PerfEval.Args.{
  Args, parse_tokens, parse_model_cmd_args, apply_override_args, apply_overrides, read_args,
  collect_all_param_keys, split_eq,
}
use dev_llmops.PerfEval.Args.Tokens.{parse_tokens-skips_eq}
use dev_llmops.PerfEval.Args.Override.{apply_overrides-refines, Agree, changes, read_settings}
use dev_llmops.PerfEval.Config.{apply_defaults, parse_mode1_test_cases, check_slo_criteria}
use dev_llmops.PerfEval.Config.Defaults.{get-apply_defaults, default_of}
use dev_llmops.PerfEval.Config.Cases.{AreCases, parse_mode1_test_cases-AreCases}
use dev_llmops.PerfEval.Config.Criteria.{Within, check_slo_criteria_iff}
use dev_llmops.PerfEval.Search.{binary}
use dev_llmops.PerfEval.Events.{Item, Service, Settings}
use dev_llmops.PerfEval.Book.Named.{history_of}
use dev_llmops.PerfEval.Mode2.Closed.{IsClosed}
use dev_llmops.PerfEval.Mode2.Meant.{AreMeant}
use dev_llmops.PerfEval.Mode2.Engines.{EngineCommands, run_mode2}
use dev_llmops.PerfEval.Mode2.Whole.{run_mode2-orderly}

-- A split that knows three texts.
abbrev split : String → Option (List String)
split s =
    if str_eq s "serve"
    then some ("serve" ∷ "--tp" ∷ "2" ∷ "--trust" ∷ [])
    else if str_eq s "serve --tp 2 --trust"
    then some ("serve" ∷ "--tp" ∷ "2" ∷ "--trust" ∷ [])
    else if str_eq s "serve --tp 4 --trust"
    then some ("serve" ∷ "--tp" ∷ "4" ∷ "--trust" ∷ [])
    else if str_eq s "--tp 4"
    then some ("--tp" ∷ "4" ∷ [])
    else none

parse_run : parse_model_cmd_args split "serve" ≡ some (("tp", "2") ∷ ("trust", "true") ∷ [])
unfolding parse_model_cmd_args
parse_run = refl

override_run : apply_override_args split "serve" ("--tp 4" ∷ " !--trust" ∷ []) ≡ some "serve --tp 4"
unfolding apply_override_args
override_run = refl

eq_run : parse_tokens ("serve" ∷ "--tp=2" ∷ "--trust" ∷ []) [] ≡ ("trust", "true") ∷ []
unfolding parse_tokens
eq_run = refl

keys_run :
    collect_all_param_keys
      ((("a", "1") ∷ ("b", "2") ∷ []) ∷ (("c", "3") ∷ ("a", "4") ∷ []) ∷ [])
      ("b" ∷ [])
    ≡ "a" ∷ "c" ∷ []
unfolding collect_all_param_keys
keys_run = refl

split_eq_run : split_eq "--tp=2" ≡ some ("--tp", "2")
unfolding split_eq
split_eq_run = refl

parse_tokens-skips_eq_example :
    parse_tokens ("--tp=2" ∷ "--trust" ∷ []) [] ≡ parse_tokens ("--trust" ∷ []) []
parse_tokens-skips_eq_example =
    parse_tokens-skips_eq "--tp=2" "--tp" "2" ("--trust" ∷ []) [] split_eq_run

apply_overrides-refines_example :
    let a0 : Args =
      read_args ("--tp" ∷ "2" ∷ "--trust" ∷ []) record { prefix = []; args = []; key_map = [] } in
    Agree a0 (apply_overrides split ("--tp 4" ∷ "!--trust" ∷ []) a0) (
      changes split
        ("--tp 4" ∷ "!--trust" ∷ [])
        (read_settings ("--tp" ∷ "2" ∷ "--trust" ∷ []) (λ k. none)))
apply_overrides-refines_example =
    apply_overrides-refines split ("--tp" ∷ "2" ∷ "--trust" ∷ []) ("--tp 4" ∷ "!--trust" ∷ [])

abbrev defaults : Dict (Option ℕ)
defaults = ("stop_n", some 2) ∷ ("init_concurrent", some 2) ∷ ("max_concurrent", none) ∷ []

abbrev conf : Dict (Option ℕ)
conf = ("stop_n", some 10) ∷ ("init_concurrent", none) ∷ []

get-apply_defaults_example :
    get "init_concurrent" (apply_defaults conf defaults)
    ≡ default_of "init_concurrent" defaults (get "init_concurrent" conf)
get-apply_defaults_example = get-apply_defaults "init_concurrent" conf defaults

abbrev contexts : List ℕ
contexts = 1 ∷ 2 ∷ []

abbrev batches : List ℕ
batches = 3 ∷ 4 ∷ 5 ∷ []

parse_mode1_test_cases-AreCases_example :
    AreCases contexts batches 1 (parse_mode1_test_cases contexts batches 1)
parse_mode1_test_cases-AreCases_example = parse_mode1_test_cases-AreCases contexts batches 1

abbrev exceeds : ℕ → ℕ → Bool
exceeds value threshold = ltb threshold value

abbrev result : Dict ℕ
result = ("ttft", 3) ∷ ("tpot", 1) ∷ []

check_slo_criteria_iff_example :
    (check_slo_criteria some exceeds (some result) (("ttft", 4) ∷ []) ≡ true)
    ↔ ((r : Dict ℕ) × (some result ≡ some r) × All (Within some exceeds r) (("ttft", 4) ∷ []))
check_slo_criteria_iff_example =
    check_slo_criteria_iff some exceeds (some result) (("ttft", 4) ∷ [])

-- A service that starts and is healthy, and meets the SLO up to 5 requests at a time.
abbrev service : Service ℕ
service = record {
  shlex_split = split;
  starts = λ h cmd. true;
  is_healthy = λ h. true;
  result_of = λ h context (c, n). some c;
  passes = λ r. elim r [ none ↦ false | some c ↦ leb c 5 ];
  request_count = λ c. c * 4;
  fuel = 20;
}

abbrev settings : Settings
settings = record {
  engine_name = "vllm";
  model_cmd = "serve";
  param_index = 1;
  bench_only = false;
  bench_only_healthcheck = false;
  default_init = 2;
  default_max = some 4;
  warmup_enabled = true;
  search_method = binary;
  stop_n = 2;
}

abbrev item : List String → Item
item overrides = record {
  context = (1024, 512);
  init_concurrent = none;
  max_concurrent = some 0;
  override_args = overrides;
  engine_override_args = [];
}

abbrev items : List Item
items = item [] ∷ item ("--tp 4" ∷ []) ∷ item [] ∷ []

abbrev engines : List EngineCommands
engines = record { name = "vllm"; commands = "serve" ∷ [] } ∷ []

run_mode2-orderly_example :
    IsClosed service settings (run_mode2 service settings items engines)
    × AreMeant service items (history_of (run_mode2 service settings items engines))
run_mode2-orderly_example = run_mode2-orderly service settings items engines
