-- ===== src/PerfEval/Loading/Main.antt =====
-- `main` of LLMOps/Benchmark/llm-perf-eval.py, up to the run of a mode.
use dev_llmops.Prelude.{
  String, Bool, true, false, not, Option, none, some, List, [], ◌∷◌, if◌then◌else◌,
}
use dev_llmops.PerfEval.Values.{◌>>=◌, words, Floats, is_number, has_true}
use dev_llmops.PerfEval.Loading.{Conf, BenchConfig, get_value}
use dev_llmops.PerfEval.Loading.Bench.{load_bench_config}
use dev_llmops.PerfEval.Loading.Engines.{EngineConfig, load_model_config}

-- The mode that is run, or the exit with 1 after an error.
pub data Plan (F : Type 0) : Type 0 where
  mode1 mode2 : BenchConfig F → List (EngineConfig F) → Plan F
  exit_1 : Plan F

module _ {F : Type 0} (floats : Floats F) (shlex_split : String → Option (List String)) where
  unfoldable pub bench_only_engine : EngineConfig F
  bench_only_engine = record {
    engine_name = some (words "bench-only");
    container_cmd = "";
    stop_cmd = "";
    commands = "bench-only" ∷ [];
    container_name = none;
    image_name = "";
    exclude_params = [];
    ssh_cmd = none;
  }

  -- `', '.join(engine_names)` raises where a name is no text.
  unfoldable pub all_named : List (EngineConfig F) → Bool
  all_named [] = true
  all_named (e ∷ engines) = elim e.engine_name [ some (words s) ↦ all_named engines | _ ↦ false ]

  unfoldable pub run_plan : BenchConfig F → List (EngineConfig F) → Plan F
  unfolding all_named get_value is_number
  run_plan bench_config engines =
      if not (all_named engines) then exit_1 else elim (get_value "mode" bench_config.conf) [
        | none ↦ exit_1
        | some mode ↦
            if is_number floats 1 mode
            then mode1 bench_config engines
            else mode2 bench_config engines
      ]

  -- The dicts of the two files, none where a file cannot be read.
  unfoldable pub main : Option (Conf F) → Option (Conf F) → Plan F
  unfolding load_bench_config has_true bench_only_engine load_model_config run_plan
  main bench_file model_file = elim (bench_file >>= load_bench_config floats) [
    | none ↦ exit_1
    | some bench_config ↦
        if has_true floats "bench_only" bench_config.conf
        then run_plan bench_config (bench_only_engine ∷ [])
        else elim (model_file >>= load_model_config floats shlex_split) [
          | none ↦ exit_1
          | some engines ↦ run_plan bench_config engines
        ]
  ]
