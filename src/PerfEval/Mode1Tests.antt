-- ===== src/PerfEval/Mode1Tests.antt =====
-- A small run of mode 1 of llm-perf-eval.py, and the theorem at it.
use dev_llmops.Prelude.{ℕ, ◌+◌, ◌≡◌, true, false, some, List, [], ◌∷◌}
use dev_llmops.Prelude.Dict.{str_eq}
use dev_llmops.PerfEval.Mode1.{Engine, Service, Settings, run_mode1}
use dev_llmops.PerfEval.Mode1.Sheets.{sheets_of, engine_sheets, run_mode1-sheets}

-- The second command does not start.
abbrev service : Service ℕ ℕ ℕ
service = record {
  starts = λ h cmd. str_eq cmd "a";
  is_healthy = λ h. true;
  result_of = λ h ctx br. some (ctx + br);
}

abbrev settings : Settings
settings = record { bench_only = false; bench_only_healthcheck = false; warmup_enabled = true }

abbrev engines : List Engine
engines = record { engine_name = "vllm"; commands = "a" ∷ "b" ∷ [] } ∷ []

run_mode1-sheets_example :
    sheets_of (run_mode1 service settings ((1, 2) ∷ (3, 4) ∷ []) engines)
    ≡ engine_sheets ((1, 2) ∷ (3, 4) ∷ []) engines []
run_mode1-sheets_example = run_mode1-sheets service settings (1, 2) ((3, 4) ∷ []) engines
