-- ===== src/PerfEval/Mode1.antt =====
-- Mode 1 of LLMOps/Benchmark/llm-perf-eval.py: `run_mode1`, from the cases and the engines on.
pub mod Sheets
use dev_llmops.Prelude.{
  ℕ, zero, suc, ◌+◌, String, Bool, true, false, not, ◌&&◌, Option, none, some, List, [], ◌∷◌,
  if◌then◌else◌,
}

pub record Engine : Type 0 where
  pub engine_name : String
  pub commands : List String

-- What `run_mode1` does to the service and to the workbook; the case is a context `A` and a batch `B`.
-- A sheet has the index of the command, the engine and the command; `start`, `health` and `bench` have
-- what the service answered.
pub data Step (A B R : Type 0) : Type 0 where
  start : String → Bool → Step A B R
  health : Bool → Step A B R
  bench row : A → B → Option R → Step A B R
  stop logs warmup finalize flush save : Step A B R
  sheet : ℕ → String → String → Step A B R
  failure_logs : String → Step A B R

-- The newest step first.
abbrev pub Steps : Type 0 → Type 0 → Type 0 → Type 0
Steps A B R = List (Step A B R)

-- What the service answers, by what happened before.
pub record Service (A B R : Type 0) : Type 0 where
  pub starts : Steps A B R → String → Bool
  pub is_healthy : Steps A B R → Bool
  pub result_of : Steps A B R → A → B → Option R

pub record Settings : Type 0 where
  pub bench_only : Bool
  pub bench_only_healthcheck : Bool
  pub warmup_enabled : Bool

module _ {A B R : Type 0} where
  -- for ctx, br in cases: writer.append_result(ws, ctx, br, None)
  unfoldable pub empty_rows : List (A × B) → Steps A B R → Steps A B R
  empty_rows [] h = h
  empty_rows ((ctx, br) ∷ cases) h = empty_rows cases (row ctx br none ∷ h)

  -- The sheet of a command that could not be measured.
  unfoldable pub failed_sheet :
      String → ℕ → String → String → List (A × B) → Steps A B R → Steps A B R
  unfolding empty_rows
  failed_sheet title cmd_idx engine_name cmd cases h =
      finalize ∷ failure_logs title ∷ empty_rows cases (sheet cmd_idx engine_name cmd ∷ h)

module _ {A B R : Type 0} (service : Service A B R) (settings : Settings)
    (cases : List (A × B)) where
  unfoldable pub run_cases : List (A × B) → Steps A B R → Steps A B R
  run_cases [] h = h
  run_cases ((ctx, br) ∷ rest) h =
      let result = service.result_of h ctx br in
      run_cases rest (flush ∷ row ctx br result ∷ bench ctx br result ∷ h)

  -- The warm-up and the tests of a command.
  unfoldable pub measure : ℕ → String → String → Steps A B R → Steps A B R
  unfolding run_cases
  measure cmd_idx engine_name cmd h =
      let warmed = if settings.warmup_enabled then warmup ∷ h else h in
      finalize ∷ run_cases cases (sheet cmd_idx engine_name cmd ∷ warmed)

  -- The turn of a command with a model of its own.
  unfoldable pub serve_command : ℕ → String → String → Steps A B R → Steps A B R
  unfolding failed_sheet measure
  serve_command cmd_idx engine_name cmd h =
      let started = start cmd true ∷ h in
      if not (service.starts h cmd)
      then stop ∷ failed_sheet "启动失败日志" cmd_idx engine_name cmd cases (start cmd false ∷ h)
      else if not (service.is_healthy started)
      then stop
        ∷ failed_sheet "健康检查失败日志" cmd_idx engine_name cmd cases (logs ∷ health false ∷ started)
      else stop ∷ measure cmd_idx engine_name cmd (health true ∷ started)

  -- The turn of a command under `bench_only`.
  unfoldable pub test_command : ℕ → String → String → Steps A B R → Steps A B R
  unfolding failed_sheet measure
  test_command cmd_idx engine_name cmd h =
      if not settings.bench_only_healthcheck
      then measure cmd_idx engine_name cmd h
      else if service.is_healthy h
      then measure cmd_idx engine_name cmd (health true ∷ h)
      else failed_sheet "健康检查失败" cmd_idx engine_name cmd cases (health false ∷ h)

  unfoldable pub run_command : ℕ → String → String → Steps A B R → Steps A B R
  unfolding serve_command test_command
  run_command cmd_idx engine_name cmd h =
      if settings.bench_only
      then test_command cmd_idx engine_name cmd h
      else serve_command cmd_idx engine_name cmd h

  unfoldable pub run_commands : ℕ → String → List String → Steps A B R → Steps A B R
  unfolding run_command
  run_commands cmd_idx engine_name [] h = h
  run_commands cmd_idx engine_name (cmd ∷ cmds) h =
      run_commands (cmd_idx + 1) engine_name cmds (run_command cmd_idx engine_name cmd h)

  unfoldable pub run_engines : List Engine → Steps A B R → Steps A B R
  unfolding run_commands
  run_engines [] h = h
  run_engines (e ∷ engines) h = run_engines engines (run_commands 1 e.engine_name e.commands h)

module _ {A B R : Type 0} (service : Service A B R) (settings : Settings) where
  -- Without cases nothing is done.
  unfoldable pub run_mode1 : List (A × B) → List Engine → Steps A B R
  unfolding run_engines
  run_mode1 [] engines = []
  run_mode1 (c ∷ cases) engines = save ∷ run_engines service settings (c ∷ cases) engines []
