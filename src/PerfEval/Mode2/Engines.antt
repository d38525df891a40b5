-- ===== src/PerfEval/Mode2/Engines.antt =====
-- All engines and commands of `run_mode2` in llm-perf-eval.py.
use dev_llmops.Prelude.{ℕ, suc, String, not, ◌&&◌, none, some, List, [], ◌∷◌, if◌then◌else◌}
use dev_llmops.PerfEval.Args.{parse_model_cmd_args}
use dev_llmops.PerfEval.Events.{
  Item, flush, write_summaries, finalize, highlight, register, detail_sheet, init_engine,
  outside_health, outside_warmup, History, Service, Settings, Run, Outcome, returned, ended,
}
use dev_llmops.PerfEval.Mode2.{run_contexts, test_contexts}

pub record EngineCommands : Type 0 where
  pub name : String
  pub commands : List String

-- What is left to do when all is written: `history` with nothing running.
unfoldable pub idle : {R : Type 0} → History R → Run R
idle h = record { running = none; best_map = []; history = h }

module _ {R : Type 0} (service : Service R) (settings : Settings) (items : List Item) where
  -- writer.highlight_best_rows(...) and what follows it.
  unfoldable pub finish_command : Run R → Outcome R
  unfolding idle
  finish_command run =
      returned
        (idle (flush ∷ write_summaries ∷ finalize ∷ highlight run.best_map items ∷ run.history))

  unfoldable pub then_finish : Outcome R → Outcome R
  unfolding finish_command
  then_finish (ended h) = ended h
  then_finish (returned run) = finish_command run

  -- The branch of `bench_only`.
  unfoldable pub explore_outside : History R → Outcome R
  unfolding idle then_finish test_contexts
  explore_outside h =
      let healthy = service.is_healthy h in
      let g = if settings.bench_only_healthcheck then outside_health healthy ∷ h else h in
      if settings.bench_only_healthcheck && not healthy
      then returned (idle (flush ∷ write_summaries ∷ finalize ∷ g))
      else then_finish (
          test_contexts service settings items
            (idle (if settings.warmup_enabled then outside_warmup ∷ g else g)))

  -- One command, from `writer.register_command(...)` on, which parses the command.
  unfoldable pub explore_command : History R → Outcome R
  unfolding explore_outside then_finish run_contexts idle
  explore_command h = elim (parse_model_cmd_args service.shlex_split settings.model_cmd) [
    | none ↦ ended h
    | some params ↦
        let g =
          detail_sheet settings.engine_name settings.param_index settings.model_cmd
          ∷ register settings.engine_name settings.model_cmd
          ∷ h in
        if settings.bench_only
        then explore_outside g
        else then_finish (run_contexts service settings items (idle g))
  ]

module _ {R : Type 0} (service : Service R) (settings : Settings) (items : List Item) where
  -- The commands of an engine, from the index `n` on.
  unfoldable pub explore_commands : String → ℕ → List String → History R → Outcome R
  unfolding explore_command idle
  explore_commands name n [] h = returned (idle h)
  explore_commands name n (cmd ∷ cmds) h =
      elim (explore_command service
        (record settings { engine_name = name; model_cmd = cmd; param_index = n }) items h) [
          | ended g ↦ ended g
          | returned run ↦ explore_commands name (suc n) cmds run.history
        ]

  unfoldable pub explore_engines : List EngineCommands → History R → Outcome R
  unfolding explore_commands idle
  explore_engines [] h = returned (idle h)
  explore_engines (e ∷ engines) h =
      elim (explore_commands e.name 1 e.commands (init_engine e.name ∷ h)) [
        | ended g ↦ ended g
        | returned run ↦ explore_engines engines run.history
      ]

-- Without contexts nothing is done. `writer.save()` writes the summaries and saves the workbook.
unfoldable pub run_mode2 :
    {R : Type 0} (service : Service R) (settings : Settings)
    → List Item
    → List EngineCommands
    → Outcome R
unfolding explore_engines idle
run_mode2 service settings [] engines = returned (idle [])
run_mode2 service settings (item ∷ items) engines =
    elim (explore_engines service settings (item ∷ items) engines []) [
      | ended g ↦ ended g
      | returned run ↦ returned (idle (flush ∷ write_summaries ∷ run.history))
    ]
