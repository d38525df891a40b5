-- ===== src/PerfEval/Mode2.antt =====
-- The contexts of one command in `run_mode2` of LLMOps/Benchmark/llm-perf-eval.py, where the model is
-- started and stopped as its arguments change.
mod Phases
pub mod Orderly
pub mod Closed
pub mod Meant
mod Overridden
pub mod Whole
pub mod Engines
pub mod Rows
mod Contexts
pub mod Complete
use dev_llmops.Prelude.{
  ℕ, zero, suc, String, Bool, true, false, not, ◌&&◌, Option, none, some, List, [], ◌∷◌, ◌++◌, ◌==◌,
  if◌then◌else◌,
}
use dev_llmops.Prelude.Dict.{Dict, get}
use dev_llmops.PerfEval.Search.{Entry, search_max_concurrency}
use dev_llmops.PerfEval.Events.{
  Context, Item, start_failed, unhealthy, Summary, failed, found, BestMap, start, health, stop,
  logs, warmup, flush, write_summaries, marker, failure_logs, bench, summary, effective, History,
  Service, Settings, Run, Outcome, returned, ended, Failure,
}
use dev_llmops.PerfEval.Args.{apply_override_args, cmds_are_equivalent}

-- item.get(...) or default: zero counts as missing.
unfoldable pub or_default : Option ℕ → ℕ → ℕ
or_default none d = d
or_default (some n) d = if n == 0 then d else n

unfoldable pub or_maybe : Option ℕ → Option ℕ → Option ℕ
or_maybe none d = d
or_maybe (some n) d = if n == 0 then d else some n

-- list(override_args) + list(engine_override_args.get(engine_name, []))
unfoldable pub effective_overrides : String → Item → List String
unfolding get
effective_overrides engine_name item =
    item.override_args
    ++ elim (get engine_name item.engine_override_args) [ none ↦ [] | some args ↦ args ]

module _ {R : Type 0} where
  -- best if best is not None else min_tested
  unfoldable pub shown_entry : Option (Entry R) → Option (Entry R) → Option (Entry R)
  shown_entry (some e) m = some e
  shown_entry none m = m

  -- best is None and min_tested is not None
  unfoldable pub no_pass : Option (Entry R) → Option (Entry R) → Bool
  no_pass none (some m) = true
  no_pass _ _ = false

  -- context_best_map[tuple(context)] = {"best": best, "min_tested": min_tested}
  unfoldable pub put_best : Context → Option (Entry R) × Option (Entry R) → BestMap R → BestMap R
  put_best ctx pair [] = (ctx, pair) ∷ []
  put_best ctx pair ((c, other) ∷ rest) =
      let later = put_best ctx pair rest in
      if c.0 == ctx.0 && c.1 == ctx.1 then (c, pair) ∷ rest else (c, other) ∷ later

  -- The workbook after a failure: the marker, the summary row, the logs, and a save.
  unfoldable pub report_failure : Settings → Failure → Item → String → History R → History R
  report_failure settings f item cmd h =
      flush
      ∷ write_summaries
      ∷ failure_logs f
      ∷ summary settings.engine_name settings.param_index item.context (failed f) (some cmd)
      ∷ marker item.context f
      ∷ h

module _ {R : Type 0} (service : Service R) (settings : Settings) where
  -- run_single_benchmark(bench_config, context, batch_req)
  unfoldable pub run_benchmark : Context → Option String → ℕ × ℕ → History R → Option R × History R
  run_benchmark context cmd req h =
      let result = service.result_of h context req in (result, bench cmd context req result ∷ h)

  -- The search of a context with the effective command `cmd` while `running` runs, and its summary row;
  -- `bench_only` has neither command.
  unfoldable pub explore : Item → Option String → Option String → BestMap R → History R → Outcome R
  unfolding search_max_concurrency run_benchmark or_default or_maybe shown_entry no_pass put_best
  explore item cmd running best_map h =
      elim (search_max_concurrency (run_benchmark item.context cmd) service.passes
        service.request_count settings.search_method settings.stop_n
        (or_maybe item.max_concurrent settings.default_max) service.fuel
        (or_default item.init_concurrent settings.default_init) h) [
          | none ↦ ended h
          | some ((best, min_tested), g) ↦ returned (record {
            running = running;
            best_map = put_best item.context (best, min_tested) best_map;
            history =
                summary settings.engine_name settings.param_index item.context
                  (found (shown_entry best min_tested) (no_pass best min_tested)) cmd
                ∷ flush
                ∷ g;
          })
        ]

  -- The part under `need_restart`, and whether the model is up and healthy.
  unfoldable pub restart : Item → String → History R → Bool × History R
  unfolding report_failure
  restart item cmd h =
      let started = start cmd true ∷ h in
      if not (service.starts h cmd)
      then (false, report_failure settings start_failed item cmd (start cmd false ∷ h))
      else if not (service.is_healthy started)
      then (
        false,
        stop ∷ report_failure settings unhealthy item cmd (logs ∷ health false ∷ started),
      )
      else (
        true,
        if settings.warmup_enabled then warmup ∷ health true ∷ started else health true ∷ started,
      )

  unfoldable pub restart_then : Item → String → BestMap R → History R → Outcome R
  unfolding restart explore
  restart_then item cmd best_map h =
      let (up, g) = restart item cmd h in
      if up
      then explore item (some cmd) (some cmd) best_map g
      else returned (record { running = none; best_map = best_map; history = g })

  -- if current_running_cmd is None: ... elif not _cmds_are_equivalent(...): ...
  unfoldable pub run_command : Item → String → Run R → Outcome R
  unfolding cmds_are_equivalent restart_then explore
  run_command item cmd run =
      let h = effective settings.engine_name item.context cmd ∷ run.history in
      elim run.running [
        | none ↦ restart_then item cmd run.best_map h
        | some current ↦ elim (cmds_are_equivalent service.shlex_split cmd current) [
          | none ↦ ended h
          | some true ↦ explore item (some cmd) (some current) run.best_map h
          | some false ↦ restart_then item cmd run.best_map (stop ∷ h)
        ]
      ]

  unfoldable pub run_context : Item → Run R → Outcome R
  unfolding apply_override_args effective_overrides run_command
  run_context item run =
      elim (apply_override_args service.shlex_split settings.model_cmd
        (effective_overrides settings.engine_name item)) [
          | none ↦ ended run.history
          | some cmd ↦ run_command item cmd run
        ]

  -- if current_running_cmd is not None: manager.stop_model()
  unfoldable pub stop_running : Run R → Outcome R
  stop_running run = elim run.running [
    | none ↦ returned run
    | some cmd ↦ returned (record run { history = stop ∷ run.history })
  ]

  unfoldable pub run_contexts : List Item → Run R → Outcome R
  unfolding run_context stop_running
  run_contexts [] run = stop_running run
  run_contexts (item ∷ items) run = elim (run_context item run) [
    | ended h ↦ ended h
    | returned run' ↦ run_contexts items run'
  ]

  -- The contexts under `bench_only`.
  unfoldable pub test_contexts : List Item → Run R → Outcome R
  unfolding explore
  test_contexts [] run = returned run
  test_contexts (item ∷ items) run = elim (explore item none none run.best_map run.history) [
    | ended h ↦ ended h
    | returned run' ↦ test_contexts items run'
  ]
