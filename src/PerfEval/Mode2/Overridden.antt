-- ===== src/PerfEval/Mode2/Overridden.antt =====
-- The commands that the benchmarks of a whole run of `run_mode2` in llm-perf-eval.py meet.
use dev_llmops.Prelude.{
  ℕ, suc, String, refl, Bool, true, false, not, ◌&&◌, Option, none, some, List, [], ◌∷◌,
  if◌then◌else◌,
}
use dev_llmops.Prelude.Dict.{Dict}
use dev_llmops.PerfEval.Args.{parse_model_cmd_args}
use dev_llmops.PerfEval.Events.{
  Item, outside_health, outside_warmup, flush, write_summaries, finalize, register, detail_sheet,
  init_engine, History, Service, Settings, Outcome, returned, ended,
}
use dev_llmops.PerfEval.Mode2.{run_contexts, test_contexts}
use dev_llmops.PerfEval.Mode2.Engines.{
  EngineCommands, idle, finish_command, then_finish, explore_outside, explore_command,
  explore_commands, explore_engines, run_mode2,
}
use dev_llmops.PerfEval.Book.Named.{history_of, next}
use dev_llmops.PerfEval.Mode2.Meant.{At, AreMeant, run_contexts-At, test_contexts-At}

module _ {R : Type 0} (service : Service R) (settings : Settings) (items : List Item) where
  then_finish-At :
      (o : Outcome R)
      → At service settings items (history_of o)
      → At service settings items (history_of (then_finish service settings items o))
  unfolding then_finish finish_command idle
  then_finish-At (ended h) p = p
  then_finish-At (returned run) p = p

  explore_outside-At :
      (h : History R)
      → At service settings items h
      → At service settings items (history_of (explore_outside service settings items h))
  unfolding explore_outside idle
  explore_outside-At h p =
      skipped settings.bench_only_healthcheck
        (settings.bench_only_healthcheck && not (service.is_healthy h)) settings.warmup_enabled
    where
      tested :
          (g : History R) (warms : Bool)
          → At service settings items g
          → At service settings items (
              history_of (
                then_finish service settings items (
                  test_contexts service settings items
                    (idle (if warms then outside_warmup ∷ g else g)))))
      tested g true q =
          then_finish-At (test_contexts service settings items (idle (outside_warmup ∷ g)))
            (test_contexts-At service settings items items (idle (outside_warmup ∷ g)) q)
      tested g false q =
          then_finish-At (test_contexts service settings items (idle g))
            (test_contexts-At service settings items items (idle g) q)

      skipped :
          (asks skips warms : Bool)
          → let g : History R = if asks then outside_health (service.is_healthy h) ∷ h else h in
            At service settings items (
              history_of (
                if skips
                then returned (idle (flush ∷ write_summaries ∷ finalize ∷ g))
                else then_finish service settings items (
                    test_contexts service settings items
                      (idle (if warms then outside_warmup ∷ g else g)))))
      skipped true true warms = p
      skipped false true warms = p
      skipped true false warms = tested (outside_health (service.is_healthy h) ∷ h) warms p
      skipped false false warms = tested h warms p

  explore_command-AreMeant :
      (h : History R)
      → AreMeant service items h
      → AreMeant service items (history_of (explore_command service settings items h))
  unfolding explore_command idle
  explore_command-AreMeant h p =
      parsed (parse_model_cmd_args service.shlex_split settings.model_cmd)
    where
      g : History R
      g =
          detail_sheet settings.engine_name settings.param_index settings.model_cmd
          ∷ register settings.engine_name settings.model_cmd
          ∷ h

      branch :
          (only : Bool)
          → AreMeant service items (
              history_of (
                if only
                then explore_outside service settings items g
                else then_finish service settings items
                    (run_contexts service settings items (idle g))))
      branch true = (explore_outside-At g (refl, p)).1
      branch false =
          (then_finish-At (run_contexts service settings items (idle g))
            (run_contexts-At service settings items [] items (idle g) refl (refl, p))).1

      parsed :
          (params : Option (Dict String))
          → AreMeant service items (
              history_of (elim params as (λ x. Outcome R) [
                | none ↦ ended h
                | some ps ↦
                    if settings.bench_only
                    then explore_outside service settings items g
                    else then_finish service settings items
                        (run_contexts service settings items (idle g))
              ]))
      parsed none = p
      parsed (some ps) = branch settings.bench_only

module _ {R : Type 0} (service : Service R) (settings : Settings) (items : List Item) where
  explore_commands-AreMeant :
      (name : String) (n : ℕ) (cmds : List String) (h : History R)
      → AreMeant service items h
      → AreMeant service items (history_of (explore_commands service settings items name n cmds h))
  unfolding explore_commands idle
  explore_commands-AreMeant name n [] h p = p
  explore_commands-AreMeant name n (cmd ∷ cmds) h p =
      next (AreMeant service items)
        (λ run. explore_commands service settings items name (suc n) cmds run.history)
        (λ run q. explore_commands-AreMeant name (suc n) cmds run.history q)
        (explore_command service
          (record settings { engine_name = name; model_cmd = cmd; param_index = n }) items h)
        (explore_command-AreMeant service
          (record settings { engine_name = name; model_cmd = cmd; param_index = n }) items h p)

  explore_engines-AreMeant :
      (engines : List EngineCommands) (h : History R)
      → AreMeant service items h
      → AreMeant service items (history_of (explore_engines service settings items engines h))
  unfolding explore_engines idle
  explore_engines-AreMeant [] h p = p
  explore_engines-AreMeant (e ∷ engines) h p =
      next (AreMeant service items)
        (λ run. explore_engines service settings items engines run.history)
        (λ run q. explore_engines-AreMeant engines run.history q)
        (explore_commands service settings items e.name 1 e.commands (init_engine e.name ∷ h))
        (explore_commands-AreMeant e.name 1 e.commands (init_engine e.name ∷ h) p)

pub run_mode2-AreMeant :
    {R : Type 0} (service : Service R) (settings : Settings) (items : List Item)
    (engines : List EngineCommands)
    → AreMeant service items (history_of (run_mode2 service settings items engines))
unfolding run_mode2 idle
run_mode2-AreMeant service settings [] engines = tt
run_mode2-AreMeant service settings (item ∷ items) engines =
    next (AreMeant service (item ∷ items))
      (λ run. returned (idle (flush ∷ write_summaries ∷ run.history))) (λ run q. q)
      (explore_engines service settings (item ∷ items) engines [])
      (explore_engines-AreMeant service settings (item ∷ items) engines [] tt)
