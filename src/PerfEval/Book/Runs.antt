-- ===== src/PerfEval/Book/Runs.antt =====
-- The engines that a whole run of `run_mode2` in llm-perf-eval.py names to the writer.
use dev_llmops.Prelude.{
  ℕ, suc, String, refl, Bool, true, false, not, ◌&&◌, Option, none, some, List, [], ◌∷◌,
  if◌then◌else◌, arith,
}
use dev_llmops.Prelude.Dict.{Dict, eq_iff}
use dev_llmops.PerfEval.Args.{parse_model_cmd_args}
use dev_llmops.PerfEval.Events.{
  Item, outside_health, outside_warmup, flush, write_summaries, finalize, register, detail_sheet,
  init_engine, History, Service, Settings, Outcome, returned, ended,
}
use dev_llmops.PerfEval.Mode2.{run_contexts, test_contexts}
use dev_llmops.PerfEval.Mode2.Engines.{
  EngineCommands, idle, finish_command, then_finish, explore_outside, explore_command,
  explore_commands, explore_engines, run_mode2,
}
use dev_llmops.PerfEval.Book.Named.{
  IsNamed, IsAt, history_of, next, run_contexts-At, test_contexts-At,
}

module _ {R : Type 0} (service : Service R) (settings : Settings) (items : List Item) where
  abbrev At : History R → Type 0
  At h = IsAt settings.engine_name h

  then_finish-At :
      (o : Outcome R) → At (history_of o) → At (history_of (then_finish service settings items o))
  unfolding then_finish finish_command idle
  then_finish-At (ended h) p = p
  then_finish-At (returned run) p = p

  explore_outside-At :
      (h : History R) → At h → At (history_of (explore_outside service settings items h))
  unfolding explore_outside idle
  explore_outside-At h p =
      skipped settings.bench_only_healthcheck
        (settings.bench_only_healthcheck && not (service.is_healthy h)) settings.warmup_enabled
    where
      tested :
          (g : History R) (warms : Bool)
          → At g
          → At (
              history_of (
                then_finish service settings items (
                  test_contexts service settings items
                    (idle (if warms then outside_warmup ∷ g else g)))))
      tested g true q =
          then_finish-At (test_contexts service settings items (idle (outside_warmup ∷ g)))
            (test_contexts-At service settings items (idle (outside_warmup ∷ g)) q)
      tested g false q =
          then_finish-At (test_contexts service settings items (idle g))
            (test_contexts-At service settings items (idle g) q)

      skipped :
          (asks skips warms : Bool)
          → let g : History R = if asks then outside_health (service.is_healthy h) ∷ h else h in
            At (
              history_of (
                if skips
                then returned (idle (flush ∷ write_summaries ∷ finalize ∷ g))
                else then_finish service settings items (
                    test_contexts service settings items
                      (idle (if warms then outside_warmup ∷ g else g)))))
      skipped true true warms = p
      skipped false true warms = p
      skipped true false warms = tested (outside_health (service.is_healthy h) ∷ h) warms p
      skipped false false warms = tested h warms p

  explore_command-At :
      (h : History R) → At h → At (history_of (explore_command service settings items h))
  unfolding explore_command idle
  explore_command-At h p = parsed (parse_model_cmd_args service.shlex_split settings.model_cmd)
    where
      g : History R
      g =
          detail_sheet settings.engine_name settings.param_index settings.model_cmd
          ∷ register settings.engine_name settings.model_cmd
          ∷ h

      branch :
          (only : Bool)
          → At (
              history_of (
                if only
                then explore_outside service settings items g
                else then_finish service settings items
                    (run_contexts service settings items (idle g))))
      branch true = explore_outside-At g (p.0, p)
      branch false =
          then_finish-At (run_contexts service settings items (idle g))
            (run_contexts-At service settings items (idle g) (p.0, p))

      parsed :
          (params : Option (Dict String))
          → At (
              history_of (elim params as (λ x. Outcome R) [
                | none ↦ ended h
                | some ps ↦
                    if settings.bench_only
                    then explore_outside service settings items g
                    else then_finish service settings items
                        (run_contexts service settings items (idle g))
              ]))
      parsed none = p
      parsed (some ps) = branch settings.bench_only

module _ {R : Type 0} (service : Service R) (settings : Settings) (items : List Item) where
  explore_commands-At :
      (name : String) (n : ℕ) (cmds : List String) (h : History R)
      → IsAt name h
      → IsAt name (history_of (explore_commands service settings items name n cmds h))
  unfolding explore_commands idle
  explore_commands-At name n [] h p = p
  explore_commands-At name n (cmd ∷ cmds) h p =
      next (IsAt name)
        (λ run. explore_commands service settings items name (suc n) cmds run.history)
        (λ run q. explore_commands-At name (suc n) cmds run.history q)
        (explore_command service
          (record settings { engine_name = name; model_cmd = cmd; param_index = n }) items h)
        (explore_command-At service
          (record settings { engine_name = name; model_cmd = cmd; param_index = n }) items h p)

  explore_engines-IsNamed :
      (engines : List EngineCommands) (h : History R)
      → IsNamed h
      → IsNamed (history_of (explore_engines service settings items engines h))
  unfolding explore_engines idle
  explore_engines-IsNamed [] h p = p
  explore_engines-IsNamed (e ∷ engines) h p =
      let q =
        explore_commands-At e.name 1 e.commands (init_engine e.name ∷ h)
          (ground (arith, (eq_iff e.name e.name).1 refl), p) in
      next IsNamed (λ run. explore_engines service settings items engines run.history)
        (λ run r. explore_engines-IsNamed engines run.history r)
        (explore_commands service settings items e.name 1 e.commands (init_engine e.name ∷ h)) q.1

pub run_mode2-IsNamed :
    {R : Type 0} (service : Service R) (settings : Settings) (items : List Item)
    (engines : List EngineCommands)
    → IsNamed (history_of (run_mode2 service settings items engines))
unfolding run_mode2 idle
run_mode2-IsNamed service settings [] engines = tt
run_mode2-IsNamed service settings (item ∷ items) engines =
    next IsNamed (λ run. returned (idle (flush ∷ write_summaries ∷ run.history))) (λ run q. q)
      (explore_engines service settings (item ∷ items) engines [])
      (explore_engines-IsNamed service settings (item ∷ items) engines [] tt)
