-- ===== src/PerfEval/Mode2/Whole.antt =====
-- The order of what `run_mode2` of llm-perf-eval.py does to the model, over all engines and commands.
use dev_llmops.Prelude.{
  ℕ, suc, String, ◌≡◌, refl, ap, ◌∙◌, Option, ◌≡◌, refl, Bool, true, false, not, ◌&&◌, none, some,
  List, [], ◌∷◌, if◌then◌else◌,
}
use dev_llmops.Prelude.Dict.{Dict}
use dev_llmops.PerfEval.Args.{parse_model_cmd_args}
use dev_llmops.PerfEval.Events.{
  Event, Item, flush, write_summaries, finalize, highlight, register, detail_sheet, init_engine,
  outside_health, outside_warmup, History, Service, Settings, Run, Outcome, returned, ended,
}
use dev_llmops.PerfEval.Mode2.{run_contexts, test_contexts}
use dev_llmops.PerfEval.Mode2.Phases.{Phase, off, advance}
use dev_llmops.PerfEval.Mode2.Closed.{IsClosed, run_contexts-IsClosed, test_contexts-IsClosed}
use dev_llmops.PerfEval.Mode2.Orderly.{equivalent, phase}
use dev_llmops.PerfEval.Book.Named.{history_of}
use dev_llmops.PerfEval.Mode2.Meant.{AreMeant}
use dev_llmops.PerfEval.Mode2.Overridden.{run_mode2-AreMeant}
use dev_llmops.PerfEval.Mode2.Engines.{
  EngineCommands, idle, finish_command, then_finish, explore_outside, explore_command,
  explore_commands, explore_engines, run_mode2,
}

module _ {R : Type 0} (service : Service R) (settings : Settings) where
  next :
      (f : Run R → Outcome R)
      → ((run : Run R)
          → phase service settings run.history ≡ some off
          → IsClosed service settings (f run))
      → (o : Outcome R) → IsClosed service settings o
      → IsClosed service settings (elim o [ ended g ↦ ended g | returned run ↦ f run ])
  next f k (ended g) q = q
  next f k (returned run) q = k run q

module _ {R : Type 0} (service : Service R) (settings : Settings) (items : List Item) where
  phase-cons :
      (e : Event R) (h : History R)
      → advance (equivalent service settings) e off ≡ some off
      → phase service settings h ≡ some off
      → phase service settings (e ∷ h) ≡ some off
  phase-cons e h a p =
      ap
        (λ (o : Option Phase). elim o [
          | none ↦ none
          | some q ↦ advance (equivalent service settings) e q
        ])
        p
      ∙ a

  asked :
      (asks healthy : Bool) (h : History R)
      → phase service settings h ≡ some off
      → phase service settings (if asks then outside_health healthy ∷ h else h) ≡ some off
  asked true healthy h p = phase-cons (outside_health healthy) h refl p
  asked false healthy h p = p

  warmed_up :
      (warms : Bool) (h : History R)
      → phase service settings h ≡ some off
      → phase service settings (if warms then outside_warmup ∷ h else h) ≡ some off
  warmed_up true h p = phase-cons outside_warmup h refl p
  warmed_up false h p = p

  written :
      (h : History R)
      → phase service settings h ≡ some off
      → phase service settings (flush ∷ write_summaries ∷ finalize ∷ h) ≡ some off
  written h p =
      phase-cons flush (write_summaries ∷ finalize ∷ h) refl
        (phase-cons write_summaries (finalize ∷ h) refl (phase-cons finalize h refl p))

  either :
      (b : Bool) (x y : Outcome R)
      → IsClosed service settings x
      → IsClosed service settings y
      → IsClosed service settings (if b then x else y)
  either true x y p q = p
  either false x y p q = q

  then_finish-IsClosed :
      (o : Outcome R)
      → IsClosed service settings o
      → IsClosed service settings (then_finish service settings items o)
  unfolding then_finish finish_command idle
  then_finish-IsClosed (ended h) q = q
  then_finish-IsClosed (returned run) q =
      written (highlight run.best_map items ∷ run.history)
        (phase-cons (highlight run.best_map items) run.history refl q)

  explore_outside-IsClosed :
      (h : History R)
      → phase service settings h ≡ some off
      → IsClosed service settings (explore_outside service settings items h)
  unfolding explore_outside idle
  explore_outside-IsClosed h p =
      let g : History R =
        if settings.bench_only_healthcheck then outside_health (service.is_healthy h) ∷ h else h in
      let w : History R = if settings.warmup_enabled then outside_warmup ∷ g else g in
      let p' = asked settings.bench_only_healthcheck (service.is_healthy h) h p in
      either (settings.bench_only_healthcheck && not (service.is_healthy h)) _ _ (written g p') (
        then_finish-IsClosed (test_contexts service settings items (idle w)) (
          test_contexts-IsClosed service settings items (idle w)
            (warmed_up settings.warmup_enabled g p')))

  -- What follows the parsing of the command.
  parsed :
      (params : Option (Dict String)) (h g : History R)
      → phase service settings h ≡ some off
      → phase service settings g ≡ some off
      → IsClosed service settings (elim params [
        | none ↦ ended h
        | some ps ↦
            if settings.bench_only
            then explore_outside service settings items g
            else then_finish service settings items (run_contexts service settings items (idle g))
      ])
  unfolding idle
  parsed none h g p q = (off, p)
  parsed (some ps) h g p q =
      either _ _ _ (explore_outside-IsClosed g q)
        (then_finish-IsClosed _ (run_contexts-IsClosed service settings items (idle g) q))

  explore_command-IsClosed :
      (h : History R)
      → phase service settings h ≡ some off
      → IsClosed service settings (explore_command service settings items h)
  unfolding explore_command
  explore_command-IsClosed h p =
      let g : History R = register settings.engine_name settings.model_cmd ∷ h in
      let d : Event R = detail_sheet settings.engine_name settings.param_index settings.model_cmd in
      parsed (parse_model_cmd_args service.shlex_split settings.model_cmd) h (d ∷ g) p (
        phase-cons d g refl
          (phase-cons (register settings.engine_name settings.model_cmd) h refl p))

module _ {R : Type 0} (service : Service R) (settings : Settings) (items : List Item) where
  explore_commands-IsClosed :
      (name : String) (n : ℕ) (cmds : List String) (h : History R)
      → phase service settings h ≡ some off
      → IsClosed service settings (explore_commands service settings items name n cmds h)
  unfolding explore_commands idle
  explore_commands-IsClosed name n [] h p = p
  explore_commands-IsClosed name n (cmd ∷ cmds) h p =
      next service settings
        (λ run. explore_commands service settings items name (suc n) cmds run.history)
        (λ run q. explore_commands-IsClosed name (suc n) cmds run.history q) _
        (explore_command-IsClosed service
          (record settings { engine_name = name; model_cmd = cmd; param_index = n }) items h p)

  explore_engines-IsClosed :
      (engines : List EngineCommands) (h : History R)
      → phase service settings h ≡ some off
      → IsClosed service settings (explore_engines service settings items engines h)
  unfolding explore_engines idle
  explore_engines-IsClosed [] h p = p
  explore_engines-IsClosed (e ∷ engines) h p =
      next service settings (λ run. explore_engines service settings items engines run.history)
        (λ run q. explore_engines-IsClosed engines run.history q) _
        (explore_commands-IsClosed e.name 1 e.commands (init_engine e.name ∷ h) (rw p refl))

module _ {R : Type 0} (service : Service R) (settings : Settings) where
  run_mode2-IsClosed :
      (items : List Item) (engines : List EngineCommands)
      → IsClosed service settings (run_mode2 service settings items engines)
  unfolding run_mode2 idle
  run_mode2-IsClosed [] engines = refl
  run_mode2-IsClosed (item ∷ items) engines =
      next service settings (λ run. returned (idle (flush ∷ write_summaries ∷ run.history)))
        (λ run q. rw q refl) _
        (explore_engines-IsClosed service settings (item ∷ items) engines [] refl)

  -- Over all contexts, engines and commands, whatever the service answers and whatever the contexts
  -- override. The command of every benchmark of a model that the program manages is that of the engine
  -- registered last, with the overrides of an item applied that has the benchmark's context. The
  -- benchmark meets a model that was started, found healthy, and runs that command or an equivalent
  -- one; every warm-up of such a model meets a healthy one and every health check one just started; and
  -- at the end no model is left running, where one whose start failed counts as down. This holds too
  -- of what happened before a split that raises or a search that runs out of fuel.
  pub run_mode2-orderly :
      (items : List Item) (engines : List EngineCommands)
      → IsClosed service settings (run_mode2 service settings items engines)
        × AreMeant service items (history_of (run_mode2 service settings items engines))
  run_mode2-orderly items engines =
      (run_mode2-IsClosed items engines, run_mode2-AreMeant service settings items engines)
