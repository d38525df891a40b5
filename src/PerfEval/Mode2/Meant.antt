-- ===== src/PerfEval/Mode2/Meant.antt =====
-- The commands that the benchmarks of a command's contexts meet in `run_mode2` of llm-perf-eval.py.
use dev_llmops.Prelude.{
  String, ◌≡◌, refl, ap, sym, ◌∙◌, Bool, true, false, Option, none, some, List, [], ◌∷◌, ◌++◌,
  append_assoc, if◌then◌else◌, inl, inr, Bool-cases,
}
use dev_llmops.Prelude.Dict.{get}
use dev_llmops.PerfEval.Search.{Entry}
use dev_llmops.PerfEval.Search.Keeps.{After, search_keeps}
use dev_llmops.PerfEval.Args.{apply_override_args, cmds_are_equivalent}
use dev_llmops.PerfEval.Events.{
  Context, Item, BestMap, bench, start, health, stop, warmup, flush, effective, summary, found,
  register, History, Service, Settings, Run, Outcome, returned, ended,
}
use dev_llmops.PerfEval.Book.Named.{history_of, next}
use dev_llmops.PerfEval.Mode2.{
  or_default, or_maybe, shown_entry, no_pass, put_best, run_benchmark, explore, restart,
  restart_then, report_failure, effective_overrides, run_command, run_context, stop_running,
  run_contexts, test_contexts,
}

-- The engine and the command that were registered last.
abbrev pub registered : {R : Type 0} → History R → Option (String × String)
registered [] = none
registered (register name cmd ∷ h) = some (name, cmd)
registered (e ∷ h) = registered h

-- The overrides of a context for an engine: those for all engines, and then its own.
abbrev pub engine_overrides : Option (List String) → List String
engine_overrides none = []
engine_overrides (some args) = args

abbrev pub all_overrides : String → Item → List String
all_overrides name item =
    item.override_args ++ engine_overrides (get name item.engine_override_args)

effective_overrides-all :
    (name : String) (item : Item) → effective_overrides name item ≡ all_overrides name item
unfolding effective_overrides
effective_overrides-all name item = same (get name item.engine_override_args)
  where
    same :
        (found_args : Option (List String))
        → item.override_args
            ++ (elim found_args as (λ x. List String) [ none ↦ [] | some args ↦ args ])
          ≡ item.override_args ++ engine_overrides found_args
    same none = refl
    same (some args) = refl

module _ {R : Type 0} (service : Service R) (items : List Item) where
  -- A command that is meant for a context: one of the items has the context, and the command is that
  -- of the engine with the item's overrides applied. A model that is not managed has none.
  abbrev pub Meant : String → String → Option String → Context → Type 0
  Meant name model_cmd none context = Unit
  Meant name model_cmd (some cmd) context =
      (item : Item) × ((before : List Item) × ((after : List Item) × ((items
              ≡ before ++ item ∷ after)
            × ((item.context ≡ context)
                × (apply_override_args service.shlex_split model_cmd (all_overrides name item)
                    ≡ some cmd)))))

  -- The command of each benchmark is meant for its context, by the command registered last.
  abbrev pub AreMeant : History R → Type 0
  AreMeant [] = Unit
  AreMeant (bench cmd context req result ∷ h) =
      ((name : String) × ((model_cmd : String) × ((registered h ≡ some (name, model_cmd))
            × Meant name model_cmd cmd context)))
      × AreMeant h
  AreMeant (e ∷ h) = AreMeant h

module _ {R : Type 0} (service : Service R) (settings : Settings) (items : List Item) where
  -- The command of the settings is the last that was registered.
  abbrev pub At : History R → Type 0
  At h = (registered h ≡ some (settings.engine_name, settings.model_cmd)) × AreMeant service items h

  -- A command for a context, under the settings.
  abbrev ForContext : Option String → Context → Type 0
  ForContext cmd context = Meant service items settings.engine_name settings.model_cmd cmd context

  explore-At :
      (item : Item) (cmd running : Option String) (best_map : BestMap R) (h : History R)
      → ForContext cmd item.context
      → At h
      → At (history_of (explore service settings item cmd running best_map h))
  unfolding explore run_benchmark
  explore-At item cmd running best_map h m p = go _ (
      search_keeps At (run_benchmark service settings item.context cmd) service.passes
        service.request_count settings.search_method settings.stop_n
        (or_maybe item.max_concurrent settings.default_max)
        (λ req g q. (q.0, ((settings.engine_name, (settings.model_cmd, (q.0, m))), q.1)))
        service.fuel (or_default item.init_concurrent settings.default_init) h p)
    where
      go :
          (o : Option ((Option (Entry R) × Option (Entry R)) × History R))
          → After At o
          → At (
              history_of (elim o as (λ x. Outcome R) [
                | none ↦ ended h
                | some ((best, min_tested), g) ↦ returned (record {
                  running = running;
                  best_map = put_best item.context (best, min_tested) best_map;
                  history =
                      summary settings.engine_name settings.param_index item.context
                        (found (shown_entry best min_tested) (no_pass best min_tested))
                        cmd
                      ∷ flush
                      ∷ g;
                })
              ]))
      go none a = p
      go (some ((best, min_tested), g)) (a, b) = (a, b)

  restart_then-At :
      (item : Item) (cmd : String) (best_map : BestMap R) (h : History R)
      → ForContext (some cmd) item.context
      → At h
      → At (history_of (restart_then service settings item cmd best_map h))
  unfolding restart_then restart report_failure
  restart_then-At item cmd best_map h m (p, q) = elim (Bool-cases (service.starts h cmd)) [
    | inr down ↦ rw down (p, q)
    | inl up ↦ elim (Bool-cases (service.is_healthy (start cmd true ∷ h))) [
      | inr ill ↦ rw (up, ill) (p, q)
      | inl well ↦ rw (up, well) (warmed settings.warmup_enabled)
    ]
  ]
    where
      warmed :
          (enabled : Bool)
          → At (
              history_of (
                explore service settings item (some cmd) (some cmd) best_map (
                  if enabled
                  then warmup ∷ health true ∷ start cmd true ∷ h
                  else health true ∷ start cmd true ∷ h)))
      warmed true =
          explore-At item (some cmd) (some cmd) best_map (warmup ∷ health true ∷ start cmd true ∷ h)
            m (p, q)
      warmed false =
          explore-At item (some cmd) (some cmd) best_map (health true ∷ start cmd true ∷ h) m (p, q)

  run_command-At :
      (item : Item) (cmd : String) (run : Run R)
      → ForContext (some cmd) item.context
      → At run.history
      → At (history_of (run_command service settings item cmd run))
  unfolding run_command
  run_command-At item cmd run m p = go run.running
    where
      h : History R
      h = effective settings.engine_name item.context cmd ∷ run.history

      compared :
          (current : String) (same : Option Bool)
          → At (
              history_of (elim same as (λ x. Outcome R) [
                | none ↦ ended h
                | some true ↦ explore service settings item (some cmd) (some current) run.best_map h
                | some false ↦ restart_then service settings item cmd run.best_map (stop ∷ h)
              ]))
      compared current none = p
      compared current (some true) = explore-At item (some cmd) (some current) run.best_map h m p
      compared current (some false) = restart_then-At item cmd run.best_map (stop ∷ h) m p

      go :
          (running : Option String)
          → At (
              history_of (elim running as (λ x. Outcome R) [
                | none ↦ restart_then service settings item cmd run.best_map h
                | some current ↦ elim (cmds_are_equivalent service.shlex_split cmd current) [
                  | none ↦ ended h
                  | some true ↦
                      explore service settings item (some cmd) (some current) run.best_map h
                  | some false ↦ restart_then service settings item cmd run.best_map (stop ∷ h)
                ]
              ]))
      go none = restart_then-At item cmd run.best_map h m p
      go (some current) = compared current (cmds_are_equivalent service.shlex_split cmd current)

  run_context-At :
      (item : Item) (run : Run R)
      → (before after : List Item) → items ≡ before ++ item ∷ after
      → At run.history
      → At (history_of (run_context service settings item run))
  unfolding run_context
  run_context-At item run before after e p = go _ (
      ap (apply_override_args service.shlex_split settings.model_cmd)
        (effective_overrides-all settings.engine_name item))
    where
      go :
          (cmd : Option String)
          → cmd
            ≡ apply_override_args service.shlex_split settings.model_cmd
                (all_overrides settings.engine_name item)
          → At (
              history_of (elim cmd as (λ x. Outcome R) [
                | none ↦ ended run.history
                | some c ↦ run_command service settings item c run
              ]))
      go none f = p
      go (some c) f = run_command-At item c run (item, (before, (after, (e, (refl, sym f))))) p

  stop_running-At :
      (run : Run R) → At run.history → At (history_of (stop_running service settings run))
  unfolding stop_running
  stop_running-At run p = go run.running
    where
      go :
          (running : Option String)
          → At (
              history_of (elim running as (λ x. Outcome R) [
                | none ↦ returned run
                | some cmd ↦ returned (record run { history = stop ∷ run.history })
              ]))
      go none = p
      go (some cmd) = p

  pub run_contexts-At :
      (before todo : List Item) (run : Run R)
      → items ≡ before ++ todo
      → At run.history
      → At (history_of (run_contexts service settings todo run))
  unfolding run_contexts
  run_contexts-At before [] run e p = stop_running-At run p
  run_contexts-At before (item ∷ todo) run e p =
      next At (run_contexts service settings todo)
        (λ run' q.
          run_contexts-At (before ++ item ∷ []) todo run'
            (e ∙ sym (append_assoc before (item ∷ []) todo)) q)
        (run_context service settings item run) (run_context-At item run before todo e p)

  pub test_contexts-At :
      (todo : List Item) (run : Run R)
      → At run.history
      → At (history_of (test_contexts service settings todo run))
  unfolding test_contexts
  test_contexts-At [] run p = p
  test_contexts-At (item ∷ todo) run p =
      next At (test_contexts service settings todo) (test_contexts-At todo)
        (explore service settings item none none run.best_map run.history)
        (explore-At item none none run.best_map run.history tt p)
