-- ===== src/PerfEval/Book/Named.antt =====
-- Whatever happens in `run_mode2` of llm-perf-eval.py, it names an engine to the writer only after
-- `init_engine`.
use dev_llmops.Prelude.{
  String, ◌≡◌, Bool, true, false, ◌||◌, Option, none, some, List, [], ◌∷◌, if◌then◌else◌, inl, inr,
  Bool-cases,
}
use dev_llmops.Prelude.Dict.{str_eq}
use dev_llmops.PerfEval.Search.{Entry}
use dev_llmops.PerfEval.Search.Keeps.{After, search_keeps}
use dev_llmops.PerfEval.Args.{cmds_are_equivalent}
use dev_llmops.PerfEval.Events.{
  Item, BestMap, start, health, stop, warmup, flush, effective, summary, found, init_engine,
  register, History, Service, Settings, Run, Outcome, returned, ended,
}
use dev_llmops.PerfEval.Mode2.{
  or_default, or_maybe, shown_entry, no_pass, put_best, run_benchmark, explore, restart,
  restart_then, report_failure, run_command, run_context, stop_running, run_contexts, test_contexts,
}

abbrev pub inits : {R : Type 0} → String → History R → Bool
inits name [] = false
inits name (init_engine n ∷ h) = str_eq n name || inits name h
inits name (e ∷ h) = inits name h

-- Each engine that an event names was initialized before.
abbrev pub IsNamed : {R : Type 0} → History R → Type 0
IsNamed [] = Unit
IsNamed (register name cmd ∷ h) = (inits name h ≡ true) × IsNamed h
IsNamed (summary name n context s cmd ∷ h) = (inits name h ≡ true) × IsNamed h
IsNamed (e ∷ h) = IsNamed h

abbrev pub history_of : {R : Type 0} → Outcome R → History R
history_of (ended h) = h
history_of (returned run) = run.history

-- The engine that the run is at is initialized too.
abbrev pub IsAt : {R : Type 0} → String → History R → Type 0
IsAt name h = (inits name h ≡ true) × IsNamed h

module _ {R : Type 0} where
  pub next :
      (P : History R → Type 0) (f : Run R → Outcome R)
      → ((run : Run R) → P run.history → P (history_of (f run)))
      → (o : Outcome R) → P (history_of o)
      → P (history_of (elim o [ ended g ↦ ended g | returned run ↦ f run ]))
  next P f k (ended g) q = q
  next P f k (returned run) q = k run q

module _ {R : Type 0} (service : Service R) (settings : Settings) where
  abbrev At : History R → Type 0
  At h = IsAt settings.engine_name h

  explore-At :
      (item : Item) (cmd running : Option String) (best_map : BestMap R) (h : History R)
      → At h
      → At (history_of (explore service settings item cmd running best_map h))
  unfolding explore run_benchmark
  explore-At item cmd running best_map h p = go _ (
      search_keeps At (run_benchmark service settings item.context cmd) service.passes
        service.request_count settings.search_method settings.stop_n
        (or_maybe item.max_concurrent settings.default_max) (λ req g q. q) service.fuel
        (or_default item.init_concurrent settings.default_init) h p)
    where
      go :
          (o : Option ((Option (Entry R) × Option (Entry R)) × History R))
          → After At o
          → At (
              history_of (elim o as (λ x. Outcome R) [
                | none ↦ ended h
                | some ((best, min_tested), g) ↦ returned (record {
                  running = running;
                  best_map = put_best item.context (best, min_tested) best_map;
                  history =
                      summary settings.engine_name settings.param_index item.context
                        (found (shown_entry best min_tested) (no_pass best min_tested))
                        cmd
                      ∷ flush
                      ∷ g;
                })
              ]))
      go none a = p
      go (some ((best, min_tested), g)) (a, b) = (a, (a, b))

  restart_then-At :
      (item : Item) (cmd : String) (best_map : BestMap R) (h : History R)
      → At h
      → At (history_of (restart_then service settings item cmd best_map h))
  unfolding restart_then restart report_failure
  restart_then-At item cmd best_map h (p, q) = elim (Bool-cases (service.starts h cmd)) [
    | inr down ↦ rw down (p, (p, q))
    | inl up ↦ elim (Bool-cases (service.is_healthy (start cmd true ∷ h))) [
      | inr ill ↦ rw (up, ill) (p, (p, q))
      | inl well ↦ rw (up, well) (warmed settings.warmup_enabled)
    ]
  ]
    where
      warmed :
          (enabled : Bool)
          → At (
              history_of (
                explore service settings item (some cmd) (some cmd) best_map (
                  if enabled
                  then warmup ∷ health true ∷ start cmd true ∷ h
                  else health true ∷ start cmd true ∷ h)))
      warmed true =
          explore-At item (some cmd) (some cmd) best_map (warmup ∷ health true ∷ start cmd true ∷ h)
            (p, q)
      warmed false =
          explore-At item (some cmd) (some cmd) best_map (health true ∷ start cmd true ∷ h) (p, q)

  run_command-At :
      (item : Item) (cmd : String) (run : Run R)
      → At run.history
      → At (history_of (run_command service settings item cmd run))
  unfolding run_command
  run_command-At item cmd run p = go run.running
    where
      h : History R
      h = effective settings.engine_name item.context cmd ∷ run.history

      compared :
          (current : String) (same : Option Bool)
          → At (
              history_of (elim same as (λ x. Outcome R) [
                | none ↦ ended h
                | some true ↦ explore service settings item (some cmd) (some current) run.best_map h
                | some false ↦ restart_then service settings item cmd run.best_map (stop ∷ h)
              ]))
      compared current none = p
      compared current (some true) = explore-At item (some cmd) (some current) run.best_map h p
      compared current (some false) = restart_then-At item cmd run.best_map (stop ∷ h) p

      go :
          (running : Option String)
          → At (
              history_of (elim running as (λ x. Outcome R) [
                | none ↦ restart_then service settings item cmd run.best_map h
                | some current ↦ elim (cmds_are_equivalent service.shlex_split cmd current) [
                  | none ↦ ended h
                  | some true ↦
                      explore service settings item (some cmd) (some current) run.best_map h
                  | some false ↦ restart_then service settings item cmd run.best_map (stop ∷ h)
                ]
              ]))
      go none = restart_then-At item cmd run.best_map h p
      go (some current) = compared current (cmds_are_equivalent service.shlex_split cmd current)

  run_context-At :
      (item : Item) (run : Run R)
      → At run.history
      → At (history_of (run_context service settings item run))
  unfolding run_context
  run_context-At item run p = go _
    where
      go :
          (cmd : Option String)
          → At (
              history_of (elim cmd as (λ x. Outcome R) [
                | none ↦ ended run.history
                | some c ↦ run_command service settings item c run
              ]))
      go none = p
      go (some c) = run_command-At item c run p

  stop_running-At :
      (run : Run R) → At run.history → At (history_of (stop_running service settings run))
  unfolding stop_running
  stop_running-At run p = go run.running
    where
      go :
          (running : Option String)
          → At (
              history_of (elim running as (λ x. Outcome R) [
                | none ↦ returned run
                | some cmd ↦ returned (record run { history = stop ∷ run.history })
              ]))
      go none = p
      go (some cmd) = p

  pub run_contexts-At :
      (items : List Item) (run : Run R)
      → At run.history
      → At (history_of (run_contexts service settings items run))
  unfolding run_contexts
  run_contexts-At [] run p = stop_running-At run p
  run_contexts-At (item ∷ items) run p =
      next At (run_contexts service settings items) (run_contexts-At items)
        (run_context service settings item run) (run_context-At item run p)

  pub test_contexts-At :
      (items : List Item) (run : Run R)
      → At run.history
      → At (history_of (test_contexts service settings items run))
  unfolding test_contexts
  test_contexts-At [] run p = p
  test_contexts-At (item ∷ items) run p =
      next At (test_contexts service settings items) (test_contexts-At items)
        (explore service settings item none none run.best_map run.history)
        (explore-At item none none run.best_map run.history p)
