-- ===== src/PerfEval/Mode2/Orderly.antt =====
-- What the service has to be when `run_mode2` of llm-perf-eval.py benchmarks it.
use dev_llmops.Prelude.{
  ℕ, String, ◌≡◌, refl, Bool, true, false, Option, none, some, ◌∷◌, if◌then◌else◌, inl, inr,
  Bool-cases, Option-cases, arith,
}
use dev_llmops.Prelude.Dict.{eq_iff}
use dev_llmops.PerfEval.Search.{Entry}
use dev_llmops.PerfEval.Args.{cmds_are_equivalent}
use dev_llmops.PerfEval.Events.{
  effective, BestMap, found, Context, Item, start, health, stop, warmup, flush, bench, summary,
  History, Service, Settings, Run, Outcome, returned, ended,
}
use dev_llmops.PerfEval.Mode2.{
  or_default, or_maybe, shown_entry, no_pass, report_failure, explore, run_benchmark, restart,
  restart_then, run_command, put_best, run_context,
}
use dev_llmops.PerfEval.Search.Keeps.{After, search_keeps}
use dev_llmops.PerfEval.Mode2.Phases.{Phase, off, ready, serves, replay}

abbrev pub phase_of : Option String → Phase
phase_of none = off
phase_of (some c) = ready c

module _ {R : Type 0} (service : Service R) (settings : Settings) where
  abbrev pub equivalent : String → String → Bool
  equivalent c1 c2 = elim (cmds_are_equivalent service.shlex_split c1 c2) [
    | none ↦ false
    | some b ↦ b
  ]

  abbrev pub phase : History R → Option Phase
  phase h = replay equivalent h

  -- No event is out of order, and the model is as the run takes it to be.
  abbrev pub IsOrderly : Outcome R → Type 0
  IsOrderly (ended h) = (p : Phase) × (phase h ≡ some p)
  IsOrderly (returned run) = phase run.history ≡ some (phase_of run.running)

  -- A benchmark that meets a model that serves its command, where it has one.
  abbrev pub Served : Option String → Phase → Type 0
  Served none p = Unit
  Served (some cmd) p = serves equivalent cmd p ≡ true

  bench_keeps :
      (cmd : Option String) (p : Phase) (context : Context) (req : ℕ × ℕ) (result : Option R)
      (h : History R)
      → Served cmd p
      → phase h ≡ some p
      → phase (bench cmd context req result ∷ h) ≡ some p
  bench_keeps none p context req result h s e = rw e refl
  bench_keeps (some cmd) p context req result h s e = rw (e, s) refl

  -- Orderly, with the model as it was.
  abbrev pub Stays : Option String → Outcome R → Type 0
  Stays running (ended h) = (p : Phase) × (phase h ≡ some p)
  Stays running (returned run) =
      (run.running ≡ running) × (phase run.history ≡ some (phase_of running))

  pub explore-Stays :
      (item : Item) (cmd running : Option String) (best_map : BestMap R) (h : History R)
      → Served cmd (phase_of running)
      → phase h ≡ some (phase_of running)
      → Stays running (explore service settings item cmd running best_map h)
  unfolding explore run_benchmark
  explore-Stays item cmd running best_map h s p = go _ (
      search_keeps (λ g. phase g ≡ some (phase_of running))
        (run_benchmark service settings item.context cmd) service.passes service.request_count
        settings.search_method settings.stop_n (or_maybe item.max_concurrent settings.default_max)
        (λ req g q.
          bench_keeps cmd (phase_of running) item.context req (service.result_of g item.context req)
            g s q)
        service.fuel (or_default item.init_concurrent settings.default_init) h p)
    where
      go :
          (o : Option ((Option (Entry R) × Option (Entry R)) × History R))
          → After (λ g. phase g ≡ some (phase_of running)) o
          → Stays running (elim o [
            | none ↦ ended h
            | some ((best, min_tested), g) ↦ returned (record {
              running = running;
              best_map = put_best item.context (best, min_tested) best_map;
              history =
                  summary settings.engine_name settings.param_index item.context
                    (found (shown_entry best min_tested) (no_pass best min_tested))
                    cmd
                  ∷ flush
                  ∷ g;
            })
          ])
      go none a = (phase_of running, p)
      go (some ((best, min_tested), g)) a = (refl, rw a refl)

  Stays-IsOrderly : (running : Option String) (o : Outcome R) → Stays running o → IsOrderly o
  Stays-IsOrderly running (ended h) q = q
  Stays-IsOrderly running (returned run) (same, q) = rw same q

  explore-IsOrderly :
      (item : Item) (cmd running : Option String) (best_map : BestMap R) (h : History R)
      → Served cmd (phase_of running)
      → phase h ≡ some (phase_of running)
      → IsOrderly (explore service settings item cmd running best_map h)
  explore-IsOrderly item cmd running best_map h s p =
      Stays-IsOrderly running _ (explore-Stays item cmd running best_map h s p)

  warmed :
      (enabled : Bool) (cmd : String) (h : History R) (p : Phase)
      → phase h ≡ some p
      → phase (
          if enabled
          then warmup ∷ health true ∷ start cmd true ∷ h
          else health true ∷ start cmd true ∷ h)
        ≡ some (ready cmd)
  warmed true cmd h p e = rw e refl
  warmed false cmd h p e = rw e refl

  restart_then-IsOrderly :
      (item : Item) (cmd : String) (best_map : BestMap R) (h : History R) (p : Phase)
      → phase h ≡ some p
      → IsOrderly (restart_then service settings item cmd best_map h)
  unfolding restart_then restart report_failure
  restart_then-IsOrderly item cmd best_map h p e = elim (Bool-cases (service.starts h cmd)) [
    | inr down ↦ rw (down, e) refl
    | inl up ↦ elim (Bool-cases (service.is_healthy (start cmd true ∷ h))) [
      | inr ill ↦ rw (up, ill, e) refl
      | inl well ↦
          rw (up, well)
            (explore-IsOrderly item (some cmd) (some cmd) best_map _
              (rw ((eq_iff cmd cmd).1 refl) refl) (warmed settings.warmup_enabled cmd h p e))
    ]
  ]

  equivalent-serves :
      (cmd current : String)
      → cmds_are_equivalent service.shlex_split cmd current ≡ some true
      → serves equivalent cmd (ready current) ≡ true
  equivalent-serves cmd current e = rw (e, equivalent) (ground arith)

  -- The branch of a context that finds the model running.
  current_then-IsOrderly :
      (item : Item) (cmd current : String) (best_map : BestMap R) (h : History R)
      (same : Option Bool)
      → cmds_are_equivalent service.shlex_split cmd current ≡ same
      → phase h ≡ some (ready current)
      → IsOrderly (elim same [
        | none ↦ ended h
        | some true ↦ explore service settings item (some cmd) (some current) best_map h
        | some false ↦ restart_then service settings item cmd best_map (stop ∷ h)
      ])
  current_then-IsOrderly item cmd current best_map h none e p = (ready current, p)
  current_then-IsOrderly item cmd current best_map h (some true) e p =
      explore-IsOrderly item (some cmd) (some current) best_map h (equivalent-serves cmd current e)
        p
  current_then-IsOrderly item cmd current best_map h (some false) e p =
      restart_then-IsOrderly item cmd best_map (stop ∷ h) off (rw p refl)

  run_command-IsOrderly :
      (item : Item) (cmd : String) (run : Run R)
      → phase run.history ≡ some (phase_of run.running)
      → IsOrderly (run_command service settings item cmd run)
  unfolding run_command
  run_command-IsOrderly item cmd run p =
      let h = effective settings.engine_name item.context cmd ∷ run.history in
      elim (Option-cases run.running) [
        | inl idle ↦
            rw idle (restart_then-IsOrderly item cmd run.best_map h off (rw (p, idle) refl))
        | inr (current, busy) ↦
            rw busy
              (current_then-IsOrderly item cmd current run.best_map h _ refl (rw (p, busy) refl))
      ]

  effective-IsOrderly :
      (item : Item) (run : Run R) (cmd : Option String)
      → phase run.history ≡ some (phase_of run.running)
      → IsOrderly
          (elim cmd [ none ↦ ended run.history | some c ↦ run_command service settings item c run ])
  effective-IsOrderly item run none p = (phase_of run.running, p)
  effective-IsOrderly item run (some c) p = run_command-IsOrderly item c run p

  pub run_context-IsOrderly :
      (item : Item) (run : Run R)
      → phase run.history ≡ some (phase_of run.running)
      → IsOrderly (run_context service settings item run)
  unfolding run_context
  run_context-IsOrderly item run p = effective-IsOrderly item run _ p
