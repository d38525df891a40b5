-- ===== src/PerfEval/Mode2/Closed.antt =====
-- The contexts of a command in `run_mode2` of llm-perf-eval.py leave no model running.
use dev_llmops.Prelude.{String, ◌≡◌, refl, Option, none, some, List, [], ◌∷◌}
use dev_llmops.PerfEval.Events.{Item, stop, Service, Settings, Run, Outcome, returned, ended}
use dev_llmops.PerfEval.Mode2.{explore, run_context, stop_running, run_contexts, test_contexts}
use dev_llmops.PerfEval.Mode2.Phases.{Phase, off}
use dev_llmops.PerfEval.Mode2.Orderly.{
  phase_of, phase, IsOrderly, Stays, explore-Stays, run_context-IsOrderly,
}

module _ {R : Type 0} (service : Service R) (settings : Settings) where
  -- Orderly to the end, where a run that returns leaves no model running.
  abbrev pub IsClosed : Outcome R → Type 0
  IsClosed (ended h) = (p : Phase) × (phase service settings h ≡ some p)
  IsClosed (returned run) = phase service settings run.history ≡ some off

  running-IsClosed :
      (run : Run R) (running : Option String)
      → phase service settings run.history ≡ some (phase_of running)
      → IsClosed (elim running [
        | none ↦ returned run
        | some cmd ↦ returned (record run { history = stop ∷ run.history })
      ])
  running-IsClosed run none p = p
  running-IsClosed run (some cmd) p = rw p refl

  stop_running-IsClosed :
      (run : Run R)
      → phase service settings run.history ≡ some (phase_of run.running)
      → IsClosed (stop_running service settings run)
  unfolding stop_running
  stop_running-IsClosed run p = running-IsClosed run run.running p

  after_context :
      (f : Run R → Outcome R)
      → ((run : Run R)
          → phase service settings run.history ≡ some (phase_of run.running)
          → IsClosed (f run))
      → (o : Outcome R) → IsOrderly service settings o
      → IsClosed (elim o [ ended h ↦ ended h | returned run ↦ f run ])
  after_context f k (ended h) q = q
  after_context f k (returned run) q = k run q

  pub run_contexts-IsClosed :
      (items : List Item) (run : Run R)
      → phase service settings run.history ≡ some (phase_of run.running)
      → IsClosed (run_contexts service settings items run)
  unfolding run_contexts
  run_contexts-IsClosed [] run p = stop_running-IsClosed run p
  run_contexts-IsClosed (item ∷ items) run p =
      after_context (run_contexts service settings items)
        (λ run' q. run_contexts-IsClosed items run' q) (run_context service settings item run)
        (run_context-IsOrderly service settings item run p)

  after_test :
      (f : Run R → Outcome R)
      → ((run : Run R) → phase service settings run.history ≡ some off → IsClosed (f run))
      → (o : Outcome R) → Stays service settings none o
      → IsClosed (elim o [ ended h ↦ ended h | returned run ↦ f run ])
  after_test f k (ended h) q = q
  after_test f k (returned run) (same, q) = k run q

  pub test_contexts-IsClosed :
      (items : List Item) (run : Run R)
      → phase service settings run.history ≡ some off
      → IsClosed (test_contexts service settings items run)
  unfolding test_contexts
  test_contexts-IsClosed [] run p = p
  test_contexts-IsClosed (item ∷ items) run p =
      after_test (test_contexts service settings items)
        (λ run' q. test_contexts-IsClosed items run' q)
        (explore service settings item none none run.best_map run.history)
        (explore-Stays service settings item none none run.best_map run.history tt p)
