-- ===== src/PerfEval/Mode2/Contexts.antt =====
-- The rows that the contexts of a command leave in the summary of `run_mode2` of llm-perf-eval.py.
use dev_llmops.Prelude.{
  String, ◌≡◌, refl, subst, Bool, true, false, Option, none, some, List, [], ◌∷◌, ◌++◌, append-nil,
  append_assoc, All,
}
use dev_llmops.PerfEval.Args.Total.{IsTotal, apply_override_args-total, cmds_are_equivalent-total}
use dev_llmops.PerfEval.Args.{cmds_are_equivalent}
use dev_llmops.PerfEval.Events.{
  stop, effective, Item, History, Service, Settings, Run, returned, ended,
}
use dev_llmops.PerfEval.Mode2.{
  effective_overrides, explore, restart_then, run_command, run_context, stop_running, run_contexts,
  test_contexts,
}
use dev_llmops.PerfEval.Mode2.Rows.{
  Row, rows, command_rows, Returns, IsBounded, and_then, row, explore-Returns, restart_then-Returns,
}

module _ {R : Type 0} (service : Service R) (settings : Settings)
    (total : IsTotal service.shlex_split) where
  run_command-Returns :
      (item : Item) (cmd : String) (run : Run R)
      → IsBounded service settings item
      → Returns
          (rows run.history ++ row service settings item ∷ [])
          (run_command service settings item cmd run)
  unfolding run_command
  run_command-Returns item cmd run bounded = go run.running
    where
      h : History R
      h = effective settings.engine_name item.context cmd ∷ run.history

      compared :
          (current : String) (same : Option Bool)
          → ((b : Bool) × (same ≡ some b))
          → Returns (rows run.history ++ row service settings item ∷ []) (elim same [
            | none ↦ ended h
            | some true ↦ explore service settings item (some cmd) (some current) run.best_map h
            | some false ↦ restart_then service settings item cmd run.best_map (stop ∷ h)
          ])
      compared current none (b, e) = absurd (cc)
      compared current (some true) q =
          explore-Returns service settings item (some cmd) (some current) run.best_map h bounded
      compared current (some false) q =
          restart_then-Returns service settings item cmd run.best_map (stop ∷ h) bounded

      go :
          (running : Option String)
          → Returns (rows run.history ++ row service settings item ∷ []) (elim running [
            | none ↦ restart_then service settings item cmd run.best_map h
            | some current ↦ elim (cmds_are_equivalent service.shlex_split cmd current) [
              | none ↦ ended h
              | some true ↦ explore service settings item (some cmd) (some current) run.best_map h
              | some false ↦ restart_then service settings item cmd run.best_map (stop ∷ h)
            ]
          ])
      go none = restart_then-Returns service settings item cmd run.best_map h bounded
      go (some current) =
          compared current _ (cmds_are_equivalent-total service.shlex_split total cmd current)

  run_context-Returns :
      (item : Item) (run : Run R)
      → IsBounded service settings item
      → Returns
          (rows run.history ++ row service settings item ∷ [])
          (run_context service settings item run)
  unfolding run_context
  run_context-Returns item run bounded =
      let (cmd, made) =
        apply_override_args-total service.shlex_split total settings.model_cmd
          (effective_overrides settings.engine_name item) in
      rw (made, run_context) (run_command-Returns item cmd run bounded)

  stop_running-Returns :
      (run : Run R) → Returns (rows run.history) (stop_running service settings run)
  unfolding stop_running
  stop_running-Returns run = go run.running
    where
      go :
          (running : Option String)
          → Returns (rows run.history) (elim running [
            | none ↦ returned run
            | some cmd ↦ returned (record run { history = stop ∷ run.history })
          ])
      go none = refl
      go (some cmd) = refl

  abbrev pub planned : List Item → List Row
  planned items = command_rows items settings.engine_name settings.param_index

  pub run_contexts-Returns :
      (items : List Item) (run : Run R) (rs : List Row)
      → rows run.history ≡ rs
      → All (IsBounded service settings) items
      → Returns (rs ++ planned items) (run_contexts service settings items run)
  unfolding run_contexts
  run_contexts-Returns [] run rs e bounded = rw (append-nil rs, ← e) (stop_running-Returns run)
  run_contexts-Returns (item ∷ items) run rs e (one, bounded) =
      and_then (rs ++ row service settings item ∷ []) (run_contexts service settings items)
        (rs ++ planned (item ∷ items))
        (λ run' q.
          subst (λ (qs : List Row). Returns qs (run_contexts service settings items run'))
            (append_assoc rs (row service settings item ∷ []) (planned items))
            (run_contexts-Returns items run' (rs ++ row service settings item ∷ []) q bounded))
        (run_context service settings item run) (rw⁻¹ e (run_context-Returns item run one))

  pub test_contexts-Returns :
      (items : List Item) (run : Run R) (rs : List Row)
      → rows run.history ≡ rs
      → All (IsBounded service settings) items
      → Returns (rs ++ planned items) (test_contexts service settings items run)
  unfolding test_contexts
  test_contexts-Returns [] run rs e bounded = rw (append-nil rs) e
  test_contexts-Returns (item ∷ items) run rs e (one, bounded) =
      and_then (rs ++ row service settings item ∷ []) (test_contexts service settings items)
        (rs ++ planned (item ∷ items))
        (λ run' q.
          subst (λ (qs : List Row). Returns qs (test_contexts service settings items run'))
            (append_assoc rs (row service settings item ∷ []) (planned items))
            (test_contexts-Returns items run' (rs ++ row service settings item ∷ []) q bounded))
        (explore service settings item none none run.best_map run.history)
        (rw⁻¹ e (explore-Returns service settings item none none run.best_map run.history one))
