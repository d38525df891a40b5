-- ===== src/PerfEval/Mode2/Complete.antt =====
-- The whole run of `run_mode2` in llm-perf-eval.py ends with a summary of every context.
use dev_llmops.Prelude.{
  ℕ, suc, String, ◌≡◌, refl, subst, Bool, true, false, ◌&&◌, List, [], ◌∷◌, ◌++◌, append-nil,
  append_assoc, All, if◌then◌else◌,
}
use dev_llmops.PerfEval.Args.Total.{IsTotal, parse_model_cmd_args-total}
use dev_llmops.PerfEval.Events.{
  Item, flush, write_summaries, register, detail_sheet, init_engine, outside_warmup, History,
  Service, Settings, Outcome, returned, ended,
}
use dev_llmops.PerfEval.Mode2.{run_contexts, test_contexts}
use dev_llmops.PerfEval.Mode2.Engines.{
  EngineCommands, idle, finish_command, then_finish, explore_outside, explore_command,
  explore_commands, explore_engines, run_mode2,
}
use dev_llmops.PerfEval.Mode2.Rows.{Row, rows, engine_rows, all_rows, Returns, IsBounded, and_then}
use dev_llmops.PerfEval.Mode2.Contexts.{planned, run_contexts-Returns, test_contexts-Returns}

module _ {R : Type 0} (service : Service R) (total : IsTotal service.shlex_split) where
  then_finish-Returns :
      (settings : Settings) (items : List Item) (rs : List Row) (o : Outcome R)
      → Returns rs o
      → Returns rs (then_finish service settings items o)
  unfolding then_finish finish_command idle
  then_finish-Returns settings items rs (ended h) q = q
  then_finish-Returns settings items rs (returned run) q = q

  explore_outside-Returns :
      (settings : Settings) (items : List Item) (h : History R)
      → settings.bench_only_healthcheck ≡ false
      → All (IsBounded service settings) items
      → Returns
          (rows h ++ planned service settings total items)
          (explore_outside service settings items h)
  unfolding explore_outside idle
  explore_outside-Returns settings items h unasked bounded =
      rw (unasked, explore_outside)
        (then_finish-Returns settings items _ _ (warmed settings.warmup_enabled))
    where
      warmed :
          (enabled : Bool)
          → Returns (rows h ++ planned service settings total items) (
              test_contexts service settings items
                (idle (if enabled then outside_warmup ∷ h else h)))
      warmed true =
          test_contexts-Returns service settings total items (idle (outside_warmup ∷ h)) (rows h)
            refl bounded
      warmed false =
          test_contexts-Returns service settings total items (idle h) (rows h) refl bounded

  explore_command-Returns :
      (settings : Settings) (items : List Item) (h : History R)
      → (settings.bench_only && settings.bench_only_healthcheck) ≡ false
      → All (IsBounded service settings) items
      → Returns
          (rows h ++ planned service settings total items)
          (explore_command service settings items h)
  unfolding explore_command idle
  explore_command-Returns settings items h unasked bounded =
      let (params, parsed) =
        parse_model_cmd_args-total service.shlex_split total settings.model_cmd in
      rw (parsed, explore_command) (go settings.bench_only unasked)
    where
      g : History R
      g =
          detail_sheet settings.engine_name settings.param_index settings.model_cmd
          ∷ register settings.engine_name settings.model_cmd
          ∷ h

      go :
          (only : Bool)
          → (only && settings.bench_only_healthcheck) ≡ false
          → Returns (rows h ++ planned service settings total items) (
              if only
              then explore_outside service settings items g
              else then_finish service settings items
                  (run_contexts service settings items (idle g)))
      go true e = explore_outside-Returns settings items g e bounded
      go false e =
          then_finish-Returns settings items _ _
            (run_contexts-Returns service settings total items (idle g) (rows h) refl bounded)

  module _ (settings : Settings) (items : List Item)
      (unasked : (settings.bench_only && settings.bench_only_healthcheck) ≡ false)
      (bounded : All (IsBounded service settings) items) where
    explore_commands-Returns :
        (name : String) (n : ℕ) (cmds : List String) (h : History R) (rs : List Row)
        → rows h ≡ rs
        → Returns
            (rs ++ engine_rows items name n cmds)
            (explore_commands service settings items name n cmds h)
    unfolding explore_commands idle
    explore_commands-Returns name n [] h rs e = rw (append-nil rs) e
    explore_commands-Returns name n (cmd ∷ cmds) h rs e =
        let s : Settings = record settings {
          engine_name = name;
          model_cmd = cmd;
          param_index = n;
        } in
        let now = planned service s total items in
        and_then (rs ++ now)
          (λ run. explore_commands service settings items name (suc n) cmds run.history)
          (rs ++ engine_rows items name n (cmd ∷ cmds))
          (λ run q.
            subst
              (λ (qs : List Row).
                Returns qs (explore_commands service settings items name (suc n) cmds run.history))
              (append_assoc rs now (engine_rows items name (suc n) cmds))
              (explore_commands-Returns name (suc n) cmds run.history (rs ++ now) q))
          (explore_command service s items h)
          (rw⁻¹ e (explore_command-Returns s items h unasked bounded))

    explore_engines-Returns :
        (engines : List EngineCommands) (h : History R) (rs : List Row)
        → rows h ≡ rs
        → Returns (rs ++ all_rows items engines) (explore_engines service settings items engines h)
    unfolding explore_engines idle
    explore_engines-Returns [] h rs e = rw (append-nil rs) e
    explore_engines-Returns (g ∷ engines) h rs e =
        let now = engine_rows items g.name 1 g.commands in
        and_then (rs ++ now) (λ run. explore_engines service settings items engines run.history)
          (rs ++ all_rows items (g ∷ engines))
          (λ run q.
            subst
              (λ (qs : List Row).
                Returns qs (explore_engines service settings items engines run.history))
              (append_assoc rs now (all_rows items engines))
              (explore_engines-Returns engines run.history (rs ++ now) q))
          (explore_commands service settings items g.name 1 g.commands (init_engine g.name ∷ h))
          (explore_commands-Returns g.name 1 g.commands (init_engine g.name ∷ h) rs e)

  -- Where `shlex.split` does not raise, there is a context, every context has a `max_concurrent`, the
  -- searches have the fuel for it, and `bench_only` asks for no health check: the run returns, whatever
  -- the service answers, and the rows that it gives to the summaries are one for each context of each
  -- command of each engine, in their order, whether its model fails to start, is unhealthy, or is
  -- searched.
  pub run_mode2-rows :
      (settings : Settings) (item : Item) (items : List Item) (engines : List EngineCommands)
      → (settings.bench_only && settings.bench_only_healthcheck) ≡ false
      → All (IsBounded service settings) (item ∷ items)
      → Returns
          (all_rows (item ∷ items) engines)
          (run_mode2 service settings (item ∷ items) engines)
  unfolding run_mode2 idle
  run_mode2-rows settings item items engines unasked bounded =
      and_then (all_rows (item ∷ items) engines)
        (λ run. returned (idle (flush ∷ write_summaries ∷ run.history)))
        (all_rows (item ∷ items) engines) (λ run q. q)
        (explore_engines service settings (item ∷ items) engines [])
        (explore_engines-Returns settings (item ∷ items) unasked bounded engines [] [] refl)
