-- ===== src/PerfEval/Book/Complete.antt =====
-- A whole run of mode 2 of llm-perf-eval.py and its workbook.
use dev_llmops.Prelude.{◌≡◌, Bool, false, ◌&&◌, some, List, ◌∷◌, All}
use dev_llmops.PerfEval.Args.Total.{IsTotal}
use dev_llmops.PerfEval.Events.{Item, Service, Settings, Outcome, returned, ended}
use dev_llmops.PerfEval.Workbook.{Metrics}
use dev_llmops.PerfEval.Writer.{Writer, new_writer}
use dev_llmops.PerfEval.Mode2.Engines.{EngineCommands, run_mode2}
use dev_llmops.PerfEval.Mode2.Rows.{Row, rows, all_rows, Returns, IsBounded}
use dev_llmops.PerfEval.Mode2.Complete.{run_mode2-rows}
use dev_llmops.PerfEval.Book.{Setup, record_history}
use dev_llmops.PerfEval.Book.Named.{history_of}
use dev_llmops.PerfEval.Book.Tracks.{Tracks}
use dev_llmops.PerfEval.Book.Kept.{run_mode2-recorded}

-- A run that returns with these rows, all of which the writer has taken.
abbrev pub IsSummarized : {V : Type 0} → Setup V → Bool → List Row → Outcome (Metrics V) → Type 0
IsSummarized setup bench_only rs (ended h) = ⊥
IsSummarized {V} setup bench_only rs (returned run) =
    (rows run.history ≡ rs)
    × ((w : Writer V) × ((record_history setup run.history (new_writer bench_only) ≡ some w)
          × Tracks run.history w.engines))

Returns-IsSummarized :
    {V : Type 0} (setup : Setup V) (bench_only : Bool) (rs : List Row) (o : Outcome (Metrics V))
    → Returns rs o
    → ((w : Writer V) × ((record_history setup (history_of o) (new_writer bench_only) ≡ some w)
          × Tracks (history_of o) w.engines))
    → IsSummarized setup bench_only rs o
Returns-IsSummarized setup bench_only rs (ended h) r k = r
Returns-IsSummarized setup bench_only rs (returned run) r k = (r, k)

-- Where `shlex.split` does not raise, there is a context, every context has a `max_concurrent`, the
-- searches have the fuel for it, and `bench_only` asks for no health check: the run returns, whatever the
-- service answers, and the rows that it gives to the summaries are one for each context of each command
-- of each engine, in their order, whether its model fails to start, is unhealthy, or is searched. The
-- writer takes all that the run gives it: no engine is missing. Afterwards it has just the engines that
-- were initialized, and keeps for each of them the index and context of the rows given to its summary
-- since then, in their order.
pub run_mode2-IsSummarized :
    {V : Type 0} (setup : Setup V)
    → IsTotal setup.shlex_split
    → (service : Service (Metrics V)) → IsTotal service.shlex_split
    → (settings : Settings) (item : Item) (items : List Item) (engines : List EngineCommands)
    → (settings.bench_only && settings.bench_only_healthcheck) ≡ false
    → All (IsBounded service settings) (item ∷ items)
    → IsSummarized setup settings.bench_only
        (all_rows (item ∷ items) engines)
        (run_mode2 service settings (item ∷ items) engines)
run_mode2-IsSummarized setup takes service total settings item items engines unasked bounded =
    Returns-IsSummarized setup settings.bench_only (all_rows (item ∷ items) engines)
      (run_mode2 service settings (item ∷ items) engines)
      (run_mode2-rows service total settings item items engines unasked bounded)
      (run_mode2-recorded setup takes service settings (item ∷ items) engines)
