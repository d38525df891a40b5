-- ===== src/PerfEval/Book/Kept.antt =====
-- What the writer of llm-perf-eval.py makes of the events of `run_mode2`.
use dev_llmops.Prelude.{ℕ, String, ◌≡◌, refl, ◌∙◌, true, Option, some, List, [], ◌∷◌, ◌++◌}
use dev_llmops.Prelude.Dict.{get, put}
use dev_llmops.PerfEval.Args.Total.{IsTotal, parse_model_cmd_args-total}
use dev_llmops.PerfEval.Events.{
  Context, Item, Summary, failed, found, Event, start, health, outside_health, stop, logs, warmup,
  outside_warmup, flush, write_summaries, finalize, marker, failure_logs, bench, summary,
  init_engine, register, detail_sheet, effective, highlight, History, Service, Settings,
}
use dev_llmops.PerfEval.Workbook.{Metrics}
use dev_llmops.PerfEval.Writer.{
  EngineData, Writer, new_writer, init_engine as add_engine, put_engine, on_engine,
  register_command, add_summary_row, create_detail_sheet,
}
use dev_llmops.PerfEval.Writer.Summaries.{write_all_summaries}
use dev_llmops.PerfEval.Mode2.Engines.{EngineCommands, run_mode2}
use dev_llmops.PerfEval.Book.{Setup, row_of, on_detail, record_event, record_history}
use dev_llmops.PerfEval.Book.Named.{inits, IsNamed, history_of}
use dev_llmops.PerfEval.Book.Runs.{run_mode2-IsNamed}
use dev_llmops.PerfEval.Book.Tracks.{
  key_of, Tracks, there, Tracks-init, Tracks-put, Tracks-summary, write_engines-keeps,
}

module _ {V : Type 0} (setup : Setup V) (total : IsTotal setup.shlex_split) where
  -- The writer after an event, where it does not raise, tracks the events.
  abbrev Records : Event (Metrics V) → History (Metrics V) → Writer V → Type 0
  Records e h w =
      (w' : Writer V) × ((record_event setup e h w ≡ some w') × Tracks (e ∷ h) w'.engines)

  Records-init :
      (n : String) (h : History (Metrics V)) (w : Writer V)
      → Tracks h w.engines
      → Records (init_engine n) h w
  unfolding record_event add_engine put_engine
  Records-init n h w t = (_, (refl, Tracks-init n _ h w.engines refl t))

  Records-register :
      (n cmd : String) (h : History (Metrics V)) (w : Writer V)
      → inits n h ≡ true
      → Tracks h w.engines
      → Records (register n cmd) h w
  unfolding record_event register_command on_engine
  Records-register n cmd h w known t =
      let (params, parsed) = parse_model_cmd_args-total setup.shlex_split total cmd in
      let (engine, here) = there (get n w.engines) ((t n).0 ∙ known) in
      let engine' : EngineData V = record engine {
        commands_params = engine.commands_params ++ params ∷ [];
      } in
      (
        record w { engines = put n engine' w.engines },
        (
          rw (parsed, here, register_command, on_engine) refl,
          Tracks-put n engine engine' h w.engines here refl t,
        ),
      )

  key_of-row_of :
      (n : String) (index : ℕ) (context : Context) (s : Summary (Metrics V)) (cmd : Option String)
      → key_of (row_of setup n index context s cmd) ≡ (index, context)
  unfolding row_of
  key_of-row_of n index context (failed f) cmd = refl
  key_of-row_of n index context (found best no_pass) cmd = refl

  Records-summary :
      (n : String) (index : ℕ) (context : Context) (s : Summary (Metrics V)) (cmd : Option String)
      (h : History (Metrics V)) (w : Writer V)
      → inits n h ≡ true
      → Tracks h w.engines
      → Records (summary n index context s cmd) h w
  unfolding record_event add_summary_row on_engine
  Records-summary n index context s cmd h w known t =
      let (engine, here) = there (get n w.engines) ((t n).0 ∙ known) in
      let row = row_of setup n index context s cmd in
      let engine' : EngineData V = record engine {
        summary_rows = engine.summary_rows ++ row ∷ [];
      } in
      (
        record w { engines = put n engine' w.engines },
        (
          rw (here, add_summary_row, on_engine) refl,
          Tracks-summary n engine row index context h w.engines s cmd here
              (key_of-row_of n index context s cmd) t,
        ),
      )

  Records-write :
      (h : History (Metrics V)) (w : Writer V) → Tracks h w.engines → Records write_summaries h w
  unfolding record_event write_all_summaries
  Records-write h w t =
      let (engines, (written, same)) =
        write_engines-keeps setup.shlex_split total w.bench_only w.engines in
      (
        record w { engines = engines },
        (
          rw (written, write_all_summaries) refl,
          λ name. ((same name).0 ∙ (t name).0, (same name).1 ∙ (t name).1),
        ),
      )

  record_event-Records :
      (e : Event (Metrics V)) (h : History (Metrics V)) (w : Writer V)
      → IsNamed (e ∷ h)
      → Tracks h w.engines
      → Records e h w
  unfolding record_event on_detail create_detail_sheet
  record_event-Records (init_engine n) h w named t = Records-init n h w t
  record_event-Records (register n cmd) h w named t = Records-register n cmd h w named.0 t
  record_event-Records (summary n index context s cmd) h w named t =
      Records-summary n index context s cmd h w named.0 t
  record_event-Records write_summaries h w named t = Records-write h w t
  record_event-Records (start cmd ok) h w named t = (_, (refl, t))
  record_event-Records (health ok) h w named t = (_, (refl, t))
  record_event-Records (outside_health ok) h w named t = (_, (refl, t))
  record_event-Records stop h w named t = (_, (refl, t))
  record_event-Records logs h w named t = (_, (refl, t))
  record_event-Records warmup h w named t = (_, (refl, t))
  record_event-Records outside_warmup h w named t = (_, (refl, t))
  record_event-Records flush h w named t = (_, (refl, t))
  record_event-Records finalize h w named t = (_, (refl, t))
  record_event-Records (marker context f) h w named t = (_, (refl, t))
  record_event-Records (failure_logs f) h w named t = (_, (refl, t))
  record_event-Records (bench cmd context req result) h w named t = (_, (refl, t))
  record_event-Records (detail_sheet n index cmd) h w named t = (_, (refl, t))
  record_event-Records (effective n context cmd) h w named t = (_, (refl, t))
  record_event-Records (highlight best_map items) h w named t = (_, (refl, t))

  IsNamed-rest : (e : Event (Metrics V)) (h : History (Metrics V)) → IsNamed (e ∷ h) → IsNamed h
  IsNamed-rest (register n cmd) h named = named.1
  IsNamed-rest (summary n index context s cmd) h named = named.1
  IsNamed-rest (init_engine n) h named = named
  IsNamed-rest write_summaries h named = named
  IsNamed-rest (start cmd ok) h named = named
  IsNamed-rest (health ok) h named = named
  IsNamed-rest (outside_health ok) h named = named
  IsNamed-rest stop h named = named
  IsNamed-rest logs h named = named
  IsNamed-rest warmup h named = named
  IsNamed-rest outside_warmup h named = named
  IsNamed-rest flush h named = named
  IsNamed-rest finalize h named = named
  IsNamed-rest (marker context f) h named = named
  IsNamed-rest (failure_logs f) h named = named
  IsNamed-rest (bench cmd context req result) h named = named
  IsNamed-rest (detail_sheet n index cmd) h named = named
  IsNamed-rest (effective n context cmd) h named = named
  IsNamed-rest (highlight best_map items) h named = named

  record_history-Tracks :
      (h : History (Metrics V)) (w : Writer V)
      → Tracks [] w.engines
      → IsNamed h
      → (w' : Writer V) × ((record_history setup h w ≡ some w') × Tracks h w'.engines)
  unfolding record_history
  record_history-Tracks [] w t named = (w, (refl, t))
  record_history-Tracks (e ∷ h) w t named =
      let (v, (done, tracks)) = record_history-Tracks h w t (IsNamed-rest e h named) in
      let (w', (one, next)) = record_event-Records e h v named tracks in
      (w', (rw (done, record_history) one, next))

-- Where `shlex.split` does not raise, the writer takes all that a run of mode 2 gives it, whatever the
-- service answers and wherever the run ends: no engine is missing. Afterwards it has the engines that
-- the run has come to, and keeps for each of them the index and context of the rows given to its summary
-- since it was initialized, in their order.
pub run_mode2-recorded :
    {V : Type 0} (setup : Setup V)
    → IsTotal setup.shlex_split
    → (service : Service (Metrics V)) (settings : Settings) (items : List Item)
      (engines : List EngineCommands)
    → let h = history_of (run_mode2 service settings items engines) in
      (w : Writer V) × ((record_history setup h (new_writer settings.bench_only) ≡ some w)
        × Tracks h w.engines)
unfolding new_writer get
run_mode2-recorded setup total service settings items engines =
    record_history-Tracks setup total _ (new_writer settings.bench_only) (λ name. (refl, refl))
      (run_mode2-IsNamed service settings items engines)
