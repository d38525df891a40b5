-- ===== src/PerfEval/Book/Tracks.antt =====
-- The engines and rows that the writer of llm-perf-eval.py keeps.
use dev_llmops.Prelude.{
  ℕ, String, ◌≡◌, refl, ap, subst, ◌∙◌, Bool, true, false, Option, none, some, List, [], ◌∷◌, ◌++◌,
  map, map-append, if◌then◌else◌, inl, inr, Bool-cases,
}
use dev_llmops.Prelude.Dict.{Dict, get, put, get-put, str_eq, eq_iff}
use dev_llmops.PerfEval.Args.{collect_all_param_keys}
use dev_llmops.PerfEval.Args.Total.{IsTotal}
use dev_llmops.PerfEval.Events.{Context, Summary, summary, init_engine, History}
use dev_llmops.PerfEval.Workbook.{Metrics}
use dev_llmops.PerfEval.Writer.{SummaryRow, EngineData}
use dev_llmops.PerfEval.Writer.Summaries.{
  write_engine, write_engines, write_bench_only, write_managed, params_only, arrange,
}
use dev_llmops.PerfEval.Writer.Written.{row_params_list-total}
use dev_llmops.PerfEval.Book.Named.{inits}

-- The rows given to the summary of an engine since it was last initialized.
abbrev pub kept : {R : Type 0} → String → History R → List (ℕ × Context)
kept name [] = []
kept name (init_engine n ∷ h) = if str_eq n name then [] else kept name h
kept name (summary n index context s cmd ∷ h) =
    if str_eq n name then kept name h ++ (index, context) ∷ [] else kept name h
kept name (e ∷ h) = kept name h

module _ {V : Type 0} where
  abbrev pub key_of : SummaryRow V → ℕ × Context
  key_of row = (row.param_index, (row.input_ctx, row.output_ctx))

  abbrev pub kept_rows : Option (EngineData V) → List (ℕ × Context)
  kept_rows none = []
  kept_rows (some engine) = map key_of engine.summary_rows

  abbrev pub is_there : Option (EngineData V) → Bool
  is_there none = false
  is_there (some engine) = true

  -- The writer has the engines that were initialized, with their rows.
  abbrev pub Tracks : History (Metrics V) → Dict (EngineData V) → Type 0
  Tracks h engines =
      (name : String)
      → (is_there (get name engines) ≡ inits name h) × (kept_rows (get name engines) ≡ kept name h)

  pub there :
      (o : Option (EngineData V)) → is_there o ≡ true → (engine : EngineData V) × (o ≡ some engine)
  there none e = absurd (cc)
  there (some engine) e = (engine, refl)

  pub Tracks-init :
      (n : String) (engine : EngineData V) (h : History (Metrics V)) (engines : Dict (EngineData V))
      → engine.summary_rows ≡ []
      → Tracks h engines
      → Tracks (init_engine n ∷ h) (put n engine engines)
  Tracks-init n engine h engines empty t name = elim (Bool-cases (str_eq n name)) [
    | inl same ↦ rw (get-put n name engine engines, same) (refl, ap (map key_of) empty)
    | inr other ↦ rw (get-put n name engine engines, other) (t name)
  ]

  -- What is tracked of an engine that is there.
  Tracks-there :
      (n name : String) (engine : EngineData V) (h : History (Metrics V))
      (engines : Dict (EngineData V))
      → get n engines ≡ some engine
      → str_eq n name ≡ true
      → Tracks h engines
      → (true ≡ inits name h) × (map key_of engine.summary_rows ≡ kept name h)
  Tracks-there n name engine h engines here same t =
      subst (λ (m : String). (true ≡ inits m h) × (map key_of engine.summary_rows ≡ kept m h))
        ((eq_iff n name).0 same) (rw here at (t n))

  -- An engine changed in place, where its rows stay.
  pub Tracks-put :
      (n : String) (engine engine' : EngineData V) (h : History (Metrics V))
      (engines : Dict (EngineData V))
      → get n engines ≡ some engine
      → engine'.summary_rows ≡ engine.summary_rows
      → Tracks h engines
      → Tracks h (put n engine' engines)
  Tracks-put n engine engine' h engines here same t name = elim (Bool-cases (str_eq n name)) [
    | inl this ↦
        let (known, rows) = Tracks-there n name engine h engines here this t in
        rw (get-put n name engine' engines, this) (known, ap (map key_of) same ∙ rows)
    | inr other ↦ rw (get-put n name engine' engines, other) (t name)
  ]

  pub Tracks-summary :
      (n : String) (engine : EngineData V) (row : SummaryRow V) (index : ℕ) (context : Context)
      (h : History (Metrics V)) (engines : Dict (EngineData V)) (s : Summary (Metrics V))
      (cmd : Option String)
      → get n engines ≡ some engine
      → key_of row ≡ (index, context)
      → Tracks h engines
      → Tracks
          (summary n index context s cmd ∷ h)
          (put n (record engine { summary_rows = engine.summary_rows ++ row ∷ [] }) engines)
  Tracks-summary n engine row index context h engines s cmd here key t name =
      let engine' : EngineData V = record engine {
        summary_rows = engine.summary_rows ++ row ∷ [];
      } in
      elim (Bool-cases (str_eq n name)) [
        | inl this ↦
            let (known, rows) = Tracks-there n name engine h engines here this t in
            rw (get-put n name engine' engines, this)
              (
                known,
                map-append key_of engine.summary_rows (row ∷ [])
                    ∙ ap (λ (ks : List (ℕ × Context)). ks ++ key_of row ∷ []) rows
                    ∙ ap (λ (k : ℕ × Context). kept name h ++ k ∷ []) key,
              )
        | inr other ↦ rw (get-put n name engine' engines, other) (t name)
      ]

  write_engine-keeps :
      (shlex_split : String → Option (List String))
      → IsTotal shlex_split
      → (bench_only : Bool) (engine : EngineData V)
      → (engine' : EngineData V) × ((write_engine shlex_split bench_only engine ≡ some engine')
          × (engine'.summary_rows ≡ engine.summary_rows))
  unfolding write_engine write_bench_only write_managed arrange
  write_engine-keeps shlex_split total true engine = (write_bench_only engine, (refl, refl))
  write_engine-keeps shlex_split total false engine =
      let (list, e) =
        row_params_list-total shlex_split total engine.commands_params engine.summary_rows in
      let keys =
        collect_all_param_keys (engine.commands_params ++ params_only list) engine.exclude_params in
      (write_managed keys list engine, (rw (e, write_engine) refl, refl))

  pub write_engines-keeps :
      (shlex_split : String → Option (List String))
      → IsTotal shlex_split
      → (bench_only : Bool) (engines : Dict (EngineData V))
      → (engines' : Dict (EngineData V)) × ((write_engines shlex_split bench_only engines
            ≡ some engines')
          × ((name : String)
              → (is_there (get name engines') ≡ is_there (get name engines))
                × (kept_rows (get name engines') ≡ kept_rows (get name engines))))
  unfolding write_engines get
  write_engines-keeps shlex_split total bench_only [] = ([], (refl, λ name. (refl, refl)))
  write_engines-keeps shlex_split total bench_only ((n, engine) ∷ engines) =
      let (engine', (one, rows)) = write_engine-keeps shlex_split total bench_only engine in
      let (engines', (rest, all)) = write_engines-keeps shlex_split total bench_only engines in
      (
        (n, engine') ∷ engines',
        (
          rw (one, rest, write_engines) refl,
          λ name. elim (Bool-cases (str_eq n name)) [
            | inl this ↦ rw this (refl, ap (map key_of) rows)
            | inr other ↦ rw other (all name)
          ],
        ),
      )
