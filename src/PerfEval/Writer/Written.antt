-- ===== src/PerfEval/Writer/Written.antt =====
-- `write_all_summaries` of llm-perf-eval.py over all engines, and what it leaves.
use dev_llmops.Prelude.{
  suc, ◌+◌, length-map, String, ◌≡◌, refl, sym, ap, ◌∙◌, Bool, true, false, Option, none, some,
  List, [], ◌∷◌, ◌++◌, map, if◌then◌else◌, arith, length,
}
use dev_llmops.Prelude.Dict.{Dict}
use dev_llmops.PerfEval.Args.Total.{IsTotal, parse_model_cmd_args-total}
use dev_llmops.PerfEval.Args.{collect_all_param_keys}
use dev_llmops.PerfEval.Workbook.{add_row, labels}
use dev_llmops.PerfEval.Writer.{SummaryRow, EngineData}
use dev_llmops.PerfEval.Writer.Summaries.{
  arrange, write_bench_only, write_managed, write_engine, params_of, row_params_list, params_only,
  metric_headers,
}
use dev_llmops.PerfEval.Writer.{Writer}
use dev_llmops.PerfEval.Writer.Summaries.{is_given, write_engines, write_all_summaries}
use dev_llmops.PerfEval.Args.{parse_model_cmd_args}
use dev_llmops.Prelude.{Bool-cases, inl, inr}
use dev_llmops.PerfEval.Writer.Arranged.{
  IsArranged, bench_only_row, managed_row, bench_only_rows-append, managed_rows-append,
  arrange-IsArranged, length-arrange,
}

module _ {V : Type 0} where
  -- What holds of an engine once its sheets are written from its kept rows.
  abbrev pub IsWritten :
      (String → Option (List String)) → Bool → EngineData V → EngineData V → Type 0
  IsWritten shlex_split bench_only engine engine' =
      IsArranged bench_only engine'.summary_ws engine'.arranged_ws
      × ((length engine'.summary_ws ≡ length engine.summary_rows + 1)
          × (write_engine shlex_split bench_only engine' ≡ some engine'))

  write_bench_only-IsWritten :
      (shlex_split : String → Option (List String)) (engine : EngineData V)
      → IsWritten shlex_split true engine (write_bench_only engine)
  unfolding write_engine write_bench_only add_row labels metric_headers arrange
  write_bench_only-IsWritten shlex_split engine =
      let run = bench_only_rows-append engine.summary_rows _ in
      (
        arrange-IsArranged true _ _ engine (map bench_only_row engine.summary_rows) _ run refl,
        (
          length-arrange true [] _ engine (map bench_only_row engine.summary_rows) _ run
              ∙ ap (λ n. n + 1) (length-map bench_only_row engine.summary_rows),
          refl,
        ),
      )

  row_params_list-length :
      (shlex_split : String → Option (List String)) (commands_params : List (Dict String))
      (rows : List (SummaryRow V)) (list : List (SummaryRow V × Dict String))
      → row_params_list shlex_split commands_params rows ≡ some list
      → length list ≡ length rows
  unfolding row_params_list
  row_params_list-length shlex_split commands_params [] list e =
      let same : [] ≡ list = (let f = e in cc) in ap length (sym same)
  row_params_list-length shlex_split commands_params (row ∷ rows) list e =
      consed (params_of shlex_split commands_params row) _
        (λ rest f. row_params_list-length shlex_split commands_params rows rest f) e
    where
      consed :
          (o : Option (Dict String)) (l : Option (List (SummaryRow V × Dict String)))
          → ((rest : List (SummaryRow V × Dict String)) → l ≡ some rest → length rest ≡ length rows)
          → (elim o [
            | none ↦ none
            | some params ↦ elim l [ none ↦ none | some rest ↦ some ((row, params) ∷ rest) ]
          ])
            ≡ some list
          → length list ≡ suc (length rows)
      consed none l k e = absurd (cc)
      consed (some params) none k e = absurd (cc)
      consed (some params) (some rest) k e =
          let same : (row, params) ∷ rest ≡ list = (let f = e in cc) in
          rw⁻¹ same (omega (arith, k rest refl))

  write_managed-IsWritten :
      (shlex_split : String → Option (List String)) (engine : EngineData V)
      (list : List (SummaryRow V × Dict String))
      → row_params_list shlex_split engine.commands_params engine.summary_rows ≡ some list
      → let keys =
          collect_all_param_keys
            (engine.commands_params ++ params_only list)
            engine.exclude_params in
        IsWritten shlex_split false engine (write_managed keys list engine)
  unfolding write_engine write_managed add_row labels metric_headers arrange
  write_managed-IsWritten shlex_split engine list e =
      let keys =
        collect_all_param_keys (engine.commands_params ++ params_only list) engine.exclude_params in
      let run = managed_rows-append keys list _ in
      (
        arrange-IsArranged false _ _ engine (map (managed_row keys) list) _ run refl,
        (
          length-arrange false [] _ engine (map (managed_row keys) list) _ run
              ∙ ap (λ n. n + 1)
                  (length-map (managed_row keys) list
                    ∙ row_params_list-length shlex_split engine.commands_params engine.summary_rows
                        list e),
          rw (e, write_engine) refl,
        ),
      )

  params_of-total :
      (shlex_split : String → Option (List String))
      → IsTotal shlex_split
      → (commands_params : List (Dict String)) (row : SummaryRow V)
      → (params : Dict String) × (params_of shlex_split commands_params row ≡ some params)
  unfolding params_of
  params_of-total shlex_split total commands_params row = chosen row.effective_model_cmd _
    where
      chosen :
          (cmd : Option String) (registered : Dict String)
          → (params : Dict String) × ((elim cmd [
            | none ↦ some registered
            | some c ↦
                if is_given (some c) then parse_model_cmd_args shlex_split c else some registered
          ])
              ≡ some params)
      chosen none registered = (registered, refl)
      chosen (some c) registered = elim (Bool-cases (is_given (some c))) [
        | inl given ↦ rw given (parse_model_cmd_args-total shlex_split total c)
        | inr other ↦ rw other (registered, refl)
      ]

  pub row_params_list-total :
      (shlex_split : String → Option (List String))
      → IsTotal shlex_split
      → (commands_params : List (Dict String)) (rows : List (SummaryRow V))
      → (list : List (SummaryRow V × Dict String)) × (row_params_list shlex_split commands_params
            rows
          ≡ some list)
  unfolding row_params_list
  row_params_list-total shlex_split total commands_params [] = ([], refl)
  row_params_list-total shlex_split total commands_params (row ∷ rows) =
      let (params, one) = params_of-total shlex_split total commands_params row in
      let (list, rest) = row_params_list-total shlex_split total commands_params rows in
      ((row, params) ∷ list, rw (one, rest, row_params_list) refl)

  pub write_engine-IsWritten :
      (shlex_split : String → Option (List String))
      → IsTotal shlex_split
      → (bench_only : Bool) (engine : EngineData V)
      → (engine' : EngineData V) × ((write_engine shlex_split bench_only engine ≡ some engine')
          × IsWritten shlex_split bench_only engine engine')
  unfolding write_engine
  write_engine-IsWritten shlex_split total true engine =
      (write_bench_only engine, (refl, write_bench_only-IsWritten shlex_split engine))
  write_engine-IsWritten shlex_split total false engine =
      let (list, e) =
        row_params_list-total shlex_split total engine.commands_params engine.summary_rows in
      (
        write_managed
            (collect_all_param_keys (engine.commands_params ++ params_only list)
              engine.exclude_params)
            list engine,
        (rw (e, write_engine) refl, write_managed-IsWritten shlex_split engine list e),
      )

-- The engines of one writer as those of another, in the same order, written from its rows.
abbrev pub AreWritten :
    {V : Type 0}
    → (String → Option (List String))
    → Bool
    → Dict (EngineData V)
    → Dict (EngineData V)
    → Type 0
AreWritten shlex_split bench_only [] [] = Unit
AreWritten shlex_split bench_only ((name, engine) ∷ engines) ((name', engine') ∷ engines') =
    (name ≡ name')
    × (IsWritten shlex_split bench_only engine engine'
        × AreWritten shlex_split bench_only engines engines')
AreWritten shlex_split bench_only _ _ = ⊥

module _ {V : Type 0} (shlex_split : String → Option (List String))
    (total : IsTotal shlex_split) where
  write_engines-AreWritten :
      (bench_only : Bool) (engines : Dict (EngineData V))
      → (engines' : Dict (EngineData V)) × ((write_engines shlex_split bench_only engines
            ≡ some engines')
          × (AreWritten shlex_split bench_only engines engines'
              × (write_engines shlex_split bench_only engines' ≡ some engines')))
  unfolding write_engines
  write_engines-AreWritten bench_only [] = ([], (refl, (tt, refl)))
  write_engines-AreWritten bench_only ((name, engine) ∷ engines) =
      let (engine', (one, written)) = write_engine-IsWritten shlex_split total bench_only engine in
      let (engines', (rest, (all, again))) = write_engines-AreWritten bench_only engines in
      (
        (name, engine') ∷ engines',
        (
          rw (one, rest, write_engines) refl,
          ((refl, (written, all)), rw (written.1.1, again, write_engines) refl),
        ),
      )

  -- Where the split does not raise, writing the summaries returns. It gives the summary of each engine
  -- a header and a row for each kept row, and the arranged sheet the same rows with the lengths and
  -- the index first, each as often and with the same style (under `bench_only`, which has no columns
  -- for models, the index is added), sorted by input length, output length and index. Writing again
  -- changes nothing.
  pub write_all_summaries-arranges :
      (w : Writer V)
      → (w' : Writer V) × ((write_all_summaries shlex_split w ≡ some w')
          × (AreWritten shlex_split w.bench_only w.engines w'.engines
              × (write_all_summaries shlex_split w' ≡ some w')))
  unfolding write_all_summaries
  write_all_summaries-arranges w =
      let (engines, (one, (all, again))) = write_engines-AreWritten w.bench_only w.engines in
      (
        record w { engines = engines },
        (rw (one, write_all_summaries) refl, (all, rw (again, write_all_summaries) refl)),
      )
