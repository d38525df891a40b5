-- ===== src/PerfEval/Writer/Arranged.antt =====
-- The two sheets of an engine that `write_all_summaries` of llm-perf-eval.py writes.
use dev_llmops.Prelude.{
  ◌+◌, length-map, String, ◌≡◌, refl, sym, ap, ◌∙◌, Bool, true, false, ◌&&◌, ◌||◌, List, [], ◌∷◌,
  ◌++◌, map, append-nil, append_assoc, ltb, ◌==◌, arith, length,
}
use dev_llmops.Prelude.Dict.{Dict}
use dev_llmops.Prelude.Sort.{
  IsOrder, IsSorted, sorted, sorted-IsSorted, count_if, count_if-sorted, count_if-map, IsSorted-map,
}
use dev_llmops.PerfEval.Workbook.{clear, plain, Cell, number, label, SheetRow, Sheet, add_row}
use dev_llmops.PerfEval.Writer.{SummaryRow, EngineData}
use dev_llmops.PerfEval.Writer.Summaries.{
  NormalizedRow, less_key, add_arranged, row_style, normalized_row, best_metrics, param_vals,
  bench_only_rows, managed_rows, arrange,
}

module _ {V : Type 0} where
  -- The columns of the summary from those of the arranged sheet: the models and images first, or,
  -- under `bench_only`, no index.
  abbrev pub summary_cells : Bool → List (Cell V) → List (Cell V)
  summary_cells true (input ∷ output ∷ index ∷ tail) = input ∷ output ∷ tail
  summary_cells false (input ∷ output ∷ index ∷ model ∷ image ∷ tail) =
      model ∷ index ∷ image ∷ input ∷ output ∷ tail
  summary_cells _ cells = cells

  abbrev pub summary_row : Bool → SheetRow V → SheetRow V
  summary_row bench_only row = record row { cells = summary_cells bench_only row.cells }

  -- By the numbers in the first three columns.
  abbrev pub less_cells : List (Cell V) → List (Cell V) → Bool
  less_cells (number a ∷ number b ∷ number c ∷ _) (number d ∷ number e ∷ number f ∷ _) =
      ltb a d || (a == d && (ltb b e || (b == e && ltb c f)))
  less_cells _ _ = false

  abbrev pub less_row : SheetRow V → SheetRow V → Bool
  less_row x y = less_cells x.cells y.cells

  -- Sorted, and the same rows, each as often and with its style, as in the summary.
  abbrev pub IsArranged : Bool → Sheet V → Sheet V → Type 0
  IsArranged bench_only (header ∷ rows) (header' ∷ rows') =
      (header ≡ summary_row bench_only header')
      × (IsSorted less_row rows'
          × ((test : SheetRow V → Bool)
              → count_if test (map (summary_row bench_only) rows') ≡ count_if test rows))
  IsArranged bench_only _ _ = ⊥

  less_key-IsOrder : IsOrder (less_key {V = V})
  unfolding less_key
  less_key-IsOrder = record {
    asym = λ x y e. ground (arith, e);
    trans = λ x y z e f. ground (arith, e, f);
  }

  unfoldable pub arranged_line : NormalizedRow V → SheetRow V
  arranged_line row = record {
    cells =
        number row.input_ctx ∷ number row.output_ctx ∷ number row.param_index ∷ row.arranged_tail;
    font = row_style row.failed_request row.slo_no_pass;
    fill = clear;
  }

  add_arranged-append :
      (rows : List (NormalizedRow V)) (ws : Sheet V)
      → add_arranged rows ws ≡ ws ++ map arranged_line rows
  unfolding add_arranged add_row arranged_line
  add_arranged-append [] ws = sym (append-nil ws)
  add_arranged-append (row ∷ rows) ws =
      add_arranged-append rows _ ∙ append_assoc ws (arranged_line row ∷ []) (map arranged_line rows)

  -- A summary with a row for each normalized row is arranged.
  sorted_rows-IsArranged :
      (bench_only : Bool) (header header' : SheetRow V) (normalized : List (NormalizedRow V))
      → header ≡ summary_row bench_only header'
      → IsArranged bench_only
          (header ∷ map (λ n. summary_row bench_only (arranged_line n)) normalized)
          (header' ∷ map arranged_line (sorted less_key normalized))
  unfolding arranged_line less_key
  sorted_rows-IsArranged bench_only header header' normalized e = (
    e,
    (
      IsSorted-map arranged_line less_row (sorted less_key normalized)
          (sorted-IsSorted less_key less_key-IsOrder normalized),
      λ test.
          count_if-map test (summary_row bench_only)
            (map arranged_line (sorted less_key normalized))
          ∙ count_if-map (λ r. test (summary_row bench_only r)) arranged_line
              (sorted less_key normalized)
          ∙ count_if-sorted less_key (λ n. test (summary_row bench_only (arranged_line n)))
              normalized
          ∙ sym (count_if-map test (λ n. summary_row bench_only (arranged_line n)) normalized),
    ),
  )

  -- A row that a loop adds, and those of the rest of the loop.
  abbrev pub lines : Bool → List (NormalizedRow V) → Sheet V
  lines bench_only = map (λ n. summary_row bench_only (arranged_line n))

  added :
      (bench_only : Bool) (ws : Sheet V) (n : NormalizedRow V) (normalized : List (NormalizedRow V))
      → ◌≡◌ {A = Sheet V × List (NormalizedRow V)}
          (
            (ws ++ summary_row bench_only (arranged_line n) ∷ []) ++ lines bench_only normalized,
            n ∷ normalized,
          )
          (ws ++ lines bench_only (n ∷ normalized), n ∷ normalized)
  added bench_only ws n normalized =
      ap (λ (s : Sheet V). (s, n ∷ normalized))
        (append_assoc ws (summary_row bench_only (arranged_line n) ∷ [])
          (lines bench_only normalized))

  abbrev pub bench_only_row : SummaryRow V → NormalizedRow V
  bench_only_row row = normalized_row row (best_metrics row.best)

  pub bench_only_rows-append :
      (rows : List (SummaryRow V)) (ws : Sheet V)
      → bench_only_rows rows ws
        ≡ (ws ++ lines true (map bench_only_row rows), map bench_only_row rows)
  unfolding bench_only_rows arranged_line normalized_row add_row
  bench_only_rows-append [] ws = rw (append-nil ws) refl
  bench_only_rows-append (row ∷ rows) ws =
      rw (bench_only_rows-append rows _)
        (added true ws (bench_only_row row) (map bench_only_row rows))

  abbrev pub managed_row : List String → SummaryRow V × Dict String → NormalizedRow V
  managed_row all_param_keys (row, params) = normalized_row row (
      label row.model_name
      ∷ label row.image_name
      ∷ (param_vals all_param_keys params ++ best_metrics row.best))

  pub managed_rows-append :
      (keys : List String) (rows : List (SummaryRow V × Dict String)) (ws : Sheet V)
      → managed_rows keys rows ws
        ≡ (ws ++ lines false (map (managed_row keys) rows), map (managed_row keys) rows)
  unfolding managed_rows arranged_line normalized_row add_row
  managed_rows-append keys [] ws = rw (append-nil ws) refl
  managed_rows-append keys ((row, params) ∷ rows) ws =
      rw (managed_rows-append keys rows _)
        (added false ws (managed_row keys (row, params)) (map (managed_row keys) rows))

  -- A run of either loop from a header.
  pub arrange-IsArranged :
      (bench_only : Bool) (headers : List (Cell V)) (header : SheetRow V) (engine : EngineData V)
      (normalized : List (NormalizedRow V)) (written : Sheet V × List (NormalizedRow V))
      → written ≡ (header ∷ lines bench_only normalized, normalized)
      → header ≡ summary_row bench_only (record { cells = headers; font = plain; fill = clear })
      → let engine' : EngineData V = arrange headers engine written in
        IsArranged bench_only engine'.summary_ws engine'.arranged_ws
  unfolding arrange add_row
  arrange-IsArranged bench_only headers header engine normalized written e same =
      rw
        (
          e,
          add_arranged-append (sorted less_key normalized)
              (record { cells = headers; font = plain; fill = clear } ∷ []),
        )
        (sorted_rows-IsArranged bench_only header
          (record { cells = headers; font = plain; fill = clear }) normalized same)

  -- The summary has its header and a row for each normalized row.
  pub length-arrange :
      (bench_only : Bool) (headers : List (Cell V)) (header : SheetRow V) (engine : EngineData V)
      (normalized : List (NormalizedRow V)) (written : Sheet V × List (NormalizedRow V))
      → written ≡ (header ∷ lines bench_only normalized, normalized)
      → length (arrange headers engine written).summary_ws ≡ length normalized + 1
  unfolding arrange
  length-arrange bench_only headers header engine normalized written e =
      rw e (omega (arith, length-map (λ n. summary_row bench_only (arranged_line n)) normalized))
