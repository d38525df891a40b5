-- ===== src/PerfEval/Writer/Highlight.antt =====
-- `highlight_best_rows` of llm-perf-eval.py.
use dev_llmops.Prelude.{
  ℕ, Bool, false, ◌&&◌, Option, none, some, List, [], ◌∷◌, ◌==◌, if◌then◌else◌,
}
use dev_llmops.PerfEval.Search.{Entry}
use dev_llmops.PerfEval.Events.{Context, Item, BestMap}
use dev_llmops.PerfEval.Workbook.{
  bold, green, yellow, Fill, Cell, number, label, metric, SheetRow, Sheet, Metrics,
}

-- context_best_map.get(tuple(ctx))
unfoldable pub get_best :
    {R : Type 0} → Context → BestMap R → Option (Option (Entry R) × Option (Entry R))
get_best ctx [] = none
get_best ctx ((c, pair) ∷ rest) =
    let later = get_best ctx rest in if c.0 == ctx.0 && c.1 == ctx.1 then some pair else later

module _ {V : Type 0} where
  -- A text is no number, and a measured value stands in none of the first three columns.
  unfoldable pub has_number : ℕ → Cell V → Bool
  has_number n (number m) = m == n
  has_number n (label s) = false
  has_number n (metric v) = false

  unfoldable pub is_target : Context → ℕ → List (Cell V) → Bool
  unfolding has_number
  is_target ctx target_concurrency (a ∷ b ∷ c ∷ cells) =
      has_number ctx.0 a && has_number ctx.1 b && has_number target_concurrency c
  is_target ctx target_concurrency _ = false

  -- The concurrency to look for and the fill of its row.
  unfoldable pub target_of :
      Option (Option (Entry (Metrics V)) × Option (Entry (Metrics V))) → Option (ℕ × Fill)
  target_of none = none
  target_of (some (some best, m)) = some (best.concurrency, green)
  target_of (some (none, some min_tested)) = some (min_tested.concurrency, yellow)
  target_of (some (none, none)) = none

  unfoldable pub mark_row : Fill → SheetRow V → SheetRow V
  mark_row row_fill row = record row { font = bold; fill = row_fill }

  -- The first of the rows that is the target.
  unfoldable pub mark_first : Context → ℕ × Fill → Sheet V → Sheet V
  unfolding is_target mark_row
  mark_first ctx target [] = []
  mark_first ctx target (row ∷ rows) =
      let later = mark_first ctx target rows in
      if is_target ctx target.0 row.cells then mark_row target.1 row ∷ rows else row ∷ later

  unfoldable pub highlight_context : Context → BestMap (Metrics V) → Sheet V → Sheet V
  unfolding get_best target_of mark_first
  highlight_context ctx context_best_map rows = elim (target_of (get_best ctx context_best_map)) [
    | none ↦ rows
    | some target ↦ mark_first ctx target rows
  ]

  unfoldable pub highlight_contexts : List Item → BestMap (Metrics V) → Sheet V → Sheet V
  unfolding highlight_context
  highlight_contexts [] context_best_map rows = rows
  highlight_contexts (item ∷ items) context_best_map rows =
      highlight_contexts items context_best_map
        (highlight_context item.context context_best_map rows)

  -- The rows are looked at from the second on.
  unfoldable pub highlight_best_rows : BestMap (Metrics V) → List Item → Sheet V → Sheet V
  unfolding highlight_contexts
  highlight_best_rows context_best_map contexts [] = []
  highlight_best_rows context_best_map contexts (header ∷ rows) =
      header ∷ highlight_contexts contexts context_best_map rows
