-- ===== src/PerfEval/Writer/Marks.antt =====
-- Which rows of a detail sheet `highlight_best_rows` of llm-perf-eval.py marks.
use dev_llmops.Prelude.{
  ℕ, ◌≡◌, refl, sym, ap, ◌∙◌, Bool, false, not, ◌&&◌, ◌||◌, Option, none, some, List, [], ◌∷◌,
  if◌then◌else◌, inl, inr, Bool-cases, arith, ◌==◌,
}
use dev_llmops.PerfEval.Events.{Context, Item, BestMap}
use dev_llmops.PerfEval.Search.{Entry}
use dev_llmops.PerfEval.Workbook.{
  bold, green, yellow, Fill, Cell, number, label, metric, SheetRow, Sheet, Metrics,
}
use dev_llmops.PerfEval.Writer.Highlight.{
  has_number, get_best, is_target, target_of, mark_row, mark_first, highlight_context,
  highlight_contexts, highlight_best_rows,
}

abbrev pub later_mark : Option Fill → Option Fill → Option Fill
later_mark (some row_fill) m = some row_fill
later_mark none m = m

module _ {V : Type 0} where
  -- A row with its mark: bold, and filled with a colour.
  abbrev pub painted : Option Fill → SheetRow V → SheetRow V
  painted none row = row
  painted (some row_fill) row = record { cells = row.cells; font = bold; fill = row_fill }

  -- The cells of a row begin with the two lengths of a context and a concurrency.
  abbrev pub begins_with : ℕ → ℕ → ℕ → List (Cell V) → Bool
  begins_with input_len output_len c (number i ∷ number o ∷ number n ∷ cells) =
      (i == input_len) && (o == output_len) && (n == c)
  begins_with input_len output_len c _ = false

  -- The first pair that the map has for a context.
  abbrev pub pair_of :
      Context
      → BestMap (Metrics V)
      → Option (Option (Entry (Metrics V)) × Option (Entry (Metrics V)))
  pair_of ctx [] = none
  pair_of (i, o) (((input_len, output_len), pair) ∷ best_map) =
      let later = pair_of (i, o) best_map in
      if (input_len == i) && (output_len == o) then some pair else later

  -- The concurrency to mark and its colour: green for a best one, yellow for the smallest tested one
  -- where there is no best.
  abbrev pub colour_of :
      Option (Option (Entry (Metrics V)) × Option (Entry (Metrics V))) → Option (ℕ × Fill)
  colour_of none = none
  colour_of (some (none, none)) = none
  colour_of (some (none, some smallest)) = some (smallest.concurrency, yellow)
  colour_of (some (some best, none)) = some (best.concurrency, green)
  colour_of (some (some best, some smallest)) = some (best.concurrency, green)

  -- A row that is no target by its cells' kinds begins with no numbers, or with others.
  is_target-begins_with :
      (ctx : Context) (c : ℕ) (cells : List (Cell V))
      → is_target ctx c cells ≡ begins_with ctx.0 ctx.1 c cells
  unfolding is_target has_number
  is_target-begins_with ctx c [] = refl
  is_target-begins_with ctx c (number i ∷ []) = refl
  is_target-begins_with ctx c (label s ∷ []) = refl
  is_target-begins_with ctx c (metric v ∷ []) = refl
  is_target-begins_with ctx c (number i ∷ number o ∷ []) = refl
  is_target-begins_with ctx c (number i ∷ label s ∷ []) = refl
  is_target-begins_with ctx c (number i ∷ metric v ∷ []) = refl
  is_target-begins_with ctx c (label s ∷ b ∷ []) = refl
  is_target-begins_with ctx c (metric v ∷ b ∷ []) = refl
  is_target-begins_with ctx c (number i ∷ number o ∷ number n ∷ cells) = ground arith
  is_target-begins_with ctx c (number i ∷ number o ∷ label s ∷ cells) = ground arith
  is_target-begins_with ctx c (number i ∷ number o ∷ metric v ∷ cells) = ground arith
  is_target-begins_with ctx c (number i ∷ label s ∷ d ∷ cells) = ground arith
  is_target-begins_with ctx c (number i ∷ metric v ∷ d ∷ cells) = ground arith
  is_target-begins_with ctx c (label s ∷ b ∷ d ∷ cells) = ground arith
  is_target-begins_with ctx c (metric v ∷ b ∷ d ∷ cells) = ground arith

  get_best-pair_of :
      (ctx : Context) (best_map : BestMap (Metrics V))
      → get_best ctx best_map ≡ pair_of ctx best_map
  unfolding get_best
  get_best-pair_of ctx [] = refl
  get_best-pair_of (i, o) (((input_len, output_len), pair) ∷ best_map) =
      rw (get_best-pair_of (i, o) best_map) refl

  target_of-colour_of :
      (pair : Option (Option (Entry (Metrics V)) × Option (Entry (Metrics V))))
      → target_of pair ≡ colour_of pair
  unfolding target_of
  target_of-colour_of none = refl
  target_of-colour_of (some (none, none)) = refl
  target_of-colour_of (some (none, some smallest)) = refl
  target_of-colour_of (some (some best, none)) = refl
  target_of-colour_of (some (some best, some smallest)) = refl

  -- Each row with the mark that the cells before it and its own cells give it.
  abbrev pub paint :
      (List (List (Cell V)) → List (Cell V) → Option Fill)
      → List (List (Cell V))
      → Sheet V
      → Sheet V
  paint mark before [] = []
  paint mark before (row ∷ rows) =
      painted (mark before row.cells) row ∷ paint mark (row.cells ∷ before) rows

  abbrev pub any_target : Context → ℕ → List (List (Cell V)) → Bool
  any_target ctx c [] = false
  any_target (i, o) c (cells ∷ before) = begins_with i o c cells || any_target (i, o) c before

  -- The fill of a target's row, if no row before it is the target.
  abbrev pub first_mark :
      Context → Option (ℕ × Fill) → List (List (Cell V)) → List (Cell V) → Option Fill
  first_mark ctx none before cells = none
  first_mark (i, o) (some (c, row_fill)) before cells =
      if begins_with i o c cells && not (any_target (i, o) c before) then some row_fill else none

  -- The mark for one of the contexts, of the last where there are several.
  abbrev pub best_mark :
      BestMap (Metrics V) → List Item → List (List (Cell V)) → List (Cell V) → Option Fill
  best_mark best_map [] before cells = none
  best_mark best_map (item ∷ items) before cells =
      later_mark (best_mark best_map items before cells)
        (first_mark item.context (colour_of (pair_of item.context best_map)) before cells)

  paint-none :
      (before : List (List (Cell V))) (rows : Sheet V) → paint (λ b c. none) before rows ≡ rows
  paint-none before [] = refl
  paint-none before (row ∷ rows) = ap (λ rs. row ∷ rs) (paint-none (row.cells ∷ before) rows)

  painted-cells : (m : Option Fill) (row : SheetRow V) → (painted m row).cells ≡ row.cells
  painted-cells none row = refl
  painted-cells (some row_fill) row = refl

  painted-painted :
      (m n : Option Fill) (row : SheetRow V)
      → painted m (painted n row) ≡ painted (later_mark m n) row
  painted-painted none n row = refl
  painted-painted (some row_fill) none row = refl
  painted-painted (some row_fill) (some other) row = refl

  paint-paint :
      (p q : List (List (Cell V)) → List (Cell V) → Option Fill) (before : List (List (Cell V)))
      (rows : Sheet V)
      → paint p before (paint q before rows) ≡ paint (λ b c. later_mark (p b c) (q b c)) before rows
  paint-paint p q before [] = refl
  paint-paint p q before (row ∷ rows) =
      rw
        (
          painted-cells (q before row.cells) row,
          painted-painted (p before row.cells) (q before row.cells) row,
          paint-paint p q (row.cells ∷ before) rows,
        )
        refl

  mark_first-paint :
      (ctx : Context) (c : ℕ) (row_fill : Fill) (before : List (List (Cell V))) (rows : Sheet V)
      → (if any_target ctx c before then rows else mark_first ctx (c, row_fill) rows)
        ≡ paint (first_mark ctx (some (c, row_fill))) before rows
  unfolding mark_first mark_row
  mark_first-paint ctx c row_fill before [] = ground arith
  mark_first-paint (i, o) c row_fill before (row ∷ rows) =
      let ih = mark_first-paint (i, o) c row_fill (row.cells ∷ before) rows in
      let same = is_target-begins_with (i, o) c row.cells in
      elim (Bool-cases (begins_with i o c row.cells)) [
        | inl here ↦ elim (Bool-cases (any_target (i, o) c before)) [
          | inl seen ↦ rw (← ih, same, here, seen) refl
          | inr new ↦ rw (← ih, same, here, new) refl
        ]
        | inr other ↦ elim (Bool-cases (any_target (i, o) c before)) [
          | inl seen ↦ rw (← ih, same, other, seen) refl
          | inr new ↦ rw (← ih, same, other, new) refl
        ]
      ]

  target-paint :
      (ctx : Context) (target : Option (ℕ × Fill)) (rows : Sheet V)
      → (elim target [ none ↦ rows | some t ↦ mark_first ctx t rows ])
        ≡ paint (first_mark ctx target) [] rows
  target-paint ctx none rows = sym (paint-none [] rows)
  target-paint ctx (some (c, row_fill)) rows = mark_first-paint ctx c row_fill [] rows

  highlight_contexts-paint :
      (best_map : BestMap (Metrics V)) (items : List Item) (rows : Sheet V)
      → highlight_contexts items best_map rows ≡ paint (best_mark best_map items) [] rows
  unfolding highlight_contexts highlight_context
  highlight_contexts-paint best_map [] rows = sym (paint-none [] rows)
  highlight_contexts-paint best_map (item ∷ items) rows =
      let target = colour_of (pair_of item.context best_map) in
      let agree : target_of (get_best item.context best_map) ≡ target =
        target_of-colour_of (get_best item.context best_map)
        ∙ ap colour_of (get_best-pair_of item.context best_map) in
      highlight_contexts-paint best_map items _
      ∙ ap (paint (best_mark best_map items) [])
          (rw (agree, highlight_context) (target-paint item.context target rows))
      ∙ paint-paint (best_mark best_map items) (first_mark item.context target) [] rows

  -- In a sheet with a header, each row after it keeps its cells; it becomes bold and filled just where
  -- it is the first row after the header with the two lengths of one of the contexts and the
  -- concurrency that `context_best_map` has for it: green for the best concurrency, yellow for the
  -- smallest tested one of a context without a best. All else stays as it was.
  pub highlight_best_rows-paint :
      (best_map : BestMap (Metrics V)) (items : List Item) (header : SheetRow V) (rows : Sheet V)
      → highlight_best_rows best_map items (header ∷ rows)
        ≡ header ∷ paint (best_mark best_map items) [] rows
  unfolding highlight_best_rows
  highlight_best_rows-paint best_map items header rows =
      ap (λ rs. header ∷ rs) (highlight_contexts-paint best_map items rows)
