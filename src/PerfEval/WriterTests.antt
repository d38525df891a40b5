-- ===== src/PerfEval/WriterTests.antt =====
-- Small workbooks of llm-perf-eval.py, with numbers as measured values.
use dev_llmops.Prelude.{ℕ, String, ◌≡◌, refl, false, Option, none, some, List, [], ◌∷◌, map}
use dev_llmops.PerfEval.Search.{Entry}
use dev_llmops.PerfEval.Args.Total.{IsTotal}
use dev_llmops.PerfEval.Events.{Item, BestMap}
use dev_llmops.PerfEval.Workbook.{
  plain, clear, green, yellow, number, label, SheetRow, Sheet, Metrics, sanitize_for_excel,
}
use dev_llmops.PerfEval.Writer.{SummaryRow, Writer}
use dev_llmops.PerfEval.Writer.Highlight.{highlight_best_rows}
use dev_llmops.PerfEval.Writer.Marks.{paint, best_mark, highlight_best_rows-paint}
use dev_llmops.PerfEval.Writer.Summaries.{write_all_summaries}
use dev_llmops.PerfEval.Writer.Written.{AreWritten, write_all_summaries-arranges}

sanitize_run : sanitize_for_excel "a\nb" ≡ "a\nb"
unfolding sanitize_for_excel
sanitize_run = refl

abbrev entry : ℕ → Entry (Metrics ℕ)
entry c = record { concurrency = c; requests = c; result = none }

abbrev item : ℕ → Item
item tokens = record {
  context = (tokens, 8);
  init_concurrent = none;
  max_concurrent = none;
  override_args = [];
  engine_override_args = [];
}

abbrev items : List Item
items = item 16 ∷ item 32 ∷ []

-- The first context has a best concurrency, the second none.
abbrev best_map : BestMap (Metrics ℕ)
best_map = ((16, 8), (some (entry 4), none)) ∷ ((32, 8), (none, some (entry 1))) ∷ []

abbrev line : ℕ → ℕ → SheetRow ℕ
line tokens c = record {
  cells = number tokens ∷ number 8 ∷ number c ∷ [];
  font = plain;
  fill = clear;
}

abbrev header : SheetRow ℕ
header = record { cells = label "a" ∷ []; font = plain; fill = clear }

abbrev sheet : Sheet ℕ
sheet = line 16 2 ∷ line 16 4 ∷ line 32 1 ∷ line 16 4 ∷ []

highlight_run :
    map (λ (r : SheetRow ℕ). r.fill) (highlight_best_rows best_map items (header ∷ sheet))
    ≡ clear ∷ clear ∷ green ∷ yellow ∷ clear ∷ []
unfolding highlight_best_rows
highlight_run = refl

highlight_best_rows-paint_example :
    highlight_best_rows best_map items (header ∷ sheet)
    ≡ header ∷ paint (best_mark best_map items) [] sheet
highlight_best_rows-paint_example = highlight_best_rows-paint best_map items header sheet

abbrev row : ℕ → ℕ → SummaryRow ℕ
row index tokens = record {
  model_name = "m";
  image_name = "i";
  param_index = index;
  input_ctx = tokens;
  output_ctx = 8;
  best = some (entry tokens);
  failure_reason = none;
  effective_model_cmd = some "serve";
  slo_no_pass = false;
}

abbrev split : String → Option (List String)
split s = some (s ∷ "--tp" ∷ "2" ∷ [])

split-IsTotal : IsTotal split
split-IsTotal s = (s ∷ "--tp" ∷ "2" ∷ [], refl)

abbrev writer : Writer ℕ
writer = record {
  bench_only = false;
  sheetnames = [];
  engines =
      (
        "vllm",
        record {
          summary_title = "s";
          arranged_title = "a";
          summary_ws = [];
          arranged_ws = sheet;
          summary_rows = row 1 32 ∷ row 1 16 ∷ row 2 16 ∷ [];
          commands_params = (("tp", "2") ∷ []) ∷ [];
          exclude_params = [];
        },
      )
      ∷ [];
  replaced = [];
  detail_sheets = [];
}

write_all_summaries-arranges_example :
    (w' : Writer ℕ) × ((write_all_summaries split writer ≡ some w')
      × (AreWritten split writer.bench_only writer.engines w'.engines
          × (write_all_summaries split w' ≡ some w')))
write_all_summaries-arranges_example = write_all_summaries-arranges split split-IsTotal writer
