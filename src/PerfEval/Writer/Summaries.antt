-- ===== src/PerfEval/Writer/Summaries.antt =====
-- `write_all_summaries` and `save` of `Mode2ResultWriter` in llm-perf-eval.py. The summaries are
-- written anew from the kept rows each time. Saving the workbook to its file is left out.
use dev_llmops.Prelude.{
  ℕ, ◌-◌, String, Bool, true, false, not, ◌&&◌, ◌||◌, Option, none, some, List, [], ◌∷◌, ◌++◌, map,
  ltb, ◌==◌, if◌then◌else◌, get_elem?,
}
use dev_llmops.Prelude.Text.{is_empty}
use dev_llmops.Prelude.Dict.{Dict, get}
use dev_llmops.Prelude.Sort.{sorted}
use dev_llmops.PerfEval.Search.{Entry}
use dev_llmops.PerfEval.Args.{parse_model_cmd_args, collect_all_param_keys}
use dev_llmops.PerfEval.Workbook.{
  plain, red, amber, Font, Cell, number, label, metric, Sheet, Metrics, labels, not_available,
  add_row,
}
use dev_llmops.PerfEval.Writer.{SummaryRow, EngineData, Writer, finalize_detail_sheet}

-- A text that is None or empty counts as false.
unfoldable pub is_given : Option String → Bool
unfolding is_empty
is_given none = false
is_given (some s) = not (is_empty s)

-- _apply_row_style(ws, row, style)
unfoldable pub row_style : Bool → Bool → Font
row_style failed_request slo_no_pass =
    if failed_request then red else if slo_no_pass then amber else plain

-- An element of `normalized_rows`.
pub record NormalizedRow (V : Type 0) : Type 0 where
  pub input_ctx : ℕ
  pub output_ctx : ℕ
  pub param_index : ℕ
  pub arranged_tail : List (Cell V)
  pub failed_request : Bool
  pub slo_no_pass : Bool

module _ {V : Type 0} where
  unfoldable pub metric_headers : List (Cell V)
  unfolding labels
  metric_headers = labels ("并发" ∷ "请求数" ∷ "TTFT(s)" ∷ "TPOT(s)" ∷ "吞吐(tokens/s)" ∷ [])

  -- r = best.get("result") or {}; three of its values, or "N/A".
  unfoldable pub measured : Option (Metrics V) → List (Cell V)
  unfolding not_available
  measured none = not_available ∷ not_available ∷ not_available ∷ []
  measured (some r) = metric r.ttft ∷ metric r.tpot ∷ metric r.throughput ∷ []

  unfoldable pub best_metrics : Option (Entry (Metrics V)) → List (Cell V)
  unfolding measured not_available
  best_metrics none =
      not_available ∷ not_available ∷ not_available ∷ not_available ∷ not_available ∷ []
  best_metrics (some e) = number e.concurrency ∷ number e.requests ∷ measured e.result

  unfoldable pub has_comment : Option (Entry (Metrics V)) → Bool
  unfolding is_empty
  has_comment none = false
  has_comment (some e) = elim e.result [ none ↦ false | some r ↦ not (is_empty r.comment) ]

  -- failed_request
  unfoldable pub is_failed_row : SummaryRow V → Bool
  unfolding has_comment is_given
  is_failed_row row = has_comment row.best || is_given row.failure_reason

  -- The parameters of a row: those of its own command, or those of the command of its index, which
  -- counts from 1. None where the split raises.
  unfoldable pub params_of :
      (String → Option (List String)) → List (Dict String) → SummaryRow V → Option (Dict String)
  unfolding is_given parse_model_cmd_args
  params_of shlex_split commands_params row =
      let registered : Dict String = elim (get_elem? commands_params (row.param_index - 1)) [
        | none ↦ []
        | some params ↦ params
      ] in
      elim row.effective_model_cmd [
        | none ↦ some registered
        | some cmd ↦
            if is_given (some cmd) then parse_model_cmd_args shlex_split cmd else some registered
      ]

  unfoldable pub row_params_list :
      (String → Option (List String))
      → List (Dict String)
      → List (SummaryRow V)
      → Option (List (SummaryRow V × Dict String))
  unfolding params_of
  row_params_list shlex_split commands_params [] = some []
  row_params_list shlex_split commands_params (row ∷ rows) =
      elim (params_of shlex_split commands_params row) [
        | none ↦ none
        | some params ↦ elim (row_params_list shlex_split commands_params rows) [
          | none ↦ none
          | some list ↦ some ((row, params) ∷ list)
        ]
      ]

  -- [params.get(k, "") for k in all_param_keys]
  unfoldable pub param_vals : List String → Dict String → List (Cell V)
  unfolding get
  param_vals [] params = []
  param_vals (k ∷ ks) params =
      label (elim (get k params) [ none ↦ "" | some v ↦ v ]) ∷ param_vals ks params

  -- The tuple (input_ctx, output_ctx, param_index) is less.
  unfoldable pub less_key : NormalizedRow V → NormalizedRow V → Bool
  less_key x y =
      ltb x.input_ctx y.input_ctx
      || (x.input_ctx == y.input_ctx
          && (ltb x.output_ctx y.output_ctx
              || (x.output_ctx == y.output_ctx && ltb x.param_index y.param_index)))

  unfoldable pub add_arranged : List (NormalizedRow V) → Sheet V → Sheet V
  unfolding add_row row_style
  add_arranged [] ws = ws
  add_arranged (row ∷ rows) ws = add_arranged rows (
      add_row
        (number row.input_ctx ∷ number row.output_ctx ∷ number row.param_index ∷ row.arranged_tail)
        (row_style row.failed_request row.slo_no_pass) ws)

  unfoldable pub normalized_row : SummaryRow V → List (Cell V) → NormalizedRow V
  unfolding is_failed_row
  normalized_row row tail = record {
    input_ctx = row.input_ctx;
    output_ctx = row.output_ctx;
    param_index = row.param_index;
    arranged_tail = tail;
    failed_request = is_failed_row row;
    slo_no_pass = row.slo_no_pass;
  }

  -- The rows of the summary under `bench_only`, and the normalized rows.
  unfoldable pub bench_only_rows : List (SummaryRow V) → Sheet V → Sheet V × List (NormalizedRow V)
  unfolding best_metrics add_row row_style is_failed_row normalized_row
  bench_only_rows [] ws = (ws, [])
  bench_only_rows (row ∷ rows) ws =
      let metrics = best_metrics row.best in
      let (ws', normalized) = bench_only_rows rows (
        add_row (number row.input_ctx ∷ number row.output_ctx ∷ metrics)
          (row_style (is_failed_row row) row.slo_no_pass) ws) in
      (ws', normalized_row row metrics ∷ normalized)

  -- The same with the parameters of the commands.
  unfoldable pub managed_rows :
      List String → List (SummaryRow V × Dict String) → Sheet V → Sheet V × List (NormalizedRow V)
  unfolding param_vals best_metrics add_row row_style is_failed_row normalized_row
  managed_rows all_param_keys [] ws = (ws, [])
  managed_rows all_param_keys ((row, params) ∷ rows) ws =
      let tail = param_vals all_param_keys params ++ best_metrics row.best in
      let (ws', normalized) = managed_rows all_param_keys rows (
        add_row
          (label row.model_name
            ∷ number row.param_index
            ∷ label row.image_name
            ∷ number row.input_ctx
            ∷ number row.output_ctx
            ∷ tail)
          (row_style (is_failed_row row) row.slo_no_pass) ws) in
      (ws', normalized_row row (label row.model_name ∷ label row.image_name ∷ tail) ∷ normalized)

  -- Both sheets of an engine, once the summary is written and its normalized rows are known.
  unfoldable pub arrange :
      List (Cell V) → EngineData V → Sheet V × List (NormalizedRow V) → EngineData V
  unfolding add_arranged add_row less_key sorted
  arrange arranged_headers engine (ws, normalized) = record engine {
    summary_ws = ws;
    arranged_ws = add_arranged (sorted less_key normalized) (add_row arranged_headers plain []);
  }

  unfoldable pub write_bench_only : EngineData V → EngineData V
  unfolding arrange bench_only_rows add_row labels metric_headers
  write_bench_only engine =
      arrange (labels ("输入上下文" ∷ "输出上下文" ∷ "参数序号" ∷ []) ++ metric_headers) engine (
        bench_only_rows engine.summary_rows
          (add_row (labels ("输入上下文" ∷ "输出上下文" ∷ []) ++ metric_headers) plain []))

  unfoldable pub write_managed :
      List String → List (SummaryRow V × Dict String) → EngineData V → EngineData V
  unfolding arrange managed_rows add_row labels metric_headers
  write_managed all_param_keys rows engine =
      let param_headers = labels all_param_keys in
      arrange
        (labels ("输入上下文" ∷ "输出上下文" ∷ "参数序号" ∷ "模型名称" ∷ "推理引擎(镜像)" ∷ [])
          ++ param_headers
          ++ metric_headers)
        engine
        (managed_rows all_param_keys rows (
          add_row
            (labels ("模型名称" ∷ "参数序号" ∷ "推理引擎(镜像)" ∷ "输入上下文" ∷ "输出上下文" ∷ [])
              ++ param_headers
              ++ metric_headers)
            plain []))

  unfoldable pub params_only : List (SummaryRow V × Dict String) → List (Dict String)
  params_only [] = []
  params_only ((row, params) ∷ rows) = params ∷ params_only rows

-- None where the split raises.
module _ {V : Type 0} (shlex_split : String → Option (List String)) where
  unfoldable pub write_engine : Bool → EngineData V → Option (EngineData V)
  unfolding write_bench_only write_managed row_params_list params_only collect_all_param_keys
  write_engine true engine = some (write_bench_only engine)
  write_engine false engine =
      elim (row_params_list shlex_split engine.commands_params engine.summary_rows) [
        | none ↦ none
        | some rows ↦ some (
            write_managed
              (collect_all_param_keys (engine.commands_params ++ params_only rows)
                engine.exclude_params)
              rows engine)
      ]

  unfoldable pub write_engines : Bool → Dict (EngineData V) → Option (Dict (EngineData V))
  unfolding write_engine
  write_engines bench_only [] = some []
  write_engines bench_only ((name, engine) ∷ engines) = elim (write_engine bench_only engine) [
    | none ↦ none
    | some written ↦ elim (write_engines bench_only engines) [
      | none ↦ none
      | some rest ↦ some ((name, written) ∷ rest)
    ]
  ]

  unfoldable pub write_all_summaries : Writer V → Option (Writer V)
  unfolding write_engines
  write_all_summaries w = elim (write_engines w.bench_only w.engines) [
    | none ↦ none
    | some engines ↦ some (record w { engines = engines })
  ]

  unfoldable pub save : Writer V → Option (Writer V)
  unfolding write_all_summaries finalize_detail_sheet
  save w = elim (write_all_summaries w) [
    | none ↦ none
    | some w' ↦ some (record w' { detail_sheets = map finalize_detail_sheet w'.detail_sheets })
  ]
