-- ===== src/PerfEval/Book.antt =====
-- What the events of `run_mode2` of LLMOps/Benchmark/llm-perf-eval.py make of the workbook: the calls of
-- its writer.
pub mod Named
pub mod Runs
pub mod Tracks
pub mod Kept
pub mod Complete
use dev_llmops.Prelude.{
  ℕ, String, Bool, true, false, Option, none, some, List, [], ◌∷◌, ◌++◌, if◌then◌else◌,
}
use dev_llmops.PerfEval.Search.{Entry}
use dev_llmops.PerfEval.Events.{
  Context, Item, Failure, start_failed, unhealthy, Summary, failed, found, BestMap, Event, start,
  health, outside_health, stop, logs, warmup, outside_warmup, flush, write_summaries, finalize,
  marker, failure_logs, bench, summary, init_engine, register, detail_sheet, effective, highlight,
  History,
}
use dev_llmops.PerfEval.Workbook.{Metrics}
use dev_llmops.PerfEval.Writer.{
  SummaryRow, DetailSheet, Writer, init_engine as add_engine, register_command, add_summary_row,
  create_detail_sheet, append_detail_result, append_detail_marker, append_detail_logs,
  finalize_detail_sheet,
}
use dev_llmops.PerfEval.Writer.Highlight.{highlight_best_rows}
use dev_llmops.PerfEval.Writer.Summaries.{write_all_summaries}

unfoldable pub reason_of : Failure → String
reason_of start_failed = "模型启动失败（参数或环境异常）"
reason_of unhealthy = "健康检查失败（服务未就绪）"

unfoldable pub logs_title : Failure → String
logs_title start_failed = "启动失败日志"
logs_title unhealthy = "健康检查失败日志"

-- What the writer is given beside the events: the split, the titles of openpyxl, the name of the model,
-- and of an engine the image, the parameters left out and the full command. `logs_of` are the logs
-- after what happened.
pub record Setup (V : Type 0) : Type 0 where
  pub shlex_split : String → Option (List String)
  pub unique_title : List String → String → String
  pub model_name : String
  pub image_name : String → String
  pub exclude_params : String → List String
  pub full_cmd : String → String → String
  pub logs_of : History (Metrics V) → Option String

module _ {V : Type 0} where
  unfoldable pub on_last :
      (DetailSheet V → DetailSheet V) → List (DetailSheet V) → List (DetailSheet V)
  on_last f [] = []
  on_last f (ws ∷ []) = f ws ∷ []
  on_last f (ws ∷ vs ∷ sheets) = ws ∷ on_last f (vs ∷ sheets)

  -- What is done to `detail_ws`, the sheet that was created last.
  unfoldable pub on_detail : (DetailSheet V → DetailSheet V) → Writer V → Writer V
  unfolding on_last
  on_detail f w = record w { detail_sheets = on_last f w.detail_sheets }

  module _ (setup : Setup V) where
    unfoldable pub row_of :
        String → ℕ → Context → Summary (Metrics V) → Option String → SummaryRow V
    unfolding reason_of
    row_of engine_name n context (failed f) cmd = record {
      model_name = setup.model_name;
      image_name = setup.image_name engine_name;
      param_index = n;
      input_ctx = context.0;
      output_ctx = context.1;
      best = none;
      failure_reason = some (reason_of f);
      effective_model_cmd = cmd;
      slo_no_pass = false;
    }
    row_of engine_name n context (found best no_pass) cmd = record {
      model_name = setup.model_name;
      image_name = setup.image_name engine_name;
      param_index = n;
      input_ctx = context.0;
      output_ctx = context.1;
      best = best;
      failure_reason = none;
      effective_model_cmd = cmd;
      slo_no_pass = no_pass;
    }

    -- One event after `h`; none where the writer raises.
    unfoldable pub record_event :
        Event (Metrics V) → History (Metrics V) → Writer V → Option (Writer V)
    unfolding add_engine register_command create_detail_sheet on_detail append_detail_result
        append_detail_marker append_detail_logs add_summary_row row_of finalize_detail_sheet
        highlight_best_rows write_all_summaries reason_of logs_title
    record_event (init_engine name) h w =
        some (add_engine setup.unique_title name (setup.exclude_params name) w)
    record_event (register name cmd) h w = register_command setup.shlex_split name cmd w
    record_event (detail_sheet name n cmd) h w =
        some (create_detail_sheet setup.unique_title name n (setup.full_cmd name cmd) w).1
    record_event (effective name context cmd) h w = some (
        on_detail
          (λ ws. record ws {
            effective_cmds_list = ws.effective_cmds_list ++ (context, setup.full_cmd name cmd) ∷ [];
          })
          w)
    record_event (bench cmd context req result) h w =
        some (on_detail (append_detail_result context req result) w)
    record_event (marker context f) h w =
        some (on_detail (append_detail_marker context (reason_of f)) w)
    record_event (failure_logs f) h w =
        some (on_detail (append_detail_logs (setup.logs_of h) (logs_title f)) w)
    record_event (summary name n context s cmd) h w =
        add_summary_row name (row_of name n context s cmd) w
    record_event (highlight best_map items) h w =
        some (on_detail (λ ws. record ws { rows = highlight_best_rows best_map items ws.rows }) w)
    record_event finalize h w = some (on_detail finalize_detail_sheet w)
    record_event write_summaries h w = write_all_summaries setup.shlex_split w
    record_event _ h w = some w

    unfoldable pub record_history : History (Metrics V) → Writer V → Option (Writer V)
    unfolding record_event
    record_history [] w = some w
    record_history (e ∷ h) w = elim (record_history h w) [
      | none ↦ none
      | some w' ↦ record_event e h w'
    ]
