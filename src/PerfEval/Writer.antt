-- ===== src/PerfEval/Writer.antt =====
-- `Mode2ResultWriter` of LLMOps/Benchmark/llm-perf-eval.py: its state, the detail sheets, and the rows
-- kept for the summaries.
pub mod Highlight
pub mod Marks
pub mod Summaries
pub mod Arranged
pub mod Written
use dev_llmops.Prelude.{
  ℕ, zero, suc, String, Bool, true, false, not, ◌&&◌, ◌||◌, Option, none, some, List, [], ◌∷◌, ◌++◌,
  map, leb, ltb, ◌==◌, if◌then◌else◌, set, get_elem?, length,
}
use dev_llmops.Prelude.Text.{text, is_empty, show}
use dev_llmops.Prelude.Dict.{Dict, get, put, str_eq}
use dev_llmops.PerfEval.Search.{Entry}
use dev_llmops.PerfEval.Args.{parse_model_cmd_args, str_mem}
use dev_llmops.PerfEval.Events.{Context, Item, BestMap}
use dev_llmops.PerfEval.Workbook.{
  plain, bold, clear, green, yellow, Fill, Cell, number, label, metric, SheetRow, Sheet, Metrics,
  add_row, headers, append_result, append_failure_marker, append_failure_logs, add_note,
  add_command, param_title,
}

-- An element of `summary_rows`.
pub record SummaryRow (V : Type 0) : Type 0 where
  pub model_name : String
  pub image_name : String
  pub param_index : ℕ
  pub input_ctx : ℕ
  pub output_ctx : ℕ
  pub best : Option (Entry (Metrics V))
  pub failure_reason : Option String
  pub effective_model_cmd : Option String
  pub slo_no_pass : Bool

-- A value of `_engines`, with the titles of its sheets.
pub record EngineData (V : Type 0) : Type 0 where
  pub summary_title : String
  pub arranged_title : String
  pub summary_ws : Sheet V
  pub arranged_ws : Sheet V
  pub summary_rows : List (SummaryRow V)
  pub commands_params : List (Dict String)
  pub exclude_params : List String

-- An element of `detail_sheets`, with the attributes that the writer gives it.
pub record DetailSheet (V : Type 0) : Type 0 where
  pub title : String
  pub full_cmd : String
  pub effective_cmds_list : List (Context × String)
  pub finalized : Bool
  pub rows : Sheet V

-- `sheetnames` are the titles of the workbook's sheets; `replaced` are engines whose name was given
-- again, of which only the sheets are left.
pub record Writer (V : Type 0) : Type 0 where
  pub bench_only : Bool
  pub sheetnames : List String
  pub engines : Dict (EngineData V)
  pub replaced : List (EngineData V)
  pub detail_sheets : List (DetailSheet V)

-- Commands that were seen before are left out.
unfoldable pub distinct_cmds : List String → List (Context × String) → List (Context × String)
unfolding str_mem
distinct_cmds seen_cmds [] = []
distinct_cmds seen_cmds ((ctx, cmd) ∷ list) =
    let old = distinct_cmds seen_cmds list in
    let new = (ctx, cmd) ∷ distinct_cmds (cmd ∷ seen_cmds) list in
    if str_mem cmd seen_cmds then old else new

module _ {V : Type 0} where
  unfoldable pub new_writer : Bool → Writer V
  new_writer bench_only = record {
    bench_only = bench_only;
    sheetnames = [];
    engines = [];
    replaced = [];
    detail_sheets = [];
  }

  unfoldable pub put_engine : String → EngineData V → Writer V → Writer V
  unfolding get put
  put_engine engine_name engine w = record w {
    engines = put engine_name engine w.engines;
    replaced = elim (get engine_name w.engines) [
      | none ↦ w.replaced
      | some old ↦ w.replaced ++ old ∷ []
    ];
  }

  unfoldable pub init_engine :
      (List String → String → String) → String → List String → Writer V → Writer V
  unfolding put_engine text
  init_engine unique_title engine_name exclude_params w =
      let summary_title = unique_title w.sheetnames (text ("汇总-" ∷ engine_name ∷ [])) in
      let names = w.sheetnames ++ summary_title ∷ [] in
      let arranged_title = unique_title names (text ("整理-汇总-" ∷ engine_name ∷ [])) in
      put_engine engine_name
        (record {
          summary_title = summary_title;
          arranged_title = arranged_title;
          summary_ws = [];
          arranged_ws = [];
          summary_rows = [];
          commands_params = [];
          exclude_params = exclude_params;
        })
        (record w { sheetnames = names ++ arranged_title ∷ [] })

  -- self._engines[engine_name], changed in place; none where the name is missing.
  unfoldable pub on_engine : String → (EngineData V → EngineData V) → Writer V → Option (Writer V)
  unfolding get put
  on_engine engine_name f w = elim (get engine_name w.engines) [
    | none ↦ none
    | some engine ↦ some (record w { engines = put engine_name (f engine) w.engines })
  ]

  -- None where the split or the look-up raises.
  unfoldable pub register_command :
      (String → Option (List String)) → String → String → Writer V → Option (Writer V)
  unfolding parse_model_cmd_args on_engine
  register_command shlex_split engine_name model_cmd w =
      elim (parse_model_cmd_args shlex_split model_cmd) [
        | none ↦ none
        | some params ↦
            on_engine engine_name
              (λ engine. record engine { commands_params = engine.commands_params ++ params ∷ [] })
              w
      ]

  unfoldable pub add_summary_row : String → SummaryRow V → Writer V → Option (Writer V)
  unfolding on_engine
  add_summary_row engine_name row w =
      on_engine engine_name
        (λ engine. record engine { summary_rows = engine.summary_rows ++ row ∷ [] }) w

  -- The place of the new sheet among the detail sheets, and the writer.
  unfoldable pub create_detail_sheet :
      (List String → String → String) → String → ℕ → String → Writer V → ℕ × Writer V
  unfolding text show add_row headers
  create_detail_sheet unique_title engine_name param_index full_cmd w =
      let title = unique_title w.sheetnames (text (engine_name ∷ "-参数" ∷ show param_index ∷ [])) in
      (
        length w.detail_sheets,
        record w {
          sheetnames = w.sheetnames ++ title ∷ [];
          detail_sheets =
              w.detail_sheets
              ++ record {
                title = title;
                full_cmd = full_cmd;
                effective_cmds_list = [];
                finalized = false;
                rows = add_row headers plain [];
              }
                ∷ [];
        },
      )

  unfoldable pub append_detail_result :
      Context → ℕ × ℕ → Option (Metrics V) → DetailSheet V → DetailSheet V
  unfolding append_result
  append_detail_result context batch_req result ws = record ws {
    rows = append_result context batch_req result ws.rows;
  }

  unfoldable pub append_detail_marker : Context → String → DetailSheet V → DetailSheet V
  unfolding append_failure_marker
  append_detail_marker context reason ws = record ws {
    rows = append_failure_marker context reason ws.rows;
  }

  unfoldable pub append_detail_logs : Option String → String → DetailSheet V → DetailSheet V
  unfolding append_failure_logs
  append_detail_logs logs title ws = record ws { rows = append_failure_logs logs title ws.rows }

  -- f"上下文 {ctx}: {cmd}"
  unfoldable pub context_line : Context × String → List (Cell V)
  unfolding text show
  context_line (ctx, cmd) =
      label (text ("上下文 [" ∷ show ctx.0 ∷ ", " ∷ show ctx.1 ∷ "]: " ∷ cmd ∷ [])) ∷ []

  unfoldable pub add_context_lines : List (Context × String) → Sheet V → Sheet V
  unfolding add_row context_line
  add_context_lines [] ws = ws
  add_context_lines (c ∷ list) ws = add_context_lines list (add_row (context_line c) plain ws)

  unfoldable pub command_notes :
      List (Context × String) → List (Context × String) → String → Sheet V → Sheet V
  unfolding add_context_lines add_row add_note add_command
  command_notes [] list full_cmd ws = add_command full_cmd ws
  command_notes ((ctx, cmd) ∷ []) list full_cmd ws = add_note "完整启动命令:" cmd plain ws
  command_notes (c ∷ d ∷ more) list full_cmd ws =
      add_context_lines list (add_row (label "各上下文启动命令:" ∷ []) plain (add_row [] plain ws))

  unfoldable pub finalize_detail_sheet : DetailSheet V → DetailSheet V
  unfolding distinct_cmds command_notes
  finalize_detail_sheet ws = if ws.finalized then ws else record ws {
    rows =
        command_notes (distinct_cmds [] ws.effective_cmds_list) ws.effective_cmds_list ws.full_cmd
          ws.rows;
    finalized = true;
  }
