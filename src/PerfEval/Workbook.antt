-- ===== src/PerfEval/Workbook.antt =====
-- The sheets that the writers of LLMOps/Benchmark/llm-perf-eval.py fill, and `Mode1ResultWriter`. A
-- sheet is its rows, the header first; a style holds for the whole row. `V` is the type of a measured
-- value. openpyxl gives a sheet that is created a title that no other sheet has: `unique_title` is a
-- parameter.
use Prim.Native.Char.{code}
use dev_llmops.Prelude.{
  ℕ, zero, suc, String, Bool, true, false, not, ◌&&◌, ◌||◌, Option, none, some, List, [], ◌∷◌, ◌++◌,
  leb, ltb, ◌==◌, if◌then◌else◌, set, get_elem?, length,
}
use dev_llmops.Prelude.Text.{text, is_empty, strip, show, count_chars}
use dev_llmops.PerfEval.Events.{Context}

pub data Font : Type 0 where
  plain red amber bold : Font

pub data Fill : Type 0 where
  clear green yellow : Fill

pub data Cell (V : Type 0) : Type 0 where
  number : ℕ → Cell V
  label : String → Cell V
  metric : V → Cell V

pub record SheetRow (V : Type 0) : Type 0 where
  pub cells : List (Cell V)
  pub font : Font
  pub fill : Fill

abbrev pub Sheet : Type 0 → Type 0
Sheet V = List (SheetRow V)

-- What `_parse_metrics` makes of the metrics of a benchmark.
pub record Metrics (V : Type 0) : Type 0 where
  pub ttft : V
  pub tpot : V
  pub throughput : V
  pub itl : V
  pub duration : V
  pub comment : String

-- A character that Excel does not take.
unfoldable pub is_illegal : ℕ → Bool
is_illegal c = leb c 8 || c == 11 || c == 12 || (leb 14 c && leb c 31) || c == 127

unfoldable pub sanitize_for_excel : String → String
unfolding is_illegal
sanitize_for_excel String.[] = ""
sanitize_for_excel (String.◌∷◌ c s) =
    let rest = sanitize_for_excel s in if is_illegal (code c) then rest else String.◌∷◌ c rest

-- s[:n]
unfoldable pub take_chars : ℕ → String → String
take_chars zero s = ""
take_chars (suc n) String.[] = ""
take_chars (suc n) (String.◌∷◌ c s) = String.◌∷◌ c (take_chars n s)

unfoldable pub cut_logs : ℕ → String → String
unfolding count_chars take_chars text
cut_logs max_len s =
    if ltb max_len (count_chars s) then text (take_chars max_len s ∷ "\n...(日志已截断)" ∷ []) else s

-- Logs that are None count as empty.
unfoldable pub logs_text : Option String → String
unfolding strip sanitize_for_excel
logs_text none = ""
logs_text (some logs) = sanitize_for_excel (strip logs)

module _ {V : Type 0} where
  unfoldable pub add_row : List (Cell V) → Font → Sheet V → Sheet V
  add_row cells font ws = ws ++ record { cells = cells; font = font; fill = clear } ∷ []

  unfoldable pub labels : List String → List (Cell V)
  labels [] = []
  labels (s ∷ ss) = label s ∷ labels ss

  unfoldable pub headers : List (Cell V)
  unfolding labels
  headers = labels (
      "输入上下文长度" ∷ "输出上下文长度" ∷ "并发数" ∷ "请求数" ∷ "TTFT(s)" ∷ "TPOT(s)" ∷ "吞吐(tokens/s)" ∷ "ITL(s)"
      ∷ "持续时间(s)" ∷ "备注" ∷ [])

  unfoldable pub not_available : Cell V
  not_available = label "N/A"

  unfoldable pub result_cells : Option (Metrics V) → List (Cell V)
  unfolding not_available
  result_cells none =
      not_available
      ∷ not_available
      ∷ not_available
      ∷ not_available
      ∷ not_available
      ∷ label "模型服务异常，未能获取结果"
      ∷ []
  result_cells (some r) =
      metric r.ttft
      ∷ metric r.tpot
      ∷ metric r.throughput
      ∷ metric r.itl
      ∷ metric r.duration
      ∷ label r.comment
      ∷ []

  -- failed_request
  unfoldable pub is_failed : Option (Metrics V) → Bool
  unfolding is_empty
  is_failed none = true
  is_failed (some r) = not (is_empty r.comment)

  unfoldable pub append_result : Context → ℕ × ℕ → Option (Metrics V) → Sheet V → Sheet V
  unfolding add_row result_cells is_failed
  append_result context batch_req result ws =
      add_row
        (number context.0
          ∷ number context.1
          ∷ number batch_req.0
          ∷ number batch_req.1
          ∷ result_cells result)
        (if is_failed result then red else plain) ws

  unfoldable pub append_failure_marker : Context → String → Sheet V → Sheet V
  unfolding add_row not_available
  append_failure_marker context reason ws =
      add_row
        (number context.0
          ∷ number context.1
          ∷ not_available
          ∷ not_available
          ∷ not_available
          ∷ not_available
          ∷ not_available
          ∷ not_available
          ∷ not_available
          ∷ label reason
          ∷ [])
        red ws

  -- An empty row, a title and a text.
  unfoldable pub add_note : String → String → Font → Sheet V → Sheet V
  unfolding add_row
  add_note title content font ws =
      add_row (label content ∷ []) font (add_row (label title ∷ []) font (add_row [] plain ws))

  unfoldable pub append_failure_logs : Option String → String → Sheet V → Sheet V
  unfolding logs_text is_empty cut_logs add_note text
  append_failure_logs logs title ws =
      if is_empty (logs_text logs)
      then ws
      else add_note (text (title ∷ ":" ∷ [])) (cut_logs 15000 (logs_text logs)) red ws

  unfoldable pub add_command : String → Sheet V → Sheet V
  unfolding is_empty add_note
  add_command full_cmd ws = if is_empty full_cmd then ws else add_note "完整启动命令:" full_cmd plain ws

-- A sheet of `Mode1ResultWriter`, with `_full_cmd`.
pub record ParamSheet (V : Type 0) : Type 0 where
  pub title : String
  pub full_cmd : String
  pub rows : Sheet V

-- `wb` and `_first_sheet`. The workbook of the start has one empty sheet, which is the active one.
pub record Mode1Writer (V : Type 0) : Type 0 where
  pub wb : List (ParamSheet V)
  pub first_sheet : Bool

-- f"{engine_name}-参数{param_index}" if engine_name else f"参数{param_index}"
unfoldable pub param_title : String → ℕ → String
unfolding text show is_empty
param_title engine_name n =
    if is_empty engine_name
    then text ("参数" ∷ show n ∷ [])
    else text (engine_name ∷ "-参数" ∷ show n ∷ [])

module _ {V : Type 0} where
  unfoldable pub new_mode1_writer : Mode1Writer V
  new_mode1_writer = record {
    wb = record { title = "Sheet"; full_cmd = ""; rows = [] } ∷ [];
    first_sheet = true;
  }

  unfoldable pub titles : List (ParamSheet V) → List String
  titles [] = []
  titles (ws ∷ wb) = ws.title ∷ titles wb

  -- The new sheet's place in the workbook, and the writer.
  unfoldable pub create_param_sheet :
      (List String → String → String) → ℕ → String → String → Mode1Writer V → ℕ × Mode1Writer V
  unfolding param_title titles add_row headers
  create_param_sheet unique_title param_index full_cmd engine_name w =
      let ws : ParamSheet V = record {
        title = unique_title (titles w.wb) (param_title engine_name param_index);
        full_cmd = full_cmd;
        rows = add_row headers plain [];
      } in
      if w.first_sheet
      then (0, record { wb = set w.wb 0 ws; first_sheet = false })
      else (length w.wb, record w { wb = w.wb ++ ws ∷ [] })

  -- What an operation does to the rows of a sheet.
  unfoldable pub on_sheet : ℕ → (Sheet V → Sheet V) → Mode1Writer V → Mode1Writer V
  on_sheet i f w = elim (get_elem? w.wb i) [
    | none ↦ w
    | some ws ↦ record w { wb = set w.wb i (record ws { rows = f ws.rows }) }
  ]

  unfoldable pub finalize_sheet : ℕ → Mode1Writer V → Mode1Writer V
  unfolding add_command
  finalize_sheet i w = elim (get_elem? w.wb i) [
    | none ↦ w
    | some ws ↦ record w { wb = set w.wb i (record ws { rows = add_command ws.full_cmd ws.rows }) }
  ]
