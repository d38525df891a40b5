-- ===== src/PerfEval/Measures.antt =====
-- `_extract_metrics` and `_parse_metrics` of LLMOps/Benchmark/llm-perf-eval.py, on what evalscope returns.
-- None is for a value that has not the shape that the code takes it to have, where it raises.
use dev_llmops.Prelude.{
  ℕ, String, Bool, true, false, not, Option, none, some, [], ◌∷◌, ltb, if◌then◌else◌,
}
use dev_llmops.Prelude.Text.{text, show}
use dev_llmops.Prelude.Dict.{str_eq}
use dev_llmops.PerfEval.Workbook.{Metrics}
use dev_llmops.PerfEval.Values.{
  Value, null, number, words, items, table, value, no_fields, field, Fields, Floats, is_true,
  str_value,
}

module _ {F : Type 0} (floats : Floats F) where
  -- metrics.get(key, default)
  unfoldable pub get_field : String → Value F → Fields F → Value F
  get_field key default no_fields = default
  get_field key default (field k v fs) =
      let later = get_field key default fs in if str_eq k key then v else later

  unfoldable pub has_field : String → Fields F → Bool
  has_field key no_fields = false
  has_field key (field k v fs) =
      let later = has_field key fs in if str_eq k key then true else later

  -- The first of the values that is a dict with "metrics".
  unfoldable pub find_metrics : Fields F → Option (Value F)
  unfolding has_field get_field
  find_metrics no_fields = none
  find_metrics (field k (table fs) rest) =
      let later = find_metrics rest in
      if has_field "metrics" fs then some (get_field "metrics" null fs) else later
  find_metrics (field k v rest) = find_metrics rest

  unfoldable pub first_result : Value F → Value F
  first_result (items (value v vs)) = v
  first_result v = v

  unfoldable pub extract_metrics : Value F → Value F
  unfolding find_metrics first_result
  extract_metrics result = elim (first_result result) [
    | table fs ↦ elim (find_metrics fs) [ none ↦ table fs | some metrics ↦ metrics ]
    | _ ↦ table no_fields
  ]

  unfoldable pub comment_of : ℕ → Value F → String
  unfolding text show str_value
  comment_of failed total =
      if ltb 0 failed
      then text ("失败请求数: " ∷ show failed ∷ "/" ∷ str_value floats total ∷ [])
      else ""

  unfoldable pub metrics_of : Fields F → Option (Metrics (Value F))
  unfolding get_field comment_of
  metrics_of metrics =
      let failed = floats.to_int (get_field "Failed requests" (number 0) metrics) in
      let missing : Value F = words "N/A" in
      elim failed [
        | none ↦ none
        | some n ↦ some (record {
          ttft = get_field "Average time to first token (s)" missing metrics;
          tpot = get_field "Average time per output token (s)" missing metrics;
          throughput = get_field "Total token throughput (tok/s)" missing metrics;
          itl = get_field "Average inter-token latency (s)" missing metrics;
          duration = get_field "Time taken for tests (s)" missing metrics;
          comment = comment_of n (get_field "Total requests" missing metrics);
        })
      ]

  -- `some none` is the result None.
  unfoldable pub parse_metrics : Value F → Option (Option (Metrics (Value F)))
  unfolding is_true metrics_of
  parse_metrics metrics = if not (is_true floats metrics) then some none else elim metrics [
    | table fs ↦ elim (metrics_of fs) [ none ↦ none | some m ↦ some (some m) ]
    | _ ↦ none
  ]

  -- The `try` of `run_single_benchmark`: `run` is what evalscope returns, none where it raises; an
  -- exception of any of the three gives None.
  unfoldable pub benchmark_result : Option (Value F) → Option (Metrics (Value F))
  unfolding extract_metrics parse_metrics
  benchmark_result none = none
  benchmark_result (some result) = elim (parse_metrics (extract_metrics result)) [
    | none ↦ none
    | some m ↦ m
  ]
