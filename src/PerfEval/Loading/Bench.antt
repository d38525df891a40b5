-- ===== src/PerfEval/Loading/Bench.antt =====
-- `load_bench_config` of LLMOps/Benchmark/llm-perf-eval.py, from the dict that the YAML file gives. None is
-- for the errors: a ValueError of the code, or an operation that a value does not have.
use Prim.Native.Char.{code}
use dev_llmops.Prelude.{
  ℕ, String, Bool, not, ◌&&◌, Option, none, some, List, [], ◌∷◌, ◌==◌, if◌then◌else◌,
}
use dev_llmops.Prelude.Text.{text, strip, is_empty}
use dev_llmops.Prelude.Dict.{get, str_eq}
use dev_llmops.PerfEval.Config.{apply_defaults, parse_mode1_test_cases, criteria_parsed}
use dev_llmops.PerfEval.Values.{
  ◌>>=◌, Value, flag, number, real, words, table, Floats, dict_of, is_number, is_true, has_true,
  str_value,
}
use dev_llmops.PerfEval.Loading.{
  Conf, ContextItem, Parsed, test_cases, slo, BenchConfig, healthcheck_defaults, bench_defaults,
  slo_defaults, get_table, get_elements, get_value,
}

-- s[:-len(suffix)] where s ends with it
unfoldable pub before_suffix : String → String → Option String
before_suffix suffix String.[] = if str_eq suffix "" then some "" else none
before_suffix suffix (String.◌∷◌ c s) =
    let rest = before_suffix suffix s in
    if str_eq suffix (String.◌∷◌ c s)
    then some ""
    else elim rest [ none ↦ none | some t ↦ some (String.◌∷◌ c t) ]

-- s.strip("/")
unfoldable pub lstrip_slash : String → String
lstrip_slash String.[] = ""
lstrip_slash (String.◌∷◌ c s) =
    let rest = lstrip_slash s in if code c == b'/' then rest else String.◌∷◌ c s

unfoldable pub rstrip_slash : String → String
unfolding is_empty
rstrip_slash String.[] = ""
rstrip_slash (String.◌∷◌ c s) =
    let rest = rstrip_slash s in if code c == b'/' && is_empty rest then "" else String.◌∷◌ c rest

-- s.replace("/", "--")
unfoldable pub dash_slash : String → String
dash_slash String.[] = ""
dash_slash (String.◌∷◌ c s) =
    let rest = dash_slash s in
    if code c == b'/' then String.◌∷◌ "-" (String.◌∷◌ "-" rest) else String.◌∷◌ c rest

module _ {F : Type 0} (floats : Floats F) where
  -- `none` is the value None, of which there is no float.
  unfoldable pub parse_time : Option (Value F) → Option F
  unfolding strip before_suffix
  parse_time none = none
  parse_time (some (words s)) = elim (before_suffix "ms" (strip s)) [
    | some t ↦ elim (floats.of_text t) [ none ↦ none | some x ↦ some (floats.of_thousand x) ]
    | none ↦ elim (before_suffix "s" (strip s)) [
      | some t ↦ floats.of_text t
      | none ↦ floats.of_text (strip s)
    ]
  ]
  parse_time (some (number n)) = some (floats.of_number n)
  parse_time (some (real x)) = some x
  parse_time (some (flag b)) = some (floats.of_number (if b then 1 else 0))
  parse_time (some _) = none

  -- ast.literal_eval(c) if isinstance(c, str) else c
  unfoldable pub read_literal : Value F → Option (Value F)
  read_literal (words s) = floats.literal_eval s
  read_literal v = some v

  unfoldable pub read_literals : List (Value F) → Option (List (Value F))
  unfolding read_literal
  read_literals [] = some []
  read_literals (v ∷ vs) = elim (read_literal v) [
    | none ↦ none
    | some x ↦ elim (read_literals vs) [ none ↦ none | some xs ↦ some (x ∷ xs) ]
  ]

  -- tc.get("combination_mode", 1), as the mode that it is compared with; 0 for another value.
  unfoldable pub combination_mode : Conf F → ℕ
  unfolding get is_number
  combination_mode tc = elim (get "combination_mode" tc) [
    | none ↦ 1
    | some none ↦ 0
    | some (some v) ↦ if is_number floats 1 v then 1 else if is_number floats 2 v then 2 else 0
  ]

  unfoldable pub load_test_cases : Conf F → Option (Parsed F)
  unfolding get_elements read_literals combination_mode parse_mode1_test_cases
  load_test_cases tc = do
    contexts ← get_elements "context" tc
    context ← read_literals contexts
    batches ← get_elements "batch_request" tc
    batch_request ← read_literals batches
    cases ← parse_mode1_test_cases context batch_request (combination_mode tc)
    some (test_cases cases (combination_mode tc))

  -- v or []: what is false counts as none.
  unfoldable pub if_true : Option (Value F) → Option (Value F)
  unfolding is_true
  if_true none = none
  if_true (some v) = if is_true floats v then some v else none

  unfoldable pub load_context : Value F → Option (ContextItem F)
  unfolding get_value dict_of read_literal if_true
  load_context (table fs) =
      let item = dict_of fs in
      let made : Option (Value F) → ContextItem F = λ ctx_val. record {
        context = ctx_val;
        init_concurrent = get_value "init_concurrent" item;
        max_concurrent = get_value "max_concurrent" item;
        override_args = if_true (get_value "override_args" item);
        engine_override_args = if_true (get_value "engine_override_args" item);
      } in
      elim (get_value "context" item) [
        | none ↦ some (made none)
        | some v ↦ elim (read_literal v) [ none ↦ none | some ctx ↦ some (made (some ctx)) ]
      ]
  load_context v = elim (read_literal v) [
    | none ↦ none
    | some ctx ↦ some (record {
      context = some ctx;
      init_concurrent = none;
      max_concurrent = none;
      override_args = none;
      engine_override_args = none;
    })
  ]

  unfoldable pub load_contexts : List (Value F) → Option (List (ContextItem F))
  unfolding load_context
  load_contexts [] = some []
  load_contexts (v ∷ vs) = do item ← load_context v; rest ← load_contexts vs; some (item ∷ rest)

  -- `_parse_mode2_slo`
  unfoldable pub load_slo : Conf F → Option (Parsed F)
  unfolding apply_defaults slo_defaults get_table criteria_parsed parse_time get_elements
      load_contexts
  load_slo raw = do
    let conf = apply_defaults raw slo_defaults
    raw_criteria ← get_table "criteria" conf
    criteria ← criteria_parsed parse_time raw_criteria
    raw_contexts ← get_elements "context" conf
    contexts ← load_contexts raw_contexts
    some (slo conf criteria contexts)

  unfoldable pub load_mode : Value F → Conf F → Option (Parsed F)
  unfolding is_number get_table load_test_cases load_slo
  load_mode mode conf =
      if is_number floats 1 mode
      then (get_table "test_cases" conf >>= load_test_cases)
      else if is_number floats 2 mode
      then (get_table "slo" conf >>= load_slo)
      else none

  -- conf["model_name"].strip("/").replace("/", "--")
  unfoldable pub name_prefix : Option (Value F) → Option String
  unfolding lstrip_slash rstrip_slash dash_slash
  name_prefix (some (words s)) = some (dash_slash (rstrip_slash (lstrip_slash s)))
  name_prefix _ = none

  -- The prefix that the file gives, or that of the model's name.
  unfoldable pub default_prefix : Conf F → Option String
  unfolding get_value is_true str_value name_prefix
  default_prefix conf = elim (get_value "result_file_prefix" conf) [
    | some v ↦
        if is_true floats v
        then some (str_value floats v)
        else name_prefix (get_value "model_name" conf)
    | none ↦ name_prefix (get_value "model_name" conf)
  ]

  -- str(conf.get("excel_prefix", "") or "").strip()
  unfoldable pub excel_prefix : Conf F → String
  unfolding get_value is_true str_value strip
  excel_prefix conf = elim (get_value "excel_prefix" conf) [
    | none ↦ ""
    | some v ↦ if is_true floats v then strip (str_value floats v) else ""
  ]

  unfoldable pub prefixed : String → String → String
  unfolding is_empty text
  prefixed custom prefix = if is_empty custom then prefix else text (custom ∷ "-" ∷ prefix ∷ [])

  -- The dict of the health check with its defaults, where it is a dict.
  unfoldable pub load_healthcheck : Conf F → Option (Conf F)
  unfolding get_value dict_of apply_defaults healthcheck_defaults
  load_healthcheck conf = elim (get_value "healthcheck" conf) [
    | some (table fs) ↦ some (apply_defaults (dict_of fs) healthcheck_defaults)
    | _ ↦ none
  ]

  unfoldable pub has_required : Conf F → Bool
  unfolding has_true
  has_required conf =
      has_true floats "model_name" conf
      && has_true floats "tokenizer_path" conf
      && has_true floats "url" conf

  unfoldable pub load_bench_config : Conf F → Option (BenchConfig F)
  unfolding apply_defaults bench_defaults get_value has_required load_mode load_healthcheck
      default_prefix excel_prefix prefixed
  load_bench_config file =
      let conf = apply_defaults file bench_defaults in
      if not (has_required conf) then none else do
        mode ← get_value "mode" conf
        parsed ← load_mode mode conf
        prefix ← default_prefix conf
        some (record {
          conf = conf;
          healthcheck = load_healthcheck conf;
          parsed = parsed;
          result_file_prefix = prefixed (excel_prefix conf) prefix;
        })
