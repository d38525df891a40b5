-- ===== src/PerfEval/Loading.antt =====
-- The dicts from which LLMOps/Benchmark/llm-perf-eval.py loads its configuration, their defaults, and
-- what the loading makes of them.
pub mod Bench
pub mod Commands
pub mod Engines
pub mod Main
use Prim.Native.Char.{code}
use dev_llmops.Prelude.{
  ℕ, zero, suc, String, Bool, true, false, not, ◌&&◌, ◌||◌, Option, none, some, List, [], ◌∷◌, ◌==◌,
  if◌then◌else◌,
}
use dev_llmops.Prelude.Text.{text, strip, is_empty, count_chars}
use dev_llmops.Prelude.Dict.{Dict, get, put, str_eq}
use dev_llmops.PerfEval.Workbook.{take_chars}
use dev_llmops.PerfEval.Config.{apply_defaults, parse_mode1_test_cases, criteria_parsed}
use dev_llmops.PerfEval.Values.{
  ◌>>=◌, Value, null, flag, number, real, words, items, table, Fields, no_fields, field, no_values,
  Floats, dict_of, elements, is_number, is_true, has_true,
}

-- A dict of the configuration, where null is none.
abbrev pub Conf : Type 0 → Type 0
Conf F = Dict (Option (Value F))

-- An element of `slo["contexts"]`; what is none is None.
pub record ContextItem (F : Type 0) : Type 0 where
  pub context : Option (Value F)
  pub init_concurrent : Option (Value F)
  pub max_concurrent : Option (Value F)
  pub override_args : Option (Value F)
  pub engine_override_args : Option (Value F)

pub data Parsed (F : Type 0) : Type 0 where
  test_cases : List (Value F × Value F) → ℕ → Parsed F
  slo : Dict (Option (Value F)) → Dict F → List (ContextItem F) → Parsed F

pub record BenchConfig (F : Type 0) : Type 0 where
  pub conf : Dict (Option (Value F))
  pub healthcheck : Option (Dict (Option (Value F)))
  pub parsed : Parsed F
  pub result_file_prefix : String

module _ {F : Type 0} where
  unfoldable pub healthcheck_defaults : Conf F
  healthcheck_defaults =
      ("initial_delay", some (number 120))
      ∷ ("interval", some (number 5))
      ∷ ("retry_count", some (number 60))
      ∷ []

  unfoldable pub bench_defaults : Conf F
  bench_defaults =
      ("mode", some (number 1))
      ∷ ("bench_only", some (flag false))
      ∷ ("bench_only_healthcheck", some (flag false))
      ∷ ("api_key", some (words ""))
      ∷ ("dataset", some (words "random"))
      ∷ ("result_dir", some (words "./results"))
      ∷ ("excel_prefix", some (words ""))
      ∷ ("warmup", some (table (field "enable" (flag false) no_fields)))
      ∷ (
        "healthcheck",
        some (
            table (
              field "initial_delay" (number 120)
                (field "interval" (number 5) (field "retry_count" (number 60) no_fields)))),
      )
      ∷ []

  unfoldable pub slo_defaults : Conf F
  slo_defaults =
      ("search_method", some (words "binary"))
      ∷ ("stop_n", some (number 2))
      ∷ ("init_concurrent", some (number 2))
      ∷ ("request_multiplier", some (number 4))
      ∷ ("max_concurrent", none)
      ∷ []

  -- conf.get(key, {}), which has to be a dict.
  unfoldable pub get_table : String → Conf F → Option (Conf F)
  unfolding get dict_of
  get_table key conf = elim (get key conf) [
    | none ↦ some []
    | some (some (table fs)) ↦ some (dict_of fs)
    | some _ ↦ none
  ]

  -- The elements of conf.get(key, []).
  unfoldable pub get_elements : String → Conf F → Option (List (Value F))
  unfolding get elements
  get_elements key conf = elim (get key conf) [
    | none ↦ some []
    | some none ↦ none
    | some (some v) ↦ elements v
  ]

  -- conf.get(key)
  unfoldable pub get_value : String → Conf F → Option (Value F)
  unfolding get
  get_value key conf = elim (get key conf) [ none ↦ none | some v ↦ v ]
