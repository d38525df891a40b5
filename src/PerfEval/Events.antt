-- ===== src/PerfEval/Events.antt =====
-- What `run_mode2` of LLMOps/Benchmark/llm-perf-eval.py does, as events, and what it does it with.
use dev_llmops.Prelude.{ℕ, String, Bool, Option, List}
use dev_llmops.Prelude.Dict.{Dict}
use dev_llmops.PerfEval.Search.{Entry, Method}

-- Input and output tokens.
abbrev pub Context : Type 0
Context = ℕ × ℕ

-- An element of `slo["contexts"]`.
pub record Item : Type 0 where
  pub context : Context
  pub init_concurrent : Option ℕ
  pub max_concurrent : Option ℕ
  pub override_args : List String
  pub engine_override_args : Dict (List String)

pub data Failure : Type 0 where
  start_failed unhealthy : Failure

-- What a row of the summary says of a context: a failure, or the entry and `slo_no_pass`.
pub data Summary (R : Type 0) : Type 0 where
  failed : Failure → Summary R
  found : Option (Entry R) → Bool → Summary R

-- `context_best_map`: the pair (best, min_tested) of each context.
abbrev pub BestMap : Type 0 → Type 0
BestMap R = List (Context × (Option (Entry R) × Option (Entry R)))

-- What the program does to the service and to the workbook. `bench` has the effective command of the
-- context that is tested, the context, the concurrency and the number of requests, and the result. A
-- model that `bench_only` does not manage has no command, and its health checks and warm-ups are
-- apart. `init_engine`, `register`, `detail_sheet`, `effective` and `summary` have the engine; `detail_sheet` the
-- index and the command; `summary` the index and the effective command, where there is one.
pub data Event (R : Type 0) : Type 0 where
  start : String → Bool → Event R
  health outside_health : Bool → Event R
  stop logs warmup outside_warmup flush write_summaries finalize : Event R
  marker : Context → Failure → Event R
  failure_logs : Failure → Event R
  bench : Option String → Context → ℕ × ℕ → Option R → Event R
  summary : String → ℕ → Context → Summary R → Option String → Event R
  init_engine : String → Event R
  register : String → String → Event R
  detail_sheet : String → ℕ → String → Event R
  effective : String → Context → String → Event R
  highlight : BestMap R → List Item → Event R

-- The newest event first.
abbrev pub History : Type 0 → Type 0
History R = List (Event R)

-- What the service answers, by what happened before; `passes`, `request_count` and the fuel are those
-- of the search.
pub record Service (R : Type 0) : Type 0 where
  pub shlex_split : String → Option (List String)
  pub starts : History R → String → Bool
  pub is_healthy : History R → Bool
  pub result_of : History R → Context → ℕ × ℕ → Option R
  pub passes : Option R → Bool
  pub request_count : ℕ → ℕ
  pub fuel : ℕ

pub record Settings : Type 0 where
  pub engine_name : String
  pub model_cmd : String
  pub param_index : ℕ
  pub bench_only : Bool
  pub bench_only_healthcheck : Bool
  pub default_init : ℕ
  pub default_max : Option ℕ
  pub warmup_enabled : Bool
  pub search_method : Method
  pub stop_n : ℕ

-- `current_running_cmd`, `context_best_map`, and the history.
pub record Run (R : Type 0) : Type 0 where
  pub running : Option String
  pub best_map : BestMap R
  pub history : History R

pub data Outcome (R : Type 0) : Type 0 where
  returned : Run R → Outcome R
  -- A split raised, or the fuel of a search ran out.
  ended : History R → Outcome R
