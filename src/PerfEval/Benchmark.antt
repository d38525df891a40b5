-- ===== src/PerfEval/Benchmark.antt =====
-- What LLMOps/Benchmark/llm-perf-eval.py asks of evalscope: `run_single_benchmark` and `run_warmup`.
use dev_llmops.Prelude.{ℕ, String, Bool, true, false, Option, none, some, List, [], ◌∷◌}
use dev_llmops.Prelude.Dict.{get}
use dev_llmops.PerfEval.Events.{Context}
use dev_llmops.PerfEval.Workbook.{Metrics}
use dev_llmops.PerfEval.Values.{◌>>=◌, Value, flag, number, words, table, Floats, dict_of, elements}
use dev_llmops.PerfEval.Measures.{benchmark_result}
use dev_llmops.PerfEval.Loading.{Conf, get_value}
use dev_llmops.PerfEval.Loading.Bench.{if_true, read_literal}

-- The arguments that are not the same at each call; `min_tokens` and `max_tokens` are `output_tokens`,
-- and the lengths of the prompt `input_tokens`. A value that is none is None.
pub record Arguments (F : Type 0) : Type 0 where
  pub parallel : ℕ
  pub number_of_requests : ℕ
  pub model : Option (Value F)
  pub url : Option (Value F)
  pub api_key : Option (Value F)
  pub tokenizer_path : Option (Value F)
  pub dataset : Option (Value F)
  pub input_tokens : Value F
  pub output_tokens : Value F

module _ {F : Type 0} (floats : Floats F) where
  -- bench_config.get("dataset", "random")
  unfoldable pub dataset_of : Conf F → Option (Value F)
  unfolding get
  dataset_of conf = elim (get "dataset" conf) [ none ↦ some (words "random") | some v ↦ v ]

  unfoldable pub arguments : Conf F → ℕ → ℕ → Value F → Value F → Arguments F
  unfolding get_value if_true dataset_of
  arguments conf parallel requests input_tokens output_tokens = record {
    parallel = parallel;
    number_of_requests = requests;
    model = get_value "model_name" conf;
    url = get_value "url" conf;
    api_key = if_true floats (get_value "api_key" conf);
    tokenizer_path = get_value "tokenizer_path" conf;
    dataset = dataset_of conf;
    input_tokens = input_tokens;
    output_tokens = output_tokens;
  }

  -- `run_perf_benchmark` gives none where it raises.
  module _ {S : Type 0} (run_perf_benchmark : Arguments F → S → Option (Value F) × S) where
    unfoldable pub run_single_benchmark :
        Conf F → Context → ℕ × ℕ → S → Option (Metrics (Value F)) × S
    unfolding arguments benchmark_result
    run_single_benchmark conf context batch_req w =
        let (result, w') =
          run_perf_benchmark
            (arguments conf batch_req.0 batch_req.1 (number context.0) (number context.1)) w in
        (benchmark_result floats result, w')

    -- bench_config.get("warmup", {}), where a Boolean is an empty dict; none for what is no dict.
    unfoldable pub warmup_conf : Conf F → Option (Conf F)
    unfolding get dict_of
    warmup_conf conf = elim (get "warmup" conf) [
      | none ↦ some []
      | some (some (flag b)) ↦ some []
      | some (some (table fs)) ↦ some (dict_of fs)
      | some _ ↦ none
    ]

    -- int(warmup_conf.get(key, default))
    unfoldable pub warmup_number : String → ℕ → Conf F → Option ℕ
    unfolding get
    warmup_number key default conf = elim (get key conf) [
      | none ↦ some default
      | some none ↦ none
      | some (some v) ↦ floats.to_int v
    ]

    -- input_tokens, output_tokens = ctx
    unfoldable pub pair_of : List (Value F) → Option (Value F × Value F)
    pair_of (input ∷ output ∷ []) = some (input, output)
    pair_of _ = none

    unfoldable pub warmup_context : Conf F → Option (Value F × Value F)
    unfolding get read_literal elements pair_of
    warmup_context conf = elim (get "context" conf) [
      | none ↦ some (number 1024, number 1024)
      | some none ↦ none
      | some (some v) ↦ do ctx ← read_literal floats v; values ← elements ctx; pair_of values
    ]

    unfoldable pub warmup_arguments : Conf F → Option (Arguments F)
    unfolding warmup_conf warmup_context warmup_number arguments
    warmup_arguments conf = do
      warmup ← warmup_conf conf
      tokens ← warmup_context warmup
      parallel ← warmup_number "parallel" 5 warmup
      requests ← warmup_number "number" 10 warmup
      some (arguments conf parallel requests tokens.0 tokens.1)

    -- Whether the warm-up went well; none where its settings cannot be read.
    unfoldable pub run_warmup : Conf F → S → Option (Bool × S)
    unfolding warmup_arguments
    run_warmup conf w = elim (warmup_arguments conf) [
      | none ↦ none
      | some args ↦
          let (result, w') = run_perf_benchmark args w in
          elim result [ none ↦ some (false, w') | some r ↦ some (true, w') ]
    ]
