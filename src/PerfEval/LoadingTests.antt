-- ===== src/PerfEval/LoadingTests.antt =====
-- Small configurations of llm-perf-eval.py. Texts are not read as numbers here.
use dev_llmops.Prelude.{ℕ, ◌≡◌, refl, false, none, some, [], ◌∷◌, ◌==◌}
use dev_llmops.PerfEval.Values.{words, items, table, value, no_values, field, no_fields, Floats}
use dev_llmops.PerfEval.Loading.{Conf}
use dev_llmops.PerfEval.Loading.Bench.{before_suffix, load_bench_config}
use dev_llmops.PerfEval.Loading.Commands.{parse_container_name, build_full_cmd}
use dev_llmops.PerfEval.Loading.Main.{exit_1, main}

-- Floats as thousandths.
abbrev floats : Floats ℕ
floats = record {
  of_number = λ n. n;
  of_text = λ s. some 3;
  of_thousand = λ x. x;
  is_zero = λ x. x == 0;
  equals = λ x n. x == n;
  same = λ x y. x == y;
  literal_eval = λ s. some (words s);
  str_of = λ v. "";
  to_int = λ v. none;
}

suffix_run : before_suffix "ms" "25ms" ≡ some "25"
unfolding before_suffix
suffix_run = refl

name_run : parse_container_name "docker run --name  srv -d img" ≡ some "srv"
unfolding parse_container_name
name_run = refl

full_run :
    build_full_cmd (λ c. false) (λ s. s) "docker run --entrypoint /bin/bash img" "serve"
    ≡ "docker run --entrypoint /bin/bash img -lc serve"
unfolding build_full_cmd
full_run = refl

abbrev bench_file : Conf ℕ
bench_file =
    ("model_name", some (words "/data/m/"))
    ∷ ("tokenizer_path", some (words "t"))
    ∷ ("url", some (words "u"))
    ∷ (
      "test_cases",
      some (
          table (
            field "context" (items (value (words "c") no_values))
              (field "batch_request" (items (value (words "b") no_values)) no_fields))),
    )
    ∷ ("excel_prefix", some (words " x "))
    ∷ []

prefix_run :
    (elim (load_bench_config floats bench_file) [
      | none ↦ none
      | some c ↦ some c.result_file_prefix
    ])
    ≡ some "x-data--m"
unfolding load_bench_config
prefix_run = refl

missing_run : main floats (λ s. none) (some bench_file) none ≡ exit_1
unfolding main
missing_run = refl
