-- ===== src/PerfEval/Tests.antt =====
-- Small inputs of llm-perf-eval.py: runs, and the theorems at them.
use dev_llmops.Prelude.{ℕ, ◌+◌, ◌*◌, ◌≡◌, refl, Bool, false, Option, none, some, arith, leb}
use dev_llmops.PerfEval.Search.{binary, stop_N, start, loop, search_max_concurrency}
use dev_llmops.PerfEval.Search.Exact.{Returns, search-exact}
use dev_llmops.PerfEval.Search.Finite.{Reports, loop-Reports}

-- A service that meets the SLO up to 37 concurrent requests; a result is the concurrency.
abbrev bench : ℕ × ℕ → ℕ → Option ℕ × ℕ
bench (c, n) w = (some c, w + 1)

abbrev passes : Option ℕ → Bool
passes none = false
passes (some c) = leb c 37

abbrev four_each : ℕ → ℕ
four_each c = c * 4

search_binary :
    search_max_concurrency bench passes four_each binary 2 none 30 2 0
    ≡ some ((some (record { concurrency = 37; requests = 148; result = some 37 }), none), 11)
unfolding search_max_concurrency
search_binary = refl

search_stop_N :
    search_max_concurrency bench passes four_each stop_N 10 (some 32) 30 2 0
    ≡ some ((some (record { concurrency = 32; requests = 128; result = some 32 }), none), 4)
unfolding search_max_concurrency
search_stop_N = refl

search-exact_example :
    Returns bench passes four_each binary 2 none 37
      (omega arith)
      tt
      (λ c w. refl)
      (search_max_concurrency bench passes four_each binary 2 none 200 2 0)
search-exact_example =
    search-exact bench passes four_each binary 2 none 37 (omega arith) tt (λ c w. refl) 200 2 0
      (omega arith) (omega arith)

loop-Reports_example :
    Reports bench passes four_each stop_N 10 32
      (loop bench passes four_each stop_N 10 (some 32) 34 (start (some 32) 2) 0)
loop-Reports_example = loop-Reports bench passes four_each stop_N 10 32 34 2 0 (omega arith)
