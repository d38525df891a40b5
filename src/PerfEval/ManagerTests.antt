-- ===== src/PerfEval/ManagerTests.antt =====
-- Small inputs of `ModelManager` in llm-perf-eval.py: runs, and the theorems at them.
use dev_llmops.Prelude.{
  ℕ, ◌+◌, ◌<◌, String, ◌≡◌, refl, ◌↔◌, true, Option, none, some, leb, if◌then◌else◌,
}
use dev_llmops.PerfEval.Manager.{Manager, Ran, finished, single_quoted, exec_cmd, health_check}
use dev_llmops.PerfEval.Manager.Quoting.{bare, read_word, read-single_quoted}
use dev_llmops.PerfEval.Manager.Health.{at_try, health_check_iff}

abbrev manager : Manager
manager = record {
  container_cmd = "docker run --name m image";
  stop_cmd = "sudo docker stop m";
  ssh_cmd = some "ssh host";
  container_name = some "m";
  initial_delay = 10;
  interval = 5;
  retry_count = 3;
}

-- The world is a clock; the service answers from 12 on.
abbrev post : ℕ → Option ℕ × ℕ
post w = (if leb 12 w then some 200 else none, w)

abbrev sleep : ℕ → ℕ → ℕ
sleep seconds w = w + seconds

abbrev refuse : String → ℕ → ℕ → Ran × ℕ
refuse cmd timeout w = (finished 1 "" " no such container ", w)

health_run : health_check refuse post sleep manager 0 ≡ (true, 15)
unfolding health_check
health_run = refl

exec_run : exec_cmd (some "ssh host") "echo 'a'" ≡ "ssh host 'echo '\"'\"'a'\"'\"''"
unfolding exec_cmd
exec_run = refl

health_check_iff_example :
    ((health_check refuse post sleep manager 0).0 ≡ true)
    ↔ ((i : ℕ) × (i < 3) × ((post (at_try refuse post sleep manager i (sleep 10 0))).0 ≡ some 200))
health_check_iff_example = health_check_iff refuse post sleep manager 0

read-single_quoted_example : read_word bare (single_quoted "echo 'a'") ≡ "echo 'a'"
read-single_quoted_example = read-single_quoted "echo 'a'"
