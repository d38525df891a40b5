-- ===== src/RateTest/Tests.antt =====
-- Small inputs of rate-test.py, with numbers in hundredths: runs, and the theorems at them.
use native.Mathlib.Nat.{mul-le-mul_left}
use dev_llmops.Prelude.{
  String, Option, ◌↔◌, ℕ, ◌+◌, ◌-◌, ◌*◌, ◌/◌, ◌≤◌, ◌≡◌, refl, true, false, none, some, List, [],
  ◌∷◌, ◌++◌, map, All, arith, ltb, leb, length,
}
use dev_llmops.Prelude.Sort.{IsSorted}
use dev_llmops.RateTest.Stats.{Reals, percentile}
use dev_llmops.RateTest.Report.{CaseResult, Report, Outcome, reported, report_of, print_report}
use dev_llmops.RateTest.Requests.{
  Reply, answered, http_error, Context, unverified, verified_by_system, Args, Request,
  build_ssl_context, main,
}
use dev_llmops.RateTest.Percentile.{Laws, FromValues, percentile-FromValues}
use dev_llmops.RateTest.Tallies.{sum_counts, with_code, print_report-tallies}
use dev_llmops.RateTest.Tls.{build_ssl_context_iff}
use dev_llmops.RateTest.Main.{AreConsistent, IsReady, main-reports}

abbrev hundredths : Reals ℕ
hundredths = record {
  add = λ x y. x + y;
  sub = λ x y. x - y;
  mul = λ x y. x * y / 100;
  div = λ x y. x * 100 / y;
  lt = ltb;
  le = leb;
  of_nat = λ n. n * 100;
  floor = λ x. x / 100;
  mean = λ xs. 0;
}

small_part : (n k : ℕ) → k ≤ 100 → n * 100 * k / 100 / 100 ≤ n
small_part n k h = omega (arith, mul-le-mul_left (n * 100) h)

hundredths-Laws : Laws hundredths
hundredths-Laws = record {
  order = record { asym = λ x y h. ground arith; trans = λ x y z h g. ground arith };
  part = λ n p h. small_part n (p * 100 / 10000) (ground arith);
}

percentile_runs : percentile hundredths (300 ∷ 100 ∷ 200 ∷ 700 ∷ []) 5000 ≡ some 250
unfolding percentile
percentile_runs = refl

abbrev latencies : List ℕ
latencies = 300 ∷ 100 ∷ 200 ∷ 700 ∷ []

percentile-FromValues_example : FromValues hundredths hundredths-Laws latencies 5000
percentile-FromValues_example =
    percentile-FromValues hundredths hundredths-Laws latencies 5000 (omega arith)

abbrev good : CaseResult ℕ
good = record { status_code = 200; latency_s = 30; ok = true; error = "" }

abbrev limited : CaseResult ℕ
limited = record { status_code = 429; latency_s = 10; ok = false; error = "slow down" }

abbrev lost : CaseResult ℕ
lost = record { status_code = 0; latency_s = 20; ok = false; error = "timed out" }

print_report-tallies_example :
    let results : List (CaseResult ℕ) = good ∷ limited ∷ lost ∷ limited ∷ [] in
    let report : Report ℕ = report_of hundredths good (limited ∷ lost ∷ limited ∷ []) 250 in
    (print_report hundredths results 250 ≡ reported report)
    × (report.total ≡ 4)
    × (report.success + 3 ≡ report.total)
    × (report.too_many_requests ≡ 2)
    × (report.network_or_other_err ≡ 1)
    × (sum_counts report.codes ≡ report.total)
    × All (λ (e : ℕ × ℕ). e.1 ≡ with_code hundredths results e.0) report.codes
    × IsSorted (λ x y. ltb x.0 y.0) report.codes
print_report-tallies_example =
    print_report-tallies hundredths good (limited ∷ lost ∷ limited ∷ []) 250 refl

-- A world with a clock and the exchanges: every request after the first is one too many.
abbrev Log : Type 0
Log = ℕ × List (Request × Reply)

abbrev answer : List (Request × Reply) → Reply
answer [] = answered 200
answer (x ∷ log) = http_error 429 (some "slow down")

abbrev logged_urlopen : Request → ℕ → Context → Log → Reply × Log
logged_urlopen req timeout ssl_context (now, log) =
    (answer log, (now + 50, log ++ (req, answer log) ∷ []))

abbrev logged_counter : Log → ℕ × Log
logged_counter (now, log) = (now, (now + 1, log))

abbrev args : Args ℕ
args = record {
  url = "https://api";
  model = "m";
  prompt = "hello";
  total = 3;
  concurrency = 2;
  timeout = 3000;
  ca_bundle = "";
  insecure_skip_verify = false;
  token = "secret";
}

abbrev hello : Request
hello = record { url = "https://api"; token = "secret"; model = "m"; prompt = "hello" }

ready : IsReady (λ u. true) (λ file. true) none args verified_by_system
unfolding build_ssl_context
ready = record {
  token = refl;
  total = omega arith;
  concurrency = omega arith;
  tls = refl;
  url = refl;
}

main-reports_example :
    let run : Outcome ℕ × Log =
      main hundredths logged_urlopen logged_counter (λ u. true) (λ file. true) none args (0, []) in
    (replies : List Reply) × (rs : List (CaseResult ℕ)) × (wall_time_s : ℕ) × (run.0
      ≡ print_report hundredths rs wall_time_s)
    × (length rs ≡ 3)
    × (length replies ≡ 3)
    × AreConsistent replies rs
    × (run.1.1 ≡ map (λ reply. (hello, reply)) replies)
main-reports_example =
    main-reports hundredths logged_urlopen logged_counter (λ u. true) (λ w. w.1)
      (λ req timeout ssl_context w. refl) (λ w. refl) (λ file. true) none args verified_by_system
      (0, []) ready

build_ssl_context_iff_example :
    let found : Option String = some "cacert.pem" in
    ((build_ssl_context (λ file. true) found "own.pem" false ≡ some unverified) ↔ (false ≡ true))
    × ((c : Context) × (build_ssl_context (λ file. true) found "" false ≡ some c))
build_ssl_context_iff_example =
    build_ssl_context_iff (λ file. true) (some "cacert.pem") "own.pem" false
