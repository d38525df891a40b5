-- ===== src/RateTest/Report.antt =====
-- `CaseResult` and `print_report` of DevOps/nginx/rate-limit/rate-test.py.
use dev_llmops.Prelude.{
  ℕ, String, Bool, not, ◌&&◌, Option, none, some, List, [], ◌∷◌, map, if◌then◌else◌, length,
}
use dev_llmops.Prelude.Text.{is_empty}
use dev_llmops.Prelude.Sort.{count_if}
use dev_llmops.RateTest.Stats.{
  Reals, tally_all, count_of, distribution, min_value, max_value, percentile,
}

-- The status code is 0 where no answer came.
pub record CaseResult (F : Type 0) : Type 0 where
  pub status_code : ℕ
  pub latency_s : F
  pub ok : Bool
  pub error : String

-- next((r for r in results if not r.ok and r.error), None), and then its error
unfoldable pub first_err : {F : Type 0} → List (CaseResult F) → Option String
unfolding is_empty
first_err [] = none
first_err (r ∷ rs) = if not r.ok && not (is_empty r.error) then some r.error else first_err rs

-- What `print_report` prints; `shares` are the parts of the codes in the total.
pub record Report (F : Type 0) : Type 0 where
  pub total : ℕ
  pub success : ℕ
  pub too_many_requests : ℕ
  pub too_many_share : F
  pub network_or_other_err : ℕ
  pub wall_time_s : F
  pub qps : F
  pub codes : List (ℕ × ℕ)
  pub shares : List F
  pub least : F
  pub avg : F
  pub percentiles : List (Option F)
  pub greatest : F
  pub example_error : Option String

-- How the script ends: with the text of SystemExit, by an exception, with `无结果`, or with a report.
pub data Outcome (F : Type 0) : Type 0 where
  exits : String → Outcome F
  raises : Outcome F
  no_result : Outcome F
  reported : Report F → Outcome F

module _ {F : Type 0} (reals : Reals F) where
  open reals use {sub, div, le, of_nat, mean}

  -- The numbers of the report on the results `r ∷ rs`.
  unfoldable pub report_of : CaseResult F → List (CaseResult F) → F → Report F
  unfolding tally_all count_of distribution first_err min_value max_value percentile
  report_of r rs wall_time_s =
      let total = length (r ∷ rs) in
      let counter = tally_all (map (λ r. r.status_code) (r ∷ rs)) [] in
      let latencies : List F = map (λ r. r.latency_s) (r ∷ rs) in
      let later : List F = map (λ r. r.latency_s) rs in
      let share : ℕ → F = λ cnt. div (of_nat cnt) (of_nat total) in
      record {
        total = total;
        success = count_if (λ r. r.ok) (r ∷ rs);
        too_many_requests = count_of 429 counter;
        too_many_share = share (count_of 429 counter);
        network_or_other_err = count_of 0 counter;
        wall_time_s = wall_time_s;
        qps = div (of_nat total) wall_time_s;
        codes = distribution counter;
        shares = map (λ (c : ℕ × ℕ). share c.1) (distribution counter);
        least = min_value reals r.latency_s later;
        avg = mean latencies;
        percentiles = map (λ p. percentile reals latencies (of_nat p)) (50 ∷ 95 ∷ 99 ∷ []);
        greatest = max_value reals r.latency_s later;
        example_error = first_err (r ∷ rs);
      }

  -- A wall time of 0 is a division by 0.
  unfoldable pub print_report : List (CaseResult F) → F → Outcome F
  unfolding report_of
  print_report [] wall_time_s = no_result
  print_report (r ∷ rs) wall_time_s =
      if le wall_time_s (of_nat 0) && le (of_nat 0) wall_time_s
      then raises
      else reported (report_of r rs wall_time_s)
