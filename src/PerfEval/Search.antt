-- ===== src/PerfEval/Search.antt =====
-- The search for the largest concurrency that meets the SLO: `_search_max_concurrency`,
-- `_stopn_step` and `_binary_step` of LLMOps/Benchmark/llm-perf-eval.py.
pub mod Bracket
pub mod Exact
pub mod Finite
pub mod Keeps
pub mod Report
use dev_llmops.Prelude.{
  ℕ, zero, suc, ◌+◌, ◌-◌, ◌*◌, ◌/◌, min, max, Bool, true, false, ◌&&◌, ◌||◌, Option, none, some,
  List, [], ◌∷◌, ◌++◌, ltb, leb, ◌==◌, if◌then◌else◌, mem,
}

-- The entries `{"batch_req": ..., "result": ...}` of the source; `R` is the type of a result, and
-- `none` a benchmark that returned nothing.
pub record Entry (R : Type 0) : Type 0 where
  pub concurrency : ℕ
  pub requests : ℕ
  pub result : Option R

pub data Method : Type 0 where
  binary stop_N : Method

-- The local variables of the `while` loop.
pub record Search (R : Type 0) : Type 0 where
  pub concurrent : ℕ
  pub lower_bound : ℕ
  pub upper_bound : Option ℕ
  pub best : Option (Entry R)
  pub tested : List ℕ
  pub all_tested : List (Entry R)

unfoldable pub narrow : Option ℕ → ℕ → ℕ
narrow none c = c
narrow (some u) c = min u c

-- The next concurrency of `_binary_step`.
unfoldable pub binary_next : ℕ → Bool → ℕ → Option ℕ → ℕ
binary_next c true lower none = c * 2
binary_next c true lower (some u) = (c + u) / 2
binary_next c false lower upper = (lower + c) / 2

unfoldable pub stopn_pass_next : ℕ → ℕ → ℕ → Option ℕ → ℕ
stopn_pass_next n c lower none = c + n
stopn_pass_next n c lower (some u) = (lower + u) / 2

-- The next concurrency of `_stopn_step`, and `should_break` as its branch leaves it.
unfoldable pub stopn_fail_next : ℕ → ℕ → ℕ → ℕ → List ℕ → ℕ × Bool
stopn_fail_next n c lower upper tested =
    if lower == 0
    then (max 1 (c - n), max 1 (c - n) == c || (max 1 (c - n) == 1 && mem 1 tested))
    else ((lower + upper) / 2, false)

unfoldable pub clamp : Option ℕ → ℕ → ℕ
clamp none c = c
clamp (some m) c = if ltb m c then m else c

module _ {R : Type 0} where
  -- if best is None or concurrent > best["batch_req"][0]
  unfoldable pub improves : ℕ → Option (Entry R) → Bool
  improves c none = true
  improves c (some b) = ltb b.concurrency c

  -- The next search state and `should_break`.
  unfoldable pub binary_step : Entry R → Bool → Search R → Search R × Bool
  unfolding improves binary_next
  binary_step e is_valid s =
      let c = s.concurrent in
      let lower = if is_valid then c else s.lower_bound in
      let next_c = binary_next c is_valid s.lower_bound s.upper_bound in
      (
        record s {
          concurrent = next_c;
          lower_bound = lower;
          upper_bound = if is_valid then s.upper_bound else some c;
          best = if is_valid && improves c s.best then some e else s.best;
        },
        next_c == c || leb next_c lower,
      )

  -- The rest of the failing branch, once the upper bound is narrowed.
  unfoldable pub stopn_fail : ℕ → ℕ → Search R → Search R × Bool
  unfolding stopn_fail_next
  stopn_fail n upper s =
      let (next_c, done) = stopn_fail_next n s.concurrent s.lower_bound upper s.tested in
      (record s { concurrent = next_c; upper_bound = some upper }, done || mem next_c s.tested)

  -- The rest of the passing branch, once the lower bound is raised.
  unfoldable pub stopn_pass : ℕ → Entry R → ℕ → Search R → Search R × Bool
  unfolding improves stopn_pass_next
  stopn_pass n e lower s =
      let c = s.concurrent in
      let next_c = stopn_pass_next n c lower s.upper_bound in
      (
        record s {
          concurrent = next_c;
          lower_bound = lower;
          best = if improves c s.best then some e else s.best;
        },
        mem next_c s.tested,
      )

  unfoldable pub stopn_step : ℕ → Entry R → Bool → Search R → Search R × Bool
  unfolding narrow stopn_pass stopn_fail
  stopn_step n e true s = stopn_pass n e (max s.lower_bound s.concurrent) s
  stopn_step n e false s = stopn_fail n (narrow s.upper_bound s.concurrent) s

  unfoldable pub step : Method → ℕ → Entry R → Bool → Search R → Search R × Bool
  unfolding binary_step stopn_step
  step binary n = binary_step
  step stop_N n = stopn_step n

  unfoldable pub lesser : Entry R → Entry R → Entry R
  lesser e x = if ltb x.concurrency e.concurrency then x else e

  -- min(all_tested, key=lambda x: x[0]): the first of the smallest.
  unfoldable pub min_entry : Entry R → List (Entry R) → Entry R
  unfolding lesser
  min_entry e [] = e
  min_entry e (x ∷ xs) = min_entry (lesser e x) xs

  unfoldable pub min_tested_of : Option (Entry R) → List (Entry R) → Option (Entry R)
  unfolding min_entry
  min_tested_of none (x ∷ xs) = some (min_entry x xs)
  min_tested_of _ _ = none

  unfoldable pub start : Option ℕ → ℕ → Search R
  unfolding clamp
  start limit init = record {
    concurrent = clamp limit init;
    lower_bound = 0;
    upper_bound = none;
    best = none;
    tested = [];
    all_tested = [];
  }

-- `S` is the rest of the program's state. `bench` runs one benchmark, appends its row to the detail
-- sheet and saves the workbook; `passes` is `check_slo_criteria` at the criteria of the search;
-- `request_count c` is `int(c * multiplier)`.
module _ {R S : Type 0} (bench : ℕ × ℕ → S → Option R × S) (passes : Option R → Bool)
    (request_count : ℕ → ℕ) (method : Method) (stop_n : ℕ) (limit : Option ℕ) where
  -- One turn of the loop at a concurrency that is not tested yet.
  unfoldable pub round : ℕ → Search R → S → (Search R × Bool) × S
  unfolding step
  round c s w =
      let (result, w') = bench (c, request_count c) w in
      let e : Entry R = record { concurrency = c; requests = request_count c; result = result } in
      let s' : Search R = record s {
        concurrent = c;
        tested = c ∷ s.tested;
        all_tested = s.all_tested ++ e ∷ [];
      } in
      (step method stop_n e (passes result) s', w')

  -- The `while` loop on fuel; `none` means that the fuel ran out.
  unfoldable pub loop : ℕ → Search R → S → Option (Search R × S)
  unfolding round clamp
  loop zero s w = none
  loop (suc fuel) s w =
      let c = clamp limit s.concurrent in
      let ((s', should_break), w') = round c s w in
      let rest = loop fuel s' w' in
      if mem c s.tested
      then some (record s { concurrent = c }, w)
      else if should_break
      then some (s', w')
      else rest

  -- The pair (best, min_tested).
  unfoldable pub outcome : Search R → Option (Entry R) × Option (Entry R)
  unfolding min_tested_of
  outcome s = (s.best, min_tested_of s.best s.all_tested)

  unfoldable pub search_max_concurrency :
      ℕ → ℕ → S → Option ((Option (Entry R) × Option (Entry R)) × S)
  unfolding loop outcome start
  search_max_concurrency fuel init w = elim (loop fuel (start limit init) w) [
    | none ↦ none
    | some (s, w') ↦ some (outcome s, w')
  ]
