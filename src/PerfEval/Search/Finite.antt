-- ===== src/PerfEval/Search/Finite.antt =====
-- With a `max_concurrent` the search ends, whatever the service does, and reports its benchmarks.
use dev_llmops.Prelude.{
  ℕ, zero, suc, ◌+◌, ◌≤◌, ◌<◌, ◌≡◌, refl, sym, ap, subst, inl, inr, Bool, true, false, Option, none,
  some, List, [], ◌∷◌, ◌++◌, arith, length, length-append, length-distinct, mem, distinct, All,
  All-append, Bool-cases,
}
use dev_llmops.PerfEval.Search.{Entry, Method, Search, step, clamp, start, round, loop, outcome}
use dev_llmops.PerfEval.Search.Report.{
  IsBest, IsBest-after, step-best, IsMinTested, min_tested_of-IsMinTested,
}

module _ {R S : Type 0} (bench : ℕ × ℕ → S → Option R × S) (passes : Option R → Bool)
    (request_count : ℕ → ℕ) (method : Method) (stop_n m : ℕ) where
  abbrev pub IsAllowed : Entry R → Type 0
  IsAllowed e = (e.concurrency ≤ m) × (e.requests ≡ request_count e.concurrency)

  record IsRun (s : Search R) : Type 0 where
    best : IsBest passes s.all_tested s.best
    entries : All IsAllowed s.all_tested
    count : length s.all_tested ≡ length s.tested
    once : distinct s.tested ≡ true
    within : All (λ t. t < suc m) s.tested

  round-IsRun :
      (c : ℕ) (s : Search R) (w : S)
      → c ≤ m
      → mem c s.tested ≡ false
      → IsRun s
      → let s' : Search R = (round bench passes request_count method stop_n (some m) c s w).0.0 in
        IsRun s' × (length s'.tested ≡ suc (length s.tested))
  unfolding round
  round-IsRun c s w h fresh run =
      let e : Entry R = record {
        concurrency = c;
        requests = request_count c;
        result = (bench (c, request_count c) w).0;
      } in
      let before : Search R = record s {
        concurrent = c;
        tested = c ∷ s.tested;
        all_tested = s.all_tested ++ e ∷ [];
      } in
      let (best, all, tested) = step-best passes method stop_n e before in
      (
        record {
          best =
              subst
                (λ (x : List (Entry R)).
                  IsBest passes x (step method stop_n e (passes e.result) before).0.best)
                (sym all)
                (subst (λ (x : Option (Entry R)). IsBest passes before.all_tested x) (sym best)
                  (IsBest-after passes e s.best s.all_tested run.best));
          entries = rw all (All-append IsAllowed s.all_tested (e ∷ []) run.entries ((h, refl), tt));
          count = rw (all, tested) (omega (arith, run.count, length-append s.all_tested (e ∷ [])));
          once = rw tested (ground (arith, run.once));
          within = rw tested (omega arith, run.within);
        },
        ap length tested,
      )

  -- What holds of the state in which the loop ends.
  pub record IsReport (s : Search R) : Type 0 where
    pub best : IsBest passes s.all_tested s.best
    pub min_tested :
        IsMinTested s.best s.all_tested
          (outcome bench passes request_count method stop_n (some m) s).1
    pub entries : All IsAllowed s.all_tested
    pub count : length s.all_tested ≤ m + 1

  abbrev pub Reports : Option (Search R × S) → Type 0
  Reports none = ⊥
  Reports (some (s, w)) = IsReport s

  IsRun-IsReport : (s : Search R) → IsRun s → IsReport s
  unfolding outcome
  IsRun-IsReport s run = record {
    best = run.best;
    min_tested = min_tested_of-IsMinTested s.best s.all_tested;
    entries = run.entries;
    count = omega (arith, run.count, length-distinct (suc m) s.tested run.once run.within);
  }

  clamp-le_limit : (c : ℕ) → clamp (some m) c ≤ m
  unfolding clamp
  clamp-le_limit c = ground arith

  IsRun-same : (s : Search R) (c : ℕ) → IsRun s → IsRun (record s { concurrent = c })
  IsRun-same s c run = record {
    best = run.best;
    entries = run.entries;
    count = run.count;
    once = run.once;
    within = run.within;
  }

  rounds-Reports :
      (fuel : ℕ) (s : Search R) (w : S)
      → IsRun s
      → m + 2 ≤ fuel + length s.tested
      → Reports (loop bench passes request_count method stop_n (some m) fuel s w)
  unfolding loop
  rounds-Reports zero s w run h =
      absurd (omega (arith, length-distinct (suc m) s.tested run.once run.within))
  rounds-Reports (suc fuel) s w run h =
      let c = clamp (some m) s.concurrent in
      let turn = round bench passes request_count method stop_n (some m) c s w in
      elim (Bool-cases (mem c s.tested)) [
        | inl seen ↦ rw seen (IsRun-IsReport _ (IsRun-same s c run))
        | inr fresh ↦
            let (run', longer) = round-IsRun c s w (clamp-le_limit s.concurrent) fresh run in
            rw fresh (elim (Bool-cases turn.0.1) [
              | inl stop ↦ rw stop (IsRun-IsReport _ run')
              | inr go ↦ rw go (rounds-Reports fuel turn.0.0 _ run' (omega arith))
            ])
      ]

  IsRun-start : (init : ℕ) → IsRun (start (some m) init)
  unfolding start
  IsRun-start init = record {
    best = record { best_in = tt; best_largest = tt };
    entries = tt;
    count = refl;
    once = refl;
    within = tt;
  }

  -- With `max_concurrent = m`, by either method and whatever the results of the benchmarks, the
  -- search ends after at most `m + 1` benchmarks. Each ran at a concurrency of at most `m`, with
  -- the requests for it. The best entry passed and is the largest that passed; there is none only
  -- if none passed, and then the smallest tested entry is returned, if there was a test.
  pub loop-Reports :
      (fuel init : ℕ) (w : S)
      → m + 2 ≤ fuel
      → Reports
          (loop bench passes request_count method stop_n (some m) fuel (start (some m) init) w)
  loop-Reports fuel init w h =
      rounds-Reports fuel (start (some m) init) w (IsRun-start init) (omega arith)
