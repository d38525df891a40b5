-- ===== src/RateTest/Tallies.antt =====
-- The counts of the report of DevOps/nginx/rate-limit/rate-test.py.
use dev_llmops.Prelude.{
  ℕ, suc, ◌+◌, ◌≡◌, refl, ◌∙◌, Bool, true, false, not, ◌&&◌, List, [], ◌∷◌, map, All, All-imp,
  arith, if◌then◌else◌, length, ltb, ◌==◌, ==_iff, mem, distinct, length-map,
}
use dev_llmops.Prelude.Sort.{
  IsOrder, count_if, count_if-map, sorted, insert, IsSorted, sorted-IsSorted, All-sorted,
}
use dev_llmops.RateTest.Stats.{Reals, tally, tally_all, count_of, distribution}
use dev_llmops.RateTest.Report.{CaseResult, Report, reported, report_of, print_report}

-- The sum of the counts.
abbrev pub sum_counts : List (ℕ × ℕ) → ℕ
sum_counts [] = 0
sum_counts (e ∷ counter) = e.1 + sum_counts counter

abbrev codes_of : List (ℕ × ℕ) → List ℕ
codes_of [] = []
codes_of (e ∷ counter) = e.0 ∷ codes_of counter

sum_counts-tally :
    (code : ℕ) (counter : List (ℕ × ℕ)) → sum_counts (tally code counter) ≡ sum_counts counter + 1
unfolding tally
sum_counts-tally code [] = refl
sum_counts-tally code ((c, n) ∷ counter) = ground (arith, sum_counts-tally code counter)

sum_counts-tally_all :
    (codes : List ℕ) (counter : List (ℕ × ℕ))
    → sum_counts (tally_all codes counter) ≡ length codes + sum_counts counter
unfolding tally_all
sum_counts-tally_all [] counter = omega arith
sum_counts-tally_all (code ∷ codes) counter =
    omega (arith, sum_counts-tally_all codes (tally code counter), sum_counts-tally code counter)

module _ (less : ℕ × ℕ → ℕ × ℕ → Bool) where
  sum_counts-insert :
      (e : ℕ × ℕ) (es : List (ℕ × ℕ)) → sum_counts (insert less e es) ≡ e.1 + sum_counts es
  unfolding insert
  sum_counts-insert e [] = refl
  sum_counts-insert e (d ∷ es) = ground (arith, sum_counts-insert e es)

  sum_counts-sorted : (es : List (ℕ × ℕ)) → sum_counts (sorted less es) ≡ sum_counts es
  unfolding sorted
  sum_counts-sorted [] = refl
  sum_counts-sorted (e ∷ es) =
      omega (arith, sum_counts-insert e (sorted less es), sum_counts-sorted es)

count_of-tally :
    (code c : ℕ) (counter : List (ℕ × ℕ))
    → count_of c (tally code counter)
      ≡ (if code == c then suc (count_of c counter) else count_of c counter)
unfolding tally count_of
count_of-tally code c [] = refl
count_of-tally code c ((d, n) ∷ counter) =
    ground (arith, count_of-tally code c counter, ==_iff code c, ==_iff d c, ==_iff d code)

count_of-tally_all :
    (codes : List ℕ) (c : ℕ) (counter : List (ℕ × ℕ))
    → count_of c (tally_all codes counter) ≡ count_if (λ x. x == c) codes + count_of c counter
unfolding tally_all
count_of-tally_all [] c counter = omega arith
count_of-tally_all (code ∷ codes) c counter =
    ground (arith, count_of-tally_all codes c (tally code counter), count_of-tally code c counter)

mem-tally :
    (code c : ℕ) (counter : List (ℕ × ℕ))
    → mem c (codes_of counter) ≡ false
    → (code == c) ≡ false
    → mem c (codes_of (tally code counter)) ≡ false
unfolding tally
mem-tally code c [] h g = ground arith
mem-tally code c ((d, n) ∷ counter) h g = ground (arith, mem-tally code c counter)

tally-distinct :
    (code : ℕ) (counter : List (ℕ × ℕ))
    → distinct (codes_of counter) ≡ true
    → distinct (codes_of (tally code counter)) ≡ true
unfolding tally
tally-distinct code [] h = refl
tally-distinct code ((d, n) ∷ counter) h =
    ground
      (arith, tally-distinct code counter, mem-tally code d counter, ==_iff d code, ==_iff code d)

tally_all-distinct :
    (codes : List ℕ) (counter : List (ℕ × ℕ))
    → distinct (codes_of counter) ≡ true
    → distinct (codes_of (tally_all codes counter)) ≡ true
unfolding tally_all
tally_all-distinct [] counter h = h
tally_all-distinct (code ∷ codes) counter h =
    tally_all-distinct codes (tally code counter) (tally-distinct code counter h)

-- An entry of another code in front changes no lookup.
behind :
    (c n : ℕ) (counter rest : List (ℕ × ℕ))
    → mem c (codes_of rest) ≡ false
    → All (λ e. e.1 ≡ count_of e.0 counter) rest
    → All (λ e. e.1 ≡ count_of e.0 ((c, n) ∷ counter)) rest
unfolding count_of
behind c n counter [] h g = tt
behind c n counter ((d, k) ∷ rest) h (g, gs) =
    (ground (arith, ==_iff c d, ==_iff d c), behind c n counter rest (ground arith) gs)

-- Where no code comes twice, each entry is found by its code.
distinct-found :
    (counter : List (ℕ × ℕ))
    → distinct (codes_of counter) ≡ true
    → All (λ e. e.1 ≡ count_of e.0 counter) counter
unfolding count_of
distinct-found [] h = tt
distinct-found ((c, n) ∷ counter) h = (
  ground (arith, ==_iff c c),
  behind c n counter counter (ground arith) (distinct-found counter (ground arith)),
)

-- The order of the codes.
codes-IsOrder : IsOrder (λ (x y : ℕ × ℕ). ltb x.0 y.0)
codes-IsOrder = record { asym = λ x y h. ground arith; trans = λ x y z h g. ground arith }

count_if-not :
    {A : Type 0} (test : A → Bool) (xs : List A)
    → count_if test xs + count_if (λ x. not (test x)) xs ≡ length xs
count_if-not test [] = refl
count_if-not test (x ∷ xs) = ground (arith, count_if-not test xs)

module _ {F : Type 0} (reals : Reals F) where
  open reals use {le, of_nat}

  -- The number of results with a status code.
  abbrev pub with_code : List (CaseResult F) → ℕ → ℕ
  with_code results code = count_if (λ r. r.status_code == code) results

  tally_all-count :
      (results : List (CaseResult F)) (c : ℕ)
      → count_of c (tally_all (map (λ (r : CaseResult F). r.status_code) results) [])
        ≡ with_code results c
  unfolding count_of
  tally_all-count results c = omega (
    arith,
    count_of-tally_all (map (λ (r : CaseResult F). r.status_code) results) c [],
    count_if-map (λ x. x == c) (λ (r : CaseResult F). r.status_code) results,
  )

  -- Where there are results and the wall time is not 0, a report is printed, and its counts are right:
  -- `total` is the number of results; the successes and the results that failed make the total; the
  -- numbers of 429s and of requests without an answer are those of the results; the codes are in order,
  -- each with the number of its results, and these numbers make the total.
  pub print_report-tallies :
      (r : CaseResult F) (rs : List (CaseResult F)) (wall_time_s : F)
      → (le wall_time_s (of_nat 0) && le (of_nat 0) wall_time_s) ≡ false
      → let results : List (CaseResult F) = r ∷ rs in
        let report : Report F = report_of reals r rs wall_time_s in
        (print_report reals results wall_time_s ≡ reported report)
        × (report.total ≡ length results)
        × (report.success + count_if (λ r. not r.ok) results ≡ report.total)
        × (report.too_many_requests ≡ with_code results 429)
        × (report.network_or_other_err ≡ with_code results 0)
        × (sum_counts report.codes ≡ report.total)
        × All (λ (e : ℕ × ℕ). e.1 ≡ with_code results e.0) report.codes
        × IsSorted (λ x y. ltb x.0 y.0) report.codes
  unfolding print_report report_of distribution
  print_report-tallies r rs wall_time_s g =
      let results = r ∷ rs in
      let codes = map (λ (r : CaseResult F). r.status_code) results in
      let counter = tally_all codes [] in
      let less : ℕ × ℕ → ℕ × ℕ → Bool = λ x y. ltb x.0 y.0 in
      let found = λ (c : ℕ). tally_all-count results c in
      (
        rw g refl,
        refl,
        count_if-not (λ (r : CaseResult F). r.ok) results,
        found 429,
        found 0,
        omega (
          arith,
          sum_counts-sorted less counter,
          sum_counts-tally_all codes [],
          length-map (λ (r : CaseResult F). r.status_code) results,
        ),
        All-sorted less _ counter (
            All-imp _ _ counter (λ e h. h ∙ found e.0)
              (distinct-found counter (tally_all-distinct codes [] refl))),
        sorted-IsSorted less codes-IsOrder counter,
      )
