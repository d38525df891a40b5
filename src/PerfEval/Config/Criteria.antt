-- ===== src/PerfEval/Config/Criteria.antt =====
-- When `check_slo_criteria` of llm-perf-eval.py accepts a result.
use dev_llmops.Prelude.{
  String, ◌≡◌, refl, sym, subst, ◌↔◌, Bool, true, false, Option, none, some, [], ◌∷◌, if◌then◌else◌,
  arith, inl, inr, Bool-cases, All,
}
use dev_llmops.Prelude.Dict.{Dict}
use dev_llmops.PerfEval.Config.{metric_value, meets, check_slo_criteria}

module _ {V F : Type 0} (to_float : V → Option F) (exceeds : F → F → Bool) where
  -- The metric is there, can be read, and does not exceed its threshold.
  abbrev pub Within : Dict V → String × F → Type 0
  Within result (metric, threshold) =
      (value : F) × (metric_value to_float exceeds metric result ≡ some value)
      × (exceeds value threshold ≡ false)

  meets_iff :
      (criteria : Dict F) (result : Dict V)
      → (meets to_float exceeds criteria result ≡ true) ↔ All (Within result) criteria
  unfolding meets
  meets_iff [] result = (λ h. tt, λ h. refl)
  meets_iff ((metric, threshold) ∷ criteria) result =
      go (metric_value to_float exceeds metric result) (meets_iff criteria result)
    where
      go :
          (o : Option F)
          → ((meets to_float exceeds criteria result ≡ true) ↔ All (Within result) criteria)
          → ((elim o [
            | none ↦ false
            | some value ↦
                if exceeds value threshold then false else meets to_float exceeds criteria result
          ])
              ≡ true)
            ↔ (((value : F) × (o ≡ some value) × (exceeds value threshold ≡ false))
                × All (Within result) criteria)
      go none rest_iff = (λ h. ground arith, λ ((value, none_some, h), rest). ground arith)
      go (some value) rest_iff = elim (Bool-cases (exceeds value threshold)) [
        | inl over ↦ (λ h. absurd (ground arith), λ ((v, same, h), rest). absurd (ground arith))
        | inr under ↦ (
          λ h. ((value, refl, under), (rest_iff).0 (rw under at h)),
          λ ((v, same, h), rest). rw under ((rest_iff).1 rest),
        )
      ]

  -- A benchmark meets the SLO exactly where it returned a result, and each metric of the criteria is in
  -- it, can be read, and does not exceed its threshold.
  pub check_slo_criteria_iff :
      (result : Option (Dict V)) (criteria : Dict F)
      → (check_slo_criteria to_float exceeds result criteria ≡ true)
        ↔ ((r : Dict V) × (result ≡ some r) × All (Within r) criteria)
  unfolding check_slo_criteria
  check_slo_criteria_iff none criteria =
      (λ h. absurd (ground arith), λ (r, e, h). absurd (ground arith))
  check_slo_criteria_iff (some result) criteria = (
    λ h. (result, refl, (meets_iff criteria result).0 h),
    λ (r, e, h).
        (meets_iff criteria result).1
          (subst (λ d. All (Within d) criteria) (sym (some_dict r e)) h),
  )
    where
      some_dict : (r : Dict V) → Path (Option (Dict V)) (some result) (some r) → result ≡ r
      some_dict r e = cc
