-- ===== src/PerfEval/Manager/Health.antt =====
-- When `health_check` of llm-perf-eval.py finds the model ready.
use dev_llmops.Prelude.{
  ℕ, zero, suc, ◌<◌, String, ◌≡◌, ◌↔◌, refl, true, false, Option, none, some, arith, inl, inr,
  Bool-cases,
}
use dev_llmops.PerfEval.Manager.{Manager, Ran, is_ok, try_health, health_check}

module _ {S : Type 0} (subprocess : String → ℕ → S → Ran × S) (post : S → Option ℕ × S)
    (sleep : ℕ → S → S) (m : Manager) where
  -- The world at the try after `i` tries.
  abbrev pub at_try : ℕ → S → S
  at_try zero w = w
  at_try (suc i) w = at_try i (sleep m.interval (post w).1)

  -- One of the first `n` tries is answered with the status 200.
  abbrev pub Answered : ℕ → S → Type 0
  Answered n w = (i : ℕ) × (i < n) × ((post (at_try i w)).0 ≡ some 200)

  is_ok_iff : (o : Option ℕ) → (is_ok subprocess post sleep m o ≡ true) ↔ (o ≡ some 200)
  unfolding is_ok
  is_ok_iff none = (λ h. ground arith, λ h. ground arith)
  is_ok_iff (some s) = (λ h. ground arith, λ h. ground arith)

  try_health_iff :
      (n : ℕ) (w : S) → ((try_health subprocess post sleep m n w).0 ≡ true) ↔ Answered n w
  unfolding try_health
  try_health_iff zero w = (λ h. absurd (ground arith), λ (i, l, h). absurd (omega arith))
  try_health_iff (suc n) w = elim (Bool-cases (is_ok subprocess post sleep m (post w).0)) [
    | inl ok ↦ rw ok (λ h. (0, omega arith, (is_ok_iff (post w).0).0 ok), λ h. refl)
    | inr no_ok ↦
        let later = try_health_iff n (sleep m.interval (post w).1) in
        rw no_ok (
          λ h. let (i, l, a) = later.0 h in (suc i, omega arith, a),
          λ (i, l, a). later.1 (step_back no_ok i l a),
        )
  ]
    where
      step_back :
          is_ok subprocess post sleep m (post w).0 ≡ false
          → (i : ℕ) → i < suc n
          → (post (at_try i w)).0 ≡ some 200
          → Answered n (sleep m.interval (post w).1)
      step_back no_ok zero l a = absurd (ground (arith, (is_ok_iff (post w).0).1 a))
      step_back no_ok (suc i) l a = (i, omega arith, a)

  -- The health check passes exactly where, after the delay, one of the first `retry_count` requests,
  -- each followed by the wait between tries, is answered with the status 200.
  pub health_check_iff :
      (w : S)
      → ((health_check subprocess post sleep m w).0 ≡ true) ↔ (
          (i : ℕ) × (i < m.retry_count)
          × ((post (at_try i (sleep m.initial_delay w))).0 ≡ some 200))
  unfolding health_check
  health_check_iff w = try_health_iff m.retry_count (sleep m.initial_delay w)
