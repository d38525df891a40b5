-- ===== src/PerfEval/Config.antt =====
-- The configuration of llm-perf-eval.py: defaults, the cases of mode 1, and the criteria of the SLO.
pub mod Defaults
pub mod Cases
pub mod Criteria
use dev_llmops.Prelude.{
  ℕ, zero, suc, String, Bool, true, false, not, ◌&&◌, ◌||◌, Option, none, some, List, [], ◌∷◌, ◌++◌,
  map, ◌==◌, if◌then◌else◌, length,
}
use dev_llmops.Prelude.Dict.{Dict, get, put, str_eq}

-- A value of a configuration is none where the file says null.
module _ {V : Type 0} where
  -- k not in conf or conf[k] is None
  unfoldable pub is_unset : Option (Option V) → Bool
  is_unset (some (some v)) = false
  is_unset _ = true

  unfoldable pub apply_defaults : Dict (Option V) → Dict (Option V) → Dict (Option V)
  unfolding get put is_unset
  apply_defaults conf [] = conf
  apply_defaults conf ((k, v) ∷ defaults) =
      apply_defaults (if is_unset (get k conf) then put k v conf else conf) defaults

-- The cases of mode 1, from the contexts and the batches already read.
module _ {A B : Type 0} where
  -- [(ctx, br) for ctx in context for br in batch_request]
  unfoldable pub product : List A → List B → List (A × B)
  product [] bs = []
  product (a ∷ xs) bs = map (λ b. (a, b)) bs ++ product xs bs

  unfoldable pub zip : List A → List B → List (A × B)
  zip [] bs = []
  zip (a ∷ xs) [] = []
  zip (a ∷ xs) (b ∷ bs) = (a, b) ∷ zip xs bs

  -- `_parse_mode1_test_cases`: none where it raises.
  unfoldable pub parse_mode1_test_cases : List A → List B → ℕ → Option (List (A × B))
  unfolding product zip
  parse_mode1_test_cases context batch_request combination_mode =
      if combination_mode == 1
      then some (product context batch_request)
      else if combination_mode == 2
      then (if not (length context == length batch_request)
          then none
          else some (zip context batch_request))
      else none

-- ttft and tpot
unfoldable pub is_supported : String → Bool
is_supported metric = str_eq metric "ttft" || str_eq metric "tpot"

-- `T` is the type of the thresholds in the file, `F` of floats; `parse_time` gives none where it
-- raises.
module _ {T F : Type 0} (parse_time : T → Option F) where
  -- The loop over `criteria`; none where `parse_time` raises.
  unfoldable pub parse_criteria : Dict T → Dict F → Option (Dict F)
  unfolding is_supported put
  parse_criteria [] parsed = some parsed
  parse_criteria ((metric, threshold) ∷ criteria) parsed =
      if not (is_supported metric)
      then parse_criteria criteria parsed
      else elim (parse_time threshold) [
        | none ↦ none
        | some limit ↦ parse_criteria criteria (put metric limit parsed)
      ]

  -- No metric left is an error too.
  unfoldable pub criteria_parsed : Dict T → Option (Dict F)
  unfolding parse_criteria
  criteria_parsed criteria = elim (parse_criteria criteria []) [
    | none ↦ none
    | some [] ↦ none
    | some (c ∷ parsed) ↦ some (c ∷ parsed)
  ]

-- `V` is the type of a value of a result, which `to_float` reads where it can; `exceeds v t` is
-- `v > t`.
module _ {V F : Type 0} (to_float : V → Option F) (exceeds : F → F → Bool) where
  -- The value of a metric, where it is there and can be read.
  unfoldable pub metric_value : String → Dict V → Option F
  unfolding get
  metric_value metric result = elim (get metric result) [ none ↦ none | some v ↦ to_float v ]

  unfoldable pub meets : Dict F → Dict V → Bool
  unfolding metric_value
  meets [] result = true
  meets ((metric, threshold) ∷ criteria) result = elim (metric_value metric result) [
    | none ↦ false
    | some value ↦ if exceeds value threshold then false else meets criteria result
  ]

  unfoldable pub check_slo_criteria : Option (Dict V) → Dict F → Bool
  unfolding meets
  check_slo_criteria none criteria = false
  check_slo_criteria (some result) criteria = meets criteria result
