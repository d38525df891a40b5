-- ===== src/RateTest/Stats.antt =====
-- The numbers of DevOps/nginx/rate-limit/rate-test.py: `percentile`, `min`, `max` and `Counter`.
use dev_llmops.Prelude.{
  ℕ, ◌+◌, ◌-◌, min, Bool, Option, none, some, List, [], ◌∷◌, if◌then◌else◌, length, get_elem?, ltb,
  ◌==◌,
}
use dev_llmops.Prelude.Sort.{sorted}

-- The floats that the script computes with; `floor` is `int` on a number that is not negative, and
-- `mean` is `statistics.mean`.
pub record Reals (F : Type 0) : Type 0 where
  pub add : F → F → F
  pub sub : F → F → F
  pub mul : F → F → F
  pub div : F → F → F
  pub lt : F → F → Bool
  pub le : F → F → Bool
  pub of_nat : ℕ → F
  pub floor : F → ℕ
  pub mean : List F → F

-- `Counter` on the status codes
unfoldable pub tally : ℕ → List (ℕ × ℕ) → List (ℕ × ℕ)
tally code [] = (code, 1) ∷ []
tally code ((c, n) ∷ counter) =
    let rest = tally code counter in if c == code then (c, n + 1) ∷ counter else (c, n) ∷ rest

unfoldable pub tally_all : List ℕ → List (ℕ × ℕ) → List (ℕ × ℕ)
unfolding tally
tally_all [] counter = counter
tally_all (code ∷ codes) counter = tally_all codes (tally code counter)

-- counter.get(code, 0)
unfoldable pub count_of : ℕ → List (ℕ × ℕ) → ℕ
count_of code [] = 0
count_of code ((c, n) ∷ counter) = if c == code then n else count_of code counter

-- sorted(counter.items(), key=lambda x: x[0])
unfoldable pub distribution : List (ℕ × ℕ) → List (ℕ × ℕ)
unfolding sorted
distribution = sorted (λ x y. ltb x.0 y.0)

module _ {F : Type 0} (reals : Reals F) where
  open reals use {add, sub, mul, div, lt, le, of_nat, floor}

  -- min(values) and max(values): the first of those that are equal
  unfoldable pub min_value : F → List F → F
  min_value v [] = v
  min_value v (w ∷ ws) = min_value (if lt w v then w else v) ws

  unfoldable pub max_value : F → List F → F
  max_value v [] = v
  max_value v (w ∷ ws) = max_value (if lt v w then w else v) ws

  unfoldable pub interpolate : Option F → Option F → F → Option F
  interpolate none high frac = none
  interpolate (some a) none frac = none
  interpolate (some a) (some b) frac = some (add (mul a (sub (of_nat 1) frac)) (mul b frac))

  unfoldable pub rank : ℕ → F → F
  rank n p = mul (of_nat (n - 1)) (div p (of_nat 100))

  -- none is an index out of range.
  unfoldable pub percentile : List F → F → Option F
  unfolding min_value max_value interpolate rank sorted
  percentile [] p = some (of_nat 0)
  percentile (v ∷ vs) p =
      let sorted_vals = sorted lt (v ∷ vs) in
      let idx = rank (length sorted_vals) p in
      let low = floor idx in
      let high = min (low + 1) (length sorted_vals - 1) in
      let inner =
        interpolate (get_elem? sorted_vals low) (get_elem? sorted_vals high)
          (sub idx (of_nat low)) in
      if le p (of_nat 0)
      then some (min_value v vs)
      else if le (of_nat 100) p
      then some (max_value v vs)
      else inner
