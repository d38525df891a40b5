-- ===== src/RateTest/Percentile.antt =====
-- What `percentile` gives, of DevOps/nginx/rate-limit/rate-test.py.
use dev_llmops.Prelude.{
  ℕ, ◌+◌, ◌-◌, ◌≤◌, ◌<◌, min, ◌≡◌, refl, sym, subst, inl, inr, Bool, true, false, ◌⊎◌, All, ap,
  if◌then◌else◌, some, List, [], ◌∷◌, length, get_elem?, arith, Bool-cases, ◌==◌, ==_iff,
}
use dev_llmops.Prelude.Sort.{
  IsOrder, count_if, sorted, IsSorted, sorted-IsSorted, length-sorted, count_if-sorted,
  IsSorted-get_elem?, get_elem?-some,
}
use dev_llmops.RateTest.Stats.{Reals, min_value, max_value, interpolate, rank, percentile}

-- What the script relies on: the floats' order, and that a part of at most the whole of n has no
-- floor above n.
pub record Laws {F : Type 0} (reals : Reals F) : Type 0 where
  pub order : IsOrder reals.lt
  pub part :
      (n : ℕ) (p : F)
      → reals.le (reals.of_nat 100) p ≡ false
      → reals.floor (reals.mul (reals.of_nat n) (reals.div p (reals.of_nat 100))) ≤ n

abbrev pub IsIn : {A : Type 0} → A → List A → Type 0
IsIn x [] = ⊥
IsIn x (y ∷ ys) = (x ≡ y) ⊎ IsIn x ys

-- One of the values, and no value is less.
abbrev pub IsLeast : {A : Type 0} → (A → A → Bool) → A → List A → Type 0
IsLeast less m values = IsIn m values × All (λ x. less x m ≡ false) values

flip : {A : Type 0} → (A → A → Bool) → A → A → Bool
flip less x y = less y x

module _ {A : Type 0} (less : A → A → Bool) (order : IsOrder less) where
  abbrev least : A → List A → A
  least v [] = v
  least v (w ∷ ws) = least (if less w v then w else v) ws

  least-IsLeast : (v : A) (ws : List A) → IsLeast less (least v ws) (v ∷ ws)
  least-IsLeast v [] =
      (inl refl, (elim (Bool-cases (less v v)) [ inl e ↦ order.asym v v e | inr e ↦ e ], tt))
  least-IsLeast v (w ∷ ws) = elim (Bool-cases (less w v)) [
    | inl smaller ↦
        let (there, (own, others)) = least-IsLeast w ws in
        let m = least w ws in
        subst chosen (sym smaller)
          (inr there, (order.trans m w v own (order.asym w v smaller), (own, others)))
    | inr not_smaller ↦
        let (there, (own, others)) = least-IsLeast v ws in
        let m = least v ws in
        subst chosen (sym not_smaller)
          (later there, (own, (order.trans m v w own not_smaller, others)))
  ]
    where
      chosen : Bool → Type 0
      chosen b = IsLeast less (least (if b then w else v) ws) (v ∷ w ∷ ws)

      later : {m : A} → IsIn m (v ∷ ws) → IsIn m (v ∷ w ∷ ws)
      later (inl same) = inl same
      later (inr there) = inr (inr there)

module _ {F : Type 0} (reals : Reals F) (laws : Laws reals) where
  open reals use {add, sub, mul, div, lt, le, of_nat, floor}
  open laws use {order, part}

  -- An order where nothing is less than itself.
  irrefl : (x : F) → lt x x ≡ false
  irrefl x = elim (Bool-cases (lt x x)) [ inl e ↦ order.asym x x e | inr e ↦ e ]

  -- The two neighbouring places of a sorted list.
  neighbours :
      (n : ℕ) (s : List F) (low : ℕ)
      → length s ≡ n
      → IsSorted lt s
      → low < n
      → (a : F) × (b : F) × (get_elem? s low ≡ some a)
        × (get_elem? s (min (low + 1) (n - 1)) ≡ some b)
        × (lt b a ≡ false)
  neighbours n s low size ordered h =
      let high = min (low + 1) (n - 1) in
      let (a, at_low) = get_elem?-some s low (omega arith) in
      let (b, at_high) = get_elem?-some s high (omega arith) in
      (
        a,
        b,
        at_low,
        at_high,
        elim (Bool-cases (low == high)) [
          | inl same ↦
              let e = (==_iff low high).0 same in
              let equal : a ≡ b =
                (let again : get_elem? s low ≡ some b =
                    subst (λ k. get_elem? s k ≡ some b) (sym e) at_high in
                  cc) in
              subst (λ c. lt c a ≡ false) equal (irrefl a)
          | inr other ↦
              IsSorted-get_elem? lt s low high a b ordered (ground (arith, ==_iff low high)) at_low
                at_high
        ],
      )

  -- The percentile, by the values at its two places.
  percentile-mixes :
      (v : F) (vs : List F) (p a b : F)
      → le p (of_nat 0) ≡ false
      → le (of_nat 100) p ≡ false
      → let low : ℕ = floor (rank reals (length (v ∷ vs)) p) in
        let frac : F = sub (rank reals (length (v ∷ vs)) p) (of_nat low) in
        get_elem? (sorted lt (v ∷ vs)) low ≡ some a
        → get_elem? (sorted lt (v ∷ vs)) (min (low + 1) (length (v ∷ vs) - 1)) ≡ some b
        → percentile reals (v ∷ vs) p ≡ some (add (mul a (sub (of_nat 1) frac)) (mul b frac))
  unfolding percentile interpolate
  percentile-mixes v vs p a b above below at_low at_high =
      rw (above, below, length-sorted lt (v ∷ vs), at_low, at_high) refl

  min_value-least : (v : F) (vs : List F) → min_value reals v vs ≡ least lt order v vs
  unfolding min_value
  min_value-least v [] = refl
  min_value-least v (w ∷ ws) = min_value-least (if lt w v then w else v) ws

  flipped : IsOrder (flip lt)
  unfolding flip
  flipped = record { asym = λ x y h. order.asym y x h; trans = λ x y z h g. order.trans z y x g h }

  max_value-least : (v : F) (vs : List F) → max_value reals v vs ≡ least (flip lt) flipped v vs
  unfolding max_value flip
  max_value-least v [] = refl
  max_value-least v (w ∷ ws) = max_value-least (if lt v w then w else v) ws

  -- What the percentile of values is: up to 0 the least of them, from 100 on the greatest, and else a
  -- mix of two neighbours, by the fraction of the rank, in a list that has the values in order, each
  -- as often.
  pub data FromValues (values : List F) (p : F) : Type 0 where
    lowest :
        (m : F)
        → le p (of_nat 0) ≡ true
        → percentile reals values p ≡ some m
        → IsLeast lt m values
        → FromValues values p
    highest :
        (m : F)
        → le p (of_nat 0) ≡ false
        → le (of_nat 100) p ≡ true
        → percentile reals values p ≡ some m
        → IsIn m values
        → All (λ x. lt m x ≡ false) values
        → FromValues values p
    between :
        (s : List F) (idx a b : F)
        → le p (of_nat 0) ≡ false
        → le (of_nat 100) p ≡ false
        → IsSorted lt s
        → ((test : F → Bool) → count_if test s ≡ count_if test values)
        → idx ≡ mul (of_nat (length values - 1)) (div p (of_nat 100))
        → get_elem? s (floor idx) ≡ some a
        → get_elem? s (min (floor idx + 1) (length values - 1)) ≡ some b
        → lt b a ≡ false
        → percentile reals values p
          ≡ some (
              add
                (mul a (sub (of_nat 1) (sub idx (of_nat (floor idx)))))
                (mul b (sub idx (of_nat (floor idx)))))
        → FromValues values p

  percentile-inside :
      (v : F) (vs : List F) (p : F)
      → le p (of_nat 0) ≡ false
      → le (of_nat 100) p ≡ false
      → FromValues (v ∷ vs) p
  unfolding rank
  percentile-inside v vs p above below =
      let s = sorted lt (v ∷ vs) in
      let size = length-sorted lt (v ∷ vs) in
      let n = length (v ∷ vs) in
      let low = floor (rank reals n p) in
      let small : low ≤ n - 1 = part (n - 1) p below in
      let ordered = sorted-IsSorted lt order (v ∷ vs) in
      let (a, b, at_low, at_high, rising) = neighbours n s low size ordered (omega arith) in
      between s (rank reals n p) a b above below ordered (λ test. count_if-sorted lt test (v ∷ vs))
        refl at_low at_high rising (percentile-mixes v vs p a b above below at_low at_high)

  -- The percentile of a non-empty list is always a number. Up to 0 it is the least value of the list
  -- and from 100 on the greatest. Else, in a sorted list of the same values, each as often, it is
  -- `a * (1 - frac) + b * frac` for the values `a` and `b` at the neighbouring places `low` and
  -- `low + 1`, or at the last place twice, where `low` and `frac` are the whole part and the rest of
  -- `(n - 1) * (p / 100)`; the list has both places, and `b` is not less than `a`.
  pub percentile-FromValues : (values : List F) (p : F) → 0 < length values → FromValues values p
  unfolding percentile flip
  percentile-FromValues [] p h = absurd (omega arith)
  percentile-FromValues (v ∷ vs) p h = elim (Bool-cases (le p (of_nat 0))) [
    | inl low ↦
        let m = least lt order v vs in
        lowest m low (rw (low, percentile) (ap (λ x. some x) (min_value-least v vs)))
          (least-IsLeast lt order v vs)
    | inr above ↦ elim (Bool-cases (le (of_nat 100) p)) [
      | inl high ↦
          let m = least (flip lt) flipped v vs in
          let (there, greatest) = least-IsLeast (flip lt) flipped v vs in
          highest m above high
            (rw (above, high, percentile) (ap (λ x. some x) (max_value-least v vs))) there greatest
      | inr below ↦ percentile-inside v vs p above below
    ]
  ]
