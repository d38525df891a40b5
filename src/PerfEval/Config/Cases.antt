-- ===== src/PerfEval/Config/Cases.antt =====
-- The cases that `_parse_mode1_test_cases` of llm-perf-eval.py makes.
use dev_llmops.Prelude.{
  ℕ, zero, suc, ◌+◌, ◌*◌, ◌<◌, ◌≡◌, refl, sym, ◌∙◌, ap, Option, none, some, List, [], ◌∷◌, ◌++◌,
  map, arith, inl, inr, Bool-cases, ==_iff, ◌≢◌, ◌⊎◌, length, length-append, length-map, get_elem?,
  ◌==◌,
}
use dev_llmops.PerfEval.Config.{product, zip, parse_mode1_test_cases}

module _ {A : Type 0} where
  get_elem?-left :
      (xs ys : List A) (i : ℕ) → i < length xs → get_elem? (xs ++ ys) i ≡ get_elem? xs i
  get_elem?-left [] ys i h = absurd (omega arith)
  get_elem?-left (x ∷ xs) ys zero h = refl
  get_elem?-left (x ∷ xs) ys (suc i) h = get_elem?-left xs ys i (omega arith)

  get_elem?-right : (xs ys : List A) (i : ℕ) → get_elem? (xs ++ ys) (length xs + i) ≡ get_elem? ys i
  get_elem?-right [] ys i = let e : 0 + i ≡ i = omega arith in rw e refl
  get_elem?-right (x ∷ xs) ys i =
      let e : suc (length xs) + i ≡ suc (length xs + i) = omega arith in
      rw e (get_elem?-right xs ys i)

module _ {A B : Type 0} where
  get_elem?-map :
      (f : A → B) (xs : List A) (i : ℕ) (a : A)
      → get_elem? xs i ≡ some a
      → (get_elem? (map f xs) i ≡ some (f a)) × (i < length xs)
  get_elem?-map f [] i a h = absurd (ground arith)
  get_elem?-map f (x ∷ xs) zero a h =
      (ap (λ o. elim o [ none ↦ none | some y ↦ some (f y) ]) h, omega arith)
  get_elem?-map f (x ∷ xs) (suc i) a h = let (e, l) = get_elem?-map f xs i a h in (e, omega arith)

module _ {A B : Type 0} where
  get_elem?-product :
      (xs : List A) (bs : List B) (i j : ℕ) (a : A) (b : B)
      → get_elem? xs i ≡ some a
      → get_elem? bs j ≡ some b
      → get_elem? (product xs bs) (i * length bs + j) ≡ some (a, b)
  unfolding product
  get_elem?-product [] bs i j a b hi hj = absurd (ground arith)
  get_elem?-product (x ∷ xs) bs zero j a b hi hj =
      let f : B → A × B = λ b'. (x, b') in
      let (e, l) = get_elem?-map f bs j b hj in
      let k : 0 * length bs + j ≡ j = omega arith in
      let l' : j < length (map f bs) = omega (arith, length-map f bs) in
      rw k (get_elem?-left (map f bs) (product xs bs) j l' ∙ e ∙ ground arith)
  get_elem?-product (x ∷ xs) bs (suc i) j a b hi hj =
      let f : B → A × B = λ b'. (x, b') in
      let k : suc i * length bs + j ≡ length (map f bs) + (i * length bs + j) =
        omega (arith, length-map f bs) in
      rw k (
        get_elem?-right (map f bs) (product xs bs) (i * length bs + j)
        ∙ get_elem?-product xs bs i j a b hi hj)

  length-product : (xs : List A) (bs : List B) → length (product xs bs) ≡ length xs * length bs
  unfolding product
  length-product [] bs = omega arith
  length-product (x ∷ xs) bs =
      let f : B → A × B = λ b. (x, b) in
      omega (arith, length-append (map f bs) (product xs bs), length-map f bs, length-product xs bs)

  get_elem?-zip :
      (xs : List A) (bs : List B) (i : ℕ) (a : A) (b : B)
      → get_elem? xs i ≡ some a
      → get_elem? bs i ≡ some b
      → get_elem? (zip xs bs) i ≡ some (a, b)
  unfolding zip
  get_elem?-zip [] bs i a b hi hj = absurd (ground arith)
  get_elem?-zip (x ∷ xs) [] i a b hi hj = absurd (ground arith)
  get_elem?-zip (x ∷ xs) (y ∷ bs) zero a b hi hj = ground arith
  get_elem?-zip (x ∷ xs) (y ∷ bs) (suc i) a b hi hj = get_elem?-zip xs bs i a b hi hj

  length-zip : (xs : List A) (bs : List B) → length xs ≡ length bs → length (zip xs bs) ≡ length xs
  unfolding zip
  length-zip [] bs h = refl
  length-zip (x ∷ xs) [] h = absurd (omega arith)
  length-zip (x ∷ xs) (b ∷ bs) h = omega (arith, length-zip xs bs (omega arith))

  -- The cases that a `combination_mode` asks for.
  abbrev pub AreCases : List A → List B → ℕ → Option (List (A × B)) → Type 0
  AreCases xs bs mode none = (mode ≢ 1) × (mode ≡ 2 → length xs ≢ length bs)
  AreCases xs bs mode (some cases) =
      ((mode ≡ 1)
        × (length cases ≡ length xs * length bs)
        × ((i j : ℕ) (a : A) (b : B)
            → get_elem? xs i ≡ some a
            → get_elem? bs j ≡ some b
            → get_elem? cases (i * length bs + j) ≡ some (a, b)))
      ⊎ ((mode ≡ 2)
          × (length cases ≡ length xs)
          × (length bs ≡ length xs)
          × ((i : ℕ) (a : A) (b : B)
              → get_elem? xs i ≡ some a
              → get_elem? bs i ≡ some b
              → get_elem? cases i ≡ some (a, b)))

  -- Whatever the contexts, the batches and the `combination_mode`: 1 gives every context with every
  -- batch, context by context; 2 gives each context with the batch at its place, where there are as
  -- many of both; and nothing is given exactly where it is another number, or is 2 and their numbers
  -- differ.
  pub parse_mode1_test_cases-AreCases :
      (xs : List A) (bs : List B) (mode : ℕ)
      → AreCases xs bs mode (parse_mode1_test_cases xs bs mode)
  unfolding parse_mode1_test_cases
  parse_mode1_test_cases-AreCases xs bs mode = elim (Bool-cases (mode == 1)) [
    | inl one ↦ rw one (
        inl
          ((==_iff mode 1).0 one, length-product xs bs, λ i j a b. get_elem?-product xs bs i j a b))
    | inr other ↦ elim (Bool-cases (mode == 2)) [
      | inr wrong ↦ rw (other, wrong) (λ e. ground arith, λ e. λ q. ground arith)
      | inl two ↦ elim (Bool-cases (length xs == length bs)) [
        | inl same ↦
            let e : length xs ≡ length bs = (==_iff (length xs) (length bs)).0 same in
            rw (other, two, same)
              (inr (
                (==_iff mode 2).0 two,
                length-zip xs bs e,
                sym e,
                λ i a b. get_elem?-zip xs bs i a b,
              ))
        | inr differ ↦ rw (other, two, differ) (λ e. ground arith, λ e. λ q. ground arith)
      ]
    ]
  ]
