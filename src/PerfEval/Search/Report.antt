-- ===== src/PerfEval/Search/Report.antt =====
-- What the search reports of the benchmarks it ran, whatever the service did.
use dev_llmops.Prelude.{
  ℕ, ◌≤◌, ◌≡◌, refl, ◌∙◌, ◌⊎◌, inl, inr, Bool, true, false, ◌&&◌, Option, none, some, List, [], ◌∷◌,
  ◌++◌, arith, ltb, if◌then◌else◌, All, All-append, All-imp, Bool-cases,
}
use dev_llmops.PerfEval.Search.{
  Entry, Method, binary, stop_N, Search, improves, stopn_step, step, lesser, min_entry,
  min_tested_of,
}

abbrev pub Has : {A : Type 0} → A → List A → Type 0
Has a [] = ⊥
Has a (x ∷ xs) = (a ≡ x) ⊎ Has a xs

Has-append : {R : Type 0} (a : Entry R) (xs ys : List (Entry R)) → Has a xs → Has a (xs ++ ys)
Has-append a [] ys h = absurd h
Has-append a (x ∷ xs) ys (inl e) = inl e
Has-append a (x ∷ xs) ys (inr h) = inr (Has-append a xs ys h)

Has-last : {R : Type 0} (a : Entry R) (xs : List (Entry R)) → Has a (xs ++ a ∷ [])
Has-last a [] = inl refl
Has-last a (x ∷ xs) = inr (Has-last a xs)

module _ {R : Type 0} (passes : Option R → Bool) where
  -- `e` did not pass, or the best entry passed at a concurrency that is no smaller.
  abbrev pub Dominated : Option (Entry R) → Entry R → Type 0
  Dominated none e = passes e.result ≡ false
  Dominated (some b) e = passes e.result ≡ true → e.concurrency ≤ b.concurrency

  abbrev pub BestIn : List (Entry R) → Option (Entry R) → Type 0
  BestIn all none = Unit
  BestIn all (some b) = (passes b.result ≡ true) × Has b all

  -- The best entry is one of the entries, it passed, and none that passed is larger; there is none
  -- only if no entry passed.
  pub record IsBest (all : List (Entry R)) (best : Option (Entry R)) : Type 0 where
    pub best_in : BestIn all best
    pub best_largest : All (Dominated best) all

  abbrev pub best_after : Entry R → Option (Entry R) → Option (Entry R)
  best_after e best = if passes e.result && improves e.concurrency best then some e else best

  best_after-Dominated :
      (e : Entry R) (best : Option (Entry R)) (x : Entry R)
      → Dominated best x
      → Dominated (best_after e best) x
  unfolding improves
  best_after-Dominated e none x h = elim (Bool-cases (passes e.result)) [
    | inl p ↦ rw p (λ q. cc)
    | inr p ↦ rw p h
  ]
  best_after-Dominated e (some b) x h =
      elim (Bool-cases (passes e.result && ltb b.concurrency e.concurrency)) [
        | inl p ↦ rw p (λ q. ground arith)
        | inr p ↦ rw p h
      ]

  best_after_self : (e : Entry R) (best : Option (Entry R)) → Dominated (best_after e best) e
  unfolding improves
  best_after_self e none = ground arith
  best_after_self e (some b) = ground arith

  best_after-BestIn :
      (e : Entry R) (best : Option (Entry R)) (all : List (Entry R))
      → BestIn all best
      → BestIn (all ++ e ∷ []) (best_after e best)
  unfolding improves
  best_after-BestIn e none all h = ground (arith, Has-last e all)
  best_after-BestIn e (some b) all h = ground (arith, Has-last e all, Has-append b all (e ∷ []))

  pub IsBest-after :
      (e : Entry R) (best : Option (Entry R)) (all : List (Entry R))
      → IsBest all best
      → IsBest (all ++ e ∷ []) (best_after e best)
  IsBest-after e best all h = record {
    best_in = best_after-BestIn e best all h.best_in;
    best_largest =
        All-append (Dominated (best_after e best)) all (e ∷ [])
          (All-imp (Dominated best) (Dominated (best_after e best)) all
            (best_after-Dominated e best) h.best_largest)
          (best_after_self e best, tt);
  }

  stopn-best :
      (n : ℕ) (e : Entry R) (s : Search R) (v : Bool)
      → let s' : Search R = (stopn_step n e v s).0 in
        (s'.best ≡ (if v && improves s.concurrent s.best then some e else s.best))
        × (s'.all_tested ≡ s.all_tested)
        × (s'.tested ≡ s.tested)
  unfolding stopn_step
  stopn-best n e s true = (refl, refl, refl)
  stopn-best n e s false = (refl, refl, refl)

  -- A step by either method leaves that best entry, and the entries and the tested as they are.
  pub step-best :
      (method : Method) (n : ℕ) (e : Entry R) (s : Search R)
      → let s' : Search R = (step method n e (passes e.result) s).0 in
        (s'.best ≡ (if passes e.result && improves s.concurrent s.best then some e else s.best))
        × (s'.all_tested ≡ s.all_tested)
        × (s'.tested ≡ s.tested)
  unfolding step
  step-best binary n e s = (refl, refl, refl)
  step-best stop_N n e s = stopn-best n e s (passes e.result)

-- `m` is one of the entries and the smallest.
abbrev pub IsLeast : {R : Type 0} → List (Entry R) → Entry R → Type 0
IsLeast all m = Has m all × All (λ e. m.concurrency ≤ e.concurrency) all

lesser_cases : {R : Type 0} (e x : Entry R) → (lesser e x ≡ e) ⊎ (lesser e x ≡ x)
unfolding lesser
lesser_cases e x = ground arith

lesser-le :
    {R : Type 0} (e x : Entry R)
    → ((lesser e x).concurrency ≤ e.concurrency) × ((lesser e x).concurrency ≤ x.concurrency)
unfolding lesser
lesser-le e x = ground arith

min_entry-cons :
    {R : Type 0} (e x : Entry R) (xs : List (Entry R))
    → IsLeast (lesser e x ∷ xs) (min_entry (lesser e x) xs)
    → IsLeast (e ∷ x ∷ xs) (min_entry (lesser e x) xs)
min_entry-cons e x xs (has, (le, les)) =
    (place has, (omega (arith, lesser-le e x), (omega (arith, lesser-le e x), les)))
  where
    place :
        Has (min_entry (lesser e x) xs) (lesser e x ∷ xs)
        → Has (min_entry (lesser e x) xs) (e ∷ x ∷ xs)
    place (inl q) = elim (lesser_cases e x) [ inl p ↦ inl (q ∙ p) | inr p ↦ inr (inl (q ∙ p)) ]
    place (inr h) = inr (inr h)

min_entry-IsLeast :
    {R : Type 0} (xs : List (Entry R)) (e : Entry R) → IsLeast (e ∷ xs) (min_entry e xs)
unfolding min_entry
min_entry-IsLeast [] e = (inl refl, (omega arith, tt))
min_entry-IsLeast (x ∷ xs) e = min_entry-cons e x xs (min_entry-IsLeast xs (lesser e x))

-- The smallest tested entry is given just when there is a test and no best entry.
abbrev pub IsMinTested :
    {R : Type 0} → Option (Entry R) → List (Entry R) → Option (Entry R) → Type 0
IsMinTested none (x ∷ xs) (some m) = IsLeast (x ∷ xs) m
IsMinTested none [] none = Unit
IsMinTested (some b) all none = Unit
IsMinTested best all m = ⊥

pub min_tested_of-IsMinTested :
    {R : Type 0} (best : Option (Entry R)) (all : List (Entry R))
    → IsMinTested best all (min_tested_of best all)
unfolding min_tested_of
min_tested_of-IsMinTested none [] = tt
min_tested_of-IsMinTested none (x ∷ xs) = min_entry-IsLeast xs x
min_tested_of-IsMinTested (some b) all = tt
