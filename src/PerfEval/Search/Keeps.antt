-- ===== src/PerfEval/Search/Keeps.antt =====
-- What a search leaves of the rest of the program's state.
use dev_llmops.Prelude.{ℕ, zero, suc, Bool, Option, none, some, inl, inr, Bool-cases, mem}
use dev_llmops.PerfEval.Search.{
  Method, Search, clamp, round, loop, outcome, search_max_concurrency, start as first,
}

abbrev pub After : {A S : Type 0} → (S → Type 0) → Option (A × S) → Type 0
After P none = Unit
After P (some (a, w)) = P w

-- A search leaves what each of its benchmarks leaves.
module _ {R S : Type 0} (P : S → Type 0) (run : ℕ × ℕ → S → Option R × S) (passes : Option R → Bool)
    (request_count : ℕ → ℕ) (method : Method) (stop_n : ℕ) (limit : Option ℕ)
    (keeps : (req : ℕ × ℕ) (w : S) → P w → P (run req w).1) where
  loop_keeps :
      (fuel : ℕ) (s : Search R) (w : S)
      → P w
      → After P (loop run passes request_count method stop_n limit fuel s w)
  unfolding loop round
  loop_keeps zero s w p = tt
  loop_keeps (suc fuel) s w p =
      let c = clamp limit s.concurrent in
      let turn = round run passes request_count method stop_n limit c s w in
      elim (Bool-cases (mem c s.tested)) [
        | inl seen ↦ rw seen p
        | inr new ↦ elim (Bool-cases turn.0.1) [
          | inl stops ↦ rw (new, stops) (keeps (c, request_count c) w p)
          | inr goes ↦
              rw (new, goes) (loop_keeps fuel turn.0.0 turn.1 (keeps (c, request_count c) w p))
        ]
      ]

  pub search_keeps :
      (fuel init : ℕ) (w : S)
      → P w
      → After P (search_max_concurrency run passes request_count method stop_n limit fuel init w)
  unfolding search_max_concurrency
  search_keeps fuel init w p =
      go (loop run passes request_count method stop_n limit fuel (first limit init) w)
        (loop_keeps fuel (first limit init) w p)
    where
      go :
          (o : Option (Search R × S))
          → After P o
          → After P (elim o [
            | none ↦ none
            | some (s, w') ↦ some (outcome run passes request_count method stop_n limit s, w')
          ])
      go none h = tt
      go (some (s, w')) h = h
