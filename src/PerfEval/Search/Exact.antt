-- ===== src/PerfEval/Search/Exact.antt =====
-- Where the service meets the SLO exactly up to a concurrency `k`, the search ends and finds it.
use dev_llmops.Prelude.{
  ℕ, zero, suc, ◌+◌, ◌-◌, ◌*◌, ◌≤◌, ◌<◌, min, max, ◌≡◌, refl, ◌⊎◌, inl, inr, Bool, true, false,
  Option, none, some, List, All, arith, ltb, leb, mem, Bool-cases,
}
use dev_llmops.PerfEval.Search.{
  Entry, Method, binary, stop_N, Search, step, clamp, start, round, loop, outcome, binary_next,
  stopn_pass_next, narrow, search_max_concurrency,
}
use dev_llmops.PerfEval.Search.Bracket.{
  Outside, Within, UpperFails, batch_of, best_at, IsBracket, Between, IsClosed, Stepped,
  mem-Outside, step-Stepped, Between-lt, narrow-Between,
}

-- The largest concurrency that meets the SLO and the limit.
unfoldable pub target : Option ℕ → ℕ → ℕ
target none k = k
target (some m) k = min k m

abbrev pub Positive : Option ℕ → Type 0
Positive none = Unit
Positive (some m) = 0 < m

-- A bound on the benchmarks that are left.
abbrev cost : ℕ → ℕ → ℕ → Option ℕ → ℕ
cost bound k l none = k - l + bound + 1
cost bound k l (some u) = u - l

abbrev Bounded : ℕ → Option ℕ → ℕ → Type 0
Bounded bound none c = c ≤ bound
Bounded bound (some u) c = Unit

clamp-Within : (limit : Option ℕ) (c : ℕ) → Within limit (clamp limit c)
unfolding clamp
clamp-Within none c = tt
clamp-Within (some m) c = ground arith

clamp-le : (limit : Option ℕ) (c : ℕ) → clamp limit c ≤ c
unfolding clamp
clamp-le none c = omega arith
clamp-le (some m) c = ground arith

-- The clamped concurrency is still between the bounds, or the lower bound is the limit.
clamp_cases :
    (limit : Option ℕ) (k l c : ℕ) (upper : Option ℕ)
    → Within limit l
    → UpperFails k limit l upper
    → Between l upper c
    → Between l upper (clamp limit c) ⊎ ((clamp limit c ≡ l) × (limit ≡ some l) × (upper ≡ none))
unfolding clamp
clamp_cases none k l c upper w f b = inl b
clamp_cases (some m) k l c none w f b = elim (Bool-cases (ltb m c)) [
  | inl over ↦ rw over (elim (Bool-cases (ltb l m)) [
    | inl below ↦ inl (ground arith)
    | inr at ↦ inr (ground arith, ground arith, refl)
  ])
  | inr fits ↦ rw fits (inl b)
]
clamp_cases (some m) k l c (some u) w f b = inl (ground arith)

-- A concurrency between the bounds is not tested yet.
Between-fresh :
    (l c : ℕ) (upper : Option ℕ) (ts : List ℕ)
    → All (Outside l upper) ts
    → Between l upper c
    → mem c ts ≡ false
Between-fresh l c none ts out b = ground (arith, mem-Outside l none ts c out)
Between-fresh l c (some u) ts out b = ground (arith, mem-Outside l (some u) ts c out)

closed-target :
    (k l : ℕ) (limit : Option ℕ) → l ≤ k → UpperFails k limit l (some (l + 1)) → l ≡ target limit k
unfolding target
closed-target k l none h f = omega arith
closed-target k l (some m) h f = omega arith

-- The concurrency after a step is bounded while there is no upper bound.
binary_next-Bounded :
    (n k c l : ℕ) (upper : Option ℕ)
    → c ≤ k
    → Bounded (k * 2 + n) upper (binary_next c true l upper)
unfolding binary_next
binary_next-Bounded n k c l none h = omega arith
binary_next-Bounded n k c l (some u) h = tt

stopn_next-Bounded :
    (n k c l : ℕ) (upper : Option ℕ)
    → c ≤ k
    → Bounded (k * 2 + n) upper (stopn_pass_next n c l upper)
unfolding stopn_pass_next
stopn_next-Bounded n k c l none h = omega arith
stopn_next-Bounded n k c l (some u) h = tt

next-Bounded :
    {R : Type 0} (method : Method) (n k : ℕ) (e : Entry R) (v : Bool) (s : Search R)
    → v ≡ leb s.concurrent k
    → Bounded (k * 2 + n) (step method n e v s).0.upper_bound (step method n e v s).0.concurrent
unfolding step
next-Bounded binary n k e true s h =
    binary_next-Bounded n k s.concurrent s.lower_bound s.upper_bound (ground arith)
next-Bounded binary n k e false s h = tt
next-Bounded stop_N n k e true s h =
    stopn_next-Bounded n k s.concurrent _ s.upper_bound (ground arith)
next-Bounded stop_N n k e false s h = tt

-- Every benchmark lowers the bound on what is left.
cost_pass :
    (bound k l c : ℕ) (upper : Option ℕ)
    → Between l upper c
    → c ≤ k
    → cost bound k c upper < cost bound k l upper
cost_pass bound k l c none b h = omega arith
cost_pass bound k l c (some u) b h = omega arith

cost_fail :
    (bound k l c : ℕ) (upper : Option ℕ)
    → Between l upper c
    → Bounded bound upper c
    → cost bound k l (some (narrow upper c)) < cost bound k l upper
unfolding narrow
cost_fail bound k l c none b h = omega arith
cost_fail bound k l c (some u) b h = omega arith

step-cost :
    {R : Type 0} (method : Method) (n bound k : ℕ) (e : Entry R) (v : Bool) (s : Search R)
    → v ≡ leb s.concurrent k
    → Between s.lower_bound s.upper_bound s.concurrent
    → Bounded bound s.upper_bound s.concurrent
    → let s' : Search R = (step method n e v s).0 in
      cost bound k s'.lower_bound s'.upper_bound < cost bound k s.lower_bound s.upper_bound
unfolding step
step-cost binary n bound k e true s h b d =
    cost_pass bound k s.lower_bound s.concurrent s.upper_bound b (ground arith)
step-cost binary n bound k e false s h b d =
    rw (narrow-Between s.lower_bound s.concurrent s.upper_bound b) at
      (cost_fail bound k s.lower_bound s.concurrent s.upper_bound b d)
step-cost stop_N n bound k e true s h b d =
    let raised : max s.lower_bound s.concurrent ≡ s.concurrent =
      omega (arith, Between-lt s.lower_bound s.concurrent s.upper_bound b) in
    rw raised (cost_pass bound k s.lower_bound s.concurrent s.upper_bound b (ground arith))
step-cost stop_N n bound k e false s h b d =
    cost_fail bound k s.lower_bound s.concurrent s.upper_bound b d

Bounded-le :
    (bound c c' : ℕ) (upper : Option ℕ) → c' ≤ c → Bounded bound upper c → Bounded bound upper c'
Bounded-le bound c c' none h b = omega arith
Bounded-le bound c c' (some u) h b = tt

Within-zero : (limit : Option ℕ) → Within limit 0
Within-zero none = tt
Within-zero (some m) = omega arith

clamp_pos : (limit : Option ℕ) (c : ℕ) → Positive limit → 0 < c → 0 < clamp limit c
unfolding clamp
clamp_pos none c p h = h
clamp_pos (some m) c p h = ground arith

Bounded-mono : (b b' c : ℕ) (upper : Option ℕ) → b ≤ b' → Bounded b upper c → Bounded b' upper c
Bounded-mono b b' c none h d = omega arith
Bounded-mono b b' c (some u) h d = tt

-- The search stops at the limit: the lower bound is the limit, and was tested.
at_limit :
    (k l : ℕ) (limit : Option ℕ)
    → Positive limit
    → limit ≡ some l
    → l ≤ k
    → (0 < l) × (l ≡ target limit k)
unfolding target
at_limit k l none p e h = cc
at_limit k l (some m) p e h = ground arith

module _ {R S : Type 0} (bench : ℕ × ℕ → S → Option R × S) (passes : Option R → Bool)
    (request_count : ℕ → ℕ) (method : Method) (stop_n : ℕ) (limit : Option ℕ) (k : ℕ)
    (stop_n_pos : 0 < stop_n) (limit_pos : Positive limit)
    (serves : (c : ℕ) (w : S) → passes (bench (c, request_count c) w).0 ≡ leb c k) where
  -- A turn at `c` keeps the invariant and lowers the cost.
  round-Stepped :
      (c : ℕ) (s : Search R) (w : S)
      → IsBracket request_count k limit s
      → Between s.lower_bound s.upper_bound c
      → Within limit c
      → Stepped request_count k limit (round bench passes request_count method stop_n limit c s w).0
  unfolding round
  round-Stepped c s w inv b within =
      step-Stepped request_count k limit s c _ refl inv b within method stop_n _ _ stop_n_pos
        (serves c w)

  round-cost :
      (bound c : ℕ) (s : Search R) (w : S)
      → Between s.lower_bound s.upper_bound c
      → Bounded bound s.upper_bound c
      → let s' : Search R = (round bench passes request_count method stop_n limit c s w).0.0 in
        cost bound k s'.lower_bound s'.upper_bound < cost bound k s.lower_bound s.upper_bound
  unfolding round
  round-cost bound c s w b d = step-cost method stop_n bound k _ _ _ (serves c w) b d

  round-Bounded :
      (c : ℕ) (s : Search R) (w : S)
      → let s' : Search R = (round bench passes request_count method stop_n limit c s w).0.0 in
        Bounded (k * 2 + stop_n) s'.upper_bound s'.concurrent
  unfolding round
  round-Bounded c s w = next-Bounded method stop_n k _ _ _ (serves c w)

  -- The loop ended with the lower bound at the target and its entry as the best.
  abbrev Found : Option (Search R × S) → Type 0
  Found none = ⊥
  Found (some (s, w)) =
      (s.lower_bound ≡ target limit k) × (batch_of s.best ≡ best_at request_count s.lower_bound)

  Bracket-closed :
      (s : Search R)
      → IsBracket request_count k limit s
      → IsClosed s
      → s.lower_bound ≡ target limit k
  Bracket-closed s inv closed =
      closed-target k s.lower_bound limit inv.lower_passes (rw closed at inv.upper_fails)

  loop-Found :
      (fuel bound : ℕ) (s : Search R) (w : S)
      → k * 2 + stop_n ≤ bound
      → IsBracket request_count k limit s
      → Between s.lower_bound s.upper_bound s.concurrent
      → Bounded bound s.upper_bound s.concurrent
      → cost bound k s.lower_bound s.upper_bound < fuel
      → Found (loop bench passes request_count method stop_n limit fuel s w)
  unfolding loop
  loop-Found zero bound s w enough inv b d h = absurd (omega arith)
  loop-Found (suc fuel) bound s w enough inv b d h =
      let c = clamp limit s.concurrent in
      elim (clamp_cases limit k s.lower_bound s.concurrent s.upper_bound inv.lower_within
        inv.upper_fails b) [
          | inl b' ↦
              let d' =
                Bounded-le bound s.concurrent c s.upper_bound (clamp-le limit s.concurrent) d in
              let stepped = round-Stepped c s w inv b' (clamp-Within limit s.concurrent) in
              let s' : Search R =
                (round bench passes request_count method stop_n limit c s w).0.0 in
              rw (Between-fresh s.lower_bound c s.upper_bound s.tested inv.tested_outside b')
                (elim (Bool-cases
                  (round bench passes request_count method stop_n limit c s w).0.1) [
                    | inl stop ↦
                        rw stop (Bracket-closed s' stepped.0 (stepped.1 stop), stepped.0.best_lower)
                    | inr go ↦ rw go (
                        loop-Found fuel bound s' _ enough stepped.0 (stepped.2 go)
                          (Bounded-mono _ bound s'.concurrent s'.upper_bound enough
                            (round-Bounded c s w))
                          (omega (arith, round-cost bound c s w b' d')))
                  ])
          | inr (same, lim, up) ↦
              let end = at_limit k s.lower_bound limit limit_pos lim inv.lower_passes in
              let seen : mem c s.tested ≡ true = rw same (ground (arith, inv.lower_tested)) in
              rw seen (end.1, inv.best_lower)
        ]

  IsBracket-start : (init : ℕ) → IsBracket {R = R} request_count k limit (start limit init)
  unfolding start
  IsBracket-start init = record {
    lower_passes = omega arith;
    lower_within = Within-zero limit;
    upper_fails = tt;
    lower_tested = inl refl;
    tested_outside = tt;
    best_lower = refl;
  }

  -- What the search returns.
  abbrev pub Returns : Option ((Option (Entry R) × Option (Entry R)) × S) → Type 0
  Returns none = ⊥
  Returns (some ((best, min_tested), w)) = batch_of best ≡ best_at request_count (target limit k)

  Returns-Found :
      (o : Option (Search R × S))
      → Found o
      → Returns (elim o [
        | none ↦ none
        | some (s, w) ↦ some (outcome bench passes request_count method stop_n limit s, w)
      ])
  unfolding outcome
  Returns-Found none h = h
  Returns-Found (some (s, w)) (at, best) = rw at at best

  -- At a service that meets the SLO at every concurrency up to `k` and at none above, whatever the
  -- state, the search by either method ends within `init + 3 * k + stop_n + 2` rounds, and its best
  -- entry has the concurrency `min(k, max_concurrent)` (`k` with no limit) and the requests for it;
  -- it has no best entry if that is 0. It starts at 1 or more, and the limit and `stop_n` are
  -- positive.
  pub search-exact :
      (fuel init : ℕ) (w : S)
      → 0 < init
      → init + 3 * k + stop_n + 1 < fuel
      → Returns (search_max_concurrency bench passes request_count method stop_n limit fuel init w)
  unfolding search_max_concurrency outcome
  search-exact fuel init w pos enough =
      let first : 0 < clamp limit init = clamp_pos limit init limit_pos pos in
      Returns-Found _ (
        loop-Found fuel (init + 2 * k + stop_n) (start limit init) w (omega arith)
          (IsBracket-start init) first (omega (arith, clamp-le limit init)) (omega arith))
