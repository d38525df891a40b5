-- ===== src/PerfEval/Search/Bracket.antt =====
-- The invariant of the search at a service that meets the SLO exactly up to some concurrency, and
-- that `_binary_step` and `_stopn_step` keep it.
use dev_llmops.Prelude.{
  ℕ, zero, suc, ◌+◌, ◌-◌, ◌/◌, ◌≤◌, ◌<◌, max, ◌≡◌, refl, sym, subst, ◌⊎◌, inl, inr, Bool, true,
  false, ◌||◌, Option, none, some, List, ◌∷◌, arith, leb, ◌==◌, if◌then◌else◌, mem, mem-All, All,
  All-imp,
}
use dev_llmops.PerfEval.Search.{
  Entry, Method, binary, stop_N, Search, improves, narrow, binary_next, binary_step,
  stopn_pass_next, stopn_pass, stopn_fail_next, stopn_fail, stopn_step, step,
}

-- `t` is at most the lower bound or at least the upper bound.
abbrev pub Outside : ℕ → Option ℕ → ℕ → Type 0
Outside l none t = t ≤ l
Outside l (some u) t = (t ≤ l) ⊎ (u ≤ t)

abbrev pub Within : Option ℕ → ℕ → Type 0
Within none c = Unit
Within (some m) c = c ≤ m

-- The upper bound fails, lies above the lower bound and within the limit.
abbrev pub UpperFails : ℕ → Option ℕ → ℕ → Option ℕ → Type 0
UpperFails k limit l none = Unit
UpperFails k limit l (some u) = (k < u) × (l < u) × Within limit u

abbrev pub batch_of : {R : Type 0} → Option (Entry R) → Option (ℕ × ℕ)
batch_of none = none
batch_of (some e) = some (e.concurrency, e.requests)

-- The batch of the best entry when `l` is the largest concurrency that passed, 0 for none.
abbrev pub best_at : (ℕ → ℕ) → ℕ → Option (ℕ × ℕ)
best_at request_count l = if l == 0 then none else some (l, request_count l)

pub record IsBracket {R : Type 0} (request_count : ℕ → ℕ) (k : ℕ) (limit : Option ℕ) (s : Search R)
    : Type 0 where
  pub lower_passes : s.lower_bound ≤ k
  pub lower_within : Within limit s.lower_bound
  pub upper_fails : UpperFails k limit s.lower_bound s.upper_bound
  pub lower_tested : (s.lower_bound ≡ 0) ⊎ (mem s.lower_bound s.tested ≡ true)
  pub tested_outside : All (Outside s.lower_bound s.upper_bound) s.tested
  pub best_lower : batch_of s.best ≡ best_at request_count s.lower_bound

-- `c` lies strictly between the bounds.
abbrev pub Between : ℕ → Option ℕ → ℕ → Type 0
Between l none c = l < c
Between l (some u) c = (l < c) × (c < u)

abbrev pub IsClosed : {R : Type 0} → Search R → Type 0
IsClosed s = s.upper_bound ≡ some (s.lower_bound + 1)

-- What a step leaves: the invariant, and either bounds that meet or a next concurrency between.
abbrev pub Stepped : {R : Type 0} → (ℕ → ℕ) → ℕ → Option ℕ → Search R × Bool → Type 0
Stepped request_count k limit (s, should_break) =
    IsBracket request_count k limit s
    × (should_break ≡ true → IsClosed s)
    × (should_break ≡ false → Between s.lower_bound s.upper_bound s.concurrent)

raise_lower :
    (l c : ℕ) (upper : Option ℕ) (ts : List ℕ)
    → l ≤ c
    → All (Outside l upper) ts
    → All (Outside c upper) ts
raise_lower l c none ts h = All-imp (Outside l none) (Outside c none) ts (λ t p. omega arith)
raise_lower l c (some u) ts h =
    All-imp (Outside l (some u)) (Outside c (some u)) ts (λ t p. ground arith)

lower_upper :
    (l c : ℕ) (upper : Option ℕ) (ts : List ℕ)
    → Between l upper c
    → All (Outside l upper) ts
    → All (Outside l (some c)) ts
lower_upper l c none ts h = All-imp (Outside l none) (Outside l (some c)) ts (λ t p. inl p)
lower_upper l c (some u) ts h =
    All-imp (Outside l (some u)) (Outside l (some c)) ts (λ t p. ground arith)

pub mem-Outside :
    (l : ℕ) (upper : Option ℕ) (ts : List ℕ) (t : ℕ)
    → All (Outside l upper) ts
    → mem t ts ≡ true
    → Outside l upper t
mem-Outside l upper ts t h m = mem-All (Outside l upper) t ts m h

mem-cons_self : (c : ℕ) (ts : List ℕ) → mem c (c ∷ ts) ≡ true
mem-cons_self c ts = ground arith

pub Between-lt : (l c : ℕ) (upper : Option ℕ) → Between l upper c → l < c
Between-lt l c none h = h
Between-lt l c (some u) h = h.0

UpperFails-raise :
    (k : ℕ) (limit : Option ℕ) (l c : ℕ) (upper : Option ℕ)
    → UpperFails k limit l upper
    → Between l upper c
    → UpperFails k limit c upper
UpperFails-raise k limit l c none h b = tt
UpperFails-raise k limit l c (some u) h b = (h.0, b.1, h.2)

Outside-self : (c : ℕ) (upper : Option ℕ) → Outside c upper c
Outside-self c none = omega arith
Outside-self c (some u) = inl (omega arith)

-- What a next concurrency and `should_break` must satisfy at the bounds that a step leaves.
abbrev Advances : ℕ → Option ℕ → ℕ → Bool → Type 0
Advances l upper next done =
    (done ≡ true → upper ≡ some (l + 1)) × (done ≡ false → Between l upper next)

binary_pass-Advances :
    (l c : ℕ) (upper : Option ℕ)
    → 0 < c
    → Between l upper c
    → let next : ℕ = binary_next c true l upper in Advances c upper next (next == c || leb next c)
unfolding binary_next
binary_pass-Advances l c none pos h = (λ d. ground arith, λ d. ground arith)
binary_pass-Advances l c (some u) pos h = (λ d. ground arith, λ d. ground arith)

binary_fail-Advances :
    (l c : ℕ)
    → l < c
    → let next : ℕ = (l + c) / 2 in Advances l (some c) next (next == c || leb next l)
binary_fail-Advances l c h = (λ d. ground arith, λ d. ground arith)

stopn_pass-Advances :
    (n l c : ℕ) (upper : Option ℕ) (ts : List ℕ)
    → 0 < n
    → All (Outside c upper) (c ∷ ts)
    → Between l upper c
    → let next : ℕ = stopn_pass_next n c c upper in Advances c upper next (mem next (c ∷ ts))
unfolding stopn_pass_next
stopn_pass-Advances n l c none ts pos out h =
    (λ d. absurd (omega (arith, mem-Outside c none (c ∷ ts) (c + n) out d)), λ d. omega arith)
stopn_pass-Advances n l c (some u) ts pos out h =
    (λ d. ground (arith, mem-Outside c (some u) (c ∷ ts) ((c + u) / 2) out d), λ d. ground arith)

stopn_fail-Advances :
    (n l c : ℕ) (ts : List ℕ)
    → 0 < n
    → l < c
    → (l ≡ 0) ⊎ (mem l ts ≡ true)
    → All (Outside l (some c)) (c ∷ ts)
    → let p : ℕ × Bool = stopn_fail_next n c l c (c ∷ ts) in
      Advances l (some c) p.0 (p.1 || mem p.0 (c ∷ ts))
unfolding stopn_fail_next
stopn_fail-Advances n zero c ts pos h low out = (
  λ d. ground (
    arith,
    mem-Outside 0 (some c) (c ∷ ts) 1 out,
    mem-Outside 0 (some c) (c ∷ ts) (max 1 (c - n)) out,
  ),
  λ d. ground arith,
)
stopn_fail-Advances n (suc l) c ts pos h low out = (
  λ d. ground (arith, mem-Outside (suc l) (some c) (c ∷ ts) ((suc l + c) / 2) out),
  λ d. ground arith,
)

pub narrow-Between : (l c : ℕ) (upper : Option ℕ) → Between l upper c → narrow upper c ≡ c
unfolding narrow
narrow-Between l c none h = refl
narrow-Between l c (some u) h = omega arith

-- A state `s`, and a fresh concurrency `c` whose benchmark has the entry `e`.
module _ {R : Type 0} (request_count : ℕ → ℕ) (k : ℕ) (limit : Option ℕ) (s : Search R) (c : ℕ)
    (e : Entry R) (at_e : batch_of (some e) ≡ some (c, request_count c))
    (inv : IsBracket request_count k limit s) (between : Between s.lower_bound s.upper_bound c)
    (within : Within limit c) where
  fresh_pos : 0 < c
  fresh_pos = omega (arith, Between-lt s.lower_bound c s.upper_bound between)

  -- The benchmark at `c` passed.
  IsBracket-pass :
      (next : ℕ) (all : List (Entry R))
      → c ≤ k
      → IsBracket request_count k limit (record s {
        concurrent = next;
        lower_bound = c;
        best = some e;
        tested = c ∷ s.tested;
        all_tested = all;
      })
  IsBracket-pass next all h = record {
    lower_passes = h;
    lower_within = within;
    upper_fails = UpperFails-raise k limit s.lower_bound c s.upper_bound inv.upper_fails between;
    lower_tested = inr (mem-cons_self c s.tested);
    tested_outside = (
      Outside-self c s.upper_bound,
      raise_lower s.lower_bound c s.upper_bound s.tested
          (omega (arith, Between-lt s.lower_bound c s.upper_bound between)) inv.tested_outside,
    );
    best_lower = ground (arith, fresh_pos);
  }

  -- The benchmark at `c` failed.
  IsBracket-fail :
      (next : ℕ) (all : List (Entry R))
      → k < c
      → IsBracket request_count k limit (record s {
        concurrent = next;
        upper_bound = some c;
        tested = c ∷ s.tested;
        all_tested = all;
      })
  IsBracket-fail next all h = record {
    lower_passes = inv.lower_passes;
    lower_within = inv.lower_within;
    upper_fails = (h, Between-lt s.lower_bound c s.upper_bound between, within);
    lower_tested = ground arith;
    tested_outside = (
      inr (omega arith),
      lower_upper s.lower_bound c s.upper_bound s.tested between inv.tested_outside,
    );
    best_lower = inv.best_lower;
  }

  -- `best` is replaced whenever `c` passes.
  improves_best : improves c s.best ≡ true
  unfolding improves
  improves_best = ground (arith, inv.best_lower, Between-lt s.lower_bound c s.upper_bound between)

  abbrev entered : List (Entry R) → Search R
  entered all = record s { concurrent = c; tested = c ∷ s.tested; all_tested = all }

  binary_step-Stepped :
      (all : List (Entry R)) (v : Bool)
      → v ≡ leb c k
      → Stepped request_count k limit (binary_step e v (entered all))
  unfolding binary_step
  binary_step-Stepped all true h =
      let next = binary_pass-Advances s.lower_bound c s.upper_bound fresh_pos between in
      rw improves_best (IsBracket-pass _ all (ground arith), next.0, next.1)
  binary_step-Stepped all false h =
      let next =
        binary_fail-Advances s.lower_bound c (Between-lt s.lower_bound c s.upper_bound between) in
      (IsBracket-fail _ all (ground arith), next.0, next.1)

  stopn_step-Stepped :
      (n : ℕ) (all : List (Entry R)) (v : Bool)
      → 0 < n
      → v ≡ leb c k
      → Stepped request_count k limit (stopn_step n e v (entered all))
  unfolding stopn_step
  stopn_step-Stepped n all true pos h =
      let bracket = IsBracket-pass (stopn_pass_next n c c s.upper_bound) all (ground arith) in
      let next =
        stopn_pass-Advances n s.lower_bound c s.upper_bound s.tested pos bracket.tested_outside
          between in
      let same : max s.lower_bound c ≡ c =
        omega (arith, Between-lt s.lower_bound c s.upper_bound between) in
      subst (λ (l : ℕ). Stepped request_count k limit (stopn_pass n e l (entered all))) (sym same)
        (rw improves_best (bracket, next.0, next.1))
  stopn_step-Stepped n all false pos h =
      let bracket =
        IsBracket-fail (stopn_fail_next n c s.lower_bound c (c ∷ s.tested)).0 all (ground arith) in
      let next =
        stopn_fail-Advances n s.lower_bound c s.tested pos
          (Between-lt s.lower_bound c s.upper_bound between) inv.lower_tested
          bracket.tested_outside in
      subst (λ (u : ℕ). Stepped request_count k limit (stopn_fail n u (entered all)))
        (sym (narrow-Between s.lower_bound c s.upper_bound between)) (bracket, next.0, next.1)

  -- Either method keeps the invariant, stops only when the bounds meet, and else goes between them.
  pub step-Stepped :
      (method : Method) (n : ℕ) (all : List (Entry R)) (v : Bool)
      → 0 < n
      → v ≡ leb c k
      → Stepped request_count k limit (step method n e v (entered all))
  unfolding step
  step-Stepped binary n all v pos h = binary_step-Stepped all v h
  step-Stepped stop_N n all v pos h = stopn_step-Stepped n all v pos h
