-- ===== src/PerfEval/Mode2/Rows.antt =====
-- The rows that `run_mode2` of llm-perf-eval.py leaves in the summary.
use dev_llmops.Prelude.{
  ℕ, suc, ◌+◌, ◌≤◌, String, ◌≡◌, refl, Bool, true, false, Option, none, some, List, [], ◌∷◌, ◌++◌,
  map, concat_map, if◌then◌else◌, inl, inr, Bool-cases,
}
use dev_llmops.PerfEval.Search.{Entry, Search, outcome, search_max_concurrency}
use dev_llmops.PerfEval.Search.Keeps.{After, search_keeps}
use dev_llmops.PerfEval.Search.Finite.{Reports, loop-Reports}
use dev_llmops.PerfEval.Events.{
  start, health, warmup, Context, Item, BestMap, summary, found, flush, History, Service, Settings,
  Run, Outcome, returned, ended,
}
use dev_llmops.PerfEval.Mode2.{
  or_default, or_maybe, run_benchmark, explore, shown_entry, no_pass, put_best, restart,
  restart_then, report_failure,
}
use dev_llmops.PerfEval.Mode2.Engines.{EngineCommands}

-- The engine, the index of the command and the context of a row.
abbrev pub Row : Type 0
Row = String × (ℕ × Context)

-- The rows of the summary, the oldest first.
abbrev pub rows : {R : Type 0} → History R → List Row
rows [] = []
rows (summary engine_name n context s cmd ∷ h) = rows h ++ (engine_name, (n, context)) ∷ []
rows (e ∷ h) = rows h

-- A row for each context of each command, in their order.
abbrev pub command_rows : List Item → String → ℕ → List Row
command_rows items name n = map (λ item. (name, (n, item.context))) items

abbrev pub engine_rows : List Item → String → ℕ → List String → List Row
engine_rows items name n [] = []
engine_rows items name n (cmd ∷ cmds) =
    command_rows items name n ++ engine_rows items name (suc n) cmds

abbrev pub all_rows : List Item → List EngineCommands → List Row
all_rows items = concat_map (λ e. engine_rows items e.name 1 e.commands)

-- A run that returns, with these rows.
abbrev pub Returns : {R : Type 0} → List Row → Outcome R → Type 0
Returns rs (ended h) = ⊥
Returns rs (returned run) = rows run.history ≡ rs

-- There is a limit, and fuel for it.
abbrev pub IsBounded : {R : Type 0} → Service R → Settings → Item → Type 0
IsBounded service settings item =
    (m : ℕ) × (or_maybe item.max_concurrent settings.default_max ≡ some m) × (m + 2 ≤ service.fuel)

module _ {R : Type 0} where
  pub and_then :
      (rs : List Row) (f : Run R → Outcome R) (qs : List Row)
      → ((run : Run R) → rows run.history ≡ rs → Returns qs (f run))
      → (o : Outcome R) → Returns rs o
      → Returns qs (elim o [ ended g ↦ ended g | returned run ↦ f run ])
  and_then rs f qs k (ended g) q = q
  and_then rs f qs k (returned run) q = k run q

-- A benchmark adds no row, and with a limit the search ends.
module _ {R : Type 0} (service : Service R) (settings : Settings) where
  abbrev pub row : Item → Row
  row item = (settings.engine_name, (settings.param_index, item.context))

  abbrev search :
      Item
      → Option String
      → Option ℕ
      → History R
      → Option ((Option (Entry R) × Option (Entry R)) × History R)
  search item cmd limit h =
      search_max_concurrency (run_benchmark service settings item.context cmd) service.passes
        service.request_count settings.search_method settings.stop_n limit service.fuel
        (or_default item.init_concurrent settings.default_init) h

  search-ends :
      (item : Item) (cmd : Option String) (m : ℕ) (h : History R)
      → m + 2 ≤ service.fuel
      → (found : (Option (Entry R) × Option (Entry R)) × History R) × (search item cmd (some m) h
          ≡ some found)
  unfolding search_max_concurrency
  search-ends item cmd m h enough = go _ (
      loop-Reports (run_benchmark service settings item.context cmd) service.passes
        service.request_count settings.search_method settings.stop_n m service.fuel
        (or_default item.init_concurrent settings.default_init) h enough)
    where
      go :
          (o : Option (Search R × History R))
          → Reports
              (run_benchmark service settings item.context cmd)
              service.passes
              service.request_count
              settings.search_method
              settings.stop_n
              m
              o
          → (found : (Option (Entry R) × Option (Entry R)) × History R) × ((elim o [
            | none ↦ none
            | some (s, w') ↦ some (
              outcome
                  (run_benchmark service settings item.context cmd)
                  service.passes
                  service.request_count
                  settings.search_method
                  settings.stop_n
                  (some m)
                  s,
              w',
            )
          ])
              ≡ some found)
      go none q = absurd q
      go (some (s, w)) q = (_, refl)

  search-rows :
      (item : Item) (cmd : Option String) (limit : Option ℕ) (h : History R)
      → After (λ g. rows g ≡ rows h) (search item cmd limit h)
  unfolding run_benchmark
  search-rows item cmd limit h =
      search_keeps (λ g. rows g ≡ rows h) (run_benchmark service settings item.context cmd)
        service.passes service.request_count settings.search_method settings.stop_n limit
        (λ req g q. q) service.fuel (or_default item.init_concurrent settings.default_init) h refl

  pub explore-Returns :
      (item : Item) (cmd running : Option String) (best_map : BestMap R) (h : History R)
      → IsBounded service settings item
      → Returns (rows h ++ row item ∷ []) (explore service settings item cmd running best_map h)
  unfolding explore
  explore-Returns item cmd running best_map h (m, limit, enough) =
      recorded _ (rw limit (search-ends item cmd m h enough))
        (search-rows item cmd (or_maybe item.max_concurrent settings.default_max) h)
    where
      recorded :
          (o : Option ((Option (Entry R) × Option (Entry R)) × History R))
          → ((found : (Option (Entry R) × Option (Entry R)) × History R) × (o ≡ some found))
          → After (λ g. rows g ≡ rows h) o
          → Returns (rows h ++ row item ∷ []) (elim o [
            | none ↦ ended h
            | some ((best, min_tested), g) ↦ returned (record {
              running = running;
              best_map = put_best item.context (best, min_tested) best_map;
              history =
                  summary settings.engine_name settings.param_index item.context
                    (found (shown_entry best min_tested) (no_pass best min_tested))
                    cmd
                  ∷ flush
                  ∷ g;
            })
          ])
      recorded none (f, e) a = absurd (cc)
      recorded (some ((best, min_tested), g)) e a = rw a refl

  pub restart_then-Returns :
      (item : Item) (cmd : String) (best_map : BestMap R) (h : History R)
      → IsBounded service settings item
      → Returns (rows h ++ row item ∷ []) (restart_then service settings item cmd best_map h)
  unfolding restart_then restart report_failure
  restart_then-Returns item cmd best_map h bounded = elim (Bool-cases (service.starts h cmd)) [
    | inr down ↦ rw down refl
    | inl up ↦ elim (Bool-cases (service.is_healthy (start cmd true ∷ h))) [
      | inr ill ↦ rw (up, ill) refl
      | inl well ↦ rw (up, well) (warmed settings.warmup_enabled)
    ]
  ]
    where
      warmed :
          (enabled : Bool)
          → Returns (rows h ++ row item ∷ []) (
              explore service settings item (some cmd) (some cmd) best_map (
                if enabled
                then warmup ∷ health true ∷ start cmd true ∷ h
                else health true ∷ start cmd true ∷ h))
      warmed true =
          explore-Returns item (some cmd) (some cmd) best_map
            (warmup ∷ health true ∷ start cmd true ∷ h) bounded
      warmed false =
          explore-Returns item (some cmd) (some cmd) best_map (health true ∷ start cmd true ∷ h)
            bounded
