-- ===== src/Exporter/Update/Completes.antt =====
-- The progress of the workers in a round of `update_metrics_loop`, and the visits that they make.
use dev_llmops.Prelude.{
  ℕ, suc, ◌-◌, ◌≡◌, if◌then◌else◌, String, some, List, [], ◌∷◌, ◌++◌, map, get_elem?, length, ◌==◌,
}
use dev_llmops.Prelude.Dict.{Dict}
use dev_llmops.Exporter.Arith.{Floats, Draws}
use dev_llmops.Exporter.Declared.{Sample}
use dev_llmops.Exporter.State.{NodeState, Mode}
use dev_llmops.Exporter.Update.{Exporter, Worker, waiting, running, visit, turn}

-- The steps that a worker has left.
left : {F : Type 0} → Worker F → ℕ
left (waiting names) = suc (length names)
left (running now names) = length names

-- The visits of one worker, out of those of all.
abbrev pub of_worker : {A : Type 0} → ℕ → List (ℕ × A) → List A
of_worker i [] = []
of_worker i ((j, v) ∷ visits) =
    let later = of_worker i visits in if j == i then v ∷ later else later

-- Names visited at one time.
abbrev pub at_time : {F : Type 0} → F → List String → List (F × String)
at_time now names = map (λ name. (now, name)) names

-- A worker makes visits, and what it has left is shorter by them.
abbrev Progress : {F : Type 0} → Worker F → List (F × String) → Worker F → Type 0
Progress (waiting names) own (waiting rest) = (own ≡ []) × (names ≡ rest)
Progress (waiting names) own (running now rest) =
    (taken : List String) × (names ≡ taken ++ rest) × (own ≡ at_time now taken)
Progress (running now names) own (waiting rest) = ⊥
Progress (running now names) own (running later rest) =
    (later ≡ now) × ((taken : List String) × (names ≡ taken ++ rest) × (own ≡ at_time now taken))

module _ {F S : Type 0} (fl : Floats F) (draws : Draws F S) where
  -- The nodes, the metrics and the world come to be `t` from another state by looks at the clock and
  -- by the listed visits, each of them by a worker, at its time and of one node.
  pub data Visits (mode : Mode F) (t : Dict (NodeState F) × (List (Sample F) × S))
      : Dict (NodeState F) × (List (Sample F) × S) → List (ℕ × (F × String)) → Type 0 where
    over : Visits mode t t []
    looked :
        (s : Dict (NodeState F) × (List (Sample F) × S)) {visits : List (ℕ × (F × String))}
        → Visits mode t (s.0, (s.1.0, (draws.time s.1.1).1)) visits
        → Visits mode t s visits
    visited :
        (s : Dict (NodeState F) × (List (Sample F) × S)) {visits : List (ℕ × (F × String))} (i : ℕ)
        (now : F) (name : String)
        → Visits mode t (visit fl draws mode now name s) visits
        → Visits mode t s ((i, (now, name)) ∷ visits)

  -- What a step of the worker `i` makes of the worker `j`, which is `v`, and the visits in the step.
  abbrev Stepped :
      Mode F
      → ℕ
      → ℕ
      → List (Worker F) × (Dict (NodeState F) × (List (Sample F) × S))
      → Worker F
      → Type 0
  Stepped mode i j s v =
      (v' : Worker F) × (visits : List (ℕ × (F × String))) × (get_elem? (turn fl draws mode i s).0 j
        ≡ some v')
      × (left v' ≡ left v - 1)
      × Visits mode (turn fl draws mode i s).1 s.1 visits
      × Progress v (of_worker j visits) v'
