-- ===== src/Exporter/Update/Rounds.antt =====
-- The rounds of `update_metrics_loop`, whatever the order of the workers' steps.
use dev_llmops.Prelude.{
  ℕ, ◌<◌, ◌≡◌, refl, ◌∙◌, inl, inr, false, String, List, [], ◌∷◌, All, All-append, Bool-cases,
  Option-cases, map, get_elem?, length, arith,
}
use dev_llmops.Prelude.Chunks.{flatten-chunks, Fits, All-chunks}
use dev_llmops.Prelude.Dict.{Dict, keys, get, keys-put}
use dev_llmops.Exporter.Arith.{Floats, Draws}
use dev_llmops.Exporter.Declared.{Sample}
use dev_llmops.Exporter.State.{NodeState, Mode, update_static_metrics}
use dev_llmops.Exporter.Node.Samples.{Laws, IsAccepted}
use dev_llmops.Exporter.Node.Accepted.{update_metrics-IsAccepted}
use dev_llmops.Exporter.Update.{
  Exporter, Worker, waiting, running, update_node, visit, turn, turns, batches, round,
}
use mathlib.Core.List.{flatten}

module _ {F S : Type 0} (fl : Floats F) (draws : Draws F S) (laws : Laws fl)
    (positive : (x : F) → fl.le x (fl.lit 0 0) ≡ false → fl.lt x (fl.lit 0 0) ≡ false) where
  open fl use {sub, le, lt, lit}

  -- The nodes have the given names, and the samples are accepted.
  abbrev Fine : List String → Dict (NodeState F) × (List (Sample F) × S) → Type 0
  Fine names s = (keys s.0 ≡ names) × All (IsAccepted fl) s.1.0

  update_node-IsAccepted :
      (mode : Mode F) (n : NodeState F) (dt : F) (w : S)
      → lt dt (lit 0 0) ≡ false
      → All (IsAccepted fl) (update_node fl draws mode n dt w).1.0
  unfolding update_node
  update_node-IsAccepted mode n dt w h = elim (Bool-cases n.static_set) [
    | inl done ↦ rw done (update_metrics-IsAccepted fl draws laws mode n dt w h).1
    | inr new ↦
        let n1 = (update_static_metrics fl draws n).0 in
        rw new (
          All-append (IsAccepted fl) (update_static_metrics fl draws n).1 _
            (update_metrics-IsAccepted fl draws laws mode n dt w h).0
            (update_metrics-IsAccepted fl draws laws mode n1 dt w h).1)
  ]

  visit-Fine :
      (mode : Mode F) (now : F) (name : String) (names : List String)
      (s : Dict (NodeState F) × (List (Sample F) × S))
      → Fine names s
      → Fine names (visit fl draws mode now name s)
  unfolding visit
  visit-Fine mode now name names (nodes, (samples, w)) (same, ok) =
      elim (Option-cases (get name nodes)) [
        | inl absent ↦ rw (absent, visit) (same, ok)
        | inr (n, there) ↦
            let dt = sub now n.last_update in
            let (n', (more, w')) =
              update_node fl draws mode (record n { last_update = now }) dt w in
            rw (there, visit)
              (elim (Bool-cases (le dt (lit 0 0))) [
                | inl early ↦ rw early (same, ok)
                | inr later ↦ rw later (
                  keys-put name n' n nodes there ∙ same,
                  All-append (IsAccepted fl) samples more ok (
                      update_node-IsAccepted mode (record n { last_update = now }) dt w
                        (positive dt later)),
                )
              ])
      ]

  turn-Fine :
      (mode : Mode F) (i : ℕ) (names : List String)
      (s : List (Worker F) × (Dict (NodeState F) × (List (Sample F) × S)))
      → Fine names s.1
      → Fine names (turn fl draws mode i s).1
  unfolding turn
  turn-Fine mode i names (workers, (nodes, (samples, w))) h =
      elim (Option-cases (get_elem? workers i)) [
        | inl absent ↦ rw (absent, turn) h
        | inr (waiting batch, there) ↦ rw (there, turn) h
        | inr (running now [], there) ↦ rw (there, turn) h
        | inr (running now (name ∷ rest), there) ↦
            rw (there, turn) (visit-Fine mode now name names (nodes, (samples, w)) h)
      ]

  turns-Fine :
      (mode : Mode F) (schedule : List ℕ) (names : List String)
      (s : List (Worker F) × (Dict (NodeState F) × (List (Sample F) × S)))
      → Fine names s.1
      → Fine names (turns fl draws mode schedule s).1
  unfolding turns
  turns-Fine mode [] names s h = h
  turns-Fine mode (i ∷ schedule) names s h =
      turns-Fine mode schedule names (turn fl draws mode i s) (turn-Fine mode i names s h)

  -- Where the floats keep signs, every metric of a round is taken by the Prometheus client, in
  -- whatever order the workers take their steps, and the nodes stay the same. The batches of the round
  -- are the nodes' names in order, each in one batch, and no batch is empty or larger than a positive
  -- `batch_size`.
  pub round-IsAccepted :
      (e : Exporter F) (schedule : List ℕ) (w : S)
      → 0 < e.batch_size
      → All (IsAccepted fl) (round fl draws e schedule w).1.1.0
        × (keys (round fl draws e schedule w).1.0 ≡ keys e.nodes)
        × (flatten (batches fl draws e) ≡ keys e.nodes)
        × All (Fits e.batch_size) (batches fl draws e)
  unfolding round batches
  round-IsAccepted e schedule w pos =
      let names = keys e.nodes in
      let (same, ok) =
        turns-Fine e.mode schedule names (map waiting (batches fl draws e), (e.nodes, ([], w)))
          (refl, tt) in
      (
        ok,
        same,
        flatten-chunks (length names) e.batch_size names pos (omega arith),
        All-chunks (length names) e.batch_size names pos,
      )
