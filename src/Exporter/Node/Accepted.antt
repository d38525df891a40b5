-- ===== src/Exporter/Node/Accepted.antt =====
-- The updates of a node in fake-node-exporter.py, as the Prometheus client sees them.
use dev_llmops.Prelude.{◌≡◌, inl, inr, false, List, All, All-append, All-concat_map, Bool-cases}
use dev_llmops.Prelude.Text.{show}
use dev_llmops.Exporter.Nodes.{range}
use dev_llmops.Exporter.Arith.{Floats, Draws, max_of}
use dev_llmops.Exporter.Smooth.{SmoothValue, next, next-bounds}
use dev_llmops.Exporter.Declared.{Sample}
use dev_llmops.Exporter.State.{NodeState, Mode, update_static_metrics}
use dev_llmops.Exporter.Node.{
  cpu_samples, cpu_report, cpu_metrics, together, throttle_metrics, error_metrics, load_metrics,
  process_metrics, update_dynamic_metrics,
}
use dev_llmops.Exporter.Node.Samples.{
  Laws, NonNeg, IsAccepted, Ok, static-Ok, cpu_samples-Ok, memory-Ok, disk-Ok, network-Ok,
  system-Ok, throttle-Ok, error-Ok, load-Ok, process-Ok, time-Ok,
}

module _ {F S : Type 0} (fl : Floats F) (draws : Draws F S) (laws : Laws fl) where
  open fl use {add, sub, mul, div, lt, lit}
  open laws use {lit_nonneg, pos_nonneg, add_nonneg, mul_nonneg, div_nonneg}

  max_NonNeg : (x : F) → NonNeg fl (max_of fl (lit 0 0) x)
  unfolding max_of
  max_NonNeg x = elim (Bool-cases (lt (lit 0 0) x)) [
    | inl pos ↦ rw pos (pos_nonneg 0 x pos)
    | inr low ↦ rw low (lit_nonneg 0 0)
  ]

  cpu_report-Ok :
      (mode : Mode F) (n : NodeState F) (user system idle iowait steal : F)
      → NonNeg fl user
      → NonNeg fl system
      → NonNeg fl idle
      → NonNeg fl iowait
      → NonNeg fl steal
      → Ok fl draws laws (cpu_report fl draws mode n user system idle iowait steal)
  unfolding cpu_report
  cpu_report-Ok mode n user system idle iowait steal a b c d e =
      let cores = lit_nonneg n.cpu_cores 0 in
      elim (Bool-cases mode.aggregate) [
        | inl whole ↦ rw whole (
            cpu_samples-Ok fl draws laws n.name "total" _ _ _ _ _ (mul_nonneg _ _ a cores)
              (mul_nonneg _ _ b cores) (mul_nonneg _ _ c cores) (mul_nonneg _ _ d cores)
              (mul_nonneg _ _ e cores))
        | inr sampled ↦ rw sampled (
            All-concat_map (IsAccepted fl)
              (λ i. cpu_samples fl draws n.name (show i) user system idle iowait steal)
              (range 0 mode.cpu_sample_count)
              (λ i.
                cpu_samples-Ok fl draws laws n.name (show i) user system idle iowait steal a b c d
                  e))
      ]

  cpu-Ok :
      (mode : Mode F) (n : NodeState F) (dt cpu_pct : F)
      → NonNeg fl dt
      → NonNeg fl cpu_pct
      → Ok fl draws laws (cpu_metrics fl draws mode n dt cpu_pct)
  unfolding cpu_metrics
  cpu-Ok mode n dt cpu_pct h g =
      let used = mul_nonneg _ _ h g in
      cpu_report-Ok mode n _ _ _ _ _ (mul_nonneg _ _ used (lit_nonneg 6 1))
        (mul_nonneg _ _ used (lit_nonneg 3 1)) (max_NonNeg _) (mul_nonneg _ _ used (lit_nonneg 8 2))
        (mul_nonneg _ _ h (lit_nonneg 2 3))

  together-Ok :
      (a b c d e f g h i j : List (Sample F))
      → Ok fl draws laws a
      → Ok fl draws laws b
      → Ok fl draws laws c
      → Ok fl draws laws d
      → Ok fl draws laws e
      → Ok fl draws laws f
      → Ok fl draws laws g
      → Ok fl draws laws h
      → Ok fl draws laws i
      → Ok fl draws laws j
      → Ok fl draws laws (together fl draws a b c d e f g h i j)
  unfolding together
  together-Ok a b c d e f g h i j pa pb pc pd pe pf pg ph pi pj =
      let P : Sample F → Type 0 = IsAccepted fl in
      All-append P _ j
        (All-append P _ i
          (All-append P _ h
            (All-append P _ g
              (All-append P _ f
                (All-append P _ e
                  (All-append P _ d (All-append P _ c (All-append P a b pa pb) pc) pd) pe)
                pf)
              pg)
            ph)
          pi)
        pj

  next-NonNeg : (v : SmoothValue F) (dt : F) (w : S) → NonNeg fl (next fl draws v dt w).0
  next-NonNeg v dt w = elim ((next-bounds fl draws v dt w).0) [
    | inl low ↦ rw low (lit_nonneg 0 1)
    | inr pos ↦ pos_nonneg 1 _ pos
  ]

  -- Where the floats keep signs and the time passed is not negative, the Prometheus client takes every
  -- metric of an update, whatever the draws: each sets a gauge or adds to a counter no less than 0, and
  -- has exactly the labels that the metric is declared with. The same holds of the static metrics.
  pub update_metrics-IsAccepted :
      (mode : Mode F) (n : NodeState F) (dt : F) (w : S)
      → lt dt (lit 0 0) ≡ false
      → All (IsAccepted fl) (update_static_metrics fl draws n).1
        × All (IsAccepted fl) (update_dynamic_metrics fl draws mode n dt w).1.0
  unfolding update_static_metrics update_dynamic_metrics
  update_metrics-IsAccepted mode n dt w h = (
    static-Ok fl draws laws n,
    let (now, w0) = draws.time w in
        let (cpu_pct, (cpu, w1)) = next fl draws n.cpu_usage dt w0 in
        let (mem_pct, (mem, w2)) = next fl draws n.mem_usage dt w1 in
        let (io_factor, (io, w3)) = next fl draws n.io_rate dt w2 in
        let (net_factor, (net, w4)) = next fl draws n.net_rate dt w3 in
        let (load_pct, (load, w5)) = next fl draws n.load_factor dt w4 in
        let (conn_pct, (conn, w6)) = next fl draws n.conntrack dt w5 in
        let w7 = (throttle_metrics fl draws n dt w6).1 in
        let w8 = (error_metrics fl draws n dt w7).1 in
        let w9 = (load_metrics fl draws n load_pct w8).1 in
        let w10 = (process_metrics fl draws n load_pct io_factor conn_pct w9).1 in
        let cpu_pos = next-NonNeg n.cpu_usage dt w0 in
        together-Ok _ _ _ _ _ _ _ _ _ _ (cpu-Ok mode n dt cpu_pct h cpu_pos)
          (throttle-Ok fl draws laws n dt w6) (memory-Ok fl draws laws n mem_pct)
          (disk-Ok fl draws laws mode n dt io_factor h (next-NonNeg n.io_rate dt w2))
          (network-Ok fl draws laws n dt net_factor h (next-NonNeg n.net_rate dt w3))
          (error-Ok fl draws laws n dt w7) (load-Ok fl draws laws n load_pct w8)
          (system-Ok fl draws laws n dt cpu_pct h cpu_pos)
          (process-Ok fl draws laws n load_pct io_factor conn_pct w9)
          (time-Ok fl draws laws n now w10),
  )
