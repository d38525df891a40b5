-- ===== src/Exporter/Node/Samples.antt =====
-- The metrics of fake-node-exporter.py, group by group, as the Prometheus client sees them.
use dev_llmops.Prelude.{
  ℕ, ◌≡◌, refl, Bool, true, false, String, List, [], ◌∷◌, if◌then◌else◌, All, arith, ◌*◌,
}
use dev_llmops.Prelude.Dict.{Dict}
use dev_llmops.Exporter.Arith.{Floats, Draws}
use dev_llmops.Exporter.Declared.{
  Metric, Kind, counter, gauge, declared, Change, set, inc, Sample, labels_match,
  node_cpu_core_throttles, node_network_receive_errs, node_network_transmit_errs,
}
use dev_llmops.Exporter.State.{NodeState, Mode, sets, incs, eth0, static_samples}
use dev_llmops.Exporter.Node.{
  cpu_samples, memory_metrics, disk_metrics, network_metrics, throttle_metrics, error_metrics,
  load_metrics, system_metrics, process_metrics, time_metrics,
}

-- What the floats keep of signs, as IEEE 754 has it; a number that is no number is not below 0.
pub record Laws {F : Type 0} (fl : Floats F) : Type 0 where
  pub lit_nonneg : (n d : ℕ) → fl.lt (fl.lit n d) (fl.lit 0 0) ≡ false
  pub pos_nonneg : (d : ℕ) (x : F) → fl.lt (fl.lit 0 d) x ≡ true → fl.lt x (fl.lit 0 0) ≡ false
  pub add_nonneg :
      (x y : F)
      → fl.lt x (fl.lit 0 0) ≡ false
      → fl.lt y (fl.lit 0 0) ≡ false
      → fl.lt (fl.add x y) (fl.lit 0 0) ≡ false
  pub mul_nonneg :
      (x y : F)
      → fl.lt x (fl.lit 0 0) ≡ false
      → fl.lt y (fl.lit 0 0) ≡ false
      → fl.lt (fl.mul x y) (fl.lit 0 0) ≡ false
  pub div_nonneg :
      (x y : F)
      → fl.lt x (fl.lit 0 0) ≡ false
      → fl.lt y (fl.lit 0 0) ≡ false
      → fl.lt (fl.div x y) (fl.lit 0 0) ≡ false

module _ {F : Type 0} (fl : Floats F) where
  abbrev pub NonNeg : F → Type 0
  NonNeg x = fl.lt x (fl.lit 0 0) ≡ false

  -- A gauge takes any value; a counter only an increment, and not below 0.
  abbrev pub Takes : Kind → Change F → Type 0
  Takes gauge c = Unit
  Takes counter (set v) = ⊥
  Takes counter (inc v) = NonNeg v

  -- The labels are those declared, and the metric takes the change.
  pub record IsAccepted (s : Sample F) : Type 0 where
    pub labels : labels_match ("nodename" ∷ (declared s.metric).labels) s.labels ≡ true
    pub change : Takes (declared s.metric).kind s.change

module _ {F : Type 0} (fl : Floats F) where
  Takes-set : (k : Kind) (v : F) → k ≡ gauge → Takes fl k (set v)
  Takes-set gauge v e = tt
  Takes-set counter v e = ground arith

  Takes-inc : (k : Kind) (v : F) → NonNeg fl v → Takes fl k (inc v)
  Takes-inc gauge v h = tt
  Takes-inc counter v h = h

  set_ok :
      (name : String) (m : Metric) (more : Dict String) (v : F)
      → (declared m).kind ≡ gauge
      → labels_match ("nodename" ∷ (declared m).labels) (("nodename", name) ∷ more) ≡ true
      → IsAccepted fl (sets name m more v)
  unfolding sets
  set_ok name m more v k l = record { labels = l; change = Takes-set (declared m).kind v k }

  inc_ok :
      (name : String) (m : Metric) (more : Dict String) (v : F)
      → labels_match ("nodename" ∷ (declared m).labels) (("nodename", name) ∷ more) ≡ true
      → NonNeg fl v
      → IsAccepted fl (incs name m more v)
  unfolding incs
  inc_ok name m more v l h = record { labels = l; change = Takes-inc (declared m).kind v h }

module _ {F S : Type 0} (fl : Floats F) (draws : Draws F S) (laws : Laws fl) where
  open fl use {add, sub, mul, div, lt, lit}
  open laws use {lit_nonneg, pos_nonneg, add_nonneg, mul_nonneg, div_nonneg}

  abbrev pub Ok : List (Sample F) → Type 0
  Ok = All (IsAccepted fl)

  when : (b : Bool) (xs : List (Sample F)) → Ok xs → Ok (if b then xs else [])
  when true xs h = h
  when false xs h = tt

  pub static-Ok : (n : NodeState F) → Ok (static_samples fl draws n)
  unfolding static_samples declared labels_match
  static-Ok n = (
    set_ok fl _ _ _ _ refl refl,
    (
      set_ok fl _ _ _ _ refl refl,
      (
        set_ok fl _ _ _ _ refl refl,
        (
          set_ok fl _ _ _ _ refl refl,
          (set_ok fl _ _ _ _ refl refl, (set_ok fl _ _ _ _ refl refl, tt)),
        ),
      ),
    ),
  )

  pub cpu_samples-Ok :
      (name cpu : String) (user system idle iowait steal : F)
      → NonNeg fl user
      → NonNeg fl system
      → NonNeg fl idle
      → NonNeg fl iowait
      → NonNeg fl steal
      → Ok (cpu_samples fl draws name cpu user system idle iowait steal)
  unfolding cpu_samples declared labels_match
  cpu_samples-Ok name cpu user system idle iowait steal a b c d e = (
    inc_ok fl _ _ _ _ refl a,
    (
      inc_ok fl _ _ _ _ refl b,
      (inc_ok fl _ _ _ _ refl c, (inc_ok fl _ _ _ _ refl d, (inc_ok fl _ _ _ _ refl e, tt))),
    ),
  )

  pub memory-Ok : (n : NodeState F) (mem_pct : F) → Ok (memory_metrics fl draws n mem_pct)
  unfolding memory_metrics declared labels_match
  memory-Ok n mem_pct = (
    set_ok fl _ _ _ _ refl refl,
    (
      set_ok fl _ _ _ _ refl refl,
      (
        set_ok fl _ _ _ _ refl refl,
        (
          set_ok fl _ _ _ _ refl refl,
          (
            set_ok fl _ _ _ _ refl refl,
            (set_ok fl _ _ _ _ refl refl, (set_ok fl _ _ _ _ refl refl, tt)),
          ),
        ),
      ),
    ),
  )

  -- 1 plus a multiple
  one_plus : (x : F) → NonNeg fl x → NonNeg fl (add (lit 1 0) x)
  one_plus x h = add_nonneg _ _ (lit_nonneg 1 0) h

  pub disk-Ok :
      (mode : Mode F) (n : NodeState F) (dt io_factor : F)
      → NonNeg fl dt
      → NonNeg fl io_factor
      → Ok (disk_metrics fl draws mode n dt io_factor)
  unfolding disk_metrics declared labels_match
  disk-Ok mode n dt io_factor h g =
      let rate =
        mul_nonneg _ _ (lit_nonneg (100 * 1024) 0)
          (one_plus _ (mul_nonneg _ _ g (lit_nonneg 10 0))) in
      let bytes = mul_nonneg _ _ rate h in
      let ops = mul_nonneg _ _ (div_nonneg _ _ rate (lit_nonneg 40960 1)) h in
      (
        inc_ok fl _ _ _ _ refl bytes,
        (
          inc_ok fl _ _ _ _ refl (mul_nonneg _ _ bytes (lit_nonneg 7 1)),
          (
            set_ok fl _ _ _ _ refl refl,
            (
              inc_ok fl _ _ _ _ refl ops,
              (
                inc_ok fl _ _ _ _ refl (mul_nonneg _ _ ops (lit_nonneg 7 1)),
                (
                  inc_ok fl _ _ _ _ refl (mul_nonneg _ _ ops (lit_nonneg 3 4)),
                  (
                    set_ok fl _ _ _ _ refl refl,
                    (set_ok fl _ _ _ _ refl refl, (set_ok fl _ _ _ _ refl refl, tt)),
                  ),
                ),
              ),
            ),
          ),
        ),
      )

  pub network-Ok :
      (n : NodeState F) (dt net_factor : F)
      → NonNeg fl dt
      → NonNeg fl net_factor
      → Ok (network_metrics fl draws n dt net_factor)
  unfolding network_metrics declared labels_match
  network-Ok n dt net_factor h g =
      let rate =
        mul_nonneg _ _ (lit_nonneg (500 * 1024) 0)
          (one_plus _ (mul_nonneg _ _ g (lit_nonneg 5 0))) in
      let rx = mul_nonneg _ _ rate h in
      let tx = mul_nonneg _ _ (mul_nonneg _ _ rate (lit_nonneg 6 1)) h in
      (
        inc_ok fl _ _ _ _ refl rx,
        (
          inc_ok fl _ _ _ _ refl tx,
          (
            inc_ok fl _ _ _ _ refl (div_nonneg _ _ rx (lit_nonneg 1500 0)),
            (inc_ok fl _ _ _ _ refl (div_nonneg _ _ tx (lit_nonneg 1500 0)), tt),
          ),
        ),
      )

  pub system-Ok :
      (n : NodeState F) (dt cpu_pct : F)
      → NonNeg fl dt
      → NonNeg fl cpu_pct
      → Ok (system_metrics fl draws n dt cpu_pct)
  unfolding system_metrics declared labels_match
  system-Ok n dt cpu_pct h g = (
    inc_ok fl _ _ _ _ refl (mul_nonneg _ _ (mul_nonneg _ _ (lit_nonneg 500 0) h) (one_plus _ g)),
    (
      inc_ok fl _ _ _ _ refl (
          mul_nonneg _ _ (mul_nonneg _ _ (lit_nonneg 300 0) h)
            (one_plus _ (mul_nonneg _ _ g (lit_nonneg 5 1)))),
      tt,
    ),
  )

  pub throttle-Ok : (n : NodeState F) (dt : F) (w : S) → Ok (throttle_metrics fl draws n dt w).0
  unfolding throttle_metrics declared labels_match
  throttle-Ok n dt w =
      when (lt (draws.random w).0 (mul (lit 1 4) dt))
        (incs n.name node_cpu_core_throttles [] (lit 1 0) ∷ [])
        (inc_ok fl n.name node_cpu_core_throttles [] _ refl (lit_nonneg 1 0), tt)

  pub error-Ok : (n : NodeState F) (dt : F) (w : S) → Ok (error_metrics fl draws n dt w).0
  unfolding error_metrics declared labels_match
  error-Ok n dt w =
      when (lt (draws.random w).0 (mul (lit 5 5) dt))
        (incs n.name node_network_receive_errs eth0 (lit 1 0)
          ∷ incs n.name node_network_transmit_errs eth0 (lit 1 0)
          ∷ [])
        (
          inc_ok fl n.name node_network_receive_errs eth0 _ refl (lit_nonneg 1 0),
          (inc_ok fl n.name node_network_transmit_errs eth0 _ refl (lit_nonneg 1 0), tt),
        )

  pub load-Ok : (n : NodeState F) (load_pct : F) (w : S) → Ok (load_metrics fl draws n load_pct w).0
  unfolding load_metrics declared labels_match
  load-Ok n load_pct w = (
    set_ok fl _ _ _ _ refl refl,
    (set_ok fl _ _ _ _ refl refl, (set_ok fl _ _ _ _ refl refl, tt)),
  )

  pub process-Ok :
      (n : NodeState F) (load_pct io_factor conn_pct : F) (w : S)
      → Ok (process_metrics fl draws n load_pct io_factor conn_pct w).0
  unfolding process_metrics declared labels_match
  process-Ok n load_pct io_factor conn_pct w = (
    set_ok fl _ _ _ _ refl refl,
    (
      set_ok fl _ _ _ _ refl refl,
      (
        set_ok fl _ _ _ _ refl refl,
        (set_ok fl _ _ _ _ refl refl, (set_ok fl _ _ _ _ refl refl, tt)),
      ),
    ),
  )

  pub time-Ok : (n : NodeState F) (now : F) (w : S) → Ok (time_metrics fl draws n now w).0
  unfolding time_metrics declared labels_match
  time-Ok n now w = (
    set_ok fl _ _ _ _ refl refl,
    (set_ok fl _ _ _ _ refl refl, (set_ok fl _ _ _ _ refl refl, (set_ok fl _ _ _ _ refl refl, tt))),
  )
