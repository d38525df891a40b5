-- ===== src/Exporter/Smooth.antt =====
-- `SmoothValue` of k8s-yaml/fake-node-exporter/fake-node-exporter.py. The field `velocity`, which no
-- method reads, is left out.
use dev_llmops.Prelude.{◌≡◌, refl, true, inl, inr, ◌⊎◌, Bool-cases, if◌then◌else◌}
use dev_llmops.Exporter.Arith.{Floats, Draws, min_of, max_of}

pub record SmoothValue (F : Type 0) : Type 0 where
  pub current : F
  pub target : F
  pub base : F
  pub amplitude : F
  pub phase_offset : F
  pub noise_scale : F
  pub spike_prob : F
  pub spike_magnitude : F

module _ {F S : Type 0} (fl : Floats F) (draws : Draws F S) where
  open fl use {add, sub, mul, div, neg, sin, pi, lt, lit}
  open draws use {uniform, gauss, random, time}

  -- SmoothValue(base, amplitude, noise_scale, spike_prob, spike_magnitude)
  unfoldable pub new_smooth : F → F → F → F → F → S → SmoothValue F × S
  new_smooth base amplitude noise_scale spike_prob spike_magnitude w =
      let (phase_offset, w') = uniform (lit 0 0) (mul (lit 2 0) pi) w in
      (
        record {
          current = base;
          target = base;
          base = base;
          amplitude = amplitude;
          phase_offset = phase_offset;
          noise_scale = noise_scale;
          spike_prob = spike_prob;
          spike_magnitude = spike_magnitude;
        },
        w',
      )

  -- The value towards which the random walk goes.
  unfoldable pub trend : SmoothValue F → F → F
  trend v now =
      let daily_factor =
        sin (add (mul (mul (div now (lit 86400 0)) (lit 2 0)) pi) v.phase_offset) in
      add v.base (mul v.amplitude daily_factor)

  -- The occasional spike on a value.
  unfoldable pub spiked : SmoothValue F → F → F → S → F × S
  spiked v dt current w =
      let (u, w1) = random w in
      let (size, w2) = uniform (lit 5 1) (lit 10 1) w1 in
      let spike = mul size v.spike_magnitude in
      let (side, w3) = random w2 in
      if lt u (mul v.spike_prob dt)
      then (add current (if lt (lit 5 1) side then spike else mul (neg spike) (lit 5 1)), w3)
      else (current, w1)

  -- max(0.0, min(1.0, x))
  unfoldable pub clamped : F → F
  unfolding min_of max_of
  clamped x = max_of fl (lit 0 1) (min_of fl (lit 10 1) x)

  -- `next(dt)`: the value, the new state and what is left of the draws.
  unfoldable pub next : SmoothValue F → F → S → F × (SmoothValue F × S)
  unfolding trend spiked clamped min_of
  next v dt w =
      let (now, w1) = time w in
      let (noise, w2) = gauss (lit 0 0) (mul v.noise_scale dt) w1 in
      let target = add (trend v now) noise in
      let alpha = min_of fl (lit 10 1) (mul (lit 1 1) dt) in
      let smoothed = add (mul v.current (sub (lit 1 0) alpha)) (mul target alpha) in
      let (current, w3) = spiked v dt smoothed w2 in
      (clamped current, (record v { current = current; target = target }, w3))

  -- The clamp's cases.
  clamped-bounds :
      (x : F)
      → ((clamped x ≡ lit 0 1) ⊎ (lt (lit 0 1) (clamped x) ≡ true))
        × ((clamped x ≡ lit 0 1) ⊎ ((clamped x ≡ lit 10 1) ⊎ (lt (clamped x) (lit 10 1) ≡ true)))
  unfolding clamped min_of max_of
  clamped-bounds x = elim (Bool-cases (lt x (lit 10 1))) [
    | inl small ↦ elim (Bool-cases (lt (lit 0 1) x)) [
      | inl pos ↦ rw (small, pos) (inr pos, inr (inr small))
      | inr low ↦ rw (small, low) (inl refl, inl refl)
    ]
    | inr large ↦ elim (Bool-cases (lt (lit 0 1) (lit 10 1))) [
      | inl pos ↦ rw (large, pos) (inr pos, inr (inl refl))
      | inr low ↦ rw (large, low) (inl refl, inl refl)
    ]
  ]

  -- Whatever the arithmetic and the draws give, a smooth value is 0.0 or above 0.0, and is 0.0, 1.0 or
  -- below 1.0.
  pub next-bounds :
      (v : SmoothValue F) (dt : F) (w : S)
      → let r : F = (next v dt w).0 in
        ((r ≡ lit 0 1) ⊎ (lt (lit 0 1) r ≡ true))
        × ((r ≡ lit 0 1) ⊎ ((r ≡ lit 10 1) ⊎ (lt r (lit 10 1) ≡ true)))
  unfolding next
  next-bounds v dt w = clamped-bounds _
