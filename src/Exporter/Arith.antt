-- ===== src/Exporter/Arith.antt =====
-- Floating-point numbers and random draws, as fake-node-exporter.py uses them.
use dev_llmops.Prelude.{ℕ, Bool, if◌then◌else◌}

-- `lit n d` is the literal `n` with its last `d` digits after the point; `trunc` is `int`.
pub record Floats (F : Type 0) : Type 0 where
  pub add : F → F → F
  pub sub : F → F → F
  pub mul : F → F → F
  pub div : F → F → F
  pub neg : F → F
  pub abs : F → F
  pub sin : F → F
  pub trunc : F → F
  pub pi : F
  pub lt : F → F → Bool
  pub le : F → F → Bool
  pub lit : ℕ → ℕ → F

-- `random.uniform(a, b)`, `random.gauss(mu, sigma)`, `random.random()`, `random.randint(a, b)` and
-- `time.time()`, on the state `S` of the generator and the clock.
pub record Draws (F S : Type 0) : Type 0 where
  pub uniform : F → F → S → F × S
  pub gauss : F → F → S → F × S
  pub random : S → F × S
  pub randint : F → F → S → F × S
  pub time : S → F × S

module _ {F : Type 0} (fl : Floats F) where
  open fl use {lt, lit}

  -- min(a, b) and max(a, b) return the first where neither is less.
  unfoldable pub min_of : F → F → F
  min_of a b = if lt b a then b else a

  unfoldable pub max_of : F → F → F
  max_of a b = if lt a b then b else a
