-- ===== src/Prelude/Chunks.antt =====
-- A list cut into slices of a fixed length, as the programs cut alerts, nodes and audio.
use mathlib.Core.List.{flatten}
use Prim.Native.Nat.{ℕ, zero, suc, ◌+◌, ◌-◌, ◌/◌, ◌≤◌, ◌<◌}
use mathlib.Core.Path.{◌≡◌, refl, sym}
use mathlib.Core.List.{List, [], ◌∷◌}
use mathlib.Core.Logic.{inl, inr}
use native.Mathlib.Nat.{div-eq_of_lt, add-div_right}
use native.Mathlib.Omega.{arith}
use dev_llmops.Prelude.Tests.{le-cases}
use dev_llmops.Prelude.Lists.{length, length-take, length-drop, take, drop, take-append-drop, All}

-- [xs[i:i + m] for i in range(0, len(xs), m)], on a fuel of `len(xs)`, for a positive `m`
unfoldable pub chunks : {A : Type 0} → ℕ → ℕ → List A → List (List A)
chunks zero m xs = []
chunks (suc fuel) m [] = []
chunks (suc fuel) m (x ∷ xs) = take m (x ∷ xs) ∷ chunks fuel m (drop m (x ∷ xs))

-- A chunk has between 1 and `m` elements.
abbrev pub Fits : {A : Type 0} → ℕ → List A → Type 0
Fits m xs = (0 < length xs) × (length xs ≤ m)

pub flatten-chunks :
    {A : Type 0} (fuel m : ℕ) (xs : List A)
    → 0 < m
    → length xs ≤ fuel
    → flatten (chunks fuel m xs) ≡ xs
unfolding chunks flatten
flatten-chunks zero m [] pos h = refl
flatten-chunks zero m (x ∷ xs) pos h = absurd (omega arith)
flatten-chunks (suc fuel) m [] pos h = refl
flatten-chunks (suc fuel) m (x ∷ xs) pos h =
    rw (flatten-chunks fuel m (drop m (x ∷ xs)) pos (omega (arith, length-drop m (x ∷ xs))))
      (take-append-drop m (x ∷ xs))

pub All-chunks : {A : Type 0} (fuel m : ℕ) (xs : List A) → 0 < m → All (Fits m) (chunks fuel m xs)
unfolding chunks
All-chunks zero m xs pos = tt
All-chunks (suc fuel) m [] pos = tt
All-chunks (suc fuel) m (x ∷ xs) pos = (
  (omega (arith, length-take m (x ∷ xs)), omega (arith, length-take m (x ∷ xs))),
  All-chunks fuel m (drop m (x ∷ xs)) pos,
)

-- The number of chunks: the length divided by `m`, rounded up.
pub length-chunks :
    {A : Type 0} (fuel m : ℕ) (xs : List A)
    → 0 < m
    → length xs ≤ fuel
    → length (chunks fuel m xs) ≡ (length xs + m - 1) / m
unfolding chunks
length-chunks zero m [] pos h = sym (div-eq_of_lt (omega arith))
length-chunks zero m (x ∷ xs) pos h = absurd (omega arith)
length-chunks (suc fuel) m [] pos h = sym (div-eq_of_lt (omega arith))
length-chunks (suc fuel) m (x ∷ xs) pos h =
    let shorter = length-drop m (x ∷ xs) in
    let rest = length-chunks fuel m (drop m (x ∷ xs)) pos (omega (arith, shorter)) in
    let whole : (length xs + m) / m ≡ length xs / m + 1 = add-div_right (length xs) pos in
    let same : suc (length xs) + m - 1 ≡ length xs + m = omega arith in
    elim (le-cases (suc (length xs)) m) [
      | inl last ↦
          let none_left : (length (drop m (x ∷ xs)) + m - 1) / m ≡ 0 =
            div-eq_of_lt (omega (arith, shorter)) in
          let small : length xs / m ≡ 0 = div-eq_of_lt (omega arith) in
          rw same (omega (arith, rest, whole, none_left, small))
      | inr more ↦
          let left : length (drop m (x ∷ xs)) + m - 1 ≡ length xs = omega (arith, shorter) in
          rw same (omega (arith, rw left at rest, whole))
    ]
