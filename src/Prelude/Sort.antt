-- ===== src/Prelude/Sort.antt =====
-- Python's `sorted` by a test of order, and how often a test holds on a list.
use Prim.Native.Nat.{ℕ, zero, suc, ◌<◌}
use mathlib.Core.Path.{◌≡◌, refl}
use mathlib.Core.Bool.{Bool, true, false}
use mathlib.Core.Option.{some}
use mathlib.Core.List.{List, [], ◌∷◌, map}
use mathlib.Core.Logic.{inl, inr}
use native.Mathlib.Omega.{arith}
use dev_llmops.Prelude.Tests.{Bool-cases, if◌then◌else◌}
use dev_llmops.Prelude.Lists.{length, get_elem?, All, All-imp}

-- What `sorted` needs of an order: of two elements one at most is less, and `not less` is transitive.
pub record IsOrder {A : Type 0} (less : A → A → Bool) : Type 0 where
  pub asym : (x y : A) → less x y ≡ true → less y x ≡ false
  pub trans : (x y z : A) → less y x ≡ false → less z y ≡ false → less z x ≡ false

-- The number of elements on which a test holds.
abbrev pub count_if {ℓ} : {A : Type ℓ} → (A → Bool) → List A → ℕ
count_if test [] = 0
count_if test (x ∷ xs) = if test x then suc (count_if test xs) else count_if test xs

module _ {A : Type 0} (less : A → A → Bool) where
  unfoldable pub insert : A → List A → List A
  insert x [] = x ∷ []
  insert x (y ∷ ys) = let rest = insert x ys in if less y x then y ∷ rest else x ∷ y ∷ ys

  -- Equal elements keep their order.
  unfoldable pub sorted : List A → List A
  unfolding insert
  sorted [] = []
  sorted (x ∷ xs) = insert x (sorted xs)

  -- No element is less than one before it.
  abbrev pub IsSorted : List A → Type 0
  IsSorted [] = Unit
  IsSorted (x ∷ xs) = All (λ y. less y x ≡ false) xs × IsSorted xs

  count_if-insert :
      (test : A → Bool) (x : A) (xs : List A) → count_if test (insert x xs) ≡ count_if test (x ∷ xs)
  unfolding insert
  count_if-insert test x [] = refl
  count_if-insert test x (y ∷ ys) = ground (arith, count_if-insert test x ys)

  -- Sorting keeps the elements, each as often as it is there.
  pub count_if-sorted :
      (test : A → Bool) (xs : List A) → count_if test (sorted xs) ≡ count_if test xs
  unfolding sorted
  count_if-sorted test [] = refl
  count_if-sorted test (x ∷ xs) =
      ground (arith, count_if-insert test x (sorted xs), count_if-sorted test xs)

  length-insert : (x : A) (xs : List A) → length (insert x xs) ≡ suc (length xs)
  unfolding insert
  length-insert x [] = refl
  length-insert x (y ∷ ys) = ground (arith, length-insert x ys)

  pub length-sorted : (xs : List A) → length (sorted xs) ≡ length xs
  unfolding sorted
  length-sorted [] = refl
  length-sorted (x ∷ xs) = omega (arith, length-insert x (sorted xs), length-sorted xs)

  All-insert : (P : A → Type 0) (x : A) (xs : List A) → P x → All P xs → All P (insert x xs)
  unfolding insert
  All-insert P x [] h hs = (h, tt)
  All-insert P x (y ∷ ys) h (g, gs) = elim (Bool-cases (less y x)) [
    | inl later ↦ rw later (g, All-insert P x ys h gs)
    | inr here ↦ rw here (h, (g, gs))
  ]

  pub All-sorted : (P : A → Type 0) (xs : List A) → All P xs → All P (sorted xs)
  unfolding sorted
  All-sorted P [] h = tt
  All-sorted P (x ∷ xs) (h, hs) = All-insert P x (sorted xs) h (All-sorted P xs hs)

  module _ (order : IsOrder less) where
    open order use {asym, trans}

    insert-IsSorted : (x : A) (xs : List A) → IsSorted xs → IsSorted (insert x xs)
    unfolding insert
    insert-IsSorted x [] h = (tt, tt)
    insert-IsSorted x (y ∷ ys) (all, rest) = elim (Bool-cases (less y x)) [
      | inl later ↦ rw later (All-insert _ x ys (asym y x later) all, insert-IsSorted x ys rest)
      | inr here ↦ rw here ((here, All-imp _ _ ys (λ z h. trans x y z here h) all), (all, rest))
    ]

    pub sorted-IsSorted : (xs : List A) → IsSorted (sorted xs)
    unfolding sorted
    sorted-IsSorted [] = tt
    sorted-IsSorted (x ∷ xs) = insert-IsSorted x (sorted xs) (sorted-IsSorted xs)

  All-get_elem? :
      (P : A → Type 0) (xs : List A) (i : ℕ) (a : A) → All P xs → get_elem? xs i ≡ some a → P a
  All-get_elem? P [] i a h e = ground arith
  All-get_elem? P (x ∷ xs) zero a (h, hs) e = ground arith
  All-get_elem? P (x ∷ xs) (suc i) a (h, hs) e = All-get_elem? P xs i a hs e

  -- Of two places, the later one does not hold less.
  pub IsSorted-get_elem? :
      (xs : List A) (i j : ℕ) (a b : A)
      → IsSorted xs
      → i < j
      → get_elem? xs i ≡ some a
      → get_elem? xs j ≡ some b
      → less b a ≡ false
  IsSorted-get_elem? [] i j a b s h e f = ground arith
  IsSorted-get_elem? (x ∷ xs) i zero a b s h e f = absurd (omega arith)
  IsSorted-get_elem? (x ∷ xs) zero (suc j) a b (all, s) h e f =
      let later = All-get_elem? (λ y. less y x ≡ false) xs j b all f in ground arith
  IsSorted-get_elem? (x ∷ xs) (suc i) (suc j) a b (all, s) h e f =
      IsSorted-get_elem? xs i j a b s (omega arith) e f

pub get_elem?-some :
    {A : Type 0} (xs : List A) (i : ℕ) → i < length xs → (a : A) × (get_elem? xs i ≡ some a)
get_elem?-some [] i h = absurd (omega arith)
get_elem?-some (x ∷ xs) zero h = (x, refl)
get_elem?-some (x ∷ xs) (suc i) h = get_elem?-some xs i (omega arith)

pub count_if-map :
    {A B : Type 0} (test : B → Bool) (f : A → B) (xs : List A)
    → count_if test (map f xs) ≡ count_if (λ x. test (f x)) xs
count_if-map test f [] = refl
count_if-map test f (x ∷ xs) = ground (arith, count_if-map test f xs)

All-map :
    {A B : Type 0} (f : A → B) (P : B → Type 0) (xs : List A)
    → All (λ x. P (f x)) xs
    → All P (map f xs)
All-map f P [] h = tt
All-map f P (x ∷ xs) (h, hs) = (h, All-map f P xs hs)

-- What is sorted stays so under a function that keeps the order.
pub IsSorted-map :
    {A B : Type 0} (f : A → B) (less : B → B → Bool) (xs : List A)
    → IsSorted (λ x y. less (f x) (f y)) xs
    → IsSorted less (map f xs)
IsSorted-map f less [] h = tt
IsSorted-map f less (x ∷ xs) (all, rest) =
    (All-map f (λ y. less y (f x) ≡ false) xs all, IsSorted-map f less xs rest)
