-- ===== src/Prelude/Lists.antt =====
-- Lists measured and searched by native numbers, and predicates on their members.
use Prim.Native.Nat.{ℕ, zero, suc, ◌+◌, ◌-◌, ◌≤◌, ◌<◌, min}
use mathlib.Core.Path.{◌≡◌, refl, ap, subst}
use mathlib.Core.Bool.{Bool, true, false, not, ◌&&◌, ◌||◌}
use mathlib.Core.Option.{Option, none, some}
use mathlib.Core.List.{List, [], ◌∷◌, ◌++◌, map}
use mathlib.Core.Logic.{inl, inr}
use native.Mathlib.Omega.{arith}
use dev_llmops.Prelude.Tests.{◌==◌, ==_iff, Bool-cases, if◌then◌else◌}

module _ {ℓ} {A : Type ℓ} where
  abbrev pub length : List A → ℕ
  length [] = 0
  length (x ∷ xs) = suc (length xs)

  abbrev pub get_elem? : List A → ℕ → Option A
  get_elem? [] i = none
  get_elem? (x ∷ xs) zero = some x
  get_elem? (x ∷ xs) (suc i) = get_elem? xs i

  -- A write out of bounds changes nothing.
  abbrev pub set : List A → ℕ → A → List A
  set [] i v = []
  set (x ∷ xs) zero v = v ∷ xs
  set (x ∷ xs) (suc i) v = x ∷ set xs i v

  abbrev pub take : ℕ → List A → List A
  take zero xs = []
  take (suc n) [] = []
  take (suc n) (x ∷ xs) = x ∷ take n xs

  abbrev pub drop : ℕ → List A → List A
  drop zero xs = xs
  drop (suc n) [] = []
  drop (suc n) (x ∷ xs) = drop n xs

  abbrev pub All {κ} : (A → Type κ) → List A → Type κ
  All P [] = Unit
  All P (x ∷ xs) = P x × All P xs

module _ {ℓ} {A : Type ℓ} where
  pub length-append : (xs ys : List A) → length (xs ++ ys) ≡ length xs + length ys
  length-append [] ys = omega arith
  length-append (x ∷ xs) ys = omega (arith, length-append xs ys)

  pub take-append-drop : (n : ℕ) (xs : List A) → take n xs ++ drop n xs ≡ xs
  take-append-drop zero xs = refl
  take-append-drop (suc n) [] = refl
  take-append-drop (suc n) (x ∷ xs) = rw (take-append-drop n xs)

  pub length-take : (n : ℕ) (xs : List A) → length (take n xs) ≡ min n (length xs)
  length-take zero xs = omega arith
  length-take (suc n) [] = omega arith
  length-take (suc n) (x ∷ xs) = omega (arith, length-take n xs)

  pub length-drop : (n : ℕ) (xs : List A) → length (drop n xs) ≡ length xs - n
  length-drop zero xs = omega arith
  length-drop (suc n) [] = omega arith
  length-drop (suc n) (x ∷ xs) = omega (arith, length-drop n xs)

  pub All-append {κ} : (P : A → Type κ) (xs ys : List A) → All P xs → All P ys → All P (xs ++ ys)
  All-append P [] ys p q = q
  All-append P (x ∷ xs) ys (p, ps) q = (p, All-append P xs ys ps q)

  pub All-imp {κ μ} :
      (P : A → Type κ) (Q : A → Type μ) (xs : List A) → ((a : A) → P a → Q a) → All P xs → All Q xs
  All-imp P Q [] f p = tt
  All-imp P Q (x ∷ xs) f (p, ps) = (f x p, All-imp P Q xs f ps)

pub length-map {ℓ κ} :
    {A : Type ℓ} {B : Type κ} (f : A → B) (xs : List A) → length (map f xs) ≡ length xs
length-map f [] = refl
length-map f (x ∷ xs) = ap suc (length-map f xs)

pub get_elem?-set_there {ℓ} :
    {A : Type ℓ} (xs : List A) (i : ℕ) (a b : A)
    → get_elem? xs i ≡ some a
    → get_elem? (set xs i b) i ≡ some b
get_elem?-set_there [] i a b h = ground arith
get_elem?-set_there (x ∷ xs) zero a b h = refl
get_elem?-set_there (x ∷ xs) (suc i) a b h = get_elem?-set_there xs i a b h

pub get_elem?-set_other {ℓ} :
    {A : Type ℓ} (xs : List A) (i j : ℕ) (b : A)
    → (i == j) ≡ false
    → get_elem? (set xs i b) j ≡ get_elem? xs j
get_elem?-set_other [] i j b h = refl
get_elem?-set_other (x ∷ xs) zero zero b h = ground arith
get_elem?-set_other (x ∷ xs) zero (suc j) b h = refl
get_elem?-set_other (x ∷ xs) (suc i) zero b h = refl
get_elem?-set_other (x ∷ xs) (suc i) (suc j) b h =
    get_elem?-set_other xs i j b (ground (arith, ==_iff i j, ==_iff (suc i) (suc j)))

pub get_elem?-map {ℓ κ} :
    {A : Type ℓ} {B : Type κ} (f : A → B) (xs : List A) (i : ℕ) (a : A)
    → get_elem? xs i ≡ some a
    → get_elem? (map f xs) i ≡ some (f a)
get_elem?-map f [] i a h = ground arith
get_elem?-map f (x ∷ xs) zero a h =
    let same : x ≡ a = (let e = h in cc) in ap (λ y. some (f y)) same
get_elem?-map f (x ∷ xs) (suc i) a h = get_elem?-map f xs i a h

-- The results for each element, one after the other, as a loop extends a list.
abbrev pub concat_map {ℓ κ} : {A : Type ℓ} {B : Type κ} → (A → List B) → List A → List B
concat_map f [] = []
concat_map f (x ∷ xs) = f x ++ concat_map f xs

pub concat_map-same {ℓ κ} :
    {A : Type ℓ} {B : Type κ} (f g : A → List B) (xs : List A)
    → ((a : A) → f a ≡ g a)
    → concat_map f xs ≡ concat_map g xs
concat_map-same f g [] h = refl
concat_map-same f g (x ∷ xs) h = rw (h x, concat_map-same f g xs h) refl

pub All-concat_map {ℓ κ μ} :
    {A : Type ℓ} {B : Type κ} (P : B → Type μ) (f : A → List B) (xs : List A)
    → ((a : A) → All P (f a))
    → All P (concat_map f xs)
All-concat_map P f [] h = tt
All-concat_map P f (x ∷ xs) h = All-append P (f x) (concat_map f xs) (h x) (All-concat_map P f xs h)

-- `x in xs`
abbrev pub mem : ℕ → List ℕ → Bool
mem a [] = false
mem a (x ∷ xs) = x == a || mem a xs

-- No number twice.
abbrev pub distinct : List ℕ → Bool
distinct [] = true
distinct (x ∷ xs) = not (mem x xs) && distinct xs

pub mem-All {κ} : (P : ℕ → Type κ) (a : ℕ) (xs : List ℕ) → mem a xs ≡ true → All P xs → P a
mem-All P a [] h p = ground arith
mem-All P a (x ∷ xs) h (p, ps) = elim (Bool-cases (x == a)) [
  | inl same ↦ subst P ((==_iff x a).0 same) p
  | inr other ↦ mem-All P a xs (rw other at h) ps
]

abbrev without : ℕ → List ℕ → List ℕ
without a [] = []
without a (x ∷ xs) = let rest = without a xs in if x == a then rest else x ∷ rest

mem-without : (a b : ℕ) (xs : List ℕ) → mem b xs ≡ false → mem b (without a xs) ≡ false
mem-without a b [] h = refl
mem-without a b (x ∷ xs) h = ground (arith, mem-without a b xs)

without-absent : (a : ℕ) (xs : List ℕ) → mem a xs ≡ false → without a xs ≡ xs
without-absent a [] h = refl
without-absent a (x ∷ xs) h = ground (arith, without-absent a xs)

distinct-without : (a : ℕ) (xs : List ℕ) → distinct xs ≡ true → distinct (without a xs) ≡ true
distinct-without a [] h = refl
distinct-without a (x ∷ xs) h = ground (arith, distinct-without a xs, mem-without a x xs)

length-without : (a : ℕ) (xs : List ℕ) → distinct xs ≡ true → length xs ≤ length (without a xs) + 1
length-without a [] h = omega arith
length-without a (x ∷ xs) h = ground (arith, length-without a xs, without-absent a xs, ==_iff x a)

without-below : (m : ℕ) (xs : List ℕ) → All (λ x. x < suc m) xs → All (λ x. x < m) (without m xs)
without-below m [] h = tt
without-below m (x ∷ xs) (h, hs) = ground (arith, without-below m xs hs)

-- Distinct numbers below `m` are at most `m`.
pub length-distinct :
    (m : ℕ) (xs : List ℕ) → distinct xs ≡ true → All (λ x. x < m) xs → length xs ≤ m
length-distinct zero [] d h = omega arith
length-distinct zero (x ∷ xs) d h = omega arith
length-distinct (suc m) xs d h = omega (
  arith,
  length-without m xs d,
  length-distinct m (without m xs) (distinct-without m xs d) (without-below m xs h),
)
