-- ===== src/PerfEval/Args/Settings.antt =====
-- The arguments of `apply_override_args` in llm-perf-eval.py, seen as a map from keys to values.
use dev_llmops.Prelude.{
  ℕ, zero, suc, String, ◌≡◌, refl, sym, ◌∙◌, ap, subst, false, Option, none, some, List, [], ◌∷◌,
  ◌++◌, if◌then◌else◌, length, set, get_elem?, ◌==◌, ==_iff, arith, inl, inr, Bool-cases,
  Option-cases,
}
use dev_llmops.Prelude.Dict.{get, str_eq, eq_iff}
use dev_llmops.PerfEval.Args.{Arg, Args, lstrip_dash}

-- What the command gives a key: nothing, a flag, or a value.
abbrev pub Settings : Type 0
Settings = String → Option (Option String)

abbrev pub value_of : Option (Option Arg) → Option (Option String)
value_of none = none
value_of (some none) = none
value_of (some (some (tok, v))) = some v

abbrev pub slot : List (Option Arg) → Option ℕ → Option (Option String)
slot args none = none
slot args (some i) = value_of (get_elem? args i)

-- The argument that `args_key_map` names for a key.
abbrev pub view : Args → Settings
view a k = slot a.args (get k a.key_map)

-- Every index of the map is that of an argument that is there and has the map's key.
abbrev pub Names : String → Option (Option Arg) → Type 0
Names k none = ⊥
Names k (some none) = ⊥
Names k (some (some (tok, v))) = lstrip_dash tok ≡ k

abbrev pub IsIndexed : Args → Type 0
IsIndexed a = (k : String) (i : ℕ) → get k a.key_map ≡ some i → Names k (get_elem? a.args i)

pub get_elem?-append :
    (k : String) (xs ys : List (Option Arg)) (i : ℕ)
    → Names k (get_elem? xs i)
    → get_elem? (xs ++ ys) i ≡ get_elem? xs i
get_elem?-append k [] ys i h = absurd h
get_elem?-append k (x ∷ xs) ys zero h = refl
get_elem?-append k (x ∷ xs) ys (suc i) h = get_elem?-append k xs ys i h

pub get_elem?-last :
    (xs : List (Option Arg)) (x : Option Arg) → get_elem? (xs ++ x ∷ []) (length xs) ≡ some x
get_elem?-last [] x = refl
get_elem?-last (y ∷ xs) x = get_elem?-last xs x

pub get_elem?-set :
    (k : String) (xs : List (Option Arg)) (i : ℕ) (x : Option Arg)
    → Names k (get_elem? xs i)
    → get_elem? (set xs i x) i ≡ some x
get_elem?-set k [] i x h = absurd h
get_elem?-set k (y ∷ xs) zero x h = refl
get_elem?-set k (y ∷ xs) (suc i) x h = get_elem?-set k xs i x h

Names-unique : (j k : String) (o : Option (Option Arg)) → Names j o → Names k o → j ≡ k
Names-unique j k none h g = absurd h
Names-unique j k (some none) h g = absurd h
Names-unique j k (some (some (tok, v))) h g = sym h ∙ g

-- Another key has another index.
pub other_index :
    (a : Args) (j k : String) (m i : ℕ)
    → IsIndexed a
    → get j a.key_map ≡ some m
    → get k a.key_map ≡ some i
    → str_eq k j ≡ false
    → (i == m) ≡ false
other_index a j k m i w ej ek h = elim (Bool-cases (i == m)) [
  | inl same ↦
      let ej' : get j a.key_map ≡ some i = ej ∙ ap some (sym ((==_iff i m).0 same)) in
      ground (arith, eq_iff k j, Names-unique k j (get_elem? a.args i) (w k i ek) (w j i ej'))
  | inr other ↦ other
]

abbrev pub updated : String → Option (Option String) → Settings → Settings
updated k v f j = if str_eq k j then v else f j

-- The arguments stay indexed, and the settings are those of `f`.
abbrev pub Shows : Args → Settings → Type 0
Shows a f = IsIndexed a × ((k : String) → view a k ≡ f k)

-- A change that gives `k` the slot `x`, and leaves what the other keys have.
abbrev pub Puts : String → Arg → Args → Args → Type 0
Puts k x a b =
    ((i : ℕ) → get k b.key_map ≡ some i → get_elem? b.args i ≡ some (some x))
    × ((get k b.key_map ≡ none) → ⊥)
    × ((j : String) (i : ℕ)
        → str_eq k j ≡ false
        → get j b.key_map ≡ some i
        → (get j a.key_map ≡ some i) × (get_elem? b.args i ≡ get_elem? a.args i))
    × ((j : String) → str_eq k j ≡ false → get j b.key_map ≡ get j a.key_map)

slot_at :
    (xs : List (Option Arg)) (o : Option ℕ) (i : ℕ)
    → o ≡ some i
    → slot xs o ≡ value_of (get_elem? xs i)
slot_at xs o i e = rw e refl

pub view_at :
    (a : Args) (k : String) (i : ℕ)
    → get k a.key_map ≡ some i
    → view a k ≡ value_of (get_elem? a.args i)
view_at a k i e = slot_at a.args (get k a.key_map) i e

pub view-none : (a : Args) (k : String) → get k a.key_map ≡ none → view a k ≡ none
view-none a k e = rw e refl

pub Puts-Shows :
    (k tok : String) (v : Option String) (a b : Args) (f : Settings)
    → lstrip_dash tok ≡ k
    → Puts k (tok, v) a b
    → Shows a f
    → Shows b (updated k (some v) f)
Puts-Shows k tok v a b f e (here, there, at, others) (w, s) = (λ j i g. indexed j i g, λ j. shown j)
  where
    indexed : (j : String) (i : ℕ) → get j b.key_map ≡ some i → Names j (get_elem? b.args i)
    indexed j i g = elim (Bool-cases (str_eq k j)) [
      | inl same ↦
          let kj : k ≡ j = (eq_iff k j).0 same in
          subst (Names j) (sym (here i (subst (λ l. get l b.key_map ≡ some i) (sym kj) g))) (e ∙ kj)
      | inr other ↦ let (g', slot') = at j i other g in subst (Names j) (sym slot') (w j i g')
    ]

    shown : (j : String) → view b j ≡ updated k (some v) f j
    shown j = elim (Bool-cases (str_eq k j)) [
      | inl same ↦
          let kj : k ≡ j = (eq_iff k j).0 same in
          subst (λ l. view b l ≡ updated k (some v) f l) kj own
      | inr other ↦ elim (Option-cases (get j b.key_map)) [
        | inl missing ↦
            rw other
              (view-none b j missing ∙ sym (view-none a j (sym (others j other) ∙ missing)) ∙ s j)
        | inr (i, g) ↦
            let (g', slot') = at j i other g in
            rw other (view_at b j i g ∙ ap value_of slot' ∙ sym (view_at a j i g') ∙ s j)
      ]
    ]
      where
        own : view b k ≡ updated k (some v) f k
        own = elim (Option-cases (get k b.key_map)) [
          | inl missing ↦ absurd (there missing)
          | inr (i, g) ↦ rw ((eq_iff k k).1 refl) (view_at b k i g ∙ ap value_of (here i g))
        ]
