-- ===== src/PerfEval/Args/Kept.antt =====
-- The arguments that `apply_override_args` of llm-perf-eval.py prints: those that its index names, and
-- those of the command that a later option of the command has taken out of the index.
use dev_llmops.Prelude.{
  get_elem?-set_other, ℕ, zero, suc, String, ◌≡◌, refl, sym, ◌∙◌, ap, subst, ◌⊎◌, inl, inr, Option,
  none, some, List, [], ◌∷◌, ◌++◌, length, set, get_elem?, ◌==◌, ==_iff, arith, Bool-cases,
  Option-cases,
}
use dev_llmops.Prelude.Dict.{get, put, remove, str_eq, eq_iff, get-put, get-remove}
use dev_llmops.PerfEval.Args.{Arg, Args, append_arg, delete_arg, set_arg, lstrip_dash}
use dev_llmops.PerfEval.Args.Settings.{IsIndexed, get_elem?-set}

-- An argument of the command at an index, which the index of the command does not name.
abbrev pub Shadowed : Args → ℕ → Arg → Type 0
Shadowed a0 i x =
    (get_elem? a0.args i ≡ some (some x)) × (get (lstrip_dash x.0) a0.key_map ≡ some i → ⊥)

-- Each argument that is there is named by the index, or was shadowed in the command.
abbrev pub AreKept : Args → Args → Type 0
AreKept a0 a =
    (i : ℕ) (x : Arg)
    → get_elem? a.args i ≡ some (some x)
    → (get (lstrip_dash x.0) a.key_map ≡ some i) ⊎ Shadowed a0 i x

append-cases :
    (xs : List (Option Arg)) (y : Option Arg) (i : ℕ) (z : Option Arg)
    → get_elem? (xs ++ y ∷ []) i ≡ some z
    → (get_elem? xs i ≡ some z) ⊎ ((i ≡ length xs) × (y ≡ z))
append-cases [] y zero z e = inr (refl, some_inj e)
  where
    some_inj : Path (Option (Option Arg)) (some y) (some z) → y ≡ z
    some_inj q = cc
append-cases [] y (suc i) z e = absurd (ground arith)
append-cases (x ∷ xs) y zero z e = inl e
append-cases (x ∷ xs) y (suc i) z e = elim (append-cases xs y i z e) [
  | inl old ↦ inl old
  | inr (at, same) ↦ inr (ap suc at, same)
]

some_arg : (x y : Arg) → Path (Option Arg) (some x) (some y) → x ≡ y
some_arg x y e = cc

some_index : (m n : ℕ) → Path (Option ℕ) (some m) (some n) → m ≡ n
some_index m n e = ground arith

pub read-AreKept : (a0 : Args) → AreKept a0 a0
read-AreKept a0 i x e = elim (Option-cases (get (lstrip_dash x.0) a0.key_map)) [
  | inl missing ↦ inr (e, λ named. clash (sym missing ∙ named))
  | inr (m, found) ↦ elim (Bool-cases (m == i)) [
    | inl same ↦ inl (found ∙ ap some ((==_iff m i).0 same))
    | inr other ↦ inr (
      e,
      λ named.
          let at : m ≡ i = some_index m i (sym found ∙ named) in
          let yes = (==_iff m i).1 at in ground arith,
    )
  ]
]
  where
    clash : Path (Option ℕ) none (some i) → ⊥
    clash q = ground arith

append_arg-AreKept :
    (a0 a : Args) (k : String) (x : Arg)
    → lstrip_dash x.0 ≡ k
    → get k a.key_map ≡ none
    → AreKept a0 a
    → AreKept a0 (append_arg k x a)
unfolding append_arg
append_arg-AreKept a0 a k x own missing h i y e = elim (append-cases a.args (some x) i (some y) e) [
  | inr (at, same) ↦
      let key : lstrip_dash y.0 ≡ k = ap (λ z. lstrip_dash z.0) (sym (some_arg x y same)) ∙ own in
      inl (
        subst (λ j. get j (put k (length a.args) a.key_map) ≡ some i) (sym key)
          (get-put k k (length a.args) a.key_map ∙ rw ((eq_iff k k).1 refl) (ap some (sym at))))
  | inl old ↦ elim (h i y old) [
    | inr shadowed ↦ inr shadowed
    | inl named ↦ elim (Bool-cases (str_eq k (lstrip_dash y.0))) [
      | inl same ↦
          let key : k ≡ lstrip_dash y.0 = (eq_iff k (lstrip_dash y.0)).0 same in
          absurd (clash i (sym missing ∙ ap (λ j. get j a.key_map) key ∙ named))
      | inr other ↦ inl (get-put k (lstrip_dash y.0) (length a.args) a.key_map ∙ rw other named)
    ]
  ]
]
  where
    clash : (n : ℕ) → Path (Option ℕ) none (some n) → ⊥
    clash n q = ground arith

set_at-AreKept :
    (a0 a : Args) (k : String) (x : Arg) (m : ℕ)
    → lstrip_dash x.0 ≡ k
    → get k a.key_map ≡ some m
    → IsIndexed a
    → AreKept a0 a
    → AreKept a0 (record a { args = set a.args m (some x) })
set_at-AreKept a0 a k x m own found w h i y e = elim (Bool-cases (m == i)) [
  | inl same ↦
      let at : i ≡ m = sym ((==_iff m i).0 same) in
      let there : get_elem? (set a.args m (some x)) m ≡ some (some x) =
        get_elem?-set k a.args m (some x) (w k m found) in
      let here : get_elem? (set a.args m (some x)) m ≡ some (some y) =
        subst (λ n. get_elem? (set a.args m (some x)) n ≡ some (some y)) at e in
      let key : lstrip_dash y.0 ≡ k =
        ap (λ z. lstrip_dash z.0) (sym (inner (sym there ∙ here))) ∙ own in
      inl (ap (λ j. get j a.key_map) key ∙ found ∙ ap some (sym at))
  | inr other ↦ h i y (sym (get_elem?-set_other a.args m i (some x) other) ∙ e)
]
  where
    inner : Path (Option (Option Arg)) (some (some x)) (some (some y)) → x ≡ y
    inner q = cc

pub set_arg-AreKept :
    (a0 a : Args) (tok : String) (v : Option String)
    → IsIndexed a
    → AreKept a0 a
    → AreKept a0 (set_arg tok v a)
unfolding set_arg
set_arg-AreKept a0 a tok v w h = elim (Option-cases (get (lstrip_dash tok) a.key_map)) [
  | inl missing ↦
      rw (missing, set_arg) (append_arg-AreKept a0 a (lstrip_dash tok) (tok, v) refl missing h)
  | inr (m, found) ↦
      rw (found, set_arg) (set_at-AreKept a0 a (lstrip_dash tok) (tok, v) m refl found w h)
]

delete_at-AreKept :
    (a0 a : Args) (k : String) (m : ℕ)
    → get k a.key_map ≡ some m
    → IsIndexed a
    → AreKept a0 a
    → AreKept a0 (record a { args = set a.args m none; key_map = remove k a.key_map })
delete_at-AreKept a0 a k m found w h i y e = elim (Bool-cases (m == i)) [
  | inl same ↦
      let at : i ≡ m = sym ((==_iff m i).0 same) in
      let there : get_elem? (set a.args m none) m ≡ some none =
        get_elem?-set k a.args m none (w k m found) in
      absurd (gone (sym there ∙ subst (λ n. get_elem? (set a.args m none) n ≡ some (some y)) at e))
  | inr other ↦ elim (h i y (sym (get_elem?-set_other a.args m i none other) ∙ e)) [
    | inr shadowed ↦ inr shadowed
    | inl named ↦ elim (Bool-cases (str_eq k (lstrip_dash y.0))) [
      | inr apart ↦ inl (get-remove k (lstrip_dash y.0) a.key_map ∙ rw apart named)
      | inl same ↦
          let key : k ≡ lstrip_dash y.0 = (eq_iff k (lstrip_dash y.0)).0 same in
          let at : m ≡ i = some_index m i (sym found ∙ ap (λ j. get j a.key_map) key ∙ named) in
          let yes = (==_iff m i).1 at in absurd (ground arith)
    ]
  ]
]
  where
    gone : Path (Option (Option Arg)) (some none) (some (some y)) → ⊥
    gone q = ground arith

pub delete_arg-AreKept :
    (a0 a : Args) (k : String) → IsIndexed a → AreKept a0 a → AreKept a0 (delete_arg k a)
unfolding delete_arg
delete_arg-AreKept a0 a k w h = elim (Option-cases (get k a.key_map)) [
  | inl missing ↦ rw (missing, delete_arg) h
  | inr (m, found) ↦ rw (found, delete_arg) (delete_at-AreKept a0 a k m found w h)
]
