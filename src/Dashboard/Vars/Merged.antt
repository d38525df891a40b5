-- ===== src/Dashboard/Vars/Merged.antt =====
-- What `merge_template_vars` of merge-dashboards.py keeps.
use dev_llmops.Prelude.{
  String, ◌≡◌, refl, sym, subst, ◌∙◌, ap, Bool, true, false, not, ◌&&◌, Option, none, some, List,
  [], ◌∷◌, ◌++◌, arith, if◌then◌else◌, inl, inr, Bool-cases,
}
use dev_llmops.Prelude.Dict.{str_eq, eq_iff}
use dev_llmops.Dashboard.Vars.{Var, has_name, merge_one, merge_from, merge_template_vars}

-- The first variable of a name.
abbrev pub first_named : String → List Var → Option Var
first_named k [] = none
first_named k (v ∷ vs) = let rest = first_named k vs in if str_eq v.name k then some v else rest

abbrev pub or_else : Option Var → Option Var → Option Var
or_else (some v) b = some v
or_else none b = b

abbrev pub is_some : Option Var → Bool
is_some (some v) = true
is_some none = false

-- No name twice.
abbrev pub unique_names : List Var → Bool
unique_names [] = true
unique_names (v ∷ vs) = not (is_some (first_named v.name vs)) && unique_names vs

abbrev pub concat : List (List Var) → List Var
concat [] = []
concat (vs ∷ rest) = vs ++ concat rest

first_named-append :
    (k : String) (xs ys : List Var)
    → first_named k (xs ++ ys) ≡ or_else (first_named k xs) (first_named k ys)
first_named-append k [] ys = refl
first_named-append k (x ∷ xs) ys = ground (arith, first_named-append k xs ys)

or_else_assoc : (a b c : Option Var) → or_else (or_else a b) c ≡ or_else a (or_else b c)
or_else_assoc (some v) b c = refl
or_else_assoc none b c = refl

unique-append :
    (v : Var) (xs : List Var)
    → unique_names xs ≡ true
    → is_some (first_named v.name xs) ≡ false
    → unique_names (xs ++ v ∷ []) ≡ true
unique-append v [] u h = refl
unique-append v (x ∷ xs) u h = ground (
  arith,
  eq_iff x.name v.name,
  eq_iff v.name x.name,
  first_named-append x.name xs (v ∷ []),
  unique-append v xs,
)

-- The names seen are those of the variables merged.
abbrev Tracks : List String → List Var → Type 0
Tracks seen merged = (k : String) → has_name k seen ≡ is_some (first_named k merged)

Tracks-add :
    (v : Var) (seen : List String) (merged : List Var)
    → Tracks seen merged
    → Tracks (v.name ∷ seen) (merged ++ v ∷ [])
unfolding has_name
Tracks-add v seen merged h k = ground (arith, h k, first_named-append k merged (v ∷ []))

abbrev Extends : List String × List Var → List Var → List Var → Type 0
Extends (seen', merged') merged vs =
    Tracks seen' merged'
    × (unique_names merged' ≡ true)
    × ((k : String) → first_named k merged' ≡ or_else (first_named k merged) (first_named k vs))

or_else-none : (a : Option Var) → or_else a none ≡ a
or_else-none (some v) = refl
or_else-none none = refl

or_else_some : (a b c : Option Var) → is_some a ≡ true → or_else a b ≡ or_else a c
or_else_some (some v) b c h = refl
or_else_some none b c h = ground arith

-- A variable that is seen adds nothing to what is found.
skip_seen :
    (k : String) (v : Var) (merged vs : List Var)
    → is_some (first_named v.name merged) ≡ true
    → or_else (first_named k merged) (first_named k vs)
      ≡ or_else (first_named k merged) (first_named k (v ∷ vs))
skip_seen k v merged vs h = elim (Bool-cases (str_eq v.name k)) [
  | inl same ↦
      let there : is_some (first_named k merged) ≡ true =
        subst (λ n. is_some (first_named n merged) ≡ true) ((eq_iff v.name k).0 same) h in
      or_else_some (first_named k merged) _ _ there
  | inr other ↦ rw other refl
]

merge_one-Extends :
    (vs : List Var) (seen : List String) (merged : List Var)
    → Tracks seen merged
    → unique_names merged ≡ true
    → Extends (merge_one vs seen merged) merged vs
unfolding merge_one
merge_one-Extends [] seen merged t u = (t, u, λ k. sym (or_else-none _))
merge_one-Extends (v ∷ vs) seen merged t u = elim (Bool-cases (has_name v.name seen)) [
  | inl here ↦
      let (t', u', found) = merge_one-Extends vs seen merged t u in
      rw here (t', u', λ k. found k ∙ skip_seen k v merged vs (sym (t v.name) ∙ here))
  | inr new ↦
      let absent : is_some (first_named v.name merged) ≡ false = sym (t v.name) ∙ new in
      let (t', u', found) =
        merge_one-Extends vs (v.name ∷ seen) (merged ++ v ∷ []) (Tracks-add v seen merged t)
          (unique-append v merged u absent) in
      rw new (
        t',
        u',
        λ k.
            found k
            ∙ ap (λ o. or_else o (first_named k vs)) (first_named-append k merged (v ∷ []))
            ∙ or_else_assoc (first_named k merged) (first_named k (v ∷ [])) (first_named k vs)
            ∙ ap (or_else (first_named k merged)) (sym (first_named-append k (v ∷ []) vs)),
      )
]

merge_from_lem :
    (lists : List (List Var)) (seen : List String) (merged : List Var)
    → Tracks seen merged
    → unique_names merged ≡ true
    → (unique_names (merge_from lists seen merged) ≡ true)
      × ((k : String)
          → first_named k (merge_from lists seen merged)
            ≡ or_else (first_named k merged) (first_named k (concat lists)))
unfolding merge_from
merge_from_lem [] seen merged t u = (u, λ k. sym (or_else-none _))
merge_from_lem (vs ∷ rest) seen merged t u =
    let (t', u', found) = merge_one-Extends vs seen merged t u in
    let (u'', found') =
      merge_from_lem rest (merge_one vs seen merged).0 (merge_one vs seen merged).1 t' u' in
    (
      u'',
      λ k.
          found' k
          ∙ ap (λ o. or_else o (first_named k (concat rest))) (found k)
          ∙ or_else_assoc (first_named k merged) (first_named k vs) (first_named k (concat rest))
          ∙ ap (or_else (first_named k merged)) (sym (first_named-append k vs (concat rest))),
    )

-- Whatever the lists of template variables, the merged list has no name twice, and for every name it
-- holds exactly the first variable of that name over all lists, or none where no list has one.
pub merge_template_vars-first :
    (lists : List (List Var))
    → (unique_names (merge_template_vars lists) ≡ true)
      × ((k : String) → first_named k (merge_template_vars lists) ≡ first_named k (concat lists))
unfolding merge_template_vars has_name
merge_template_vars-first lists = merge_from_lem lists [] [] (λ k. refl) refl
